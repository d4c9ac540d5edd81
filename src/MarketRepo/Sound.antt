-- ===== src/MarketRepo/Sound.antt =====
-- Every method of market_repo.py keeps the constraints of the tables, whether it returns or
-- raises.
use aomarket_bot.Prelude.{
  ℕ, String, ◌≡◌, refl, inl, inr, Bool, true, false, Option, List, [], ◌∷◌, ◌++◌, All-append,
  Bool-cases, arith, if◌then◌else◌,
}
use aomarket_bot.Prelude.Int.{ℤ, pos, negsuc}
use aomarket_bot.Prelude.Table.{
  any, delete, any-append_left, any-update, update, Unique-select, Unique-append, Unique-update,
  All-select, All-update,
}
use aomarket_bot.Db.{
  Db, MarketWatch, MarketSubscription, MarketSeenOrder, is_user, is_watch, is_subscription, is_seen,
  has_user, has_watch,
}
use aomarket_bot.Db.Integrity.{
  IsSound, IsLinkedSub, IsLinkedHistory, users-IsSound, watches-IsSound, subscriptions-IsSound,
  history-IsSound, seen-IsSound, delete_users-IsSound, delete_watches-IsSound,
}
use aomarket_bot.Exec.{World, modify, ◌>>=◌}
use aomarket_bot.Exec.Keeps.{Keeps, keeps_rules, Keeps-bind, Keeps-pure, Keeps-for_each}
use aomarket_bot.MarketRepo.Users.{
  get_user, is_registered, register, add_user, new_user, drop_player_rows, unregister_cascade,
  log_action, user_action_summary, user_action_breakdown,
}
use aomarket_bot.MarketRepo.Watches.{
  get_watch, put_watch, refresh_watch, new_watch, upsert_watch, delete_watch, count_watch,
  clear_watch, list_watch, expire_stale_watch, due_for_poll, update_last_polled,
  unflag_autotrack_not_in, existing_aoids, Snapshot, insert_snapshot, prune_history,
}
use aomarket_bot.MarketRepo.Subscriptions.{
  get_subscription, count_subscriptions, add_subscription, delete_subscription,
  delete_subscriptions_bulk, delete_all_subscriptions, list_subscriptions, set_filter,
  update_price_filter, update_ql_filter, clear_filter, subscribers_for_aoid, put_subscription,
  new_subscription, accepts_subscription,
}
use aomarket_bot.MarketRepo.Alerts.{
  get_seen_fingerprints, replace_seen_fingerprints, queue_pending_alert, pop_pending_alerts,
  add_seen, new_seen,
}

abbrev pub SoundWorld : World → Type 0
SoundWorld w = IsSound w.db

pub modify-Sound :
    (f : Db → Db) → ((db : Db) → IsSound db → IsSound (f db)) → Keeps SoundWorld (modify f)
unfolding ◌>>=◌
modify-Sound f keep = record { run = λ w h. keep w.db h }

-- A write of columns that are no key.
rewatch-IsSound :
    (q : MarketWatch → Bool) (f : MarketWatch → MarketWatch)
    → ((a : ℕ) (w : MarketWatch) → is_watch a (f w) ≡ is_watch a w)
    → ((w v : MarketWatch) → is_watch (f v).aoid w ≡ is_watch v.aoid w)
    → (db : Db) → IsSound db
    → IsSound (record db { watches = update q f db.watches })
rewatch-IsSound q f same same' db h =
    watches-IsSound db (update q f db.watches)
      (Unique-update _ q f db.watches (λ w v. same v.aoid w) same' h.watches_once)
      (λ a here. rw (any-update (is_watch a) q f db.watches (same a)) here) h

refilter-IsSound :
    (player : String) (aoid : ℕ) (f : MarketSubscription → MarketSubscription)
    → ((s t : MarketSubscription)
        → is_subscription t.player t.aoid (f s) ≡ is_subscription t.player t.aoid s)
    → ((s t : MarketSubscription)
        → is_subscription (f t).player (f t).aoid s ≡ is_subscription t.player t.aoid s)
    → ((db : Db) (s : MarketSubscription)
        → IsLinkedSub db.users db.watches s
        → IsLinkedSub db.users db.watches (f s))
    → (db : Db) → IsSound db
    → IsSound (set_filter player aoid f db)
refilter-IsSound player aoid f same same' linked db h =
    subscriptions-IsSound db (update (is_subscription player aoid) f db.subscriptions)
      (Unique-update _ _ f db.subscriptions same same' h.subscriptions_once)
      (All-update _ _ f db.subscriptions (linked db) h.subscriptions_linked) h

module _ (player : String) where
  pub is_registered-Sound : Keeps SoundWorld (is_registered player)
  unfolding is_registered
  is_registered-Sound = record { run = λ w h. h }

  pub get_user-Sound : Keeps SoundWorld (get_user player)
  unfolding get_user
  get_user-Sound = record { run = λ w h. h }

  add_user-IsSound :
      (now : ℤ) (db : Db)
      → has_user db player ≡ false
      → IsSound db
      → IsSound (add_user player now db)
  add_user-IsSound now db free h =
      users-IsSound db (db.users ++ new_user player now ∷ [])
        (Unique-append _ (new_user player now) db.users free h.users_once)
        (λ p here. any-append_left (is_user p) db.users _ here) h

  pub register-Sound : Keeps SoundWorld (register player)
  unfolding register ◌>>=◌
  register-Sound = record {
    run = λ w h. elim (Bool-cases (has_user w.db player)) [
      | inl taken ↦ rw taken h
      | inr free ↦ rw free (add_user-IsSound w.now w.db free h)
    ];
  }

  drop_player_rows-IsSound : (db : Db) → IsSound db → IsSound (drop_player_rows player db)
  drop_player_rows-IsSound db h =
      subscriptions-IsSound db _ (Unique-select _ _ _ h.subscriptions_once)
        (All-select _ _ _ h.subscriptions_linked) h

  pub unregister_cascade-Sound : Keeps SoundWorld (unregister_cascade player)
  unfolding unregister_cascade ◌>>=◌
  unregister_cascade-Sound = record {
    run = λ w h.
        delete_users-IsSound _ (drop_player_rows player w.db) (drop_player_rows-IsSound w.db h);
  }

  pub log_action-Sound :
      (action : String) (aoid : Option ℕ) → Keeps SoundWorld (log_action player action aoid)
  unfolding log_action
  log_action-Sound action aoid = record { run = λ w h. h }

  pub user_action_summary-Sound : Keeps SoundWorld (user_action_summary player)
  unfolding user_action_summary
  user_action_summary-Sound = record { run = λ w h. h }

  pub user_action_breakdown-Sound : Keeps SoundWorld (user_action_breakdown player)
  unfolding user_action_breakdown
  user_action_breakdown-Sound = record { run = λ w h. h }

put_watch-IsSound :
    (aoid : ℕ) (name : String) (ql : ℕ) (icon : Option ℕ) (auto : Bool) (now : ℤ) (db : Db)
    → IsSound db
    → IsSound (put_watch aoid name ql icon auto now db)
put_watch-IsSound aoid name ql icon auto now db h = elim (Bool-cases (has_watch db aoid)) [
  | inl here ↦ rw here (
      rewatch-IsSound (is_watch aoid) (refresh_watch name ql icon auto) (λ a w. refl) (λ w v. refl)
        db h)
  | inr new ↦ rw new (
      watches-IsSound db (db.watches ++ new_watch aoid name ql icon auto now ∷ [])
        (Unique-append _ (new_watch aoid name ql icon auto now) db.watches new h.watches_once)
        (λ a there. any-append_left (is_watch a) db.watches _ there) h)
]

pub upsert_watch-Sound :
    (aoid : ℕ) (name : String) (ql : ℕ) (icon : Option ℕ) (auto : Bool)
    → Keeps SoundWorld (upsert_watch aoid name ql icon auto)
unfolding upsert_watch
upsert_watch-Sound aoid name ql icon auto = record {
  run = λ w h. put_watch-IsSound aoid name ql icon auto w.now w.db h;
}

module _ (aoid : ℕ) where
  pub get_watch-Sound : Keeps SoundWorld (get_watch aoid)
  unfolding get_watch
  get_watch-Sound = record { run = λ w h. h }

  pub delete_watch-Sound : Keeps SoundWorld (delete_watch aoid)
  unfolding delete_watch ◌>>=◌
  delete_watch-Sound = record { run = λ w h. delete_watches-IsSound _ w.db h }

  pub update_last_polled-Sound : (ts : ℤ) → Keeps SoundWorld (update_last_polled aoid ts)
  unfolding update_last_polled
  update_last_polled-Sound ts = modify-Sound _ (rewatch-IsSound _ _ (λ a w. refl) (λ w v. refl))

  pub insert_snapshot-Sound : (s : Snapshot) → Keeps SoundWorld (insert_snapshot aoid s)
  unfolding insert_snapshot ◌>>=◌
  insert_snapshot-Sound s = record {
    run = λ w h. elim (Bool-cases (has_watch w.db aoid)) [
      | inl here ↦ rw here (
          history-IsSound w.db _
            (All-append (IsLinkedHistory w.db.watches) w.db.history _ h.history_linked (here, tt))
            h)
      | inr gone ↦ rw gone h
    ];
  }

  pub get_seen_fingerprints-Sound : Keeps SoundWorld (get_seen_fingerprints aoid)
  unfolding get_seen_fingerprints
  get_seen_fingerprints-Sound = record { run = λ w h. h }

  pub subscribers_for_aoid-Sound : Keeps SoundWorld (subscribers_for_aoid aoid)
  unfolding subscribers_for_aoid
  subscribers_for_aoid-Sound = record { run = λ w h. h }

pub count_watch-Sound : (auto : Option Bool) → Keeps SoundWorld (count_watch auto)
unfolding count_watch
count_watch-Sound auto = record { run = λ w h. h }

pub clear_watch-Sound : Keeps SoundWorld clear_watch
unfolding clear_watch ◌>>=◌
clear_watch-Sound = record { run = λ w h. delete_watches-IsSound (λ _. true) w.db h }

pub list_watch-Sound :
    (limit offset : ℕ) (auto : Option Bool) → Keeps SoundWorld (list_watch limit offset auto)
unfolding list_watch
list_watch-Sound limit offset auto = record { run = λ w h. h }

pub expire_stale_watch-Sound : (cutoff : ℤ) → Keeps SoundWorld (expire_stale_watch cutoff)
unfolding expire_stale_watch ◌>>=◌
expire_stale_watch-Sound cutoff = record { run = λ w h. delete_watches-IsSound _ w.db h }

pub due_for_poll-Sound : (cutoff batch : ℤ) → Keeps SoundWorld (due_for_poll cutoff batch)
unfolding due_for_poll
due_for_poll-Sound cutoff (pos n) = record { run = λ w h. h }
due_for_poll-Sound cutoff (negsuc n) = record { run = λ w h. h }

pub unflag_autotrack_not_in-Sound :
    (keep : List ℕ) → Keeps SoundWorld (unflag_autotrack_not_in keep)
unfolding unflag_autotrack_not_in
unflag_autotrack_not_in-Sound keep =
    modify-Sound _ (rewatch-IsSound _ _ (λ a w. refl) (λ w v. refl))

pub existing_aoids-Sound : (aoids : List ℕ) → Keeps SoundWorld (existing_aoids aoids)
unfolding existing_aoids
existing_aoids-Sound aoids = record { run = λ w h. h }

pub prune_history-Sound : (cutoff : ℤ) → Keeps SoundWorld (prune_history cutoff)
unfolding prune_history
prune_history-Sound cutoff =
    modify-Sound _ (λ db h. history-IsSound db _ (All-select _ _ _ h.history_linked) h)

add_seen-IsSound : (aoid : ℕ) (fp : String) (db : Db) → IsSound db → IsSound (add_seen aoid fp db)
add_seen-IsSound aoid fp db h = elim (Bool-cases (any (is_seen aoid fp) db.seen_orders)) [
  | inl here ↦ rw here h
  | inr new ↦
      rw new
        (seen-IsSound db _ (Unique-append _ (new_seen aoid fp) db.seen_orders new h.seen_once) h)
]

add_seen-Sound : (aoid : ℕ) (fp : String) → Keeps SoundWorld (modify (add_seen aoid fp))
add_seen-Sound aoid fp = modify-Sound _ (add_seen-IsSound aoid fp)

drop_seen-Sound :
    (p : MarketSeenOrder → Bool)
    → Keeps SoundWorld (modify (λ db. record db { seen_orders = delete p db.seen_orders }))
drop_seen-Sound p = modify-Sound _ (λ db h. seen-IsSound db _ (Unique-select _ _ _ h.seen_once) h)

pub replace_seen_fingerprints-Sound :
    (aoid : ℕ) (fps : List String) → Keeps SoundWorld (replace_seen_fingerprints aoid fps)
unfolding replace_seen_fingerprints
replace_seen_fingerprints-Sound aoid fps =
    Keeps-bind _ _ (drop_seen-Sound _) (λ _. Keeps-for_each fps _ (add_seen-Sound aoid))

pub queue_pending_alert-Sound :
    (player : String) (aoid : ℕ) (message : String)
    → Keeps SoundWorld (queue_pending_alert player aoid message)
unfolding queue_pending_alert
queue_pending_alert-Sound player aoid message = record { run = λ w h. h }

pub pop_pending_alerts-Sound : (player : String) → Keeps SoundWorld (pop_pending_alerts player)
unfolding pop_pending_alerts
pop_pending_alerts-Sound player = record { run = λ w h. h }

module _ (player : String) (aoid : ℕ) where
  pub get_subscription-Sound : Keeps SoundWorld (get_subscription player aoid)
  unfolding get_subscription
  get_subscription-Sound = record { run = λ w h. h }

  accepted-IsSound :
      (now : ℤ) (db : Db)
      → accepts_subscription player aoid db ≡ true
      → IsSound db
      → IsSound (put_subscription now player aoid db)
  accepted-IsSound now db yes_ h =
      subscriptions-IsSound db _
        (Unique-append _ (new_subscription db.next_id now player aoid) db.subscriptions
          (ground arith) h.subscriptions_once)
        (All-append _ db.subscriptions _ h.subscriptions_linked ((ground arith, ground arith), tt))
        h

  pub add_subscription-Sound : Keeps SoundWorld (add_subscription player aoid)
  unfolding add_subscription ◌>>=◌
  add_subscription-Sound = record {
    run = λ w h. elim (Bool-cases (accepts_subscription player aoid w.db)) [
      | inl fits ↦ rw fits (accepted-IsSound w.now w.db fits h)
      | inr refused ↦ rw refused h
    ];
  }

  pub delete_subscription-Sound : Keeps SoundWorld (delete_subscription player aoid)
  unfolding delete_subscription ◌>>=◌
  delete_subscription-Sound = record {
    run = λ w h.
        subscriptions-IsSound w.db _ (Unique-select _ _ _ h.subscriptions_once)
          (All-select _ _ _ h.subscriptions_linked) h;
  }

  pub update_price_filter-Sound :
      (lo hi : Option ℕ) → Keeps SoundWorld (update_price_filter player aoid lo hi)
  unfolding update_price_filter
  update_price_filter-Sound lo hi =
      modify-Sound _ (refilter-IsSound player aoid _ (λ s t. refl) (λ s t. refl) (λ db s l. l))

  pub update_ql_filter-Sound :
      (lo hi : Option ℕ) → Keeps SoundWorld (update_ql_filter player aoid lo hi)
  unfolding update_ql_filter
  update_ql_filter-Sound lo hi =
      modify-Sound _ (refilter-IsSound player aoid _ (λ s t. refl) (λ s t. refl) (λ db s l. l))

  pub clear_filter-Sound : Keeps SoundWorld (clear_filter player aoid)
  unfolding clear_filter
  clear_filter-Sound =
      modify-Sound _ (refilter-IsSound player aoid _ (λ s t. refl) (λ s t. refl) (λ db s l. l))

pub delete_subscriptions_bulk-Sound :
    (player : String) (aoids : List ℕ) → Keeps SoundWorld (delete_subscriptions_bulk player aoids)
unfolding delete_subscriptions_bulk
delete_subscriptions_bulk-Sound player [] = search keeps_rules
delete_subscriptions_bulk-Sound player (a ∷ rest) =
    Keeps-bind _ _ (delete_subscription-Sound player a) (λ d.
      Keeps-bind _ _ (delete_subscriptions_bulk-Sound player rest)
        (λ r. Keeps-pure (if d then a ∷ r else r)))

module _ (player : String) where
  pub count_subscriptions-Sound : Keeps SoundWorld (count_subscriptions player)
  unfolding count_subscriptions
  count_subscriptions-Sound = record { run = λ w h. h }

  pub delete_all_subscriptions-Sound : Keeps SoundWorld (delete_all_subscriptions player)
  unfolding delete_all_subscriptions ◌>>=◌
  delete_all_subscriptions-Sound = record {
    run = λ w h.
        subscriptions-IsSound w.db _ (Unique-select _ _ _ h.subscriptions_once)
          (All-select _ _ _ h.subscriptions_linked) h;
  }

  pub list_subscriptions-Sound : Keeps SoundWorld (list_subscriptions player)
  unfolding list_subscriptions
  list_subscriptions-Sound = record { run = λ w h. h }

pub ruleset repo_sound = (
  keeps_rules, is_registered-Sound, get_user-Sound, register-Sound, unregister_cascade-Sound,
  log_action-Sound, user_action_summary-Sound, user_action_breakdown-Sound, upsert_watch-Sound,
  get_watch-Sound, delete_watch-Sound, update_last_polled-Sound, insert_snapshot-Sound,
  get_seen_fingerprints-Sound, subscribers_for_aoid-Sound, count_watch-Sound, clear_watch-Sound,
  list_watch-Sound, expire_stale_watch-Sound, due_for_poll-Sound, unflag_autotrack_not_in-Sound,
  existing_aoids-Sound, prune_history-Sound, replace_seen_fingerprints-Sound,
  queue_pending_alert-Sound, pop_pending_alerts-Sound, get_subscription-Sound,
  add_subscription-Sound, delete_subscription-Sound, update_price_filter-Sound,
  update_ql_filter-Sound, clear_filter-Sound, delete_subscriptions_bulk-Sound,
  count_subscriptions-Sound, delete_all_subscriptions-Sound, list_subscriptions-Sound,
)
