-- ===== src/Market/Sound.antt =====
-- Every method of `MarketService` keeps the constraints of the tables, one lemma for each part.
use aomarket_bot.Prelude.{
  ℕ, zero, suc, String, Bool, false, Option, none, some, List, [], ◌∷◌, if◌then◌else◌,
}
use aomarket_bot.Prelude.Int.{ℤ, pos, negsuc}
use aomarket_bot.Db.{MarketWatch, MarketSubscription}
use aomarket_bot.Exec.{Message, Error, not_watching, invalid_range, Result, Action, send, ◌>>=◌}
use aomarket_bot.Exec.Keeps.{Keeps, Keeps-bind, Keeps-pure, Keeps-raise, Keeps-lift}
use aomarket_bot.MarketRepo.Sound.{SoundWorld, repo_sound, delete_subscription-Sound}
use aomarket_bot.SettingsRepo.Sound.{settings_sound}
use aomarket_bot.BackoffRepo.Sound.{backoff_sound, record_failure-Sound, record_success-Sound}
use aomarket_bot.Market.Env.{Env, Item, Orders}
use aomarket_bot.Market.Parsing.{Range}
use aomarket_bot.Market.Announce.{
  deliver, call_privgroup, call_tell, send_privgroup, send_tell, suffix, announce,
  announce_background, announce_tracked, log_action,
}
use aomarket_bot.Market.Players.{register, unregister}
use aomarket_bot.Market.Watching.{
  watch_item, denied, subscribe_item, subscribe, unsubscribe, unsubscribe_each, unsubscribe_bulk,
  unsubscribe_all, or_not_watching, require_subscription, store_range, set_price_filter,
  set_ql_filter, clear_filter, sorted_set,
}
use aomarket_bot.Market.Alerts.{
  NewOrder, call_online, notify_matching, notify_each, notify_subscribers, new_entries,
  announce_new, compare_seen, detect_new_orders, deliver_pending_alerts,
}
use aomarket_bot.Market.Poll.{poll_answer, poll_one, poll_each, report, poll_market}
use aomarket_bot.Market.AutoTrack.{
  settle, resolve, track, sync_ranked, sync_pages, sync_count, sync_top_traded_items,
}

send-Sound : (m : Message) → Keeps SoundWorld (send m)
unfolding ◌>>=◌
send-Sound m = record { run = λ w h. h }

pub deliver-Sound : (m : Message) (e : Option Error) → Keeps SoundWorld (deliver m e)
unfolding deliver
deliver-Sound m none = send-Sound m
deliver-Sound m (some e) = Keeps-raise e

call_privgroup-Sound :
    (callback : Option (String → Option Error)) (message : String)
    → Keeps SoundWorld (call_privgroup callback message)
unfolding call_privgroup
call_privgroup-Sound none message = Keeps-pure tt
call_privgroup-Sound (some callback) message = deliver-Sound _ (callback message)

call_tell-Sound :
    (callback : Option (String → String → Option Error)) (player message : String)
    → Keeps SoundWorld (call_tell callback player message)
unfolding call_tell
call_tell-Sound none player message = Keeps-pure tt
call_tell-Sound (some callback) player message = deliver-Sound _ (callback player message)

call_online-Sound :
    (callback : Option (String → Result Bool)) (player : String)
    → Keeps SoundWorld (call_online callback player)
unfolding call_online
call_online-Sound none player = Keeps-pure false
call_online-Sound (some callback) player = Keeps-lift (callback player)

or_not_watching-Sound :
    (aoid : ℕ) (s : Option MarketSubscription) → Keeps SoundWorld (or_not_watching aoid s)
unfolding or_not_watching
or_not_watching-Sound aoid none = Keeps-raise (not_watching aoid)
or_not_watching-Sound aoid (some s) = Keeps-pure s

store_range-Sound :
    (spec : String) (store : Option ℕ → Option ℕ → Action (Unit {0})) (r : Option Range)
    → ((lo hi : Option ℕ) → Keeps SoundWorld (store lo hi))
    → Keeps SoundWorld (store_range spec store r)
unfolding store_range
store_range-Sound spec store none k = Keeps-raise (invalid_range spec)
store_range-Sound spec store (some (lo, hi)) k = k lo hi

ruleset base = (
  repo_sound, settings_sound, backoff_sound, call_privgroup-Sound, call_tell-Sound,
  call_online-Sound, or_not_watching-Sound, store_range-Sound,
)

module _ (env : Env) where
  send_privgroup-Sound : (message : String) → Keeps SoundWorld (send_privgroup env message)
  unfolding send_privgroup
  send_privgroup-Sound message = search base

  pub send_tell-Sound : (player message : String) → Keeps SoundWorld (send_tell env player message)
  unfolding send_tell
  send_tell-Sound player message = search base

  suffix-Sound : (aoid : Option ℕ) → Keeps SoundWorld (suffix env aoid)
  unfolding suffix
  suffix-Sound none = search base
  suffix-Sound (some a) = search base

  announce-Sound :
      (player action : String) (aoid : Option ℕ)
      → Keeps SoundWorld (announce env player action aoid)
  unfolding announce
  announce-Sound player action aoid = search (base, suffix-Sound) depth 8

  announce_background-Sound :
      (message : String) → Keeps SoundWorld (announce_background env message)
  unfolding announce_background
  announce_background-Sound message = search base

  announce_tracked-Sound :
      (name source : String) → Keeps SoundWorld (announce_tracked env name source)
  unfolding announce_tracked
  announce_tracked-Sound name source = search (base, announce_background-Sound)

  log_action-Sound :
      (player action : String) (aoid : Option ℕ)
      → Keeps SoundWorld (log_action env player action aoid)
  unfolding log_action
  log_action-Sound player action aoid = search (base, announce-Sound)

  pub register-Sound : (player : String) → Keeps SoundWorld (register env player)
  unfolding register
  register-Sound player = search (base, log_action-Sound)

  pub unregister-Sound : (player : String) → Keeps SoundWorld (unregister env player)
  unfolding unregister
  unregister-Sound player = search (base, announce-Sound)

  pub watch_item-Sound :
      (aoid : ℕ) (name : String) (ql : ℕ) (icon : Option ℕ) (auto : Bool)
      → Keeps SoundWorld (watch_item env aoid name ql icon auto)
  unfolding watch_item
  watch_item-Sound aoid name ql icon auto = search (base, announce_tracked-Sound)

  denied-Sound : (player : String) (aoid : ℕ) → Keeps SoundWorld (denied env player aoid)
  unfolding denied
  denied-Sound player aoid = search (base, log_action-Sound)

  subscribe_item-Sound :
      (player : String) (aoid : ℕ) (i : Option Item)
      → Keeps SoundWorld (subscribe_item env player aoid i)
  unfolding subscribe_item
  subscribe_item-Sound player aoid none = search base
  subscribe_item-Sound player aoid (some item) =
      search (base, watch_item-Sound, denied-Sound, log_action-Sound) depth 16

  pub subscribe-Sound : (player : String) (aoid : ℕ) → Keeps SoundWorld (subscribe env player aoid)
  unfolding subscribe
  subscribe-Sound player aoid = search (base, subscribe_item-Sound)

  pub unsubscribe-Sound :
      (player : String) (aoid : ℕ) → Keeps SoundWorld (unsubscribe env player aoid)
  unfolding unsubscribe
  unsubscribe-Sound player aoid = search (base, log_action-Sound)

  unsubscribe_each-Sound :
      (player : String) (aoids : List ℕ) → Keeps SoundWorld (unsubscribe_each env player aoids)
  unfolding unsubscribe_each
  unsubscribe_each-Sound player [] = search base
  unsubscribe_each-Sound player (a ∷ rest) =
      Keeps-bind _ _ (delete_subscription-Sound player a) λ d.
        Keeps-bind _ _ (log_action-Sound player "unwatch" (some a)) λ _.
          Keeps-bind _ _ (unsubscribe_each-Sound player rest)
            λ (r : List ℕ × List ℕ). Keeps-pure (if d then (a ∷ r.0, r.1) else (r.0, a ∷ r.1))

  pub unsubscribe_bulk-Sound :
      (player : String) (aoids : List ℕ) → Keeps SoundWorld (unsubscribe_bulk env player aoids)
  unfolding unsubscribe_bulk
  unsubscribe_bulk-Sound player aoids = unsubscribe_each-Sound player (sorted_set aoids)

  pub unsubscribe_all-Sound : (player : String) → Keeps SoundWorld (unsubscribe_all env player)
  unfolding unsubscribe_all
  unsubscribe_all-Sound player = search (base, log_action-Sound)

  pub set_price_filter-Sound :
      (player : String) (aoid : ℕ) (spec : String)
      → Keeps SoundWorld (set_price_filter env player aoid spec)
  unfolding set_price_filter require_subscription
  set_price_filter-Sound player aoid spec = search base depth 8

  notify_matching-Sound :
      (aoid : ℕ) (name : String) (sub : MarketSubscription) (os : List NewOrder)
      → Keeps SoundWorld (notify_matching env aoid name sub os)
  unfolding notify_matching
  notify_matching-Sound aoid name sub [] = search base
  notify_matching-Sound aoid name sub (o ∷ os) = search (base, send_tell-Sound)

  notify_each-Sound :
      (aoid : ℕ) (name : String) (os : List NewOrder) (subs : List MarketSubscription)
      → Keeps SoundWorld (notify_each env aoid name os subs)
  unfolding notify_each
  notify_each-Sound aoid name os [] = search base
  notify_each-Sound aoid name os (sub ∷ subs) =
      Keeps-bind _ _ (notify_matching-Sound aoid name sub _) λ d.
        Keeps-bind _ _ (notify_each-Sound aoid name os subs)
          λ n. Keeps-pure (if d then suc n else n)

  notify_subscribers-Sound :
      (aoid : ℕ) (name : String) (os : List NewOrder)
      → Keeps SoundWorld (notify_subscribers env aoid name os)
  unfolding notify_subscribers
  notify_subscribers-Sound aoid name os = search (base, notify_each-Sound)

  compare_seen-Sound :
      (aoid : ℕ) (name : String) (es : List (String × NewOrder)) (seen : List String)
      → Keeps SoundWorld (compare_seen env aoid name es seen)
  unfolding compare_seen
  compare_seen-Sound aoid name es [] = search base
  compare_seen-Sound aoid name es (fp ∷ fps) = announced (new_entries (fp ∷ fps) es)
    where
      announced :
          (new : List (String × NewOrder)) → Keeps SoundWorld (announce_new env aoid name new)
      announced [] = search base
      announced (e ∷ more) = search (base, notify_subscribers-Sound)

  detect_new_orders-Sound :
      (aoid : ℕ) (orders : Orders) (name : String)
      → Keeps SoundWorld (detect_new_orders env aoid orders name)
  unfolding detect_new_orders
  detect_new_orders-Sound aoid orders name = search (base, compare_seen-Sound)

  pub deliver_pending_alerts-Sound :
      (player : String) → Keeps SoundWorld (deliver_pending_alerts env player)
  unfolding deliver_pending_alerts
  deliver_pending_alerts-Sound player = search (base, send_tell-Sound)

  poll_answer-Sound :
      (watch : MarketWatch) (orders : Option Orders)
      → Keeps SoundWorld (poll_answer env watch orders)
  unfolding poll_answer
  poll_answer-Sound watch none = search base
  poll_answer-Sound watch (some orders) = search (base, detect_new_orders-Sound)

  poll_one-Sound : (now : ℤ) (watch : MarketWatch) → Keeps SoundWorld (poll_one env now watch)
  unfolding poll_one
  poll_one-Sound now watch = search (base, poll_answer-Sound)

  poll_each-Sound : (now : ℤ) (due : List MarketWatch) → Keeps SoundWorld (poll_each env now due)
  unfolding poll_each
  poll_each-Sound now [] = search base
  poll_each-Sound now (watch ∷ rest) =
      Keeps-bind _ _ (poll_one-Sound now watch)
        λ d. Keeps-bind _ _ (poll_each-Sound now rest) λ n. Keeps-pure (if d then suc n else n)

  report-Sound :
      (n : ℕ) (due : List MarketWatch) (expired : List ℕ)
      → Keeps SoundWorld (report env n due expired)
  unfolding report
  report-Sound n [] expired = search base
  report-Sound n (w ∷ ws) [] = announce_background-Sound _
  report-Sound n (w ∷ ws) (a ∷ as_) = announce_background-Sound _

  pub poll_market-Sound : Keeps SoundWorld (poll_market env)
  unfolding poll_market
  poll_market-Sound = search (base, poll_each-Sound, report-Sound) depth 14

  settle-Sound : (items : List (ℕ × Option Item)) → Keeps SoundWorld (settle env items)
  unfolding settle
  settle-Sound [] = search base
  settle-Sound ((a, none) ∷ rest) = Keeps-bind _ _ (record_failure-Sound a) (λ _. settle-Sound rest)
  settle-Sound ((a, some i) ∷ rest) =
      Keeps-bind _ _ (record_success-Sound a)
        λ _. Keeps-bind _ _ (settle-Sound rest) (λ r. Keeps-pure ((a, i) ∷ r))

  resolve-Sound : (aoids : List ℕ) → Keeps SoundWorld (resolve env aoids)
  unfolding resolve
  resolve-Sound aoids = search (base, settle-Sound)

  track-Sound : (existing : List ℕ) (r : ℕ × Item) → Keeps SoundWorld (track env existing r)
  unfolding track
  track-Sound existing (aoid, item) = search (base, announce_tracked-Sound)

  sync_ranked-Sound : (aoids : List ℕ) (n : ℕ) → Keeps SoundWorld (sync_ranked env aoids n)
  unfolding sync_ranked
  sync_ranked-Sound aoids n =
      search (base, resolve-Sound, track-Sound, announce_background-Sound) depth 12

  sync_pages-Sound :
      (count : ℕ) (pages : List ℕ × ℕ) → Keeps SoundWorld (sync_pages env count pages)
  unfolding sync_pages
  sync_pages-Sound count (aoids, n) = search (base, sync_ranked-Sound)

  sync_count-Sound : (count : ℤ) → Keeps SoundWorld (sync_count env count)
  unfolding sync_count
  sync_count-Sound (negsuc n) = search base
  sync_count-Sound (pos zero) = search base
  sync_count-Sound (pos (suc n)) = search (base, sync_pages-Sound)

  pub sync_top_traded_items-Sound : Keeps SoundWorld (sync_top_traded_items env)
  unfolding sync_top_traded_items
  sync_top_traded_items-Sound = search (base, sync_count-Sound)

module _ (player : String) where
  require_subscription-Sound : (aoid : ℕ) → Keeps SoundWorld (require_subscription player aoid)
  unfolding require_subscription
  require_subscription-Sound aoid = search base

  pub set_ql_filter-Sound :
      (aoid : ℕ) (spec : String) → Keeps SoundWorld (set_ql_filter player aoid spec)
  unfolding set_ql_filter
  set_ql_filter-Sound aoid spec = search (base, require_subscription-Sound)

  pub clear_filter-Sound : (aoid : ℕ) → Keeps SoundWorld (clear_filter player aoid)
  unfolding clear_filter
  clear_filter-Sound aoid = search (base, require_subscription-Sound)
