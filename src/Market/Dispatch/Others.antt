-- ===== src/Market/Dispatch/Others.antt =====
-- Whose rows the methods of a player leave alone: the subscriptions of other players, their
-- filters with them, and the API keys of other players.
use aomarket_bot.Prelude.{
  ℕ, String, ◌≡◌, refl, ap, ◌∙◌, eq_refl, Bool, true, false, not, ◌&&◌, Option, List, [], ◌∷◌, ◌++◌,
  str_eq, eq_iff, arith,
}
use aomarket_bot.Prelude.Int.{ℤ}
use aomarket_bot.Prelude.Table.{select, select-delete, delete, update, any}
use aomarket_bot.Db.{
  Db, MarketSubscription, ApiKey, MarketUser, is_user, is_subscription, delete_users,
}
use aomarket_bot.Exec.{World, Message, modify, send, ◌>>=◌}
use aomarket_bot.Exec.Keeps.{Keeps, Keeps-bind, Keeps-query, Keeps-pure, keeps_rules}
use aomarket_bot.MarketRepo
use aomarket_bot.ApiKeyRepo

module _ (player : String) where
  abbrev pub is_other : MarketSubscription → Bool
  is_other s = not (str_eq s.player player)

  abbrev pub is_other_key : ApiKey → Bool
  is_other_key k = not (str_eq k.player player)

  module _ (subs : List MarketSubscription) (keys : List ApiKey) where
    abbrev pub Others : World → Type 0
    Others w =
        (select is_other w.db.subscriptions ≡ subs) × (select is_other_key w.db.api_keys ≡ keys)

select-same :
    {A : Type 0} (p q : A → Bool) (f : A → A) (xs : List A)
    → ((x : A) → p x ≡ true → q x ≡ false)
    → ((x : A) → p (f x) ≡ p x)
    → select p (update q f xs) ≡ select p xs
select-same p q f [] h same = refl
select-same p q f (x ∷ xs) h same = ground (arith, select-same p q f xs h same, h x, same x)

select-longer :
    {A : Type 0} (p : A → Bool) (xs : List A) (x : A)
    → p x ≡ false
    → select p (xs ++ x ∷ []) ≡ select p xs
select-longer p [] x h = ground arith
select-longer p (y ∷ xs) x h = ground (arith, select-longer p xs x h)

-- The cascade from `users` reaches nobody else's rows.
cascade-misses :
    (player other : String) (users : List MarketUser)
    → not (str_eq other player) ≡ true
    → any (λ u. is_user player u && is_user other u) users ≡ false
cascade-misses player other [] h = refl
cascade-misses player other (u ∷ users) h = ground (
  arith,
  cascade-misses player other users h,
  eq_iff u.player player,
  eq_iff u.player other,
  eq_iff other player,
)

module _ (player : String) (subs : List MarketSubscription) (keys : List ApiKey) where
  abbrev P : World → Type 0
  P = Others player subs keys

  pub send-Others : (m : Message) → Keeps P (send m)
  unfolding ◌>>=◌
  send-Others m = record { run = λ w h. h }

  -- A statement that selects the same rows of the other players
  modify-Others :
      (f : Db → Db)
      → ((db : Db)
          → select (is_other player) (f db).subscriptions
            ≡ select (is_other player) db.subscriptions)
      → ((db : Db)
          → select (is_other_key player) (f db).api_keys ≡ select (is_other_key player) db.api_keys)
      → Keeps P (modify f)
  unfolding ◌>>=◌
  modify-Others f hs hk = record { run = λ w h. (hs w.db ∙ h.0, hk w.db ∙ h.1) }

  pub log_row-Others :
      (p action : String) (aoid : Option ℕ) → Keeps P (MarketRepo.log_action p action aoid)
  unfolding MarketRepo.log_action ◌>>=◌
  log_row-Others p action aoid = record { run = λ w h. h }

  pub upsert_watch-Others :
      (aoid : ℕ) (name : String) (ql : ℕ) (icon : Option ℕ) (auto : Bool)
      → Keeps P (MarketRepo.upsert_watch aoid name ql icon auto)
  unfolding MarketRepo.upsert_watch ◌>>=◌
  upsert_watch-Others aoid name ql icon auto = record { run = λ w h. h }

  mine : not (str_eq player player) ≡ false
  mine = ground (arith, eq_refl player)

  -- A DELETE, an UPDATE of subscriptions, and an UPDATE of keys that concern the player alone
  deleted-Others :
      (q : MarketSubscription → Bool)
      → ((s : MarketSubscription) → is_other player s ≡ true → q s ≡ false)
      → Keeps P (modify (λ db. record db { subscriptions = delete q db.subscriptions }))
  deleted-Others q h =
      modify-Others _ (λ db. select-delete (is_other player) q db.subscriptions h) (λ db. refl)

  is_subscription-misses :
      (aoid : ℕ) (s : MarketSubscription)
      → is_other player s ≡ true
      → is_subscription player aoid s ≡ false
  is_subscription-misses aoid s h = ground arith

  of_player-misses :
      (s : MarketSubscription) → is_other player s ≡ true → MarketRepo.of_player player s ≡ false
  of_player-misses s h = ground arith

  is_active-misses :
      (k : ApiKey) → is_other_key player k ≡ true → ApiKeyRepo.is_active_of player k ≡ false
  is_active-misses k h = ground arith

  pub register-Others : Keeps P (MarketRepo.register player)
  unfolding MarketRepo.register
  register-Others = search (keeps_rules, add)
    where
      add : (now : ℤ) → Keeps P (modify (MarketRepo.add_user player now))
      add now = modify-Others _ (λ db. refl) (λ db. refl)

  pub add_subscription-Others : (aoid : ℕ) → Keeps P (MarketRepo.add_subscription player aoid)
  unfolding MarketRepo.add_subscription
  add_subscription-Others aoid = search (keeps_rules, put)
    where
      put : (now : ℤ) → Keeps P (modify (MarketRepo.put_subscription now player aoid))
      put now =
          modify-Others _
            (λ db.
              select-longer (is_other player) db.subscriptions
                (MarketRepo.new_subscription db.next_id now player aoid) mine)
            (λ db. refl)

  pub delete_subscription-Others : (aoid : ℕ) → Keeps P (MarketRepo.delete_subscription player aoid)
  unfolding MarketRepo.delete_subscription
  delete_subscription-Others aoid =
      search (keeps_rules, deleted-Others _ (is_subscription-misses aoid))

  pub delete_all-Others : Keeps P (MarketRepo.delete_all_subscriptions player)
  unfolding MarketRepo.delete_all_subscriptions MarketRepo.count_subscriptions
  delete_all-Others = search (keeps_rules, deleted-Others _ of_player-misses)

  refilter-Others :
      (aoid : ℕ) (f : MarketSubscription → MarketSubscription)
      → ((s : MarketSubscription) → (f s).player ≡ s.player)
      → Keeps P (modify (MarketRepo.set_filter player aoid f))
  refilter-Others aoid f same =
      modify-Others _
        (λ db.
          select-same (is_other player) (is_subscription player aoid) f db.subscriptions
            (is_subscription-misses aoid) (λ s. ap (λ p. not (str_eq p player)) (same s)))
        (λ db. refl)

  pub update_price_filter-Others :
      (aoid : ℕ) (lo hi : Option ℕ) → Keeps P (MarketRepo.update_price_filter player aoid lo hi)
  unfolding MarketRepo.update_price_filter
  update_price_filter-Others aoid lo hi = refilter-Others aoid _ (λ s. refl)

  pub update_ql_filter-Others :
      (aoid : ℕ) (lo hi : Option ℕ) → Keeps P (MarketRepo.update_ql_filter player aoid lo hi)
  unfolding MarketRepo.update_ql_filter
  update_ql_filter-Others aoid lo hi = refilter-Others aoid _ (λ s. refl)

  pub clear_filter-Others : (aoid : ℕ) → Keeps P (MarketRepo.clear_filter player aoid)
  unfolding MarketRepo.clear_filter
  clear_filter-Others aoid = refilter-Others aoid _ (λ s. refl)

  drop_rows-Others : Keeps P (modify (MarketRepo.drop_player_rows player))
  drop_rows-Others =
      modify-Others _
        (λ db.
          select-delete (is_other player) (MarketRepo.of_player player) db.subscriptions
            of_player-misses)
        (λ db. refl)

  delete_user-Others : Keeps P (modify (delete_users (is_user player)))
  unfolding delete_users
  delete_user-Others =
      modify-Others _
        (λ db.
          select-delete (is_other player) _ db.subscriptions
            (λ s. cascade-misses player s.player db.users))
        (λ db.
          select-delete (is_other_key player) _ db.api_keys
            (λ k. cascade-misses player k.player db.users))

  pub unregister_cascade-Others : Keeps P (MarketRepo.unregister_cascade player)
  unfolding MarketRepo.unregister_cascade
  unregister_cascade-Others =
      Keeps-bind _ _ (Keeps-query _) λ n.
        Keeps-bind _ _ drop_rows-Others λ _. Keeps-bind _ _ delete_user-Others λ _. Keeps-pure n

  pub create_key-Others :
      (key_hash prefix : String) → Keeps P (ApiKeyRepo.create player key_hash prefix)
  unfolding ApiKeyRepo.create
  create_key-Others key_hash prefix = search (keeps_rules, put)
    where
      put : (now : ℤ) → Keeps P (modify (ApiKeyRepo.put_key now player key_hash prefix))
      put now =
          modify-Others _ (λ db. refl)
            (λ db.
              select-longer (is_other_key player) db.api_keys
                (ApiKeyRepo.new_key db.next_id now player key_hash prefix) mine)

  pub revoke_all-Others : Keeps P (ApiKeyRepo.revoke_all_for_player player)
  unfolding ApiKeyRepo.revoke_all_for_player
  revoke_all-Others = search (keeps_rules, marked)
    where
      marked :
          (now : ℤ)
          → Keeps P (
              modify (λ db. record db {
                api_keys =
                    update (ApiKeyRepo.is_active_of player) (ApiKeyRepo.revoke now) db.api_keys;
              }))
      marked now =
          modify-Others _ (λ db. refl)
            (λ db.
              select-same (is_other_key player) _ (ApiKeyRepo.revoke now) db.api_keys
                is_active-misses (λ k. refl))

  pub ruleset others_base = (
    keeps_rules, log_row-Others, upsert_watch-Others, register-Others, add_subscription-Others,
    delete_subscription-Others, delete_all-Others, update_price_filter-Others,
    update_ql_filter-Others, clear_filter-Others, unregister_cascade-Others, create_key-Others,
    revoke_all-Others,
  )
