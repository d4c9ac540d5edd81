-- ===== src/MarketRepo/Cascade.antt =====
-- What `unregister_cascade` of market_repo.py removes, and what it leaves.
use aomarket_bot.Prelude.{
  String, ◌≡◌, refl, Bool, true, not, List, str_eq, arith, [], ◌∷◌, eq_iff, ◌&&◌,
}
use aomarket_bot.Prelude.Table.{any, select, delete, count}
use aomarket_bot.Db.{
  Db, MarketUser, MarketSubscription, MarketPendingAlert, MarketUserAction, ApiKey, is_user,
  has_user, delete_users,
}
use aomarket_bot.Exec.{World, ok, ◌>>=◌}
use aomarket_bot.MarketRepo.Users.{unregister_cascade}

-- Each table cut to the rows whose player meets a condition
abbrev pub rows_where : (String → Bool) → Db → Db
rows_where p db = record db {
  users = select (λ u. p (MarketUser.player u)) db.users;
  subscriptions = select (λ s. p (MarketSubscription.player s)) db.subscriptions;
  pending_alerts = select (λ a. p (MarketPendingAlert.player a)) db.pending_alerts;
  user_actions = select (λ a. p (MarketUserAction.player a)) db.user_actions;
  api_keys = select (λ k. p (ApiKey.player k)) db.api_keys;
}

-- Which rows follow their user, once the users called `player` are deleted
cascaded :
    (player s : String) (us : List MarketUser)
    → any (λ u. is_user player u && is_user s u) us ≡ str_eq s player && any (is_user player) us
cascaded player s [] = ground arith
cascaded player s (u ∷ us) =
    ground (arith, cascaded player s us, eq_iff s player, eq_iff u.player player, eq_iff u.player s)

module _ {A : Type 0} (player_of : A → String) (player : String) where
  abbrev of_others : A → Bool
  of_others x = not (str_eq (player_of x) player)

  delete-cascade :
      (us : List MarketUser) (xs : List A)
      → any (is_user player) us ≡ true
      → delete (λ x. any (λ u. is_user player u && is_user (player_of x) u) us) xs
        ≡ select of_others xs
  delete-cascade us [] known = refl
  delete-cascade us (x ∷ xs) known =
      ground (arith, delete-cascade us xs known, cascaded player (player_of x) us)

  select-twice : (xs : List A) → select of_others (select of_others xs) ≡ select of_others xs
  select-twice [] = refl
  select-twice (x ∷ xs) = ground (arith, select-twice xs)

-- Removing a registered player leaves the database with exactly the other players' users,
-- subscriptions, queued alerts, logged actions and API keys, in their order, and every other
-- table as it was; it returns how many subscriptions the player had.
pub unregister_cascade-rows :
    (player : String) (w : World)
    → has_user w.db player ≡ true
    → unregister_cascade player w ≡ (
      ok (count (λ s. str_eq (MarketSubscription.player s) player) w.db.subscriptions),
      record w { db = rows_where (λ p. not (str_eq p player)) w.db },
    )
unfolding unregister_cascade delete_users ◌>>=◌
unregister_cascade-rows player w known =
    rw
      (delete-cascade (λ (s : MarketSubscription). s.player) player w.db.users
        (select (λ s. not (str_eq s.player player)) w.db.subscriptions) known)
      (rw (delete-cascade (λ (k : ApiKey). k.player) player w.db.users w.db.api_keys known)
        (rw (select-twice (λ (s : MarketSubscription). s.player) player w.db.subscriptions) refl))
