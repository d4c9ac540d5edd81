-- ===== src/MarketRepo/Users.antt =====
-- market_repo.py: market_users, market_user_actions, and the cascade that removes a player.
use aomarket_bot.Prelude.{
  ℕ, String, ◌+◌, Bool, false, Option, none, some, List, [], ◌∷◌, ◌++◌, str_eq, leb, length,
  is_some, if◌then◌else◌,
}
use aomarket_bot.Prelude.Int.{ℤ, leb_ℤ}
use aomarket_bot.Prelude.Table.{find, select, delete, count, order_by}
use aomarket_bot.Db.{Db, MarketUser, MarketUserAction, is_user, has_user, delete_users}
use aomarket_bot.Exec.{Action, pure, raise, integrity_error, query, clock, modify, ◌>>=◌, ◌>>◌}

unfoldable pub get_user : String → Action (Option MarketUser)
unfolding ◌>>=◌
get_user player = query (λ db. find (is_user player) db.users)

unfoldable pub is_registered : String → Action Bool
unfolding get_user ◌>>=◌
is_registered player = do user ← get_user player; pure (is_some user)

abbrev pub new_user : String → ℤ → MarketUser
new_user player now = record { player = player; registered_at = now; is_admin = false }

abbrev pub add_user : String → ℤ → Db → Db
add_user player now db = record db { users = db.users ++ new_user player now ∷ [] }

-- The primary key refuses a second row of the player.
unfoldable pub register : String → Action Unit
unfolding ◌>>=◌
register player = do
  now ← clock
  taken ← query (λ db. has_user db player)
  if taken then raise integrity_error else modify (add_user player now)

abbrev pub drop_player_rows : String → Db → Db
drop_player_rows player db = record db {
  subscriptions = delete (λ s. str_eq s.player player) db.subscriptions;
  pending_alerts = delete (λ a. str_eq a.player player) db.pending_alerts;
  user_actions = delete (λ a. str_eq a.player player) db.user_actions;
}

unfoldable pub unregister_cascade : String → Action ℕ
unfolding delete_users ◌>>=◌
unregister_cascade player = do
  sub_count ← query (λ db. count (λ s. str_eq s.player player) db.subscriptions)
  modify (drop_player_rows player)
  modify (delete_users (is_user player))
  pure sub_count

abbrev pub new_action : Db → ℤ → String → String → Option ℕ → MarketUserAction
new_action db now player action aoid = record {
  id = db.next_id;
  player = player;
  action = action;
  aoid = aoid;
  created_at = now;
}

abbrev pub add_action : ℤ → String → String → Option ℕ → Db → Db
add_action now player action aoid db = record db {
  user_actions = db.user_actions ++ new_action db now player action aoid ∷ [];
  next_id = db.next_id + 1;
}

unfoldable pub log_action : String → String → Option ℕ → Action Unit
unfolding ◌>>=◌
log_action player action aoid = do now ← clock; modify (add_action now player action aoid)

-- func.min(created_at)
earliest : List MarketUserAction → Option ℤ
earliest [] = none
earliest (a ∷ rest) = elim (earliest rest) [
  | none ↦ some a.created_at
  | some t ↦ some (if leb_ℤ a.created_at t then a.created_at else t)
]

unfoldable pub user_action_summary : String → Action (ℕ × Option ℤ)
unfolding earliest ◌>>=◌
user_action_summary player = do
  rows ← query (λ db. select (λ a. str_eq a.player player) db.user_actions)
  pure (length rows, earliest rows)

-- GROUP BY action, in the order in which each action is first met
count_action : String → List (String × ℕ) → List (String × ℕ)
count_action action [] = (action, 1) ∷ []
count_action action ((a, n) ∷ rest) =
    if str_eq a action then (a, n + 1) ∷ rest else (a, n) ∷ count_action action rest

groups : List (String × ℕ) → List MarketUserAction → List (String × ℕ)
unfolding count_action
groups found [] = found
groups found (a ∷ rest) = groups (count_action a.action found) rest

unfoldable pub user_action_breakdown : String → Action (List (String × ℕ))
unfolding groups order_by ◌>>=◌
user_action_breakdown player = do
  rows ← query (λ db. select (λ a. str_eq a.player player) db.user_actions)
  pure (order_by (λ (g h : String × ℕ). leb h.1 g.1) (groups [] rows))
