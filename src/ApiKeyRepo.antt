-- ===== src/ApiKeyRepo.antt =====
-- src/aomarket/db/api_key_repo.py: the table of hashed API keys.
pub mod Sound
use aomarket_bot.Prelude.{
  ℕ, String, ◌+◌, Bool, ◌&&◌, ◌||◌, not, Option, none, some, List, [], ◌∷◌, ◌++◌, ◌==◌, str_eq,
  is_some, if◌then◌else◌,
}
use aomarket_bot.Prelude.Int.{ℤ, leb_ℤ}
use aomarket_bot.Prelude.Table.{any, find, select, update, count, order_by}
use aomarket_bot.Db.{Db, ApiKey, is_key, has_user}
use aomarket_bot.Exec.{Action, pure, raise, integrity_error, query, clock, modify, ◌>>=◌, ◌>>◌}

abbrev pub new_key : ℕ → ℤ → String → String → String → ApiKey
new_key id now player key_hash prefix = record {
  id = id;
  player = player;
  key_hash = key_hash;
  prefix = prefix;
  created_at = now;
  revoked_at = none;
  last_used_at = none;
}

abbrev pub put_key : ℤ → String → String → String → Db → Db
put_key now player key_hash prefix db = record db {
  api_keys = db.api_keys ++ new_key db.next_id now player key_hash prefix ∷ [];
  next_id = db.next_id + 1;
}

-- The foreign key to the player, and the unique hash
abbrev pub accepts_key : String → String → Db → Bool
accepts_key player key_hash db = has_user db player && not (any (is_key key_hash) db.api_keys)

unfoldable pub create : String → String → String → Action Unit
unfolding ◌>>=◌
create player key_hash prefix = do
  now ← clock
  accepted ← query (accepts_key player key_hash)
  if accepted then modify (put_key now player key_hash prefix) else raise integrity_error

abbrev pub is_active : ApiKey → Bool
is_active k = not (is_some k.revoked_at)

unfoldable pub get_by_hash : String → Action (Option ApiKey)
unfolding ◌>>=◌
get_by_hash key_hash = query (λ db. find (λ k. is_key key_hash k && is_active k) db.api_keys)

abbrev pub is_active_of : String → ApiKey → Bool
is_active_of player k = str_eq k.player player && is_active k

abbrev pub revoke : ℤ → ApiKey → ApiKey
revoke now k = record k { revoked_at = some now }

unfoldable pub revoke_all_for_player : String → Action ℕ
unfolding ◌>>=◌
revoke_all_for_player player = do
  now ← clock
  n ← query (λ db. count (is_active_of player) db.api_keys)
  modify (λ db. record db { api_keys = update (is_active_of player) (revoke now) db.api_keys })
  pure n

unfoldable pub list_for_player : String → Action (List ApiKey)
unfolding order_by ◌>>=◌
list_for_player player = query (λ db.
    order_by (λ (k l : ApiKey). leb_ℤ l.created_at k.created_at)
      (select (λ k. str_eq k.player player) db.api_keys))

abbrev pub touch : ℤ → ApiKey → ApiKey
touch now k = record k { last_used_at = some now }

unfoldable pub touch_last_used : ℕ → Action Unit
unfolding ◌>>=◌
touch_last_used key_id = do
  now ← clock
  modify (λ db. record db { api_keys = update (λ k. k.id == key_id) (touch now) db.api_keys })
