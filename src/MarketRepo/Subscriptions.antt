-- ===== src/MarketRepo/Subscriptions.antt =====
-- market_repo.py: market_subscriptions.
use aomarket_bot.Prelude.{
  ℕ, String, ◌+◌, Bool, ◌&&◌, not, Option, none, List, [], ◌∷◌, ◌++◌, ◌==◌, str_eq, if◌then◌else◌,
}
use aomarket_bot.Prelude.Int.{ℤ, leb_ℤ}
use aomarket_bot.Prelude.Table.{any, find, select, delete, update, count, order_by}
use aomarket_bot.Db.{Db, MarketSubscription, is_subscription, has_user, has_watch}
use aomarket_bot.Exec.{Action, pure, raise, integrity_error, query, clock, modify, ◌>>=◌, ◌>>◌}

abbrev pub of_player : String → MarketSubscription → Bool
of_player player s = str_eq s.player player

unfoldable pub get_subscription : String → ℕ → Action (Option MarketSubscription)
unfolding ◌>>=◌
get_subscription player aoid = query (λ db. find (is_subscription player aoid) db.subscriptions)

unfoldable pub count_subscriptions : String → Action ℕ
unfolding ◌>>=◌
count_subscriptions player = query (λ db. count (of_player player) db.subscriptions)

abbrev pub new_subscription : ℕ → ℤ → String → ℕ → MarketSubscription
new_subscription id now player aoid = record {
  id = id;
  player = player;
  aoid = aoid;
  side = none;
  min_price = none;
  max_price = none;
  min_ql = none;
  max_ql = none;
  created_at = now;
}

abbrev pub put_subscription : ℤ → String → ℕ → Db → Db
put_subscription now player aoid db = record db {
  subscriptions = db.subscriptions ++ new_subscription db.next_id now player aoid ∷ [];
  next_id = db.next_id + 1;
}

-- Both foreign keys, and the unique constraint on player and item
abbrev pub accepts_subscription : String → ℕ → Db → Bool
accepts_subscription player aoid db =
    has_user db player
    && (has_watch db aoid && not (any (is_subscription player aoid) db.subscriptions))

unfoldable pub add_subscription : String → ℕ → Action Unit
unfolding ◌>>=◌
add_subscription player aoid = do
  now ← clock
  accepted ← query (accepts_subscription player aoid)
  if accepted then modify (put_subscription now player aoid) else raise integrity_error

abbrev pub drop_subscription : String → ℕ → Db → Db
drop_subscription player aoid db = record db {
  subscriptions = delete (is_subscription player aoid) db.subscriptions;
}

-- `rowcount > 0`
unfoldable pub delete_subscription : String → ℕ → Action Bool
unfolding ◌>>=◌
delete_subscription player aoid = do
  found ← query (λ db. any (is_subscription player aoid) db.subscriptions)
  modify (drop_subscription player aoid)
  pure found

-- The set `removed`, in the order in which it grows
unfoldable pub delete_subscriptions_bulk : String → List ℕ → Action (List ℕ)
unfolding delete_subscription ◌>>=◌
delete_subscriptions_bulk player [] = pure []
delete_subscriptions_bulk player (aoid ∷ rest) = do
  deleted ← delete_subscription player aoid
  removed ← delete_subscriptions_bulk player rest
  pure (if deleted then aoid ∷ removed else removed)

unfoldable pub delete_all_subscriptions : String → Action ℕ
unfolding count_subscriptions ◌>>=◌
delete_all_subscriptions player = do
  n ← count_subscriptions player
  modify (λ db. record db { subscriptions = delete (of_player player) db.subscriptions })
  pure n

unfoldable pub list_subscriptions : String → Action (List MarketSubscription)
unfolding order_by ◌>>=◌
list_subscriptions player = query (λ db.
    order_by (λ (s t : MarketSubscription). leb_ℤ s.created_at t.created_at)
      (select (of_player player) db.subscriptions))

abbrev pub set_filter : String → ℕ → (MarketSubscription → MarketSubscription) → Db → Db
set_filter player aoid f db = record db {
  subscriptions = update (is_subscription player aoid) f db.subscriptions;
}

abbrev pub with_prices : Option ℕ → Option ℕ → MarketSubscription → MarketSubscription
with_prices lo hi s = record s { min_price = lo; max_price = hi }

abbrev pub with_qls : Option ℕ → Option ℕ → MarketSubscription → MarketSubscription
with_qls lo hi s = record s { min_ql = lo; max_ql = hi }

unfoldable pub update_price_filter : String → ℕ → Option ℕ → Option ℕ → Action Unit
unfolding ◌>>=◌
update_price_filter player aoid lo hi = modify (set_filter player aoid (with_prices lo hi))

unfoldable pub update_ql_filter : String → ℕ → Option ℕ → Option ℕ → Action Unit
unfolding ◌>>=◌
update_ql_filter player aoid lo hi = modify (set_filter player aoid (with_qls lo hi))

unfoldable pub clear_filter : String → ℕ → Action Unit
unfolding ◌>>=◌
clear_filter player aoid =
    modify (set_filter player aoid (λ s. with_qls none none (with_prices none none s)))

unfoldable pub subscribers_for_aoid : ℕ → Action (List MarketSubscription)
unfolding ◌>>=◌
subscribers_for_aoid aoid = query (λ db. select (λ s. s.aoid == aoid) db.subscriptions)
