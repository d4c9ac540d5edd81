-- ===== src/Market/Watching.antt =====
-- service.py: tracking, subscriptions and their filters.
pub mod Untouched
pub mod Limit
pub mod Bulk
use aomarket_bot.Prelude.{
  ℕ, String, Bool, false, not, Option, none, some, List, [], ◌∷◌, ltb, ◌==◌, is_some, if◌then◌else◌,
}
use aomarket_bot.Prelude.Int.{pos, leb_ℤ}
use aomarket_bot.Prelude.Text.{codes}
use aomarket_bot.Db.{MarketSubscription}
use aomarket_bot.Exec.{
  Result, Action, pure, raise, lift, unknown_item, not_registered, already_watching,
  subscription_limit, not_watching, invalid_range, ◌>>=◌, ◌>>◌,
}
use aomarket_bot.MarketRepo
use aomarket_bot.SettingsRepo.{get_int}
use aomarket_bot.Market.Env.{Env, Item}
use aomarket_bot.Market.Announce.{announce_tracked, log_action}
use aomarket_bot.Market.Parsing.{Range, parse_range, parse_credits, parse_ql}

-- `sorted(set(aoids))`
abbrev pub put_sorted : ℕ → List ℕ → List ℕ
put_sorted a [] = a ∷ []
put_sorted a (b ∷ bs) =
    let rest = put_sorted a bs in
    if ltb a b then a ∷ b ∷ bs else if a == b then b ∷ bs else b ∷ rest

abbrev pub sorted_set : List ℕ → List ℕ
sorted_set [] = []
sorted_set (a ∷ as_) = put_sorted a (sorted_set as_)

module _ (env : Env) where
  unfoldable pub watch_item : ℕ → String → ℕ → Option ℕ → Bool → Action Bool
  unfolding ◌>>=◌
  watch_item aoid name ql icon auto_tracked = do
    is_new ← MarketRepo.upsert_watch aoid name ql icon auto_tracked
    if not is_new
        then pure is_new
        else do announce_tracked env name (if auto_tracked then "auto" else "manual"); pure is_new

  unfoldable pub denied : String → ℕ → Action Item
  unfolding ◌>>=◌
  denied player aoid = do
    log_action env player "watch_denied" (some aoid)
    raise (not_registered player)

  -- The rest of `subscribe`, once aodb-api has answered
  unfoldable pub subscribe_item : String → ℕ → Option Item → Action Item
  unfolding watch_item denied ◌>>=◌
  subscribe_item player aoid none = raise (unknown_item aoid)
  subscribe_item player aoid (some item) = do
    known ← MarketRepo.is_registered player
    if not known then denied player aoid else do
      existing ← MarketRepo.get_subscription player aoid
      if is_some existing then raise (already_watching aoid) else do
        limit ← get_int "MaxSubscriptionsPerPlayer"
        n ← MarketRepo.count_subscriptions player
        if leb_ℤ limit (pos n) then raise (subscription_limit limit) else do
          watch_item aoid item.name item.ql item.icon false
          MarketRepo.add_subscription player aoid
          log_action env player "watch" (some aoid)
          pure item

  unfoldable pub subscribe : String → ℕ → Action Item
  unfolding subscribe_item ◌>>=◌
  subscribe player aoid = do found ← lift (env.get_item aoid); subscribe_item player aoid found

  unfoldable pub unsubscribe : String → ℕ → Action Bool
  unfolding ◌>>=◌
  unsubscribe player aoid = do
    deleted ← MarketRepo.delete_subscription player aoid
    log_action env player "unwatch" (some aoid)
    pure deleted

  -- The loop over the sorted ids: the sets `removed` and `not_watched`
  unfoldable pub unsubscribe_each : String → List ℕ → Action (List ℕ × List ℕ)
  unfolding ◌>>=◌
  unsubscribe_each player [] = pure ([], [])
  unsubscribe_each player (aoid ∷ rest) = do
    deleted ← MarketRepo.delete_subscription player aoid
    log_action env player "unwatch" (some aoid)
    (removed, not_watched) ← unsubscribe_each player rest
    pure (if deleted then (aoid ∷ removed, not_watched) else (removed, aoid ∷ not_watched))

  unfoldable pub unsubscribe_bulk : String → List ℕ → Action (List ℕ × List ℕ)
  unfolding unsubscribe_each
  unsubscribe_bulk player aoids = unsubscribe_each player (sorted_set aoids)

  unfoldable pub unsubscribe_all : String → Action ℕ
  unfolding ◌>>=◌
  unsubscribe_all player = do
    n ← MarketRepo.delete_all_subscriptions player
    log_action env player "unwatch_all" none
    pure n

unfoldable pub untrack_all : Action ℕ
untrack_all = MarketRepo.clear_watch

unfoldable pub list_watchlist : String → Action (List MarketSubscription)
list_watchlist player = MarketRepo.list_subscriptions player

unfoldable pub or_not_watching : ℕ → Option MarketSubscription → Action MarketSubscription
or_not_watching aoid none = raise (not_watching aoid)
or_not_watching aoid (some s) = pure s

unfoldable pub require_subscription : String → ℕ → Action MarketSubscription
unfolding or_not_watching ◌>>=◌
require_subscription player aoid = do
  sub ← MarketRepo.get_subscription player aoid
  or_not_watching aoid sub

unfoldable pub store_range :
    String → (Option ℕ → Option ℕ → Action Unit) → Option Range → Action Unit
store_range spec store none = raise (invalid_range spec)
store_range spec store (some (lo, hi)) = store lo hi

-- The part that both filters share: parse, refuse, store.
unfoldable pub set_range :
    String → ℕ → String → Result (Option Range) → (Option ℕ → Option ℕ → Action Unit) → Action Unit
unfolding require_subscription store_range ◌>>=◌
set_range player aoid spec parsed store = do
  require_subscription player aoid
  range ← lift parsed
  store_range spec store range

unfoldable pub set_price_filter : Env → String → ℕ → String → Action Unit
unfolding set_range
set_price_filter env player aoid spec =
    set_range player aoid spec (parse_range (codes spec) (parse_credits env.floats))
      (MarketRepo.update_price_filter player aoid)

unfoldable pub set_ql_filter : String → ℕ → String → Action Unit
unfolding set_range
set_ql_filter player aoid spec =
    set_range player aoid spec (parse_range (codes spec) parse_ql)
      (MarketRepo.update_ql_filter player aoid)

unfoldable pub clear_filter : String → ℕ → Action Unit
unfolding require_subscription ◌>>=◌
clear_filter player aoid = do require_subscription player aoid; MarketRepo.clear_filter player aoid

unfoldable pub get_filter : String → ℕ → Action MarketSubscription
unfolding require_subscription
get_filter player aoid = require_subscription player aoid
