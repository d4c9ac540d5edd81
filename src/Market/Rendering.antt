-- ===== src/Market/Rendering.antt =====
-- src/aomarket/market/rendering.py: the texts of the replies.
use aomarket_bot.SettingsRepo.Values.{SettingValue, text_of}
use aomarket_bot.Prelude.{
  ℕ, String, ◌&&◌, not, Option, none, some, List, [], ◌∷◌, ◌++◌, map, length, is_some,
  if◌then◌else◌,
}
use aomarket_bot.Prelude.Text.{text_le, str, str_ℤ, join, ◌<>◌}
use aomarket_bot.Prelude.Table.{order_by}
use aomarket_bot.Db.{MarketSubscription}
use aomarket_bot.Market.Env.{Item, Orders, Floats, Texts, SellOrder, BuyOrder}
use aomarket_bot.Market.Parsing.{format_credits}
use aomarket_bot.Market.Players.{StatusSummary, UserStats}
use aomarket_bot.Market.Poll.{min_or_zero, max_or_zero}

unfoldable pub render_search_results : List Item → String
unfolding join
render_search_results [] = "No searchable item(s) found corresponding to your keyword(s)"
render_search_results (i ∷ is_) =
    str (length (i ∷ is_))
    <> " matching item(s):\n"
    <> join "\n" (
        map (λ (j : Item). j.name <> " QL" <> str j.ql <> " [aoid " <> str j.aoid <> "]") (i ∷ is_))

abbrev pub best_sell : Floats → List SellOrder → String
best_sell f [] = "No sell orders"
best_sell f (o ∷ os) =
    "Best sell: "
    <> format_credits f (min_or_zero (map (λ p. SellOrder.price p) (o ∷ os)))
    <> " ("
    <> str (length (o ∷ os))
    <> " sell order(s))"

abbrev pub best_buy : Floats → List BuyOrder → String
best_buy f [] = "No buy orders"
best_buy f (o ∷ os) =
    "Best buy: "
    <> format_credits f (max_or_zero (map (λ p. BuyOrder.price p) (o ∷ os)))
    <> " ("
    <> str (length (o ∷ os))
    <> " buy order(s))"

unfoldable pub render_summary : Floats → Orders → String
unfolding join
render_summary f orders =
    join "\n" (best_sell f orders.sell_orders ∷ best_buy f orders.buy_orders ∷ [])

unfoldable pub render_overview : Floats → String → ℕ → ℕ → Option Orders → String
unfolding render_summary
render_overview f item_name aoid ql orders =
    let header = ":: " <> item_name <> " :: QL" <> str ql <> " (aoid " <> str aoid <> ")" in
    elim orders [
      | none ↦ header <> "\n\nMarket data currently unavailable, please try again later."
      | some os ↦ header <> "\n\n" <> render_summary f os
    ]

-- A bound by a function that prints it, or `any`
abbrev pub or_any : (ℕ → String) → Option ℕ → String
or_any print none = "any"
or_any print (some n) = print n

abbrev pub part : String → (ℕ → String) → Option ℕ → Option ℕ → List String
part name print lo hi =
    if not (is_some lo) && not (is_some hi)
    then []
    else (name <> or_any print lo <> "-" <> or_any print hi) ∷ []

unfoldable pub describe_filter : Floats → Option ℕ → Option ℕ → Option ℕ → Option ℕ → String
unfolding join
describe_filter f min_price max_price min_ql max_ql =
    elim (part "price " (format_credits f) min_price max_price ++ part "QL " str min_ql max_ql) [
      | [] ↦ "No filter set - you'll be notified of every new order."
      | p ∷ ps ↦ "Filter: " <> join ", " (p ∷ ps)
    ]

-- `describe_filter` of a subscription
abbrev pub filter_of : Floats → MarketSubscription → String
filter_of f sub = describe_filter f sub.min_price sub.max_price sub.min_ql sub.max_ql

unfoldable pub render_watchlist : Floats → List MarketSubscription → String
unfolding join
render_watchlist f [] = "Your watchlist is empty. Try 'market watch <item>' to add one."
render_watchlist f (s ∷ ss) =
    str (length (s ∷ ss))
    <> " item(s) watched:\n"
    <> join "\n"
        (map (λ (t : MarketSubscription). "aoid " <> str t.aoid <> " - " <> filter_of f t) (s ∷ ss))

unfoldable pub render_status_summary : StatusSummary → String
render_status_summary s =
    "Total tracked: "
    <> str s.total_tracked
    <> " (auto: "
    <> str s.auto_tracked
    <> ", manual: "
    <> str s.manually_tracked
    <> ")\nAuto-track: "
    <> (if s.auto_track_enabled then "On" else "Off")
    <> " (target "
    <> str_ℤ s.auto_track_count
    <> " items)"

unfoldable pub render_user_stats : String → UserStats → String
unfolding join
render_user_stats player stats = join "\n" (
    ("Market activity: " <> player)
    ∷ ("Total actions: " <> str stats.total_actions)
    ∷ ("Active subscriptions: " <> str stats.active_subscriptions)
    ∷ ""
    ∷ map (λ (g : String × ℕ). g.0 <> ": " <> str g.1) stats.by_action)

-- `repr(value)`
abbrev pub repr_of : Texts → SettingValue → String
repr_of texts (SettingValue.str s) = texts.repr s
repr_of texts value = text_of value

unfoldable pub render_settings_list : Texts → List (String × SettingValue) → String
unfolding join order_by
render_settings_list texts [] = "No settings found."
render_settings_list texts (s ∷ ss) =
    str (length (s ∷ ss))
    <> " setting(s):\n"
    <> join "\n" (
        map (λ (e : String × SettingValue). e.0 <> " = " <> repr_of texts e.1)
          (order_by (λ (a b : String × SettingValue). text_le a.0 b.0) (s ∷ ss)))
