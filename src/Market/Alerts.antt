-- ===== src/Market/Alerts.antt =====
-- service.py: the detection of new orders, and the alerts to subscribers. A set of fingerprints is
-- walked in the order in which the order book lists them.
pub mod Filter
pub mod NewOrders
pub mod Delivery
use aomarket_bot.Prelude.{
  ℕ, suc, ◌+◌, String, Bool, true, false, not, ◌&&◌, Option, none, some, List, [], ◌∷◌, ◌++◌, map,
  leb, ltb, ◌==◌, str_eq, length, if◌then◌else◌,
}
use aomarket_bot.Prelude.Table.{any, find, select, delete}
use aomarket_bot.Prelude.Text.{str, ◌<>◌}
use aomarket_bot.Db.{MarketSubscription, MarketPendingAlert}
use aomarket_bot.Exec.{Result, ok, Action, pure, lift, for_each, ◌>>=◌, ◌>>◌}
use aomarket_bot.MarketRepo.{
  get_seen_fingerprints, replace_seen_fingerprints, subscribers_for_aoid, queue_pending_alert,
  pop_pending_alerts,
}
use aomarket_bot.Market.Env.{Env, Floats, SellOrder, BuyOrder, Orders}
use aomarket_bot.Market.Announce.{send_tell}
use aomarket_bot.Market.Parsing.{format_credits}

pub data Side : Type 0 where
  sell buy : Side

pub record NewOrder : Type 0 where
  pub side : Side
  pub price : ℕ
  pub min_ql : ℕ
  pub max_ql : ℕ

-- The guards in their order: `limit is not None and …`
abbrev pub below : ℕ → Option ℕ → Bool
below n none = false
below n (some limit) = ltb n limit

abbrev pub above : ℕ → Option ℕ → Bool
above n none = false
above n (some limit) = ltb limit n

unfoldable pub order_matches_filter : NewOrder → Option ℕ → Option ℕ → Option ℕ → Option ℕ → Bool
order_matches_filter order min_price max_price min_ql max_ql =
    if below order.price min_price
    then false
    else if above order.price max_price
    then false
    else if below order.min_ql min_ql
    then false
    else if above order.max_ql max_ql
    then false
    else true

-- `self.order_matches_filter(o, sub.min_price, …)`
abbrev pub matches : MarketSubscription → NewOrder → Bool
matches sub o = order_matches_filter o sub.min_price sub.max_price sub.min_ql sub.max_ql

side_name : Side → String
side_name sell = "Sell"
side_name buy = "Buy"

order_lines : Floats → List NewOrder → String
unfolding format_credits side_name
order_lines f [] = ""
order_lines f (o ∷ rest) =
    let ql_part =
      if o.min_ql == o.max_ql
      then "QL" <> str o.min_ql
      else "QL" <> str o.min_ql <> "-" <> str o.max_ql in
    " - "
    <> side_name o.side
    <> ": "
    <> format_credits f o.price
    <> " "
    <> ql_part
    <> "\n"
    <> order_lines f rest

unfoldable pub format_alert : Floats → String → ℕ → List NewOrder → String
unfolding order_lines
format_alert f item_name aoid matching =
    str (length matching)
    <> " new order(s) posted for "
    <> item_name
    <> ":\n\n"
    <> order_lines f matching
    <> "\n[market "
    <> str aoid
    <> "]"

-- `dict[key] = value`: a key keeps its place.
put_entry : String → NewOrder → List (String × NewOrder) → List (String × NewOrder)
put_entry key value [] = (key, value) ∷ []
put_entry key value ((k, v) ∷ rest) =
    if str_eq k key then (k, value) ∷ rest else (k, v) ∷ put_entry key value rest

unfoldable pub sell_fingerprint : SellOrder → String
sell_fingerprint o =
    "sell|" <> str o.price <> "|" <> str o.ql <> "|" <> str o.count <> "|" <> o.seller

unfoldable pub buy_fingerprint : BuyOrder → String
buy_fingerprint o =
    "buy|"
    <> str o.price
    <> "|"
    <> str o.min_ql
    <> "|"
    <> str o.max_ql
    <> "|"
    <> str o.count
    <> "|"
    <> o.buyer

add_sells : List SellOrder → List (String × NewOrder) → List (String × NewOrder)
unfolding put_entry sell_fingerprint
add_sells [] m = m
add_sells (o ∷ rest) m = add_sells rest (
    put_entry (sell_fingerprint o)
      (record { side = sell; price = o.price; min_ql = o.ql; max_ql = o.ql }) m)

add_buys : List BuyOrder → List (String × NewOrder) → List (String × NewOrder)
unfolding put_entry buy_fingerprint
add_buys [] m = m
add_buys (o ∷ rest) m = add_buys rest (
    put_entry (buy_fingerprint o)
      (record { side = buy; price = o.price; min_ql = o.min_ql; max_ql = o.max_ql }) m)

unfoldable pub fingerprint_map : Orders → List (String × NewOrder)
unfolding add_sells add_buys
fingerprint_map orders = add_buys orders.buy_orders (add_sells orders.sell_orders [])

-- `fingerprints - seen`, with the order of each
abbrev pub new_entries : List String → List (String × NewOrder) → List (String × NewOrder)
new_entries seen = delete (λ (e : String × NewOrder). any (λ fp. str_eq fp e.0) seen)

unfoldable pub call_online : Option (String → Result Bool) → String → Action Bool
unfolding ◌>>=◌
call_online none player = pure false
call_online (some callback) player = lift (callback player)

module _ (env : Env) where
  -- `is_online` is a callback that may be unset.
  unfoldable pub check_online : String → Action Bool
  unfolding call_online
  check_online player = call_online env.chat.is_online player

  -- The body of the loop over the subscribers, from the orders that match: whether the subscriber
  -- was notified
  unfoldable pub notify_matching : ℕ → String → MarketSubscription → List NewOrder → Action Bool
  unfolding check_online ◌>>=◌
  notify_matching aoid item_name sub [] = pure false
  notify_matching aoid item_name sub (o ∷ os) = do
    let message = format_alert env.floats item_name aoid (o ∷ os)
    online ← check_online sub.player
    if online then send_tell env sub.player message else queue_pending_alert sub.player aoid message
    pure true

  unfoldable pub notify_one : ℕ → String → List NewOrder → MarketSubscription → Action Bool
  unfolding notify_matching
  notify_one aoid item_name new_orders sub =
      notify_matching aoid item_name sub (select (matches sub) new_orders)

  unfoldable pub notify_each : ℕ → String → List NewOrder → List MarketSubscription → Action ℕ
  unfolding notify_one ◌>>=◌
  notify_each aoid item_name new_orders [] = pure 0
  notify_each aoid item_name new_orders (sub ∷ subs) = do
    notified ← notify_one aoid item_name new_orders sub
    rest ← notify_each aoid item_name new_orders subs
    pure (if notified then suc rest else rest)

  unfoldable pub notify_subscribers : ℕ → String → List NewOrder → Action ℕ
  unfolding notify_each ◌>>=◌
  notify_subscribers aoid item_name new_orders = do
    subs ← subscribers_for_aoid aoid
    notify_each aoid item_name new_orders subs

  unfoldable pub announce_new : ℕ → String → List (String × NewOrder) → Action Unit
  unfolding notify_subscribers ◌>>=◌
  announce_new aoid item_name [] = pure tt
  announce_new aoid item_name (e ∷ es) = do
    notify_subscribers aoid item_name (map (λ (f : String × NewOrder). f.1) (e ∷ es))
    pure tt

  -- `if not is_first_poll`
  unfoldable pub compare_seen : ℕ → String → List (String × NewOrder) → List String → Action Unit
  unfolding announce_new
  compare_seen aoid item_name entries [] = pure tt
  compare_seen aoid item_name entries (fp ∷ fps) =
      announce_new aoid item_name (new_entries (fp ∷ fps) entries)

  unfoldable pub detect_new_orders : ℕ → Orders → String → Action Unit
  unfolding compare_seen fingerprint_map ◌>>=◌
  detect_new_orders aoid orders item_name = do
    let entries = fingerprint_map orders
    seen ← get_seen_fingerprints aoid
    compare_seen aoid item_name entries seen
    replace_seen_fingerprints aoid (map (λ (e : String × NewOrder). e.0) entries)

  unfoldable pub deliver_pending_alerts : String → Action ℕ
  unfolding for_each ◌>>=◌
  deliver_pending_alerts player = do
    alerts ← pop_pending_alerts player
    for_each alerts (λ a. send_tell env player (MarketPendingAlert.message a))
    pure (length alerts)
