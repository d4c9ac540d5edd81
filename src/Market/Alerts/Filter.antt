-- ===== src/Market/Alerts/Filter.antt =====
-- `order_matches_filter` of service.py against the bounds that a filter states.
use aomarket_bot.Prelude.{ℕ, ◌≤◌, ◌≡◌, ◌↔◌, true, false, Option, none, some, arith}
use aomarket_bot.Market.Alerts.{NewOrder, below, above, order_matches_filter}

abbrev pub AtLeast : Option ℕ → ℕ → Type 0
AtLeast none n = Unit
AtLeast (some limit) n = limit ≤ n

abbrev pub AtMost : Option ℕ → ℕ → Type 0
AtMost none n = Unit
AtMost (some limit) n = n ≤ limit

below_iff : (n : ℕ) (limit : Option ℕ) → (below n limit ≡ false) ↔ AtLeast limit n
below_iff n none = ground arith
below_iff n (some limit) = ground arith

above_iff : (n : ℕ) (limit : Option ℕ) → (above n limit ≡ false) ↔ AtMost limit n
above_iff n none = ground arith
above_iff n (some limit) = ground arith

-- An order passes a filter exactly when its price lies between the price bounds that are set, and
-- its whole range of quality levels between the bounds on quality that are set.
pub order_matches_filter_iff :
    (o : NewOrder) (min_price max_price min_ql max_ql : Option ℕ)
    → (order_matches_filter o min_price max_price min_ql max_ql ≡ true) ↔ (
        AtLeast min_price o.price
        × AtMost max_price o.price
        × AtLeast min_ql o.min_ql
        × AtMost max_ql o.max_ql)
unfolding order_matches_filter
order_matches_filter_iff o min_price max_price min_ql max_ql = ground (
  arith,
  below_iff o.price min_price,
  above_iff o.price max_price,
  below_iff o.min_ql min_ql,
  above_iff o.max_ql max_ql,
)
