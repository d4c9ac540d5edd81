-- ===== src/Market/Poll.antt =====
-- service.py: the poll cycle. Times are microseconds; `datetime`'s range is not modelled.
use aomarket_bot.Prelude.{
  ℕ, suc, ◌+◌, ◌*◌, Bool, true, false, ◌&&◌, Option, none, some, List, [], ◌∷◌, map, leb, ltb, ◌==◌,
  length, if◌then◌else◌,
}
use aomarket_bot.Prelude.Int.{ℤ, ◌-ℤ◌, ◌*ℤ◌}
use aomarket_bot.Prelude.Table.{select}
use aomarket_bot.Prelude.Text.{str, ◌<>◌}
use aomarket_bot.Db.{MarketWatch, Average}
use aomarket_bot.Exec.{Action, pure, clock, ◌>>=◌, ◌>>◌}
use aomarket_bot.MarketRepo.{
  Snapshot, expire_stale_watch, prune_history, due_for_poll, update_last_polled, insert_snapshot,
}
use aomarket_bot.SettingsRepo.{get_int}
use aomarket_bot.Market.Env.{Env, SellOrder, BuyOrder, Orders}
use aomarket_bot.Market.Announce.{announce_background}
use aomarket_bot.Market.Alerts.{detect_new_orders}

abbrev pub minute : ℕ
minute = 60 * 1000000

abbrev pub day : ℕ
day = 86400 * 1000000

-- `min(…, default=0)`, `max(…, default=0)` and `sum`
unfoldable pub min_or_zero : List ℕ → ℕ
min_or_zero [] = 0
min_or_zero (p ∷ []) = p
min_or_zero (p ∷ q ∷ ps) = let m = min_or_zero (q ∷ ps) in if ltb m p then m else p

unfoldable pub max_or_zero : List ℕ → ℕ
max_or_zero [] = 0
max_or_zero (p ∷ ps) = let m = max_or_zero ps in if ltb p m then m else p

unfoldable pub sum : List ℕ → ℕ
sum [] = 0
sum (p ∷ ps) = p + sum ps

unfoldable pub average : List ℕ → Average
unfolding sum
average [] = record { num = 0; den = 1 }
average (p ∷ ps) = record { num = sum (p ∷ ps); den = length (p ∷ ps) }

abbrev pub covers : ℕ → BuyOrder → Bool
covers ql o = leb o.min_ql ql && leb ql o.max_ql

-- The figures of `_snapshot`
unfoldable pub figures : Orders → ℕ → Snapshot
unfolding min_or_zero max_or_zero average
figures orders anchor_ql =
    let sells = map (λ o. SellOrder.price o) (select (λ o. o.ql == anchor_ql) orders.sell_orders) in
    let buys = map (λ o. BuyOrder.price o) (select (covers anchor_ql) orders.buy_orders) in
    record {
      sell_count = length orders.sell_orders;
      buy_count = length orders.buy_orders;
      min_sell_price = min_or_zero (map (λ o. SellOrder.price o) orders.sell_orders);
      max_buy_price = max_or_zero (map (λ o. BuyOrder.price o) orders.buy_orders);
      avg_sell_price = average sells;
      avg_buy_price = average buys;
      anchor_sell_count = length sells;
      anchor_buy_count = length buys;
    }

unfoldable pub snapshot : ℕ → Orders → ℕ → Action Unit
unfolding figures
snapshot aoid orders anchor_ql = insert_snapshot aoid (figures orders anchor_ql)

pub record PollSummary : Type 0 where
  pub due_count : ℕ
  pub updated_count : ℕ
  pub expired_count : ℕ

module _ (env : Env) where
  -- What a round does with the order book: whether the item was updated
  unfoldable pub poll_answer : MarketWatch → Option Orders → Action Bool
  unfolding snapshot ◌>>=◌
  poll_answer watch none = pure false
  poll_answer watch (some orders) = do
    snapshot watch.aoid orders watch.ql
    detect_new_orders env watch.aoid orders watch.name
    pure true

  -- One round of the loop
  unfoldable pub poll_one : ℤ → MarketWatch → Action Bool
  unfolding poll_answer ◌>>=◌
  poll_one now watch = do
    updated ← poll_answer watch (env.get_orders watch.aoid)
    update_last_polled watch.aoid now
    pure updated

  unfoldable pub poll_each : ℤ → List MarketWatch → Action ℕ
  unfolding poll_one ◌>>=◌
  poll_each now [] = pure 0
  poll_each now (watch ∷ rest) = do
    updated ← poll_one now watch
    n ← poll_each now rest
    pure (if updated then suc n else n)

  -- The report at the end of a cycle that had items due
  unfoldable pub report : ℕ → List MarketWatch → List ℕ → Action Unit
  unfolding ◌>>=◌
  report updated [] expired = pure tt
  report updated (w ∷ ws) [] = announce_background env (
      "Poll cycle complete: "
      <> str updated
      <> "/"
      <> str (length (w ∷ ws))
      <> " item(s) successfully updated")
  report updated (w ∷ ws) (a ∷ expired) = announce_background env (
      "Poll cycle complete: "
      <> str updated
      <> "/"
      <> str (length (w ∷ ws))
      <> " item(s) successfully updated, "
      <> str (length (a ∷ expired))
      <> " item(s) expired and dropped from tracking")

  unfoldable pub poll_market : Action PollSummary
  unfolding poll_each report ◌>>=◌
  poll_market = do
    now ← clock
    retention_days ← get_int "HistoryRetentionDays"
    expire_days ← get_int "WatchExpireDays"
    interval_minutes ← get_int "PollIntervalMinutes"
    batch_size ← get_int "PollBatchSize"
    expired ← expire_stale_watch (now -ℤ expire_days *ℤ day)
    prune_history (now -ℤ retention_days *ℤ day)
    due ← due_for_poll (now -ℤ interval_minutes *ℤ minute) batch_size
    updated ← poll_each now due
    report updated due expired
    pure
        (record { due_count = length due; updated_count = updated; expired_count = length expired })
