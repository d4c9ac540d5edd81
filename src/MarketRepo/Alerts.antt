-- ===== src/MarketRepo/Alerts.antt =====
-- market_repo.py: market_seen_orders and market_pending_alerts.
use aomarket_bot.Prelude.{ℕ, String, ◌+◌, List, [], ◌∷◌, ◌++◌, map, ◌==◌, str_eq, if◌then◌else◌}
use aomarket_bot.Prelude.Int.{ℤ, leb_ℤ}
use aomarket_bot.Prelude.Table.{any, select, delete, order_by}
use aomarket_bot.Db.{Db, MarketSeenOrder, MarketPendingAlert, is_seen}
use aomarket_bot.Exec.{Action, pure, query, clock, modify, for_each, ◌>>=◌, ◌>>◌}

unfoldable pub get_seen_fingerprints : ℕ → Action (List String)
unfolding ◌>>=◌
get_seen_fingerprints aoid =
    query
      (λ db. map (λ o. MarketSeenOrder.fingerprint o) (select (λ o. o.aoid == aoid) db.seen_orders))

abbrev pub new_seen : ℕ → String → MarketSeenOrder
new_seen aoid fp = record { aoid = aoid; fingerprint = fp }

-- INSERT … ON CONFLICT DO NOTHING
abbrev pub add_seen : ℕ → String → Db → Db
add_seen aoid fp db =
    if any (is_seen aoid fp) db.seen_orders
    then db
    else record db { seen_orders = db.seen_orders ++ new_seen aoid fp ∷ [] }

unfoldable pub replace_seen_fingerprints : ℕ → List String → Action Unit
unfolding for_each ◌>>=◌
replace_seen_fingerprints aoid fingerprints = do
  modify (λ db. record db { seen_orders = delete (λ o. o.aoid == aoid) db.seen_orders })
  for_each fingerprints (λ fp. modify (add_seen aoid fp))

abbrev pub new_alert : ℕ → ℤ → String → ℕ → String → MarketPendingAlert
new_alert id now player aoid message = record {
  id = id;
  player = player;
  aoid = aoid;
  message = message;
  created_at = now;
}

abbrev pub put_alert : ℤ → String → ℕ → String → Db → Db
put_alert now player aoid message db = record db {
  pending_alerts = db.pending_alerts ++ new_alert db.next_id now player aoid message ∷ [];
  next_id = db.next_id + 1;
}

unfoldable pub queue_pending_alert : String → ℕ → String → Action Unit
unfolding ◌>>=◌
queue_pending_alert player aoid message = do now ← clock; modify (put_alert now player aoid message)

abbrev pub drop_alerts : List ℕ → Db → Db
drop_alerts ids db = record db {
  pending_alerts = delete (λ a. any (λ id. id == a.id) ids) db.pending_alerts;
}

unfoldable pub pop_pending_alerts : String → Action (List MarketPendingAlert)
unfolding order_by ◌>>=◌
pop_pending_alerts player = do
  alerts ← query (λ db.
      order_by (λ (a b : MarketPendingAlert). leb_ℤ a.created_at b.created_at)
        (select (λ a. str_eq a.player player) db.pending_alerts))
  modify (drop_alerts (map (λ a. MarketPendingAlert.id a) alerts))
  pure alerts
