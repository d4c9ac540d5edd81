-- ===== src/MarketRepo/Watches.antt =====
-- market_repo.py: market_watch and market_history.
use aomarket_bot.Prelude.{
  ℕ, String, ◌+◌, Bool, true, false, ◌&&◌, ◌||◌, not, Option, none, some, List, [], ◌∷◌, ◌++◌, map,
  ◌==◌, take, drop, leb, is_some, if◌then◌else◌,
}
use aomarket_bot.Prelude.Int.{ℤ, pos, negsuc, ltb_ℤ, leb_ℤ}
use aomarket_bot.Prelude.Table.{any, find, select, delete, update, count, order_by}
use aomarket_bot.Db.{
  Db, MarketWatch, MarketHistory, Average, Stamp, minus_infinity, at, is_watch, has_watch,
  delete_watches,
}
use aomarket_bot.Exec.{
  Action, pure, raise, integrity_error, database_error, query, clock, modify, ◌>>=◌, ◌>>◌,
}

unfoldable pub get_watch : ℕ → Action (Option MarketWatch)
unfolding ◌>>=◌
get_watch aoid = query (λ db. find (is_watch aoid) db.watches)

abbrev pub new_watch : ℕ → String → ℕ → Option ℕ → Bool → ℤ → MarketWatch
new_watch aoid name ql icon auto_tracked now = record {
  aoid = aoid;
  name = name;
  ql = ql;
  icon = icon;
  first_seen = now;
  last_polled = minus_infinity;
  auto_tracked = auto_tracked;
}

-- `update_cols`: an upsert sets the flag and never clears it.
abbrev pub refresh_watch : String → ℕ → Option ℕ → Bool → MarketWatch → MarketWatch
refresh_watch name ql icon auto_tracked w = record w {
  name = name;
  ql = ql;
  icon = icon;
  auto_tracked = auto_tracked || w.auto_tracked;
}

-- INSERT … ON CONFLICT (aoid) DO UPDATE
abbrev pub put_watch : ℕ → String → ℕ → Option ℕ → Bool → ℤ → Db → Db
put_watch aoid name ql icon auto_tracked now db = record db {
  watches =
      if has_watch db aoid
      then update (is_watch aoid) (refresh_watch name ql icon auto_tracked) db.watches
      else db.watches ++ new_watch aoid name ql icon auto_tracked now ∷ [];
}

unfoldable pub upsert_watch : ℕ → String → ℕ → Option ℕ → Bool → Action Bool
unfolding get_watch ◌>>=◌
upsert_watch aoid name ql icon auto_tracked = do
  existing ← get_watch aoid
  now ← clock
  modify (put_watch aoid name ql icon auto_tracked now)
  pure (not (is_some existing))

unfoldable pub delete_watch : ℕ → Action Bool
unfolding delete_watches ◌>>=◌
delete_watch aoid = do
  found ← query (λ db. has_watch db aoid)
  modify (delete_watches (is_watch aoid))
  pure found

-- `MarketWatch.auto_tracked == auto_tracked`, or no condition
abbrev pub flagged : Option Bool → MarketWatch → Bool
flagged none w = true
flagged (some true) w = w.auto_tracked
flagged (some false) w = not w.auto_tracked

unfoldable pub count_watch : Option Bool → Action ℕ
unfolding ◌>>=◌
count_watch auto_tracked = query (λ db. count (flagged auto_tracked) db.watches)

unfoldable pub clear_watch : Action ℕ
unfolding count_watch delete_watches ◌>>=◌
clear_watch = do n ← count_watch none; modify (delete_watches (λ _. true)); pure n

unfoldable pub list_watch : ℕ → ℕ → Option Bool → Action (List MarketWatch)
unfolding order_by ◌>>=◌
list_watch limit offset auto_tracked = query (λ db. take limit (
    drop offset (
      order_by (λ (a b : MarketWatch). leb a.aoid b.aoid)
        (select (flagged auto_tracked) db.watches))))

abbrev pub stamp_before : Stamp → ℤ → Bool
stamp_before minus_infinity cutoff = true
stamp_before (at t) cutoff = ltb_ℤ t cutoff

-- GREATEST(last_polled, first_seen)
abbrev pub greatest : Stamp → ℤ → ℤ
greatest minus_infinity seen = seen
greatest (at t) seen = if leb_ℤ t seen then seen else t

abbrev pub is_stale : ℤ → MarketWatch → Bool
is_stale cutoff w = not w.auto_tracked && ltb_ℤ (greatest w.last_polled w.first_seen) cutoff

unfoldable pub expire_stale_watch : ℤ → Action (List ℕ)
unfolding delete_watches ◌>>=◌
expire_stale_watch cutoff = do
  aoids ← query (λ db. map (λ w. MarketWatch.aoid w) (select (is_stale cutoff) db.watches))
  modify (delete_watches (λ w. any (λ a. a == w.aoid) aoids))
  pure aoids

abbrev pub stamp_le : Stamp → Stamp → Bool
stamp_le minus_infinity t = true
stamp_le (at s) minus_infinity = false
stamp_le (at s) (at t) = leb_ℤ s t

abbrev pub polled_before : MarketWatch → MarketWatch → Bool
polled_before a b = stamp_le a.last_polled b.last_polled

-- PostgreSQL refuses a negative LIMIT.
unfoldable pub due_for_poll : ℤ → ℤ → Action (List MarketWatch)
unfolding order_by ◌>>=◌
due_for_poll cutoff (negsuc n) = raise database_error
due_for_poll cutoff (pos batch_size) = query (λ db.
    take batch_size
      (order_by polled_before (select (λ w. stamp_before w.last_polled cutoff) db.watches)))

abbrev pub set_last_polled : ℤ → MarketWatch → MarketWatch
set_last_polled ts w = record w { last_polled = at ts }

unfoldable pub update_last_polled : ℕ → ℤ → Action Unit
unfolding ◌>>=◌
update_last_polled aoid ts =
    modify (λ db. record db { watches = update (is_watch aoid) (set_last_polled ts) db.watches })

abbrev pub unflag : MarketWatch → MarketWatch
unflag w = record w { auto_tracked = false }

unfoldable pub unflag_autotrack_not_in : List ℕ → Action Unit
unfolding ◌>>=◌
unflag_autotrack_not_in keep = modify (λ db. record db {
  watches = update (λ w. w.auto_tracked && not (any (λ a. a == w.aoid) keep)) unflag db.watches;
})

unfoldable pub existing_aoids : List ℕ → Action (List ℕ)
unfolding ◌>>=◌
existing_aoids aoids =
    query
      (λ db. map (λ w. MarketWatch.aoid w) (select (λ w. any (λ a. a == w.aoid) aoids) db.watches))

-- The columns of a poll's snapshot, but those that the database fills in.
pub record Snapshot : Type 0 where
  pub sell_count : ℕ
  pub buy_count : ℕ
  pub min_sell_price : ℕ
  pub max_buy_price : ℕ
  pub avg_sell_price : Average
  pub avg_buy_price : Average
  pub anchor_sell_count : ℕ
  pub anchor_buy_count : ℕ

abbrev pub new_history : ℕ → ℤ → ℕ → Snapshot → MarketHistory
new_history id ts aoid s = record {
  id = id;
  aoid = aoid;
  ts = ts;
  sell_count = s.sell_count;
  buy_count = s.buy_count;
  min_sell_price = s.min_sell_price;
  max_buy_price = s.max_buy_price;
  avg_sell_price = s.avg_sell_price;
  avg_buy_price = s.avg_buy_price;
  anchor_sell_count = s.anchor_sell_count;
  anchor_buy_count = s.anchor_buy_count;
}

abbrev pub add_history : ℤ → ℕ → Snapshot → Db → Db
add_history now aoid s db = record db {
  history = db.history ++ new_history db.next_id now aoid s ∷ [];
  next_id = db.next_id + 1;
}

-- The foreign key refuses a snapshot of an item that is not tracked.
unfoldable pub insert_snapshot : ℕ → Snapshot → Action Unit
unfolding ◌>>=◌
insert_snapshot aoid s = do
  now ← clock
  tracked ← query (λ db. has_watch db aoid)
  if tracked then modify (add_history now aoid s) else raise integrity_error

unfoldable pub prune_history : ℤ → Action Unit
unfolding ◌>>=◌
prune_history cutoff =
    modify (λ db. record db { history = delete (λ h. ltb_ℤ h.ts cutoff) db.history })
