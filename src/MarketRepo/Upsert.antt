-- ===== src/MarketRepo/Upsert.antt =====
-- `upsert_watch` of market_repo.py, read back by `get_watch`.
use aomarket_bot.Prelude.{
  sym, ap, ◌∙◌, Option-cases, ℕ, String, ◌≡◌, refl, inl, inr, Bool, true, false, not, ◌==◌, ◌++◌,
  Option, none, some, List, [], ◌∷◌, ==_refl, arith, is_some,
}
use aomarket_bot.Prelude.Int.{ℤ}
use aomarket_bot.Prelude.Table.{find, update, is_some-find}
use aomarket_bot.Db.{MarketWatch, minus_infinity, is_watch, has_watch}
use aomarket_bot.Exec.{World, ok, ◌>>=◌}
use aomarket_bot.MarketRepo.Watches.{upsert_watch, get_watch, new_watch, refresh_watch}

-- What becomes of an item by an upsert, from the row before to the row `r` after: a new row was
-- never polled and has the flag of the call; an old row keeps its times, and a call sets its flag
-- or leaves it.
abbrev pub IsUpserted :
    ℕ → String → ℕ → Option ℕ → Bool → ℤ → Option MarketWatch → MarketWatch → Type 0
IsUpserted aoid name ql icon auto now none r =
    (r.aoid ≡ aoid)
    × (r.name ≡ name)
    × (r.ql ≡ ql)
    × (r.icon ≡ icon)
    × (r.first_seen ≡ now)
    × (r.last_polled ≡ minus_infinity)
    × (r.auto_tracked ≡ auto)
IsUpserted aoid name ql icon auto now (some old) r =
    (r.aoid ≡ old.aoid)
    × (r.name ≡ name)
    × (r.ql ≡ ql)
    × (r.icon ≡ icon)
    × (r.first_seen ≡ old.first_seen)
    × (r.last_polled ≡ old.last_polled)
    × (auto ≡ true → r.auto_tracked ≡ true)
    × (auto ≡ false → r.auto_tracked ≡ old.auto_tracked)

module _ (aoid : ℕ) (name : String) (ql : ℕ) (icon : Option ℕ) (auto : Bool) where
  find-update :
      (ws : List MarketWatch)
      → find (is_watch aoid) (update (is_watch aoid) (refresh_watch name ql icon auto) ws)
        ≡ elim (find (is_watch aoid) ws) [
          | none ↦ none
          | some old ↦ some (refresh_watch name ql icon auto old)
        ]
  find-update [] = refl
  find-update (w ∷ ws) = ground (arith, find-update ws)

  find-append :
      (ws : List MarketWatch) (w : MarketWatch)
      → find (is_watch aoid) ws ≡ none
      → is_watch aoid w ≡ true
      → find (is_watch aoid) (ws ++ w ∷ []) ≡ some w
  find-append [] w h e = rw e refl
  find-append (v ∷ ws) w h e = ground (arith, find-append ws w)

  -- The rows of other items are found as before.
  find-update_other :
      (other : ℕ) (ws : List MarketWatch)
      → (other == aoid) ≡ false
      → find (is_watch other) (update (is_watch aoid) (refresh_watch name ql icon auto) ws)
        ≡ find (is_watch other) ws
  find-update_other other [] h = refl
  find-update_other other (w ∷ ws) h = ground (arith, h, find-update_other other ws)

  find-append_other :
      (other : ℕ) (ws : List MarketWatch) (w : MarketWatch)
      → is_watch other w ≡ false
      → find (is_watch other) (ws ++ w ∷ []) ≡ find (is_watch other) ws
  find-append_other other [] w h = rw h refl
  find-append_other other (v ∷ ws) w h = ground (arith, find-append_other other ws w h)

  refresh_watch-IsUpserted :
      (old : MarketWatch) (now : ℤ)
      → IsUpserted aoid name ql icon auto now (some old) (refresh_watch name ql icon auto old)
  refresh_watch-IsUpserted old now =
      (refl, refl, refl, refl, refl, refl, (λ e. rw e refl), (λ e. rw e refl))

  -- An upsert reports a new item exactly when the item had no row. Afterwards the item has a row
  -- under the name, quality and icon of the call: a new one, first seen now, never polled and with
  -- the flag of the call, or the old one with its times as they were, flagged as auto-tracked
  -- where the call says so and as before where it does not. The rows found for other items are the
  -- same as before.
  pub get_watch-upsert_watch :
      (w : World)
      → (row : MarketWatch) × ((upsert_watch aoid name ql icon auto w).0
          ≡ ok (not (has_watch w.db aoid)))
        × ((get_watch aoid (upsert_watch aoid name ql icon auto w).1).0 ≡ ok (some row))
        × IsUpserted aoid name ql icon auto w.now (find (is_watch aoid) w.db.watches) row
        × ((other : ℕ)
            → (other == aoid) ≡ false
            → (get_watch other (upsert_watch aoid name ql icon auto w).1).0 ≡ (get_watch other w).0)
  unfolding upsert_watch get_watch ◌>>=◌
  get_watch-upsert_watch w = elim (Option-cases (find (is_watch aoid) w.db.watches)) [
    | inl new ↦
        let untracked = sym (is_some-find (is_watch aoid) w.db.watches) ∙ ap is_some new in
        let row = new_watch aoid name ql icon auto w.now in
        (
          row,
          rw (untracked, new) refl,
          rw untracked (ap ok (find-append w.db.watches row new (==_refl aoid))),
          rw new (refl, refl, refl, refl, refl, refl, refl),
          λ other h.
              rw untracked (ap ok (find-append_other other w.db.watches row (ground (arith, h)))),
        )
    | inr (old, e) ↦
        let tracked = sym (is_some-find (is_watch aoid) w.db.watches) ∙ ap is_some e in
        (
          refresh_watch name ql icon auto old,
          rw tracked (ap (λ o. ok (not (is_some o))) e),
          rw tracked (ap ok (find-update w.db.watches ∙ rw e refl)),
          rw e (refresh_watch-IsUpserted old w.now),
          λ other h. rw tracked (ap ok (find-update_other other w.db.watches h)),
        )
  ]
