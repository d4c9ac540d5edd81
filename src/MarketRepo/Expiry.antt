-- ===== src/MarketRepo/Expiry.antt =====
-- `expire_stale_watch` of market_repo.py: exactly the stale rows go.
use aomarket_bot.Prelude.{
  ℕ, ◌≡◌, refl, ◌∙◌, Bool, true, false, ◌⊎◌, ◌↔◌, inl, inr, Bool-cases, not, ◌&&◌, List, [], ◌∷◌,
  map, ◌==◌, ==_refl, arith, All, All-mono, All-both,
}
use aomarket_bot.Prelude.Int.{ℤ, ◌≤ℤ◌, leb_ℤ, ltb_ℤ}
use aomarket_bot.Prelude.Table.{any, select, delete}
use aomarket_bot.Db.{MarketWatch, Stamp, minus_infinity, at, delete_watches}
use aomarket_bot.Db.Integrity.{WatchesOnce}
use aomarket_bot.Exec.{World, ok, ◌>>=◌}
use aomarket_bot.MarketRepo.Watches.{is_stale, greatest, expire_stale_watch}

abbrev pub aoid_of : MarketWatch → ℕ
aoid_of w = w.aoid

any-selected :
    (q : MarketWatch → Bool) (id : ℕ) (ws : List MarketWatch)
    → any (λ a. a == id) (map aoid_of (select q ws)) ≡ any (λ v. q v && v.aoid == id) ws
any-selected q id [] = refl
any-selected q id (v ∷ ws) = ground (arith, any-selected q id ws)

-- A row that shares its item with no other row
apart :
    (x : MarketWatch) (ws : List MarketWatch)
    → any (λ v. x.aoid == v.aoid) ws ≡ false
    → All (λ v. (x.aoid == v.aoid) ≡ false) ws
apart x [] h = tt
apart x (v ∷ ws) h = (ground (arith, h), apart x ws (ground (arith, h)))

not_selected :
    (q : MarketWatch → Bool) (x : MarketWatch) (ws : List MarketWatch)
    → any (λ v. x.aoid == v.aoid) ws ≡ false
    → any (λ v. q v && v.aoid == x.aoid) ws ≡ false
not_selected q x [] h = refl
not_selected q x (v ∷ ws) h = ground (arith, h, not_selected q x ws)

selected_alone :
    (q : MarketWatch → Bool) (ws : List MarketWatch)
    → WatchesOnce ws
    → All (λ w. any (λ v. q v && v.aoid == w.aoid) ws ≡ q w) ws
selected_alone q [] h = tt
selected_alone q (x ∷ ws) h = (
  rw (not_selected q x ws h.0) (ground (arith, ==_refl x.aoid)),
  All-mono (λ w. ((x.aoid == w.aoid) ≡ false) × (any (λ v. q v && v.aoid == w.aoid) ws ≡ q w)) _ ws
      (λ w e. ground (arith, e.0, e.1))
      (All-both _ _ ws (apart x ws h.0) (selected_alone q ws h.1)),
)

delete-same :
    (p q : MarketWatch → Bool) (ws : List MarketWatch)
    → All (λ w. p w ≡ q w) ws
    → delete p ws ≡ delete q ws
delete-same p q [] h = refl
delete-same p q (w ∷ ws) h = ground (arith, h.0, delete-same p q ws h.1)

-- A row that an expiry keeps: an auto-tracked one, and one that was first seen or last polled at
-- the cutoff or later
abbrev pub IsKept : ℤ → MarketWatch → Type 0
IsKept cutoff v =
    (v.auto_tracked ≡ true)
    ⊎ ((cutoff ≤ℤ v.first_seen) ⊎ ((t : ℤ) × (v.last_polled ≡ at t) × (cutoff ≤ℤ t)))

greatest-le :
    (polled : Stamp) (seen cutoff : ℤ)
    → cutoff ≤ℤ greatest polled seen
    → (cutoff ≤ℤ seen) ⊎ ((t : ℤ) × (polled ≡ at t) × (cutoff ≤ℤ t))
greatest-le minus_infinity seen cutoff h = inl h
greatest-le (at t) seen cutoff h = elim (Bool-cases (leb_ℤ t seen)) [
  | inl earlier ↦ inl (rw earlier at h)
  | inr later ↦ inr (t, refl, rw later at h)
]

fresh-le :
    (flag : Bool) (g cutoff : ℤ) → flag ≡ false → not flag && ltb_ℤ g cutoff ≡ false → cutoff ≤ℤ g
fresh-le flag g cutoff f h = ground (arith, f, h)

not_stale : (flag : Bool) (g cutoff : ℤ) → cutoff ≤ℤ g → not flag && ltb_ℤ g cutoff ≡ false
not_stale flag g cutoff h = ground (arith, h)

IsKept-is_stale : (cutoff : ℤ) (v : MarketWatch) → is_stale cutoff v ≡ false → IsKept cutoff v
IsKept-is_stale cutoff v h = elim (Bool-cases v.auto_tracked) [
  | inl flagged ↦ inl flagged
  | inr unflagged ↦ inr (
      greatest-le v.last_polled v.first_seen cutoff
        (fresh-le v.auto_tracked (greatest v.last_polled v.first_seen) cutoff unflagged h))
]

polled-greatest : (t seen cutoff : ℤ) → cutoff ≤ℤ t → cutoff ≤ℤ greatest (at t) seen
polled-greatest t seen cutoff h = elim (Bool-cases (leb_ℤ t seen)) [
  | inl earlier ↦ rw earlier (ground (arith, earlier, h))
  | inr later ↦ rw later h
]

seen-greatest : (polled : Stamp) (seen cutoff : ℤ) → cutoff ≤ℤ seen → cutoff ≤ℤ greatest polled seen
seen-greatest minus_infinity seen cutoff h = h
seen-greatest (at t) seen cutoff h = elim (Bool-cases (leb_ℤ t seen)) [
  | inl earlier ↦ rw earlier h
  | inr later ↦ rw later (ground (arith, later, h))
]

is_stale-IsKept : (cutoff : ℤ) (v : MarketWatch) → IsKept cutoff v → is_stale cutoff v ≡ false
is_stale-IsKept cutoff v (inl flagged) = rw flagged refl
is_stale-IsKept cutoff v (inr (inl seen)) =
    not_stale v.auto_tracked (greatest v.last_polled v.first_seen) cutoff
      (seen-greatest v.last_polled v.first_seen cutoff seen)
is_stale-IsKept cutoff v (inr (inr (t, e, h))) =
    not_stale v.auto_tracked (greatest v.last_polled v.first_seen) cutoff
      (rw e (polled-greatest t v.first_seen cutoff h))

-- Where no item has two rows, the expiry keeps exactly the rows that are auto-tracked, or were first
-- seen or last polled at the cutoff or later: it removes all others, and returns their items.
pub expire_stale_watch-watches :
    (cutoff : ℤ) (w : World)
    → WatchesOnce w.db.watches
    → (stale : MarketWatch → Bool) × ((v : MarketWatch) → (stale v ≡ false) ↔ IsKept cutoff v)
      × ((expire_stale_watch cutoff w).0 ≡ ok (map aoid_of (select stale w.db.watches)))
      × ((expire_stale_watch cutoff w).1.db.watches ≡ delete stale w.db.watches)
unfolding expire_stale_watch delete_watches ◌>>=◌
expire_stale_watch-watches cutoff w once = (
  is_stale cutoff,
  (λ v. (IsKept-is_stale cutoff v, is_stale-IsKept cutoff v)),
  refl,
  delete-same _ (is_stale cutoff) w.db.watches (
      All-mono _ _ w.db.watches (λ v e. any-selected (is_stale cutoff) v.aoid w.db.watches ∙ e)
        (selected_alone (is_stale cutoff) w.db.watches once)),
)
