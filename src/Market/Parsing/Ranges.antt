-- ===== src/Market/Parsing/Ranges.antt =====
-- What `parse_range` of parsing.py accepts.
use aomarket_bot.Prelude.{
  ◌∙◌, ap, Bool-cases, Option-cases, ◌==◌, inl, inr, [], ◌∷◌, ◌++◌, ℕ, ◌≤◌, ◌≡◌, List, true, Option,
  none, some, arith,
}
use aomarket_bot.Exec.{Result, ok}
use aomarket_bot.Market.Parsing.{
  Range, in_order, bounds, side, parse_range, split_dash, strip, no_dash,
}

-- At least one bound is set, and two bounds are in order.
abbrev pub IsRange : Range → Type 0
IsRange (none, none) = ⊥
IsRange (none, some hi) = Unit
IsRange (some lo, none) = Unit
IsRange (some lo, some hi) = lo ≤ hi

in_order-IsRange : (lo hi : Option ℕ) (r : Range) → in_order lo hi ≡ some r → IsRange r
unfolding in_order
in_order-IsRange none none r h = cc
in_order-IsRange none (some hi) (none, some b) h = tt
in_order-IsRange none (some hi) (none, none) h = cc
in_order-IsRange none (some hi) (some a, b) h = cc
in_order-IsRange (some lo) none (some a, none) h = tt
in_order-IsRange (some lo) none (none, b) h = cc
in_order-IsRange (some lo) none (some a, some b) h = cc
in_order-IsRange (some lo) (some hi) (some a, some b) h = ground arith
in_order-IsRange (some lo) (some hi) (none, b) h = ground arith
in_order-IsRange (some lo) (some hi) (some a, none) h = ground arith

in_order-some : (lo hi : Option ℕ) {r : Range} → in_order lo hi ≡ some r → (lo ≡ r.0) × (hi ≡ r.1)
unfolding in_order
in_order-some none none h = ground arith
in_order-some none (some hi) h = (cc, cc)
in_order-some (some lo) none h = (cc, cc)
in_order-some (some lo) (some hi) h = ground arith

split_dash-some :
    (cs : List ℕ) {before after : List ℕ}
    → split_dash cs ≡ some (before, after)
    → (cs ≡ before ++ (b'-' ∷ after)) × (no_dash before ≡ true) × (no_dash after ≡ true)
unfolding split_dash no_dash
split_dash-some [] h = cc
split_dash-some (c ∷ cs) {before} {after} h = elim (Bool-cases (c == b'-')) [
  | inl dash ↦ ground arith
  | inr other ↦ elim (Option-cases (split_dash cs)) [
    | inl none_left ↦ ground (arith)
    | inr ((b, a), e) ↦ ground (arith, split_dash-some cs {before = b} {after = a} e)
  ]
]

bounds-some :
    (parser : List ℕ → Result (Option ℕ)) (before after : List ℕ) (r : Range)
    → bounds parser before after ≡ ok (some r)
    → (lo hi : Option ℕ) × (side parser before ≡ ok (some lo))
      × (side parser after ≡ ok (some hi))
      × (in_order lo hi ≡ some r)
unfolding bounds
bounds-some parser before after r h = ground arith

-- A range that `parse_range` gives has one bound at least, and its bounds in order; the text,
-- without white space around it, holds one dash, and each bound is what the parser makes of the
-- text on its side of the dash, or no bound where that side is blank.
pub parse_range-some :
    (spec : List ℕ) (parser : List ℕ → Result (Option ℕ)) (r : Range)
    → parse_range spec parser ≡ ok (some r)
    → (before after : List ℕ) × (strip spec ≡ before ++ (b'-' ∷ after))
      × (no_dash before ≡ true)
      × (no_dash after ≡ true)
      × (side parser before ≡ ok (some r.0))
      × (side parser after ≡ ok (some r.1))
      × IsRange r
unfolding parse_range
parse_range-some spec parser r h = elim (Option-cases (split_dash (strip spec))) [
  | inl without ↦ absurd (ground (arith, h, without))
  | inr ((before, after), e) ↦
      let (text, nb, na) = split_dash-some (strip spec) e in
      let (lo, hi, l, u, o) = bounds-some parser before after r (ground (arith, h, e)) in
      let (same_lo, same_hi) = in_order-some lo hi o in
      (
        before,
        after,
        text,
        nb,
        na,
        l ∙ ap (λ b. ok (some b)) same_lo,
        u ∙ ap (λ b. ok (some b)) same_hi,
        in_order-IsRange lo hi r o,
      )
]
