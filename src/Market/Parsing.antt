-- ===== src/Market/Parsing.antt =====
-- src/aomarket/market/parsing.py, over the code points of a text. Letters are read as
-- ASCII.
pub mod Ranges
use aomarket_bot.Prelude.{
  ℕ, zero, suc, ◌+◌, ◌-◌, ◌*◌, String, Bool, true, false, not, ◌&&◌, ◌||◌, Option, none, some, List,
  [], ◌∷◌, ◌++◌, leb, ltb, ◌==◌, if◌then◌else◌,
}
use aomarket_bot.Prelude.Text.{◌<>◌, blank}
use aomarket_bot.Exec.{Result, ok, err, and_then}
use aomarket_bot.Market.Env.{Floats}

-- `abs(value) >= unit`, on prices, which are not negative
unfoldable pub format_credits : Floats → ℕ → String
format_credits f value =
    if leb 1000000000 value
    then f.tenths value 1000000000 <> "b"
    else if leb 1000000 value
    then f.tenths value 1000000 <> "m"
    else if leb 1000 value
    then f.tenths value 1000 <> "k"
    else f.grouped value

abbrev pub is_digit : ℕ → Bool
is_digit c = leb b'0' c && leb c b'9'

unfoldable pub strip_left : List ℕ → List ℕ
strip_left [] = []
strip_left (c ∷ cs) = let rest = strip_left cs in if blank c then rest else c ∷ cs

unfoldable pub strip_right : List ℕ → List ℕ
strip_right [] = []
strip_right (c ∷ cs) = elim (strip_right cs) [
  | [] ↦ if blank c then [] else c ∷ []
  | d ∷ ds ↦ c ∷ d ∷ ds
]

-- `value.strip()`
unfoldable pub strip : List ℕ → List ℕ
unfolding strip_left strip_right
strip cs = strip_right (strip_left cs)

-- The digits at the front, and the rest
unfoldable pub span_digits : List ℕ → List ℕ × List ℕ
span_digits [] = ([], [])
span_digits (c ∷ cs) =
    let (ds, rest) = span_digits cs in if is_digit c then (c ∷ ds, rest) else ([], c ∷ cs)

-- `(?:\.[0-9]+)?` after the digits `ds`: `rest` begins with the dot.
with_fraction : List ℕ → List ℕ → List ℕ × List ℕ → List ℕ × List ℕ
with_fraction ds rest ([], _) = (ds, rest)
with_fraction ds rest (f ∷ fs, after) = (ds ++ (b'.' ∷ f ∷ fs), after)

-- `[0-9]+(?:\.[0-9]+)?` from the digits at the front
number_from : List ℕ × List ℕ → Option (List ℕ × List ℕ)
unfolding span_digits with_fraction
number_from ([], rest) = none
number_from (d ∷ ds, []) = some (d ∷ ds, [])
number_from (d ∷ ds, c ∷ rest) =
    some (
      if c == b'.'
      then with_fraction (d ∷ ds) (c ∷ rest) (span_digits rest)
      else (d ∷ ds, c ∷ rest))

credit_number : List ℕ → Option (List ℕ × List ℕ)
unfolding span_digits number_from
credit_number cs = number_from (span_digits cs)

-- _MULTIPLIERS, with 1 for no suffix
multiplier : List ℕ → Option ℕ
multiplier [] = some 1
multiplier (c ∷ []) =
    if c == b'k' || c == b'K'
    then some 1000
    else if c == b'm' || c == b'M'
    then some 1000000
    else if c == b'b' || c == b'B'
    then some 1000000000
    else none
multiplier _ = none

unfoldable pub parse_credits : Floats → List ℕ → Result (Option ℕ)
unfolding credit_number multiplier strip
parse_credits f value = elim (credit_number (strip value)) [
  | none ↦ ok none
  | some (number, rest) ↦ elim (multiplier (strip_left rest)) [
    | none ↦ ok none
    | some m ↦ and_then (f.scaled number m) (λ n. ok (some n))
  ]
]

unfoldable pub decimal_value : ℕ → List ℕ → Option ℕ
decimal_value acc [] = some acc
decimal_value acc (c ∷ cs) =
    let more = decimal_value (acc * 10 + (c - 48)) cs in if is_digit c then more else none

unfoldable pub parse_ql : List ℕ → Result (Option ℕ)
unfolding strip decimal_value
parse_ql value = elim (strip value) [ [] ↦ ok none | c ∷ cs ↦ ok (decimal_value 0 (c ∷ cs)) ]

-- `^([^-]*)-([^-]*)$`: the two sides of the one dash.
unfoldable pub no_dash : List ℕ → Bool
no_dash [] = true
no_dash (c ∷ cs) = not (c == b'-') && no_dash cs

unfoldable pub split_dash : List ℕ → Option (List ℕ × List ℕ)
unfolding no_dash
split_dash [] = none
split_dash (c ∷ cs) =
    let rest = split_dash cs in
    if c == b'-'
    then if no_dash cs then some ([], cs) else none
    else elim rest [ none ↦ none | some (before, after) ↦ some (c ∷ before, after) ]

-- One side: no bound if it is blank; `none` if it cannot be parsed.
unfoldable pub side : (List ℕ → Result (Option ℕ)) → List ℕ → Result (Option (Option ℕ))
unfolding strip
side parser raw = elim (strip raw) [
  | [] ↦ ok (some none)
  | c ∷ cs ↦
      and_then (parser (c ∷ cs))
        (λ parsed. ok (elim parsed [ none ↦ none | some n ↦ some (some n) ]))
]

abbrev pub Range : Type 0
Range = Option ℕ × Option ℕ

unfoldable pub in_order : Option ℕ → Option ℕ → Option Range
in_order none none = none
in_order none (some hi) = some (none, some hi)
in_order (some lo) none = some (some lo, none)
in_order (some lo) (some hi) = if ltb hi lo then none else some (some lo, some hi)

unfoldable pub bounds : (List ℕ → Result (Option ℕ)) → List ℕ → List ℕ → Result (Option Range)
unfolding side in_order
bounds parser before after = and_then (side parser before) (λ lo. elim lo [
  | none ↦ ok none
  | some min_value ↦
      and_then (side parser after)
        (λ hi. elim hi [ none ↦ ok none | some max_value ↦ ok (in_order min_value max_value) ])
])

unfoldable pub parse_range : List ℕ → (List ℕ → Result (Option ℕ)) → Result (Option Range)
unfolding split_dash bounds strip
parse_range spec parser = elim (split_dash (strip spec)) [
  | none ↦ ok none
  | some (before, after) ↦ bounds parser before after
]
