-- ===== src/Regex.antt =====
-- The part of Python's `re` that the source uses, on latin-1 texts: a pattern is tried from
-- the left, a repetition takes as many rounds as it can, and gives them back one at a time where
-- the rest of the pattern fails. Letters match without regard to case.
pub mod Meaning
use Prim.Native.Char.{code}
use aomarket_bot.Prelude.{
  ℕ, zero, suc, ◌+◌, ◌-◌, String, Bool, true, false, ◌&&◌, ◌||◌, Option, none, some, List, [], ◌∷◌,
  ◌++◌, leb, ltb, ◌==◌, length, if◌then◌else◌,
}
use aomarket_bot.Prelude.Text.{codes, take_text, blank}

-- `either` is `|`, `optional` is `?`, `star` is `*`, `group` is a pair of parentheses that
-- captures, and `finish` is `$`.
pub data Regex : Type 0 where
  empty finish : Regex
  char : (ℕ → Bool) → Regex
  then either : Regex → Regex → Regex
  optional star group : Regex → Regex

abbrev pub plus : Regex → Regex
plus r = Regex.then r (star r)

-- Where a match stands: what is left of the text, and the captures so far
abbrev pub At : Type 0
At = String × List String

abbrev pub size : String → ℕ
size s = length (codes s)

-- What a group caught, from the text where it began and the text where it ends
abbrev pub caught : String → String → String
caught s rest = take_text (size s - size rest) s

abbrev pub or_else : {A : Type 0} → Option A → Option A → Option A
or_else (some a) b = some a
or_else none b = b

-- `$`: at the end, or before a newline that ends the text
abbrev pub at_end : String → Bool
at_end String.[] = true
at_end (String.◌∷◌ c String.[]) = code c == 10
at_end _ = false

abbrev pub step : (ℕ → Bool) → At → (At → Option (List String)) → Option (List String)
step p (String.[], caps) k = none
step p (String.◌∷◌ c s, caps) k = if p (code c) then k (s, caps) else none

-- The rounds of a repetition. A round that takes no character is not repeated.
unfoldable pub repeat :
    (At → (At → Option (List String)) → Option (List String))
    → ℕ
    → At
    → (At → Option (List String))
    → Option (List String)
repeat body zero a k = k a
repeat body (suc fuel) a k =
    elim (body a
      (λ b. elim (ltb (size b.0) (size a.0)) [ true ↦ repeat body fuel b k | false ↦ none ])) [
        | some caps ↦ some caps
        | none ↦ k a
      ]

-- A pattern from a place of the text on, before what `k` stands for: the captures of the first way
-- that succeeds
unfoldable pub run : Regex → At → (At → Option (List String)) → Option (List String)
unfolding repeat
run empty a k = k a
run finish a k = if at_end a.0 then k a else none
run (char p) a k = step p a k
run (Regex.then r q) a k = run r a (λ b. run q b k)
run (either r q) a k = or_else (run r a k) (run q a k)
run (optional r) a k = or_else (run r a k) (k a)
run (star r) a k = repeat (run r) (size a.0) a k
run (group r) a k = run r a (λ b. k (b.0, b.1 ++ caught a.0 b.0 ∷ []))

-- `pattern.match(text)`: the captures of its groups, or none
unfoldable pub match : Regex → String → Option (List String)
unfolding run
match r s = run r (s, []) (λ a. some a.1)

-- A word, letter by letter, under IGNORECASE
abbrev pub fold_case : ℕ → ℕ
fold_case c = if leb b'A' c && leb c b'Z' then c + 32 else c

abbrev pub letters : String → Regex
letters String.[] = empty
letters (String.◌∷◌ c s) = Regex.then (char (λ d. fold_case d == fold_case (code c))) (letters s)

-- `text.lower() == word`, for a word in lower case
abbrev pub lower_equal : String → String → Bool
lower_equal String.[] String.[] = true
lower_equal (String.◌∷◌ c s) (String.◌∷◌ d t) = fold_case (code c) == code d && lower_equal s t
lower_equal _ _ = false
