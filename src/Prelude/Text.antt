-- ===== src/Prelude/Text.antt =====
-- Python's texts: `str(n)`, `text.replace`, and the code points of a text.
use Prim.Native.Nat.{ℕ, zero, suc, ◌+◌, ◌/◌, ◌%◌}
use Prim.Native.Char.{code}
use Prim.Native.String.{String}
pub use Prim.Native.String.{◌++◌ as ◌<>◌}
use mathlib.Core.List.{List, [], ◌∷◌}
use mathlib.Core.Bool.{Bool, true, false, ◌&&◌, ◌||◌}
use aomarket_bot.Prelude.Tests.{ltb, leb, ◌==◌, if◌then◌else◌}
use aomarket_bot.Prelude.Int.{ℤ, pos, negsuc}

abbrev pub codes : String → List ℕ
codes String.[] = []
codes (String.◌∷◌ c s) = code c ∷ codes s

unfoldable pub digit : ℕ → String
digit n =
    if n == 0
    then "0"
    else if n == 1
    then "1"
    else if n == 2
    then "2"
    else if n == 3
    then "3"
    else if n == 4
    then "4"
    else if n == 5
    then "5"
    else if n == 6
    then "6"
    else if n == 7
    then "7"
    else if n == 8
    then "8"
    else "9"

-- A number has at most as many digits as its value plus one.
unfoldable pub decimal : ℕ → ℕ → String
unfolding digit
decimal zero n = ""
decimal (suc fuel) n =
    let rest = decimal fuel (n / 10) in if ltb n 10 then digit n else rest <> digit (n % 10)

-- `str(n)`
unfoldable pub str : ℕ → String
unfolding decimal
str n = decimal (n + 1) n

unfoldable pub str_ℤ : ℤ → String
unfolding str
str_ℤ (pos n) = str n
str_ℤ (negsuc n) = "-" <> str (n + 1)

-- `text.replace("_", " ")`
unfoldable pub spaces : String → String
spaces String.[] = ""
spaces (String.◌∷◌ c s) = if code c == 95 then " " <> spaces s else String.◌∷◌ c (spaces s)

-- The first characters of a text
abbrev pub take_text : ℕ → String → String
take_text zero s = ""
take_text (suc n) String.[] = ""
take_text (suc n) (String.◌∷◌ c s) = String.◌∷◌ c (take_text n s)

-- `str.isspace` on a character
abbrev pub blank : ℕ → Bool
blank c =
    c == 32
    || (leb 9 c && leb c 13)
    || (leb 28 c && leb c 31)
    || c == 133
    || c == 160
    || c == 5760
    || (leb 8192 c && leb c 8202)
    || (leb 8232 c && leb c 8233)
    || c == 8239
    || c == 8287
    || c == 12288

abbrev pub strip_start : String → String
strip_start String.[] = ""
strip_start (String.◌∷◌ c s) =
    let rest = strip_start s in if blank (code c) then rest else String.◌∷◌ c s

abbrev pub strip_end : String → String
strip_end String.[] = ""
strip_end (String.◌∷◌ c s) = elim (strip_end s) [
  | String.[] ↦ if blank (code c) then "" else String.◌∷◌ c ""
  | String.◌∷◌ d rest ↦ String.◌∷◌ c (String.◌∷◌ d rest)
]

-- `text.strip()`
unfoldable pub strip_text : String → String
strip_text s = strip_end (strip_start s)

-- `sep.join(texts)`
unfoldable pub join : String → List String → String
join sep [] = ""
join sep (s ∷ []) = s
join sep (s ∷ t ∷ rest) = s <> sep <> join sep (t ∷ rest)

-- `s <= t`, by code points
abbrev pub text_le : String → String → Bool
text_le String.[] t = true
text_le (String.◌∷◌ c s) String.[] = false
text_le (String.◌∷◌ c s) (String.◌∷◌ d t) =
    let rest = text_le s t in
    if ltb (code c) (code d) then true else if code c == code d then rest else false
