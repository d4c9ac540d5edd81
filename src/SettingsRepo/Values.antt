-- ===== src/SettingsRepo/Values.antt =====
-- `_serialize` and `_deserialize` of settings_repo.py.
use aomarket_bot.Prelude.{
  ℕ, zero, ◌+◌, ◌-◌, ◌*◌, String, Bool, true, false, not, ◌&&◌, ◌||◌, Option, none, some, List, [],
  ◌∷◌, str_eq, leb, ◌==◌, if◌then◌else◌,
}
use aomarket_bot.Prelude.Int.{ℤ, pos, sub_ℕ}
use aomarket_bot.Prelude.Text.{codes, str_ℤ, blank}
use aomarket_bot.Db.{ValueType}
use aomarket_bot.Exec.{Result, ok, err, value_error}

-- A value of Python's union `bool | int | float | str`; a float by the text of its `repr`.
pub data SettingValue : Type 0 where
  bool : Bool → SettingValue
  int : ℤ → SettingValue
  float : String → SettingValue
  str : String → SettingValue

-- `str(value)`
abbrev pub text_of : SettingValue → String
text_of (SettingValue.bool b) = if b then "True" else "False"
text_of (SettingValue.int n) = str_ℤ n
text_of (SettingValue.float s) = s
text_of (SettingValue.str s) = s

-- `if value`
abbrev pub truthy : SettingValue → Bool
truthy (SettingValue.bool b) = b
truthy (SettingValue.int (pos zero)) = false
truthy (SettingValue.int _) = true
truthy (SettingValue.float s) = not (str_eq s "0.0" || str_eq s "-0.0")
truthy (SettingValue.str s) = not (str_eq s "")

unfoldable pub serialize : SettingValue → ValueType → String
serialize value ValueType.bool = if truthy value then "true" else "false"
serialize value _ = text_of value

unfoldable pub strip_left : List ℕ → List ℕ
strip_left [] = []
strip_left (c ∷ cs) = let rest = strip_left cs in if blank c then rest else c ∷ cs

all_space : List ℕ → Bool
all_space [] = true
all_space (c ∷ cs) = blank c && all_space cs

abbrev pub is_digit : ℕ → Bool
is_digit c = leb b'0' c && leb c b'9'

-- Decimal digits, with single underscores between them; white space may follow.
unfoldable pub int_digits : ℕ → Bool → List ℕ → Option ℕ
unfolding all_space
int_digits acc after_digit [] = if after_digit then some acc else none
int_digits acc after_digit (c ∷ cs) =
    let more = int_digits (acc * 10 + (c - 48)) true cs in
    let gap = int_digits acc false cs in
    if is_digit c
    then more
    else if after_digit && all_space (c ∷ cs)
    then some acc
    else if c == b'_' && (after_digit && not (all_space cs))
    then gap
    else none

unfoldable pub int_sign : List ℕ → Option ℤ
unfolding int_digits
int_sign [] = none
int_sign (c ∷ cs) =
    if c == b'-'
    then elim (int_digits 0 false cs) [ none ↦ none | some n ↦ some (sub_ℕ 0 n) ]
    else elim (if c == b'+' then int_digits 0 false cs else int_digits 0 false (c ∷ cs)) [
      | none ↦ none
      | some n ↦ some (pos n)
    ]

-- `int(text)`, on ASCII digits, fewer than the 4300 that Python refuses; `none` where it raises
-- ValueError
unfoldable pub parse_int : String → Option ℤ
unfolding int_sign strip_left
parse_int s = int_sign (strip_left (codes s))

unfoldable pub deserialize : String → ValueType → Result SettingValue
unfolding parse_int
deserialize value ValueType.bool = ok (SettingValue.bool (str_eq value "true"))
deserialize value ValueType.int = elim (parse_int value) [
  | none ↦ err value_error
  | some n ↦ ok (SettingValue.int n)
]
deserialize value ValueType.float = ok (SettingValue.float value)
deserialize value ValueType.str = ok (SettingValue.str value)
