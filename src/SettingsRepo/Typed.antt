-- ===== src/SettingsRepo/Typed.antt =====
-- A setting written by `set` and read back by `get`.
use aomarket_bot.Prelude.{
  String, ◌≡◌, refl, ap, Bool, true, false, Option, none, some, List, [], ◌∷◌, Option-cases, inl,
  inr, str_eq, arith, if◌then◌else◌,
}
use aomarket_bot.Prelude.Int.{ℤ}
use aomarket_bot.Prelude.Table.{find, update}
use aomarket_bot.Db.{Setting, ValueType, is_setting}
use aomarket_bot.Exec.{World, Result, ok, err, value_error, ◌>>=◌}
use aomarket_bot.SettingsRepo.Values.{
  SettingValue, serialize, deserialize, truthy, text_of, parse_int,
}
use aomarket_bot.SettingsRepo.{get, get_bool, get_int, get_str, set, get_row, write}

pub find-write :
    (now : ℤ) (value : SettingValue) (key : String) (ss : List Setting) {s : Setting}
    → find (is_setting key) ss ≡ some s
    → find (is_setting key) (update (is_setting key) (write now value) ss)
      ≡ some (write now value s)
find-write now value key [] h = cc
find-write now value key (t ∷ ss) {s} h = ground (arith, find-write now value key ss {s = s})

pub text_of_truth : (b : Bool) → str_eq (if b then "true" else "false") "true" ≡ b
text_of_truth true = refl
text_of_truth false = refl

-- What an integer setting reads as
abbrev pub as_integer : Option ℤ → Result ℤ
as_integer none = err value_error
as_integer (some n) = ok n

-- A value of any type written to a setting that is there is stored, and the setting keeps its type.
-- `get_bool` then reads the value's truth from a Boolean setting, `get_str` the value's text from a
-- text setting, and `get_int` the integer of the value's text from an integer setting, or it raises
-- ValueError where this text is no integer.
pub get_typed-set :
    (key : String) (value : SettingValue) (w : World) {s : Setting}
    → find (is_setting key) w.db.settings ≡ some s
    → ((set key value w).0 ≡ ok tt)
      × ((row : Setting) × (find (is_setting key) (set key value w).1.db.settings ≡ some row)
          × (row.value_type ≡ s.value_type))
      × (s.value_type ≡ ValueType.bool → (get_bool key (set key value w).1).0 ≡ ok (truthy value))
      × (s.value_type ≡ ValueType.str → (get_str key (set key value w).1).0 ≡ ok (text_of value))
      × (s.value_type ≡ ValueType.int
          → (get_int key (set key value w).1).0 ≡ as_integer (parse_int (text_of value)))
unfolding get_bool get_str get_int get set get_row serialize deserialize ◌>>=◌
get_typed-set key value w {s} row =
    let written = find-write w.now value key w.db.settings row in
    rw row (
      refl,
      (write w.now value s, written, refl),
      (λ t. rw written (rw t (ap ok (text_of_truth (truthy value))))),
      (λ t. rw written (rw t refl)),
      (λ t. rw written (
          rw t (elim (Option-cases (parse_int (text_of value))) [
            | inl e ↦ rw (e, deserialize) refl
            | inr (n, e) ↦ rw (e, deserialize) refl
          ]))),
    )
