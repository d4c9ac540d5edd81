-- ===== src/SettingsRepo/Numerals.antt =====
-- Integer settings: `str(n)` stored, and read back by `int`.
use aomarket_bot.Prelude.{
  ℕ, zero, suc, ◌+◌, ◌*◌, ◌/◌, ◌%◌, ◌<◌, String, ◌≡◌, refl, sym, ap, ◌∙◌, Bool, true, false, some,
  List, [], ◌∷◌, ◌++◌, arith, ltb, Bool-cases, inl, inr,
}
use mathlib.Core.Path.{subst}
use Prim.Native.String.append
use Prim.Native.Char.{code}
use aomarket_bot.Prelude.Int.{ℤ, pos, negsuc}
use aomarket_bot.Prelude.Text.{codes, digit, decimal, str, str_ℤ, ◌<>◌}
use aomarket_bot.Prelude.Table.{find}
use aomarket_bot.Db.{Setting, ValueType, is_setting}
use aomarket_bot.Exec.{World, ok, ◌>>=◌}
use aomarket_bot.SettingsRepo.Values.{
  SettingValue, int_digits, int_sign, strip_left, is_digit, parse_int, serialize, deserialize,
}
use aomarket_bot.SettingsRepo.Typed.{find-write}
use aomarket_bot.SettingsRepo.{get, get_int, set, get_row}

append_assoc : (xs ys zs : List ℕ) → (xs ++ ys) ++ zs ≡ xs ++ (ys ++ zs)
append_assoc [] ys zs = refl
append_assoc (x ∷ xs) ys zs = ap (λ l. x ∷ l) (append_assoc xs ys zs)

append_nil : (xs : List ℕ) → xs ++ [] ≡ xs
append_nil [] = refl
append_nil (x ∷ xs) = ap (λ l. x ∷ l) (append_nil xs)

ended : (n : ℕ) → int_digits n true [] ≡ some n
unfolding int_digits
ended n = refl

codes-append : (s t : String) → codes (s <> t) ≡ codes s ++ codes t
codes-append String.[] t = ap codes (append.nil t)
codes-append (String.◌∷◌ c s) t =
    ap codes (append.cons c s t) ∙ ap (λ cs. code c ∷ cs) (codes-append s t)

int_digits-digit :
    (d acc : ℕ) (b : Bool) (rest : List ℕ)
    → d < 10
    → int_digits acc b (codes (digit d) ++ rest) ≡ int_digits (acc * 10 + d) true rest
unfolding int_digits digit
int_digits-digit zero acc b rest h = refl
int_digits-digit (suc zero) acc b rest h = refl
int_digits-digit (suc (suc zero)) acc b rest h = refl
int_digits-digit (suc (suc (suc zero))) acc b rest h = refl
int_digits-digit (suc (suc (suc (suc zero)))) acc b rest h = refl
int_digits-digit (suc (suc (suc (suc (suc zero))))) acc b rest h = refl
int_digits-digit (suc (suc (suc (suc (suc (suc zero)))))) acc b rest h = refl
int_digits-digit (suc (suc (suc (suc (suc (suc (suc zero))))))) acc b rest h = refl
int_digits-digit (suc (suc (suc (suc (suc (suc (suc (suc zero)))))))) acc b rest h = refl
int_digits-digit (suc (suc (suc (suc (suc (suc (suc (suc (suc zero))))))))) acc b rest h = refl
int_digits-digit (suc (suc (suc (suc (suc (suc (suc (suc (suc (suc d)))))))))) acc b rest h =
    absurd (ground (arith, h))

int_digits-decimal :
    (fuel n : ℕ) (b : Bool) (rest : List ℕ)
    → n < fuel
    → int_digits 0 b (codes (decimal fuel n) ++ rest) ≡ int_digits n true rest
unfolding decimal
int_digits-decimal zero n b rest h = absurd (ground (arith, h))
int_digits-decimal (suc fuel) n b rest h = elim (Bool-cases (ltb n 10)) [
  | inl one ↦ rw one (
      int_digits-digit n 0 b rest (ground (arith, one))
      ∙ ap (λ m. int_digits m true rest) (omega arith))
  | inr more ↦ rw more (
      ap (λ cs. int_digits 0 b (cs ++ rest)) (codes-append (decimal fuel (n / 10)) (digit (n % 10)))
      ∙ ap (int_digits 0 b)
          (append_assoc (codes (decimal fuel (n / 10))) (codes (digit (n % 10))) rest)
      ∙ int_digits-decimal fuel (n / 10) b _ (ground (arith, more, h))
      ∙ int_digits-digit (n % 10) (n / 10) true rest (ground arith)
      ∙ ap (λ m. int_digits m true rest) (omega arith))
]

-- A text that begins with a digit
abbrev Numeral : List ℕ → Type 0
Numeral [] = ⊥
Numeral (c ∷ cs) = is_digit c ≡ true

digit-Numeral : (d : ℕ) → d < 10 → Numeral (codes (digit d))
unfolding digit
digit-Numeral zero h = refl
digit-Numeral (suc zero) h = refl
digit-Numeral (suc (suc zero)) h = refl
digit-Numeral (suc (suc (suc zero))) h = refl
digit-Numeral (suc (suc (suc (suc zero)))) h = refl
digit-Numeral (suc (suc (suc (suc (suc zero))))) h = refl
digit-Numeral (suc (suc (suc (suc (suc (suc zero)))))) h = refl
digit-Numeral (suc (suc (suc (suc (suc (suc (suc zero))))))) h = refl
digit-Numeral (suc (suc (suc (suc (suc (suc (suc (suc zero)))))))) h = refl
digit-Numeral (suc (suc (suc (suc (suc (suc (suc (suc (suc zero))))))))) h = refl
digit-Numeral (suc (suc (suc (suc (suc (suc (suc (suc (suc (suc d)))))))))) h =
    absurd (ground (arith, h))

append-Numeral : (xs ys : List ℕ) → Numeral xs → Numeral (xs ++ ys)
append-Numeral [] ys h = absurd h
append-Numeral (x ∷ xs) ys h = h

decimal-Numeral : (fuel n : ℕ) → n < fuel → Numeral (codes (decimal fuel n))
unfolding decimal
decimal-Numeral zero n h = absurd (ground (arith, h))
decimal-Numeral (suc fuel) n h = elim (Bool-cases (ltb n 10)) [
  | inl one ↦ rw one (digit-Numeral n (ground (arith, one)))
  | inr more ↦ rw more (
      subst Numeral (sym (codes-append (decimal fuel (n / 10)) (digit (n % 10))))
        (append-Numeral _ _ (decimal-Numeral fuel (n / 10) (ground (arith, more, h)))))
]

-- `int` of a text of digits, and of one after a minus sign
Numeral-strip : (cs : List ℕ) → Numeral cs → strip_left cs ≡ cs
unfolding strip_left
Numeral-strip [] h = absurd h
Numeral-strip (c ∷ cs) h = ground (arith, h)

Numeral-sign :
    (cs : List ℕ) {n : ℕ} → Numeral cs → int_digits 0 false cs ≡ some n → int_sign cs ≡ some (pos n)
unfolding int_sign
Numeral-sign [] h e = absurd h
Numeral-sign (c ∷ cs) h e = ground (arith, h, e)

str-int_digits : (n : ℕ) → int_digits 0 false (codes (str n)) ≡ some n
unfolding str
str-int_digits n =
    ap (int_digits 0 false) (sym (append_nil (codes (decimal (n + 1) n))))
    ∙ int_digits-decimal (n + 1) n false [] (ground arith)
    ∙ ended n

str-Numeral : (n : ℕ) → Numeral (codes (str n))
unfolding str
str-Numeral n = decimal-Numeral (n + 1) n (ground arith)

negative-sign :
    (cs : List ℕ) {n : ℕ}
    → int_digits 0 false cs ≡ some (n + 1)
    → int_sign (strip_left (b'-' ∷ cs)) ≡ some (negsuc n)
unfolding int_sign strip_left
negative-sign cs e = rw e (ap some (ground arith))

pub parse_int-str_ℤ : (n : ℤ) → parse_int (str_ℤ n) ≡ some n
unfolding parse_int str_ℤ
parse_int-str_ℤ (pos n) =
    ap int_sign (Numeral-strip (codes (str n)) (str-Numeral n))
    ∙ Numeral-sign (codes (str n)) (str-Numeral n) (str-int_digits n)
parse_int-str_ℤ (negsuc n) =
    ap (λ cs. int_sign (strip_left cs)) (codes-append "-" (str (n + 1)))
    ∙ negative-sign (codes (str (n + 1))) (str-int_digits (n + 1))

-- An integer of either sign written to an integer setting that is there is read back by `get_int`,
-- through the decimal text that the table keeps.
pub get_int-set :
    (key : String) (n : ℤ) (w : World) {s : Setting}
    → find (is_setting key) w.db.settings ≡ some s
    → s.value_type ≡ ValueType.int
    → ((set key (SettingValue.int n) w).0 ≡ ok tt)
      × ((get_int key (set key (SettingValue.int n) w).1).0 ≡ ok n)
unfolding get_int get set get_row serialize deserialize ◌>>=◌
get_int-set key n w {s} row typed = rw row (
  refl,
  rw (find-write w.now (SettingValue.int n) key w.db.settings row)
      (rw typed (rw (parse_int-str_ℤ n, deserialize) refl)),
)
