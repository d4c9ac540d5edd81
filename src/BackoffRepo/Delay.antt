-- ===== src/BackoffRepo/Delay.antt =====
-- `_next_retry_at` of aodb_backoff_repo.py, in microseconds. Python's `timedelta` has at most
-- 999999999 days, and a product past that raises OverflowError, before `min` can cap it.
use Prim.Native.Nat.{min}
use native.Mathlib.Nat.{pow-le-pow_right}
use aomarket_bot.Prelude.{
  ℕ, ◌*◌, ◌/◌, ◌^◌, ◌≤◌, ◌<◌, true, false, ◌≡◌, refl, inl, inr, Bool-cases, arith, ltb, leb,
  if◌then◌else◌,
}
use aomarket_bot.Prelude.Int.{ℤ, pos, ◌+ℤ◌}
use aomarket_bot.Exec.{Result, ok, err, overflow_error}

-- _BASE_DELAY
abbrev pub base_delay : ℕ
base_delay = 3600 * 1000000

-- _MAX_DELAY
abbrev pub max_delay : ℕ
max_delay = 7 * 86400 * 1000000

-- timedelta.max, plus a microsecond
abbrev pub timedelta_limit : ℕ
timedelta_limit = 1000000000 * 86400 * 1000000

-- Half of `2 ** failure_count` is `2 ** (failure_count - 1)`, which is 0.5 for a count of 0; the
-- callers pass 1 or more.
unfoldable pub next_retry_at : ℕ → ℤ → Result ℤ
next_retry_at failure_count now =
    let product = base_delay * 2 ^ failure_count / 2 in
    if ltb product timedelta_limit
    then ok (now +ℤ pos (min product max_delay))
    else err overflow_error

ltb-true : (a b : ℕ) → a < b → ltb a b ≡ true
ltb-true a b h = ground arith

ltb-false : (a b : ℕ) → b ≤ a → ltb a b ≡ false
ltb-false a b h = ground arith

pow2_mono : (k n : ℕ) → k ≤ n → 2 ^ k ≤ 2 ^ n
pow2_mono k n h = pow-le-pow_right (omega arith) h

-- What the source's comment promises, 1h, 2h, 4h, … capped at 7 days, holds up to the 35th
-- failure; from the 36th on the product leaves the range of `timedelta` and the call raises.
pub next_retry_at-schedule :
    (n : ℕ) (now : ℤ)
    → next_retry_at n now ≡ (
        if leb n 35
        then ok (now +ℤ pos (min (base_delay * 2 ^ n / 2) max_delay))
        else err overflow_error)
unfolding next_retry_at
next_retry_at-schedule n now = elim (Bool-cases (leb n 35)) [
  | inl few ↦
      rw
        (
          few,
          ltb-true (base_delay * 2 ^ n / 2) timedelta_limit
              (omega (arith, pow2_mono n 35 (ground arith))),
        )
        refl
  | inr many ↦
      rw
        (
          many,
          ltb-false (base_delay * 2 ^ n / 2) timedelta_limit
              (omega (arith, pow2_mono 36 n (ground arith))),
        )
        refl
]

-- From a count of 1 on, every delay lies between an hour and seven days.
pub next_retry_at_bounds :
    (n : ℕ) (now : ℤ) {t : ℤ}
    → 1 ≤ n
    → next_retry_at n now ≡ ok t
    → (d : ℕ) × (t ≡ now +ℤ pos d) × (base_delay ≤ d) × (d ≤ max_delay)
unfolding next_retry_at
next_retry_at_bounds n now some_ h = (
  min (base_delay * 2 ^ n / 2) max_delay,
  ground arith,
  omega (arith, pow2_mono 1 n (omega arith)),
  omega arith,
)
