-- ===== src/Exec/Raises.antt =====
-- The errors that an action may raise: one rule for each way to build one.
use aomarket_bot.Prelude.{
  ◌≡◌, refl, Bool, true, false, Option, none, if◌then◌else◌, Option-cases, inl, inr,
}
use mathlib.Core.Path.{subst}
use aomarket_bot.Db.{Db}
use aomarket_bot.Exec.{
  Error, Result, ok, err, World, Action, pure, lift, query, ◌>>=◌, catch, recovered, continue,
}

pub record Raises {A : Type 0} (Q : Error → Type 0) (m : Action A) : Type 0 where
  pub errors : (w : World) (e : Error) → (m w).0 ≡ err e → Q e

module _ {A : Type 0} where
  pub ok_is_no_error : {a : A} {e : Error} → ◌≡◌ {A = Result A} (ok a) (err e) → ⊥
  ok_is_no_error h = cc

  pub err_same : {e e' : Error} → ◌≡◌ {A = Result A} (err e) (err e') → e ≡ e'
  err_same h = cc

module _ {A : Type 0} {Q : Error → Type 0} where
  pub Raises-pure : (a : A) → Raises Q (pure a)
  unfolding pure
  Raises-pure a = record { errors = λ w e h. absurd (ok_is_no_error h) }

  pub Raises-query : (f : Db → A) → Raises Q (query f)
  unfolding query
  Raises-query f = record { errors = λ w e h. absurd (ok_is_no_error h) }

  pub Raises-if :
      (b : Bool) (m n : Action A) → Raises Q m → Raises Q n → Raises Q (if b then m else n)
  Raises-if true m n km kn = km
  Raises-if false m n km kn = kn

  pub Raises-lift : (r : Result A) → ((e : Error) → r ≡ err e → Q e) → Raises Q (lift r)
  unfolding lift
  Raises-lift r k = record { errors = λ w e h. k e h }

  recovered-errors :
      (handler : Error → Option A) (r : Result A) (e : Error)
      → ((e : Error) → handler e ≡ none → Q e)
      → recovered handler r ≡ err e
      → Q e
  recovered-errors handler (ok a) e k h = absurd (ok_is_no_error h)
  recovered-errors handler (err e') e k h = elim (Option-cases (handler e')) [
    | inl n ↦ subst Q (err_same (rw (n, recovered) at h)) (k e' n)
    | inr (a, s) ↦ absurd (ok_is_no_error (rw (s, recovered) at h))
  ]

  -- An `except` leaves the errors that it does not name.
  pub Raises-catch :
      (handler : Error → Option A) (m : Action A)
      → ((e : Error) → handler e ≡ none → Q e)
      → Raises Q (catch handler m)
  unfolding catch
  Raises-catch handler m k = record { errors = λ w e h. recovered-errors handler (m w).0 e k h }

module _ {A B : Type 0} {Q : Error → Type 0} where
  continue-errors :
      (r : Result A) (f : A → Action B) (w : World) (e : Error)
      → ((e' : Error) → r ≡ err e' → Q e')
      → ((a : A) → Raises Q (f a))
      → (continue r f w).0 ≡ err e
      → Q e
  continue-errors (ok a) f w e km kf h = (kf a).errors w e h
  continue-errors (err e') f w e km kf h = subst Q (err_same h) (km e' refl)

  pub Raises-bind :
      (m : Action A) (f : A → Action B)
      → Raises Q m
      → ((a : A) → Raises Q (f a))
      → Raises Q (m >>= f)
  unfolding ◌>>=◌
  Raises-bind m f km kf = record {
    errors = λ w e h. continue-errors (m w).0 f (m w).1 e (km.errors w) kf h;
  }

pub ruleset raises_rules = (Raises-pure, Raises-query, Raises-if, Raises-bind)
