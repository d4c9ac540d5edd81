-- ===== src/Exec/Keeps.antt =====
-- What an action keeps true, whether it returns or raises: one rule for each way to build one.
use aomarket_bot.Prelude.{Option, Bool, true, false, List, [], ◌∷◌, if◌then◌else◌}
use aomarket_bot.Db.{Db}
use aomarket_bot.Exec.{
  Error, Result, ok, err, World, Action, pure, raise, lift, query, clock, ◌>>=◌, for_each, catch,
}

pub record Keeps {A : Type 0} (P : World → Type 0) (m : Action A) : Type 0 where
  pub run : (w : World) → P w → P (m w).1

module _ {A : Type 0} {P : World → Type 0} where
  pub Keeps-pure : (a : A) → Keeps P (pure a)
  unfolding pure
  Keeps-pure a = record { run = λ w h. h }

  pub Keeps-raise : (e : Error) → Keeps P (raise {A = A} e)
  unfolding raise
  Keeps-raise e = record { run = λ w h. h }

  pub Keeps-lift : (r : Result A) → Keeps P (lift r)
  unfolding lift
  Keeps-lift r = record { run = λ w h. h }

  pub Keeps-query : (f : Db → A) → Keeps P (query f)
  unfolding query
  Keeps-query f = record { run = λ w h. h }

  pub Keeps-if : (b : Bool) (m n : Action A) → Keeps P m → Keeps P n → Keeps P (if b then m else n)
  Keeps-if true m n km kn = km
  Keeps-if false m n km kn = kn

module _ {P : World → Type 0} where
  pub Keeps-clock : Keeps P clock
  unfolding clock
  Keeps-clock = record { run = λ w h. h }

module _ {A B : Type 0} {P : World → Type 0} where
  Keeps-continue :
      (r : Result A) (f : A → Action B) (w : World)
      → ((a : A) → Keeps P (f a))
      → P w
      → P (let (r', w') = (lift r >>= f) w in w')
  unfolding ◌>>=◌
  Keeps-continue (ok a) f w kf h = (kf a).run w h
  Keeps-continue (err e) f w kf h = h

  pub Keeps-bind :
      (m : Action A) (f : A → Action B) → Keeps P m → ((a : A) → Keeps P (f a)) → Keeps P (m >>= f)
  unfolding ◌>>=◌
  Keeps-bind m f km kf = record {
    run = λ w h. let (r, w') = m w in Keeps-continue r f w' kf (km.run w h);
  }

pub Keeps-catch :
    {A : Type 0} {P : World → Type 0} (handler : Error → Option A) (m : Action A)
    → Keeps P m
    → Keeps P (catch handler m)
unfolding catch
Keeps-catch handler m k = record { run = λ w h. k.run w h }

pub Keeps-for_each {ℓ} :
    {A : Type ℓ} {P : World → Type 0} (xs : List A) (body : A → Action (Unit {0}))
    → ((x : A) → Keeps P (body x))
    → Keeps P (for_each xs body)
unfolding for_each
Keeps-for_each [] body k = Keeps-pure tt
Keeps-for_each (x ∷ xs) body k =
    Keeps-bind (body x) (λ _. for_each xs body) (k x) (λ _. Keeps-for_each xs body k)

pub ruleset keeps_rules = (
  Keeps-pure, Keeps-raise, Keeps-lift, Keeps-query, Keeps-if, Keeps-clock, Keeps-bind,
  Keeps-for_each, Keeps-catch,
)
