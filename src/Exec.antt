-- ===== src/Exec.antt =====
-- Methods that read and write the database, send chat messages and raise. Each repository method
-- commits before it returns, so what was written before a raise stays written: the world comes
-- back beside the error too.
-- The errors are those of src/aomarket/market/errors.py, of src/aomarket/db/settings_repo.py, and
-- the exceptions of Python and of the libraries that no method here catches.
pub mod Keeps
pub mod Raises
use aomarket_bot.Prelude.{
  sym, ap, ◌∙◌, ℕ, String, ◌≡◌, refl, ◌⊎◌, inl, inr, Bool, true, false, List, [], ◌∷◌, ◌++◌, Option,
  none, some, if◌then◌else◌,
}
use aomarket_bot.Prelude.Int.{ℤ}
use aomarket_bot.Db.{Db}

pub data Error : Type 0 where
  market_disabled : Error
  unknown_item : ℕ → Error
  already_registered : String → Error
  not_registered : String → Error
  already_watching : ℕ → Error
  not_watching : ℕ → Error
  subscription_limit : ℤ → Error
  invalid_range : String → Error
  no_activity : String → Error
  unknown_setting : String → Error
  value_error assertion_error overflow_error integrity_error database_error : Error
  http_error connection_error : Error
  key_error index_error struct_error incomplete_read login_error : Error

-- `isinstance(e, MarketError)`, by the classes of errors.py
abbrev pub is_market_error : Error → Bool
is_market_error market_disabled = true
is_market_error (unknown_item aoid) = true
is_market_error (already_registered player) = true
is_market_error (not_registered player) = true
is_market_error (already_watching aoid) = true
is_market_error (not_watching aoid) = true
is_market_error (subscription_limit limit) = true
is_market_error (invalid_range spec) = true
is_market_error (no_activity player) = true
is_market_error _ = false

pub data Result (A : Type 0) : Type 0 where
  ok : A → Result A
  err : Error → Result A

pub Result-cases :
    {A : Type 0} (r : Result A) → ((a : A) × (r ≡ ok a)) ⊎ ((e : Error) × (r ≡ err e))
Result-cases (ok a) = inl (a, refl)
Result-cases (err e) = inr (e, refl)

-- A step of a pure computation that may raise.
abbrev pub and_then : {A B : Type 0} → Result A → (A → Result B) → Result B
and_then (ok a) f = f a
and_then (err e) f = err e

-- What went out to the chat: a reply goes to a character by its number.
pub data Message : Type 0 where
  privgroup : String → Message
  tell : String → String → Message
  reply : ℕ → String → Message

-- `now` is the time at which a method runs, by the process's clock and the database's.
pub record World : Type 0 where
  pub db : Db
  pub now : ℤ
  pub outbox : List Message

abbrev pub Action : Type 0 → Type 0
Action A = World → Result A × World

module _ {A : Type 0} where
  pub pure : A → Action A
  pure a w = (ok a, w)

  pub raise : Error → Action A
  raise e w = (err e, w)

  pub lift : Result A → Action A
  lift r w = (r, w)

  pub query : (Db → A) → Action A
  query f w = (ok (f w.db), w)

pub clock : Action ℤ
clock w = (ok w.now, w)

pub modify : (Db → Db) → Action (Unit {0})
modify f w = (ok tt, record w { db = f w.db })

pub send : Message → Action (Unit {0})
send m w = (ok tt, record w { outbox = w.outbox ++ m ∷ [] })

module _ {A B : Type 0} where
  abbrev pub continue : Result A → (A → Action B) → Action B
  continue (ok a) f w = f a w
  continue (err e) f w = (err e, w)

  infixl 5 ◌>>=◌ ◌>>◌
  -- Opening this opens the actions above too.
  unfoldable pub ◌>>=◌ : Action A → (A → Action B) → Action B
  unfolding pure raise lift query clock modify send
  ◌>>=◌ m f w = let (r, w') = m w in continue r f w'

  pub bind-ok :
      (m : Action A) (f : A → Action B) (w : World) {a : A} {w' : World}
      → m w ≡ (ok a, w')
      → (m >>= f) w ≡ f a w'
  unfolding ◌>>=◌
  bind-ok m f w e = rw e refl

  -- The result of a call that only changes what another returns
  pub bind-pure :
      (m : Action A) (f : A → B) (w : World) {a : A}
      → (m w).0 ≡ ok a
      → ((m >>= λ x. pure (f x)) w).0 ≡ ok (f a)
  unfolding ◌>>=◌
  bind-pure m f w e = rw e refl

  abbrev pub ◌>>◌ : Action A → Action B → Action B
  m >> n = m >>= λ _. n

-- A call that returned had a first part that returned.
pub bind-inv :
    {A B : Type 0} (m : Action A) (f : A → Action B) (w : World) {b : B}
    → ((m >>= f) w).0 ≡ ok b
    → (a : A) × ((m w).0 ≡ ok a) × ((m >>= f) w ≡ f a (m w).1)
unfolding ◌>>=◌
bind-inv {B = B} m f w {b} h = elim (Result-cases (m w).0) [
  | inl (a, e) ↦ (a, e, ap (λ r. continue r f (m w).1) e)
  | inr (fault, e) ↦ absurd (apart fault (sym (ap (λ r. (continue r f (m w).1).0) e) ∙ h))
]
  where
    apart : (fault : Error) → ◌≡◌ {A = Result B} (err fault) (ok b) → ⊥
    apart fault e = cc

-- A call of a callback that may be unset, and that may raise.
unfoldable pub or_skip : Option (Action (Unit {0})) → Action (Unit {0})
unfolding pure
or_skip none = pure tt
or_skip (some act) = act

-- What an `except` makes of the outcome: the handler answers the errors that it names.
abbrev pub recovered : {A : Type 0} → (Error → Option A) → Result A → Result A
recovered handler (ok a) = ok a
recovered handler (err e) = elim (handler e) [ some a ↦ ok a | none ↦ err e ]

-- `try: m` with an `except`
unfoldable pub catch : {A : Type 0} → (Error → Option A) → Action A → Action A
catch handler m w = let (r, w') = m w in (recovered handler r, w')

-- `for x in xs: body(x)`
unfoldable pub for_each {ℓ} : {A : Type ℓ} → List A → (A → Action (Unit {0})) → Action (Unit {0})
for_each [] body = pure tt
for_each (x ∷ xs) body = do body x; for_each xs body
