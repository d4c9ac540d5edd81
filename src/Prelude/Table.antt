-- ===== src/Prelude/Table.antt =====
-- A table is the list of its rows, in the order of insertion. A condition is a Boolean function
-- of a row; these are the readings of SELECT, DELETE, UPDATE and count(*) with a WHERE clause.
use Prim.Native.Nat.{ℕ, ◌+◌}
use mathlib.Core.Path.{◌≡◌, refl, fun_ext, ap, ◌∙◌}
use mathlib.Core.Bool.{Bool, true, false, not, ◌&&◌, ◌||◌}
use mathlib.Core.Logic.{inl, inr}
use mathlib.Core.Option.{Option, none, some}
use mathlib.Core.List.{List, [], ◌∷◌, ◌++◌}
use native.Mathlib.Omega.{arith}
use aomarket_bot.Prelude.Tests.{if◌then◌else◌, Bool-cases, is_some}
use aomarket_bot.Prelude.Lists.{All, length}

module _ {ℓ} {A : Type ℓ} where
  -- EXISTS
  abbrev pub any : (A → Bool) → List A → Bool
  any p [] = false
  any p (x ∷ xs) = p x || any p xs

  -- SELECT … WHERE p
  abbrev pub select : (A → Bool) → List A → List A
  select p [] = []
  select p (x ∷ xs) = let rest = select p xs in if p x then x ∷ rest else rest

  -- the first row that meets the condition
  abbrev pub find : (A → Bool) → List A → Option A
  find p [] = none
  find p (x ∷ xs) = if p x then some x else find p xs

  -- DELETE … WHERE p
  abbrev pub delete : (A → Bool) → List A → List A
  delete p = select (λ x. not (p x))

  -- UPDATE … SET f WHERE p
  abbrev pub update : (A → Bool) → (A → A) → List A → List A
  update p f [] = []
  update p f (x ∷ xs) = (if p x then f x else x) ∷ update p f xs

  -- SELECT count(*) WHERE p
  abbrev pub count : (A → Bool) → List A → ℕ
  count p xs = length (select p xs)

  -- No two rows are the same by `same`.
  abbrev pub Unique : (A → A → Bool) → List A → Type 0
  Unique same [] = Unit
  Unique same (x ∷ xs) = (any (same x) xs ≡ false) × Unique same xs

module _ {ℓ} {A : Type ℓ} where
  pub any-append : (p : A → Bool) (xs ys : List A) → any p (xs ++ ys) ≡ any p xs || any p ys
  any-append p [] ys = refl
  any-append p (x ∷ xs) ys = ground (arith, any-append p xs ys)

  pub any-append_left : (p : A → Bool) (xs ys : List A) → any p xs ≡ true → any p (xs ++ ys) ≡ true
  any-append_left p xs ys h = ground (arith, any-append p xs ys)

  pub any-update :
      (p q : A → Bool) (f : A → A) (xs : List A)
      → ((x : A) → p (f x) ≡ p x)
      → any p (update q f xs) ≡ any p xs
  any-update p q f [] same = refl
  any-update p q f (x ∷ xs) same = ground (arith, same x, any-update p q f xs same)

  -- A row that is deleted for no reason stays.
  pub any-delete :
      (p q : A → Bool) (xs : List A)
      → any p xs ≡ true
      → any (λ x. q x && p x) xs ≡ false
      → any p (delete q xs) ≡ true
  any-delete p q [] h n = h
  any-delete p q (x ∷ xs) h n = ground (arith, any-delete p q xs)

  pub any-select-false :
      (p q : A → Bool) (xs : List A) → any p xs ≡ false → any p (select q xs) ≡ false
  any-select-false p q [] h = refl
  any-select-false p q (x ∷ xs) h = ground (arith, any-select-false p q xs)

  -- No row is left that the condition of a DELETE holds of.
  pub any-delete_self : (p : A → Bool) (xs : List A) → any p (delete p xs) ≡ false
  any-delete_self p [] = refl
  any-delete_self p (x ∷ xs) = ground (arith, any-delete_self p xs)

  -- A DELETE leaves alone what a condition selects that excludes its own.
  pub select-delete :
      (p q : A → Bool) (xs : List A)
      → ((x : A) → p x ≡ true → q x ≡ false)
      → select p (delete q xs) ≡ select p xs
  select-delete p q [] apart = refl
  select-delete p q (x ∷ xs) apart = ground (arith, apart x, select-delete p q xs apart)

  pub select-append :
      (p : A → Bool) (xs ys : List A) → select p (xs ++ ys) ≡ select p xs ++ select p ys
  select-append p [] ys = refl
  select-append p (x ∷ xs) ys = ground (arith, select-append p xs ys)

  -- Nothing is selected exactly when no row meets the condition.
  pub select-nil : (p : A → Bool) (xs : List A) → any p xs ≡ false → select p xs ≡ []
  select-nil p [] h = refl
  select-nil p (x ∷ xs) h = ground (arith, select-nil p xs)

  pub any_of_select : (p : A → Bool) (xs : List A) → select p xs ≡ [] → any p xs ≡ false
  any_of_select p [] h = refl
  any_of_select p (x ∷ xs) h = ground (arith, any_of_select p xs)

  pub find-none : (p : A → Bool) (xs : List A) → find p xs ≡ none → any p xs ≡ false
  find-none p [] h = refl
  find-none p (x ∷ xs) h = ground (arith, find-none p xs)

  pub find-some :
      (p : A → Bool) (xs : List A) {x : A} → find p xs ≡ some x → (p x ≡ true) × (any p xs ≡ true)
  find-some p [] h = cc
  find-some p (y ∷ ys) {x} h = ground (arith, find-some p ys {x = x})

  pub is_some-find : (p : A → Bool) (xs : List A) → is_some (find p xs) ≡ any p xs
  is_some-find p [] = refl
  is_some-find p (x ∷ xs) = ground (arith, is_some-find p xs)

  pub Unique-select :
      (same : A → A → Bool) (q : A → Bool) (xs : List A)
      → Unique same xs
      → Unique same (select q xs)
  Unique-select same q [] u = tt
  Unique-select same q (x ∷ xs) u = elim (Bool-cases (q x)) [
    | inl keep ↦ rw keep (any-select-false (same x) q xs u.0, Unique-select same q xs u.1)
    | inr skip ↦ rw skip (Unique-select same q xs u.1)
  ]

  pub Unique-append :
      (same : A → A → Bool) (r : A) (xs : List A)
      → any (λ x. same x r) xs ≡ false
      → Unique same xs
      → Unique same (xs ++ r ∷ [])
  Unique-append same r [] n u = (refl, tt)
  Unique-append same r (x ∷ xs) n u =
      (ground (arith, any-append (same x) xs (r ∷ [])), Unique-append same r xs (ground arith) u.1)

  pub Unique-update :
      (same : A → A → Bool) (q : A → Bool) (f : A → A) (xs : List A)
      → ((x y : A) → same (f x) y ≡ same x y)
      → ((x y : A) → same x (f y) ≡ same x y)
      → Unique same xs
      → Unique same (update q f xs)
  Unique-update same q f [] l r u = tt
  Unique-update same q f (x ∷ xs) l r u = elim (Bool-cases (q x)) [
    | inl e ↦ rw e (
      rw (any-update (same (f x)) q f xs (r (f x))) (rw (fun_ext (l x)) u.0),
      Unique-update same q f xs l r u.1,
    )
    | inr e ↦ rw e (rw (any-update (same x) q f xs (r x)) u.0, Unique-update same q f xs l r u.1)
  ]

  module _ {κ} (P : A → Type κ) where
    pub All-select : (q : A → Bool) (xs : List A) → All P xs → All P (select q xs)
    All-select q [] h = tt
    All-select q (x ∷ xs) h = elim (Bool-cases (q x)) [
      | inl e ↦ rw e (h.0, All-select q xs h.1)
      | inr e ↦ rw e (All-select q xs h.1)
    ]

    pub All-update :
        (q : A → Bool) (f : A → A) (xs : List A)
        → ((x : A) → P x → P (f x))
        → All P xs
        → All P (update q f xs)
    All-update q f [] keep h = tt
    All-update q f (x ∷ xs) keep h = elim (Bool-cases (q x)) [
      | inl e ↦ rw e (keep x h.0, All-update q f xs keep h.1)
      | inr e ↦ rw e (h.0, All-update q f xs keep h.1)
    ]

  -- What a DELETE keeps may use that the condition failed.
  pub All-delete {κ ι} :
      (P : A → Type κ) (Q : A → Type ι) (q : A → Bool) (xs : List A)
      → ((x : A) → q x ≡ false → P x → Q x)
      → All P xs
      → All Q (delete q xs)
  All-delete P Q q [] keep h = tt
  All-delete P Q q (x ∷ xs) keep h = elim (Bool-cases (q x)) [
    | inl e ↦ rw e (All-delete P Q q xs keep h.1)
    | inr e ↦ rw e (keep x e h.0, All-delete P Q q xs keep h.1)
  ]

module _ {ℓ} {A : Type ℓ} where
  insert_by : (A → A → Bool) → A → List A → List A
  insert_by le x [] = x ∷ []
  insert_by le x (y ∷ ys) = let rest = insert_by le x ys in if le x y then x ∷ y ∷ ys else y ∷ rest

  -- ORDER BY, stable: rows that tie keep the order of the table.
  unfoldable pub order_by : (A → A → Bool) → List A → List A
  unfolding insert_by
  order_by le [] = []
  order_by le (x ∷ xs) = insert_by le x (order_by le xs)

  any-insert_by :
      (p : A → Bool) (le : A → A → Bool) (x : A) (xs : List A)
      → any p (insert_by le x xs) ≡ p x || any p xs
  unfolding insert_by
  any-insert_by p le x [] = refl
  any-insert_by p le x (y ∷ ys) = ground (arith, any-insert_by p le x ys)

  -- A sorted answer has the same rows.
  pub any-order_by :
      (p : A → Bool) (le : A → A → Bool) (xs : List A) → any p (order_by le xs) ≡ any p xs
  unfolding order_by
  any-order_by p le [] = refl
  any-order_by p le (x ∷ xs) =
      any-insert_by p le x (order_by le xs) ∙ ap (λ b. p x || b) (any-order_by p le xs)

  length-insert_by :
      (le : A → A → Bool) (x : A) (xs : List A) → length (insert_by le x xs) ≡ length xs + 1
  unfolding insert_by
  length-insert_by le x [] = refl
  length-insert_by le x (y ∷ ys) = ground (arith, length-insert_by le x ys)

  pub length-order_by : (le : A → A → Bool) (xs : List A) → length (order_by le xs) ≡ length xs
  unfolding order_by
  length-order_by le [] = refl
  length-order_by le (x ∷ xs) =
      ground (arith, length-insert_by le x (order_by le xs), length-order_by le xs)
