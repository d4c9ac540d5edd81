-- ===== src/Regex/Meaning.antt =====
-- What a pattern matches, as a relation between places of a text, and the backtracking search
-- against it.
use aomarket_bot.Prelude.{
  ℕ, zero, suc, ◌≤◌, ◌<◌, String, ◌≡◌, refl, ◌∙◌, Bool, true, false, Option, none, some, List, [],
  ◌∷◌, ◌++◌, ltb, arith, Bool-cases, Option-cases, inl, inr, is_some,
}
use mathlib.Core.Path.{subst}
use Prim.Native.Char.{code}
use aomarket_bot.Regex.{
  Regex, empty, finish, char, either, optional, star, group, At, size, caught, at_end, step,
  or_else, repeat, run, match,
}

-- `Matches r a b`: the pattern `r` takes the text from the place `a` to the place `b`. A round of
-- a repetition takes a character at least.
pub data Matches : Regex → At → At → Type 0 where
  nothing : {a : At} → Matches empty a a
  at_finish : {a : At} → at_end a.0 ≡ true → Matches finish a a
  one :
      {p : ℕ → Bool} {c : _} {s : String} {caps : List String}
      → p (code c) ≡ true
      → Matches (char p) (String.◌∷◌ c s, caps) (s, caps)
  in_turn :
      {r q : Regex} {a b c : At} → Matches r a b → Matches q b c → Matches (Regex.then r q) a c
  left : {r q : Regex} {a b : At} → Matches r a b → Matches (either r q) a b
  right : {r q : Regex} {a b : At} → Matches q a b → Matches (either r q) a b
  skipped : {r : Regex} {a : At} → Matches (optional r) a a
  taken : {r : Regex} {a b : At} → Matches r a b → Matches (optional r) a b
  done : {r : Regex} {a : At} → Matches (star r) a a
  again :
      {r : Regex} {a b c : At}
      → Matches r a b
      → size b.0 < size a.0
      → Matches (star r) b c
      → Matches (star r) a c
  captured :
      {r : Regex} {a b : At} → Matches r a b → Matches (group r) a (b.0, b.1 ++ caught a.0 b.0 ∷ [])

-- A search for what `k` accepts after a match
abbrev pub Search : Type 0
Search = At → (At → Option (List String)) → Option (List String)

-- What a search finds comes after a match.
abbrev pub Sound : Regex → Search → Type 0
Sound r body =
    (a : At) (k : At → Option (List String)) (caps : List String)
    → body a k ≡ some caps
    → (b : At) × Matches r a b × (k b ≡ some caps)

-- Where a match leads to something, a search finds something.
abbrev pub Complete : Regex → Search → Type 0
Complete r body =
    (a b : At) (k : At → Option (List String))
    → Matches r a b
    → is_some (k b) ≡ true
    → is_some (body a k) ≡ true

abbrev round : Search → ℕ → At → (At → Option (List String)) → At → Option (List String)
round body fuel a k b = elim (ltb (size b.0) (size a.0)) [
  | true ↦ repeat body fuel b k
  | false ↦ none
]

none_is_not : {caps : List String} → ◌≡◌ {A = Option (List String)} none (some caps) → ⊥
none_is_not e = cc

none_found : is_some {A = List String} none ≡ true → ⊥
none_found e = ground (arith, e)

some_same : {x y : List String} → ◌≡◌ {A = Option (List String)} (some x) (some y) → x ≡ y
some_same e = cc

repeat-Sound :
    (r : Regex) (body : Search) → Sound r body → (fuel : ℕ) → Sound (star r) (repeat body fuel)
unfolding repeat
repeat-Sound r body sound zero a k caps h = (a, done, h)
repeat-Sound r body sound (suc fuel) a k caps h =
    elim (Option-cases (body a (round body fuel a k))) [
      | inl fails ↦ (a, done, rw (fails, repeat) at h)
      | inr (found, e) ↦
          let (b, m, after) = sound a (round body fuel a k) found e in
          let same = rw (e, repeat) at h in
          elim (Bool-cases (ltb (size b.0) (size a.0))) [
            | inr stays ↦ absurd (none_is_not (rw (stays, round) at after))
            | inl smaller ↦
                let (c, ms, ends) =
                  repeat-Sound r body sound fuel b k found (rw (smaller, round) at after) in
                (c, again m (ground (arith, smaller)) ms, ends ∙ same)
          ]
    ]

step-Sound : (p : ℕ → Bool) → Sound (char p) (step p)
step-Sound p (String.[], cs) k caps h = absurd (none_is_not h)
step-Sound p (String.◌∷◌ c s, cs) k caps h = elim (Bool-cases (p (code c))) [
  | inl fits ↦ ((s, cs), one fits, rw fits at h)
  | inr fails ↦ absurd (none_is_not (rw fails at h))
]

run-Sound : (r : Regex) → Sound r (run r)
unfolding run
run-Sound empty a k caps h = (a, nothing, h)
run-Sound finish a k caps h = elim (Bool-cases (at_end a.0)) [
  | inl ends ↦ (a, at_finish ends, rw ends at h)
  | inr more ↦ absurd (none_is_not (rw more at h))
]
run-Sound (char p) a k caps h = step-Sound p a k caps h
run-Sound (Regex.then r q) a k caps h =
    let (b, m, e) = run-Sound r a _ caps h in
    let (c, n, f) = run-Sound q b k caps e in (c, in_turn m n, f)
run-Sound (either r q) a k caps h = elim (Option-cases (run r a k)) [
  | inl fails ↦ let (b, m, e) = run-Sound q a k caps (rw fails at h) in (b, right m, e)
  | inr (found, e) ↦ let (b, m, f) = run-Sound r a k found e in (b, left m, f ∙ (rw e at h))
]
run-Sound (optional r) a k caps h = elim (Option-cases (run r a k)) [
  | inl fails ↦ (a, skipped, rw fails at h)
  | inr (found, e) ↦ let (b, m, f) = run-Sound r a k found e in (b, taken m, f ∙ (rw e at h))
]
run-Sound (star r) a k caps h = repeat-Sound r (run r) (run-Sound r) (size a.0) a k caps h
run-Sound (group r) a k caps h =
    let (b, m, e) = run-Sound r a _ caps h in ((b.0, b.1 ++ caught a.0 b.0 ∷ []), captured m, e)

repeat-Complete :
    (r : Regex) (body : Search)
    → Complete r body
    → (fuel : ℕ) (a b : At) (k : At → Option (List String)) → size a.0 ≤ fuel
    → Matches (star r) a b
    → is_some (k b) ≡ true
    → is_some (repeat body fuel a k) ≡ true
unfolding repeat
repeat-Complete r body complete zero a b k enough done h = h
repeat-Complete r body complete zero a b k enough (again m lt ms) h =
    absurd (ground (arith, lt, enough))
repeat-Complete r body complete (suc fuel) a b k enough done h =
    elim (Option-cases (body a (round body fuel a k))) [
      | inl fails ↦ rw (fails, repeat) h
      | inr (found, e) ↦ rw (e, repeat) refl
    ]
repeat-Complete r body complete (suc fuel) a b k enough (again {b = c} m lt ms) h =
    let rest = repeat-Complete r body complete fuel c b k (ground (arith, lt, enough)) ms h in
    let smaller : ltb (size c.0) (size a.0) ≡ true = ground (arith, lt) in
    let goes = complete a c (round body fuel a k) m (rw (smaller, round) rest) in
    elim (Option-cases (body a (round body fuel a k))) [
      | inl fails ↦ absurd (none_found (rw fails at goes))
      | inr (found, e) ↦ rw (e, repeat) refl
    ]

or_else-first : (x y : Option (List String)) → is_some x ≡ true → is_some (or_else x y) ≡ true
or_else-first none y h = absurd (none_found h)
or_else-first (some caps) y h = refl

or_else-second : (x y : Option (List String)) → is_some y ≡ true → is_some (or_else x y) ≡ true
or_else-second none y h = h
or_else-second (some caps) y h = refl

run-Complete : (r : Regex) → Complete r (run r)
unfolding run
run-Complete empty a b k nothing h = h
run-Complete finish a b k (at_finish ends) h = rw ends h
run-Complete (char p) a b k (one fits) h = rw fits h
run-Complete (Regex.then r q) a b k (in_turn {b = c} m n) h =
    run-Complete r a c (λ d. run q d k) m (run-Complete q c b k n h)
run-Complete (either r q) a b k (left m) h =
    or_else-first (run r a k) (run q a k) (run-Complete r a b k m h)
run-Complete (either r q) a b k (right m) h =
    or_else-second (run r a k) (run q a k) (run-Complete q a b k m h)
run-Complete (optional r) a b k skipped h = or_else-second (run r a k) (k a) h
run-Complete (optional r) a b k (taken m) h =
    or_else-first (run r a k) (k a) (run-Complete r a b k m h)
run-Complete (star r) a b k m h =
    repeat-Complete r (run r) (run-Complete r) (size a.0) a b k (ground arith) m h
run-Complete (group r) a b k (captured {b = c} m) h =
    run-Complete r a c (λ d. k (d.0, d.1 ++ caught a.0 d.0 ∷ [])) m h

-- The search implements the relation: what it returns are the captures of a match that begins at
-- the start of the text, and it returns some exactly where there is such a match.
pub match-Matches :
    (r : Regex) (s : String)
    → ((caps : List String)
        → match r s ≡ some caps
        → (rest : String) × Matches r (s, []) (rest, caps))
      × ((b : At) → Matches r (s, []) b → is_some (match r s) ≡ true)
unfolding match
match-Matches r s = (
  λ caps e.
      let (b, m, f) = run-Sound r (s, []) _ caps e in
      (b.0, subst (λ c. Matches r (s, []) (b.0, c)) (some_same f) m),
  λ b m. run-Complete r (s, []) b _ m refl,
)
