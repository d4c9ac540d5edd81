-- ===== src/Market/Commands/Order.antt =====
-- Which command a message is: the first whose pattern matches it.
use aomarket_bot.Prelude.{
  String, ◌≡◌, ap, sym, ◌∙◌, true, Option, none, some, List, [], ◌∷◌, ◌++◌, All, Option-cases, inl,
  inr, is_some, arith,
}
use mathlib.Core.Path.{subst}
use aomarket_bot.Regex.{At, match}
use aomarket_bot.Regex.Meaning.{Matches, match-Matches}
use aomarket_bot.Market.Commands.{Command, pattern_of, patterns, first_match}

-- No way to match the message
abbrev pub Unmatched : String → Command → Type 0
Unmatched msg c = (b : At) → Matches (pattern_of c) (msg, []) b → ⊥

-- `c` is the first of the commands whose pattern matches, and `groups` are what its groups caught.
abbrev pub IsFirst : List Command → String → Command → List String → Type 0
IsFirst cs msg c groups =
    (before : List Command) × (after : List Command) × (cs ≡ before ++ c ∷ after)
    × All (Unmatched msg) before
    × ((rest : String) × Matches (pattern_of c) (msg, []) (rest, groups))

unmatched : (msg : String) (c : Command) → match (pattern_of c) msg ≡ none → Unmatched msg c
unmatched msg c e b m =
    absurd (nothing_found (ap is_some (sym e) ∙ (match-Matches (pattern_of c) msg).1 b m))
  where
    nothing_found : is_some {A = List String} none ≡ true → ⊥
    nothing_found h = ground (arith, h)

pair_same :
    {c d : Command} {g h : List String}
    → ◌≡◌ {A = Option (Command × List String)} (some (c, g)) (some (d, h))
    → (c ≡ d) × (g ≡ h)
pair_same e = (cc, cc)

none_is_not :
    {c : Command} {g : List String}
    → ◌≡◌ {A = Option (Command × List String)} none (some (c, g))
    → ⊥
none_is_not e = cc

some_is_not :
    {c : Command} {g : List String}
    → ◌≡◌ {A = Option (Command × List String)} (some (c, g)) none
    → ⊥
some_is_not e = cc

first_match-some :
    (cs : List Command) (msg : String) (c : Command) (groups : List String)
    → first_match cs msg ≡ some (c, groups)
    → IsFirst cs msg c groups
unfolding first_match
first_match-some [] msg c groups h = absurd (none_is_not h)
first_match-some (d ∷ cs) msg c groups h = elim (Option-cases (match (pattern_of d) msg)) [
  | inl fails ↦
      let (before, after, split, misses, hit) =
        first_match-some cs msg c groups (rw (fails, first_match) at h) in
      (d ∷ before, after, ap (λ x. d ∷ x) split, (unmatched msg d fails, misses), hit)
  | inr (caught, e) ↦
      let (same, groups_same) = pair_same (rw (e, first_match) at h) in
      (
        [],
        cs,
        ap (λ x. x ∷ cs) same,
        tt,
        subst (λ x. (rest : String) × Matches (pattern_of x) (msg, []) (rest, groups)) same
            ((match-Matches (pattern_of d) msg).0 groups (e ∙ ap some groups_same)),
      )
]

first_match-none :
    (cs : List Command) (msg : String) → first_match cs msg ≡ none → All (Unmatched msg) cs
unfolding first_match
first_match-none [] msg h = tt
first_match-none (d ∷ cs) msg h = elim (Option-cases (match (pattern_of d) msg)) [
  | inl fails ↦ (unmatched msg d fails, first_match-none cs msg (rw (fails, first_match) at h))
  | inr (caught, e) ↦ absurd (some_is_not (rw (e, first_match) at h))
]

-- The command handler takes a message for the first command in the order of the patterns whose
-- pattern matches it, with what the groups of that pattern catch in some match from the start of
-- the message, and for none only where no pattern matches it.
pub first_match-IsFirst :
    (msg : String)
    → ((c : Command) (groups : List String)
        → first_match patterns msg ≡ some (c, groups)
        → IsFirst patterns msg c groups)
      × (first_match patterns msg ≡ none → All (Unmatched msg) patterns)
first_match-IsFirst msg = (first_match-some patterns msg, first_match-none patterns msg)
