-- ===== src/Market/Replies.antt =====
-- src/aomarket/market/commands.py: the groups of a match, the numbers in them, and the texts of the
-- longer replies.
use aomarket_bot.Prelude.{
  ℕ, String, Bool, false, not, none, some, List, [], ◌∷◌, map, length, is_some, if◌then◌else◌,
}
use aomarket_bot.Prelude.Text.{codes, str, join, ◌<>◌}
use aomarket_bot.Db.{ApiKey}
use aomarket_bot.Exec.{ok, err, Action, pure, lift, value_error, ◌>>=◌}
use aomarket_bot.Regex.{lower_equal}
use aomarket_bot.Market.Env.{Texts}
use aomarket_bot.Market.Parsing.{decimal_value}
use aomarket_bot.Market.Commands.{is_separator}

-- `match.group(1)` and `match.group(2)` of a pattern that has them
abbrev pub group1 : List String → String
group1 [] = ""
group1 (g ∷ gs) = g

abbrev pub group2 : List String → String
group2 [] = ""
group2 (g ∷ gs) = group1 gs

-- `match.group(1) and match.group(1).lower() == "confirm"`: a group that took no part is absent.
abbrev pub confirmed : List String → Bool
confirmed [] = false
confirmed (g ∷ gs) = lower_equal g "confirm"

-- `int(text)` of a text of digits
unfoldable pub to_int : String → Action ℕ
unfolding decimal_value
to_int s = lift (elim (decimal_value 0 (codes s)) [ none ↦ err value_error | some n ↦ ok n ])

-- `re.split(r"[\s,]+", text)`, of a text that no separator begins or ends
abbrev pub add_char : ℕ → List (List ℕ) → List (List ℕ)
add_char c [] = (c ∷ []) ∷ []
add_char c (w ∷ ws) = (c ∷ w) ∷ ws

abbrev pub new_word : List (List ℕ) → List (List ℕ)
new_word ([] ∷ ws) = [] ∷ ws
new_word ws = [] ∷ ws

unfoldable pub split_words : List ℕ → List (List ℕ)
split_words [] = [] ∷ []
split_words (c ∷ cs) =
    let ws = split_words cs in if is_separator c then new_word ws else add_char c ws

unfoldable pub to_ints : List (List ℕ) → Action (List ℕ)
unfolding ◌>>=◌ decimal_value
to_ints [] = pure []
to_ints (w ∷ ws) = do
  n ← lift (elim (decimal_value 0 w) [ none ↦ err value_error | some n ↦ ok n ])
  ns ← to_ints ws
  pure (n ∷ ns)

abbrev pub unless_confirmed : List String → String → Action String → Action String
unless_confirmed groups refusal act = if not (confirmed groups) then pure refusal else act

abbrev pub key_line : Texts → ApiKey → String
key_line texts key =
    key.prefix
    <> "... - "
    <> (if is_some key.revoked_at then "revoked" else "active")
    <> ", created "
    <> texts.date key.created_at

unfoldable pub key_list : Texts → List ApiKey → String
unfolding join
key_list texts [] = "You have no API keys. Generate one with 'market apikey generate'."
key_list texts (k ∷ ks) = "Your API keys:\n" <> join "\n" (map (key_line texts) (k ∷ ks))

unfoldable pub numbers : List ℕ → String
unfolding join
numbers ns = join ", " (map str ns)

-- The two sets come sorted from `unsubscribe_bulk`.
abbrev pub stopped : List ℕ → List String
stopped [] = []
stopped (a ∷ as_) =
    ("Stopped watching " <> str (length (a ∷ as_)) <> " item(s): " <> numbers (a ∷ as_) <> ".") ∷ []

abbrev pub missing : List ℕ → List String
missing [] = []
missing (a ∷ as_) = ("Not on your watchlist: " <> numbers (a ∷ as_) <> ".") ∷ []
