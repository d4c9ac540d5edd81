-- ===== src/Market/Commands.antt =====
-- src/aomarket/market/commands.py: one chat line, matched against the patterns in their order, and
-- the reply. A pattern is a `Regex`, and the group of a match is a captured text.
pub mod Order
use Prim.Native.Char.{code}
use aomarket_bot.Prelude.{
  ℕ, String, Bool, true, false, not, ◌&&◌, ◌||◌, Option, none, some, List, [], ◌∷◌, ◌++◌, map,
  length, leb, ◌==◌, str_eq, is_some, if◌then◌else◌,
}
use aomarket_bot.Prelude.Int.{ℤ}
use aomarket_bot.Prelude.Text.{codes, str, str_ℤ, blank, strip_text, join, ◌<>◌}
use aomarket_bot.Db.{ApiKey, MarketSubscription}
use aomarket_bot.Exec.{
  Error, Result, ok, err, World, Action, pure, raise, lift, value_error, ◌>>=◌, ◌>>◌,
}
use aomarket_bot.Exec
use aomarket_bot.Regex.{
  Regex, empty, finish, char, either, optional, star, group, plus, letters, fold_case, match,
}
use aomarket_bot.SettingsRepo.{get_bool}
use aomarket_bot.MarketRepo
use aomarket_bot.Market.Env.{Env, Item, Orders}
use aomarket_bot.Market.Parsing.{decimal_value}
use aomarket_bot.Market.Players
use aomarket_bot.Market.Watching
use aomarket_bot.Market.Rendering.{
  render_search_results, render_overview, filter_of, render_watchlist, render_status_summary,
  render_user_stats,
}
use aomarket_bot.Auth.{AuthConfig}
use aomarket_bot.Auth

-- The keys of `_PATTERNS`
pub data Command : Type 0 where
  register unregister untrack_all apikey_generate apikey_revoke apikey_list : Command
  status_details status watchlist user_stats : Command
  filter_price filter_ql filter_clear filter_show : Command
  unwatch_all unwatch_bulk unwatch watch_aoid watch_search overview search_ : Command

infixr 30 ◌⨾◌
abbrev pub ◌⨾◌ : Regex → Regex → Regex
r ⨾ q = Regex.then r q

-- `\s+`, `\s*`, `[0-9]+`, `.+`, `.*` and `(?:\s+(confirm))?`
abbrev pub spaces1 : Regex
spaces1 = plus (char blank)

abbrev spaces0 : Regex
spaces0 = star (char blank)

abbrev pub is_digit : ℕ → Bool
is_digit c = leb b'0' c && leb c b'9'

abbrev digits : Regex
digits = plus (char is_digit)

abbrev pub other_than_newline : Regex
other_than_newline = char (λ c. not (c == 10))

abbrev confirm_group : Regex
confirm_group = optional (spaces1 ⨾ group (letters "confirm"))

-- `[\s,]`
abbrev pub is_separator : ℕ → Bool
is_separator c = blank c || c == b','

abbrev pub end_of_line : Regex
end_of_line = spaces0 ⨾ finish

-- _PREFIX
abbrev prefix : Regex
prefix = either (letters "market") (letters "mkt") ⨾ spaces1

unfoldable pub pattern_of : Command → Regex
pattern_of register = prefix ⨾ letters "register" ⨾ end_of_line
pattern_of unregister = prefix ⨾ letters "unregister" ⨾ confirm_group ⨾ end_of_line
pattern_of untrack_all =
    prefix ⨾ letters "untrack" ⨾ spaces1 ⨾ letters "all" ⨾ confirm_group ⨾ end_of_line
pattern_of apikey_generate = prefix ⨾ letters "apikey" ⨾ spaces1 ⨾ letters "generate" ⨾ end_of_line
pattern_of apikey_revoke =
    prefix ⨾ letters "apikey" ⨾ spaces1 ⨾ letters "revoke" ⨾ confirm_group ⨾ end_of_line
pattern_of apikey_list = prefix ⨾ letters "apikey" ⨾ spaces1 ⨾ letters "list" ⨾ end_of_line
pattern_of status_details = prefix ⨾ letters "status" ⨾ spaces1 ⨾ letters "details" ⨾ end_of_line
pattern_of status = prefix ⨾ letters "status" ⨾ end_of_line
pattern_of watchlist = prefix ⨾ letters "watchlist" ⨾ end_of_line
pattern_of user_stats =
    prefix
    ⨾ letters "user"
    ⨾ spaces1
    ⨾ letters "stats"
    ⨾ spaces0
    ⨾ group (star other_than_newline)
    ⨾ finish
pattern_of filter_price =
    prefix
    ⨾ letters "filter"
    ⨾ spaces1
    ⨾ letters "price"
    ⨾ spaces1
    ⨾ group digits
    ⨾ spaces1
    ⨾ group (plus other_than_newline)
    ⨾ finish
pattern_of filter_ql =
    prefix
    ⨾ letters "filter"
    ⨾ spaces1
    ⨾ letters "ql"
    ⨾ spaces1
    ⨾ group digits
    ⨾ spaces1
    ⨾ group (plus other_than_newline)
    ⨾ finish
pattern_of filter_clear =
    prefix ⨾ letters "filter" ⨾ spaces1 ⨾ letters "clear" ⨾ spaces1 ⨾ group digits ⨾ end_of_line
pattern_of filter_show = prefix ⨾ letters "filter" ⨾ spaces1 ⨾ group digits ⨾ end_of_line
pattern_of unwatch_all =
    prefix ⨾ letters "unwatch" ⨾ spaces1 ⨾ letters "all" ⨾ confirm_group ⨾ end_of_line
pattern_of unwatch_bulk =
    prefix
    ⨾ letters "unwatch"
    ⨾ spaces1
    ⨾ group (digits ⨾ plus (plus (char is_separator) ⨾ digits))
    ⨾ end_of_line
pattern_of unwatch = prefix ⨾ letters "unwatch" ⨾ spaces1 ⨾ group digits ⨾ end_of_line
pattern_of watch_aoid = prefix ⨾ letters "watch" ⨾ spaces1 ⨾ group digits ⨾ end_of_line
pattern_of watch_search =
    prefix ⨾ letters "watch" ⨾ spaces1 ⨾ group (plus other_than_newline) ⨾ finish
pattern_of overview = prefix ⨾ group digits ⨾ end_of_line
pattern_of search_ = prefix ⨾ group (plus other_than_newline) ⨾ finish

-- _PATTERNS, in the order of the dict
abbrev pub patterns : List Command
patterns =
    register ∷ unregister ∷ untrack_all ∷ apikey_generate ∷ apikey_revoke ∷ apikey_list
    ∷ status_details ∷ status ∷ watchlist ∷ user_stats ∷ filter_price ∷ filter_ql ∷ filter_clear
    ∷ filter_show ∷ unwatch_all ∷ unwatch_bulk ∷ unwatch ∷ watch_aoid ∷ watch_search ∷ overview
    ∷ search_ ∷ []

-- The first pattern that matches, with its groups
unfoldable pub first_match : List Command → String → Option (Command × List String)
unfolding match pattern_of
first_match [] msg = none
first_match (c ∷ cs) msg = elim (match (pattern_of c) msg) [
  | some groups ↦ some (c, groups)
  | none ↦ first_match cs msg
]
