-- ===== src/Bot/Admin.antt =====
-- src/aomarket/bot/admin_commands.py: `!settings`, for admins only.
use aomarket_bot.Prelude.{
  ℕ, String, Bool, true, false, ◌&&◌, ◌||◌, not, Option, none, some, List, [], ◌∷◌, ◌==◌, leb,
  if◌then◌else◌,
}
use aomarket_bot.Prelude.Text.{blank, strip_text, ◌<>◌}
use aomarket_bot.Exec.{Error, Result, ok, err, Action, pure, raise, catch, ◌>>=◌, ◌>>◌}
use aomarket_bot.Regex.{Regex, finish, char, star, group, match, lower_equal, letters}
use aomarket_bot.SettingsRepo.{get_row}
use aomarket_bot.SettingsRepo
use aomarket_bot.SettingsRepo.Values.{SettingValue, deserialize, parse_int}
use aomarket_bot.Db.{Setting}
use aomarket_bot.Market.Env.{Texts}
use aomarket_bot.Market.Rendering.{repr_of, render_settings_list}
use aomarket_bot.Market.Commands.{◌⨾◌, spaces1, end_of_line, is_digit, other_than_newline}
use aomarket_bot.Market.Replies.{group1, group2}
use aomarket_bot.Auth.{AuthConfig, is_admin_player}

-- The keys of `_ADMIN_PATTERNS`
pub data AdminCommand : Type 0 where
  settings_set settings_get settings_list : AdminCommand

abbrev is_letter : ℕ → Bool
is_letter c = (leb b'A' c && leb c b'Z') || (leb b'a' c && leb c b'z')

-- `([A-Za-z][A-Za-z0-9_]*)`
abbrev key_group : Regex
key_group = group (char is_letter ⨾ star (char (λ c. is_letter c || is_digit c || c == b'_')))

unfoldable pub admin_pattern : AdminCommand → Regex
admin_pattern settings_set =
    letters "!settings"
    ⨾ spaces1
    ⨾ key_group
    ⨾ spaces1
    ⨾ group (char (λ c. not (blank c)) ⨾ star other_than_newline)
    ⨾ finish
admin_pattern settings_get = letters "!settings" ⨾ spaces1 ⨾ key_group ⨾ end_of_line
admin_pattern settings_list = letters "!settings" ⨾ end_of_line

-- _ADMIN_PATTERNS, in the order of the dict
abbrev pub admin_patterns : List AdminCommand
admin_patterns = settings_set ∷ settings_get ∷ settings_list ∷ []

unfoldable pub first_admin_match : List AdminCommand → String → Option (AdminCommand × List String)
unfolding match admin_pattern
first_admin_match [] msg = none
first_admin_match (c ∷ cs) msg = elim (match (admin_pattern c) msg) [
  | some groups ↦ some (c, groups)
  | none ↦ first_admin_match cs msg
]

-- The outcome of `_coerce_setting_value`: a value, or the text of its ValueError
pub data Coerced : Type 0 where
  value : SettingValue → Coerced
  refusal : String → Coerced

abbrev pub is_one_of : List String → String → Bool
is_one_of [] s = false
is_one_of (w ∷ ws) s = lower_equal s w || is_one_of ws s

-- By the type of the current value
unfoldable pub coerce_like : Texts → String → String → SettingValue → Coerced
unfolding parse_int
coerce_like texts key raw (SettingValue.bool b) =
    if is_one_of ("true" ∷ "on" ∷ "yes" ∷ "1" ∷ []) (strip_text raw)
    then value (SettingValue.bool true)
    else if is_one_of ("false" ∷ "off" ∷ "no" ∷ "0" ∷ []) (strip_text raw)
    then value (SettingValue.bool false)
    else refusal (texts.repr raw <> " is not a valid bool for " <> key <> " (use true/false)")
coerce_like texts key raw (SettingValue.int n) = elim (parse_int raw) [
  | some m ↦ value (SettingValue.int m)
  | none ↦ refusal (texts.repr raw <> " is not a valid integer for " <> key)
]
coerce_like texts key raw (SettingValue.float f) = elim (texts.to_float raw) [
  | some g ↦ value (SettingValue.float g)
  | none ↦ refusal (texts.repr raw <> " is not a valid number for " <> key)
]
coerce_like texts key raw (SettingValue.str s) = value (SettingValue.str raw)

-- A stored text that is no longer an int makes `settings.get` raise a ValueError of its own.
unfoldable pub coerce_from :
    Texts → String → String → Setting → Result SettingValue → Action Coerced
unfolding coerce_like
coerce_from texts key raw row (ok current) = pure (coerce_like texts key raw current)
coerce_from texts key raw row (err Error.value_error) =
    pure (refusal ("invalid literal for int() with base 10: " <> texts.repr row.value))
coerce_from texts key raw row (err e) = raise e

unfoldable pub coerce_setting_value : Texts → String → String → Action Coerced
unfolding coerce_from get_row deserialize ◌>>=◌
coerce_setting_value texts key raw = do
  row ← get_row key
  coerce_from texts key raw row (deserialize row.value row.value_type)

unfoldable pub store : Texts → String → Coerced → Action String
unfolding ◌>>=◌
store texts key (refusal text) = pure text
store texts key (value v) = do
  SettingsRepo.set key v
  new_value ← SettingsRepo.get key
  pure (key <> " = " <> repr_of texts new_value)

-- `_dispatch`
unfoldable pub admin_dispatch : Texts → AdminCommand → List String → Action String
unfolding coerce_setting_value store ◌>>=◌
admin_dispatch texts settings_set groups = do
  coerced ← coerce_setting_value texts (group1 groups) (strip_text (group2 groups))
  store texts (group1 groups) coerced
admin_dispatch texts settings_get groups = do
  v ← SettingsRepo.get (group1 groups)
  pure (group1 groups <> " = " <> repr_of texts v)
admin_dispatch texts settings_list groups = do
  settings ← SettingsRepo.all
  pure (render_settings_list texts settings)

-- `except UnknownSettingError`
unfoldable pub unknown_setting_text : Texts → Error → Option String
unknown_setting_text texts (Error.unknown_setting key) =
    some ("Unknown setting " <> texts.repr key <> ". Try '!settings' to list valid keys.")
unknown_setting_text texts _ = none

module _ (config : AuthConfig) (texts : Texts) (player : String) where
  unfoldable pub admin_answer : Option (AdminCommand × List String) → Action (Option String)
  unfolding admin_dispatch ◌>>=◌
  admin_answer none = pure none
  admin_answer (some (c, groups)) = do
    is_admin ← is_admin_player config player
    if not is_admin then pure none else do
      text ← catch (unknown_setting_text texts) (admin_dispatch texts c groups)
      pure (some text)

  unfoldable pub handle_admin_command : String → Action (Option String)
  unfolding admin_answer
  handle_admin_command msg = admin_answer (first_admin_match admin_patterns msg)
