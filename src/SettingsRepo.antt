-- ===== src/SettingsRepo.antt =====
-- src/aomarket/db/settings_repo.py: typed settings, stored as text. A float keeps its text: the
-- source converts it by `float`, which raises ValueError on other texts. No default setting is one.
pub mod Values
pub mod Sound
pub mod Typed
pub mod Numerals
use aomarket_bot.Prelude.{
  ℕ, String, ◌≡◌, Bool, true, false, Option, none, some, List, [], ◌∷◌, ◌++◌, str_eq, if◌then◌else◌,
}
use aomarket_bot.Prelude.Int.{ℤ, pos}
use aomarket_bot.Prelude.Table.{any, find, update}
use aomarket_bot.Db.{Db, Setting, ValueType, is_setting}
use aomarket_bot.Exec.{
  Result, ok, err, Action, pure, raise, unknown_setting, assertion_error, lift, query, clock,
  modify, for_each, and_then, ◌>>=◌, ◌>>◌,
}
use aomarket_bot.SettingsRepo.Values.{SettingValue, serialize, deserialize}

pub record SettingDefault : Type 0 where
  pub key : String
  pub value : SettingValue
  pub value_type : ValueType

abbrev flag : String → Bool → SettingDefault
flag key b = record { key = key; value = SettingValue.bool b; value_type = ValueType.bool }

abbrev number : String → ℕ → SettingDefault
number key n = record { key = key; value = SettingValue.int (pos n); value_type = ValueType.int }

abbrev text : String → String → SettingDefault
text key s = record { key = key; value = SettingValue.str s; value_type = ValueType.str }

-- DEFAULT_SETTINGS
abbrev pub default_settings : List SettingDefault
default_settings =
    flag "Enabled" false
    ∷ text "ApiUrl" "https://gmi.nadybot.org"
    ∷ number "PollIntervalMinutes" 30
    ∷ number "HistoryRetentionDays" 90
    ∷ number "WatchExpireDays" 30
    ∷ number "PollBatchSize" 25
    ∷ flag "AutoTrackEnabled" true
    ∷ number "AutoTrackCount" 100
    ∷ number "AutoTrackIntervalMinutes" 60
    ∷ text "AutoTrackSourceUrl" "https://ao-stonks.com"
    ∷ number "AutoTrackLastSync" 0
    ∷ number "MaxSubscriptionsPerPlayer" 25
    ∷ flag "LogToPrivateChannel" false
    ∷ flag "LogBackgroundToPrivateChannel" false
    ∷ []

abbrev pub new_setting : ℤ → SettingDefault → Setting
new_setting now d = record {
  key = d.key;
  value = serialize d.value d.value_type;
  value_type = d.value_type;
  updated_at = now;
}

-- INSERT … ON CONFLICT (key) DO NOTHING
abbrev pub seed : ℤ → SettingDefault → Db → Db
seed now d db =
    if any (is_setting d.key) db.settings
    then db
    else record db { settings = db.settings ++ new_setting now d ∷ [] }

unfoldable pub seed_defaults : Action Unit
unfolding for_each ◌>>=◌
seed_defaults = do now ← clock; for_each default_settings (λ d. modify (seed now d))

-- `_get_row`
unfoldable pub get_row : String → Action Setting
unfolding ◌>>=◌
get_row key = do
  row ← query (λ db. find (is_setting key) db.settings)
  lift (elim row [ none ↦ err (unknown_setting key) | some s ↦ ok s ])

unfoldable pub get : String → Action SettingValue
unfolding get_row deserialize ◌>>=◌
get key = do row ← get_row key; lift (deserialize row.value row.value_type)

abbrev pub as_bool : SettingValue → Result Bool
as_bool (SettingValue.bool b) = ok b
as_bool _ = err assertion_error

abbrev as_int : SettingValue → Result ℤ
as_int (SettingValue.int n) = ok n
as_int _ = err assertion_error

abbrev as_str : SettingValue → Result String
as_str (SettingValue.str s) = ok s
as_str _ = err assertion_error

unfoldable pub get_bool : String → Action Bool
unfolding get ◌>>=◌
get_bool key = do value ← get key; lift (as_bool value)

unfoldable pub get_int : String → Action ℤ
unfolding get ◌>>=◌
get_int key = do value ← get key; lift (as_int value)

unfoldable pub get_str : String → Action String
unfolding get ◌>>=◌
get_str key = do value ← get key; lift (as_str value)

-- `as_float` is Python's `float` on a bool, an int or a float.
abbrev as_number : (SettingValue → String) → SettingValue → Result String
as_number as_float (SettingValue.str s) = err assertion_error
as_number as_float value = ok (as_float value)

unfoldable pub get_float : (SettingValue → String) → String → Action String
unfolding get ◌>>=◌
get_float as_float key = do value ← get key; lift (as_number as_float value)

-- The dict comprehension of `all`; a key stands once in the table.
unfoldable pub values : List Setting → Result (List (String × SettingValue))
unfolding deserialize
values [] = ok []
values (row ∷ rows) =
    and_then (deserialize row.value row.value_type)
      (λ v. and_then (values rows) (λ rest. ok ((row.key, v) ∷ rest)))

unfoldable pub all : Action (List (String × SettingValue))
unfolding values ◌>>=◌
all = do rows ← query (λ db. db.settings); lift (values rows)

-- The row is written, and its time with it, only where its text changes.
abbrev pub write : ℤ → SettingValue → Setting → Setting
write now value s = record s {
  value = serialize value s.value_type;
  updated_at = if str_eq (serialize value s.value_type) s.value then s.updated_at else now;
}

unfoldable pub set : String → SettingValue → Action Unit
unfolding get_row serialize ◌>>=◌
set key value = do
  row ← get_row key
  now ← clock
  modify (λ db. record db { settings = update (is_setting key) (write now value) db.settings })
