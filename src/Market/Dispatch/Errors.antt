-- ===== src/Market/Dispatch/Errors.antt =====
-- Which exceptions leave a chat command.
use aomarket_bot.Prelude.{
  String, false, arith, ◌≡◌, Option, none, some, List, Option-cases, inl, inr,
}
use mathlib.Core.Path.{subst}
use aomarket_bot.Exec.{
  World, Error, is_market_error, Result, ok, err, market_disabled, unknown_item, already_registered,
  not_registered, already_watching, not_watching, subscription_limit, invalid_range, no_activity,
  unknown_setting, value_error, assertion_error, overflow_error, integrity_error, database_error,
  http_error, connection_error, key_error, index_error, struct_error, incomplete_read, login_error,
}
use aomarket_bot.Db.{Setting, ValueType}
use aomarket_bot.Exec.Raises.{
  Raises, Raises-bind, Raises-pure, Raises-if, err_same, Raises-lift, Raises-catch, Raises-query,
  ok_is_no_error,
}
use aomarket_bot.SettingsRepo.{get_row, get, get_bool, as_bool}
use aomarket_bot.SettingsRepo.Values.{SettingValue, deserialize, parse_int}
use aomarket_bot.Market.Env.{Env}
use aomarket_bot.Market.Commands.{Command, patterns, first_match}
use aomarket_bot.Market.Dispatch.{on_market_error, dispatch, answer, handle_command}
use aomarket_bot.Auth.{AuthConfig}

-- A MarketError, by the classes that errors.py derives from it
abbrev pub IsMarketError : Error → Type 0
IsMarketError market_disabled = Unit
IsMarketError (unknown_item aoid) = Unit
IsMarketError (already_registered player) = Unit
IsMarketError (not_registered player) = Unit
IsMarketError (already_watching aoid) = Unit
IsMarketError (not_watching aoid) = Unit
IsMarketError (subscription_limit limit) = Unit
IsMarketError (invalid_range spec) = Unit
IsMarketError (no_activity player) = Unit
IsMarketError _ = ⊥

abbrev Foreign : Error → Type 0
Foreign e = ¬ IsMarketError e

Foreign-same :
    {A : Type 0} (e e' : Error) → Foreign e → ◌≡◌ {A = Result A} (err e) (err e') → Foreign e'
Foreign-same e e' f h = subst Foreign (err_same h) f

-- What the `except` clause lets through is no MarketError.
uncaught-Foreign : (e : Error) → is_market_error e ≡ false → Foreign e
uncaught-Foreign market_disabled h = ground (arith, h)
uncaught-Foreign (unknown_item aoid) h = ground (arith, h)
uncaught-Foreign (already_registered player) h = ground (arith, h)
uncaught-Foreign (not_registered player) h = ground (arith, h)
uncaught-Foreign (already_watching aoid) h = ground (arith, h)
uncaught-Foreign (not_watching aoid) h = ground (arith, h)
uncaught-Foreign (subscription_limit limit) h = ground (arith, h)
uncaught-Foreign (invalid_range spec) h = ground (arith, h)
uncaught-Foreign (no_activity player) h = ground (arith, h)
uncaught-Foreign (unknown_setting key) h = λ m. m
uncaught-Foreign value_error h = λ m. m
uncaught-Foreign assertion_error h = λ m. m
uncaught-Foreign overflow_error h = λ m. m
uncaught-Foreign integrity_error h = λ m. m
uncaught-Foreign database_error h = λ m. m
uncaught-Foreign http_error h = λ m. m
uncaught-Foreign connection_error h = λ m. m
uncaught-Foreign key_error h = λ m. m
uncaught-Foreign index_error h = λ m. m
uncaught-Foreign struct_error h = λ m. m
uncaught-Foreign incomplete_read h = λ m. m
uncaught-Foreign login_error h = λ m. m

deserialize-Foreign :
    (value : String) (t : ValueType) (e : Error) → deserialize value t ≡ err e → Foreign e
unfolding deserialize
deserialize-Foreign value ValueType.bool e h = absurd (ok_is_no_error h)
deserialize-Foreign value ValueType.int e h = elim (Option-cases (parse_int value)) [
  | inl n ↦ Foreign-same value_error e (λ m. m) (rw (n, deserialize) at h)
  | inr (m, s) ↦ absurd (ok_is_no_error (rw (s, deserialize) at h))
]
deserialize-Foreign value ValueType.float e h = absurd (ok_is_no_error h)
deserialize-Foreign value ValueType.str e h = absurd (ok_is_no_error h)

found-Foreign :
    (key : String) (row : Option Setting) (e : Error)
    → (elim row [ none ↦ err (unknown_setting key) | some s ↦ ok s ]) ≡ err e
    → Foreign e
found-Foreign key none e h = Foreign-same (unknown_setting key) e (λ m. m) h
found-Foreign key (some s) e h = absurd (ok_is_no_error h)

get_row-Foreign : (key : String) → Raises Foreign (get_row key)
unfolding get_row
get_row-Foreign key = Raises-bind _ _ (Raises-query _) λ row. Raises-lift _ (found-Foreign key row)

get-Foreign : (key : String) → Raises Foreign (get key)
unfolding get
get-Foreign key =
    Raises-bind _ _ (get_row-Foreign key)
      λ row. Raises-lift _ (deserialize-Foreign row.value row.value_type)

as_bool-Foreign : (v : SettingValue) (e : Error) → as_bool v ≡ err e → Foreign e
as_bool-Foreign (SettingValue.bool b) e h = absurd (ok_is_no_error h)
as_bool-Foreign (SettingValue.int n) e h = Foreign-same assertion_error e (λ m. m) h
as_bool-Foreign (SettingValue.float s) e h = Foreign-same assertion_error e (λ m. m) h
as_bool-Foreign (SettingValue.str s) e h = Foreign-same assertion_error e (λ m. m) h

get_bool-Foreign : (key : String) → Raises Foreign (get_bool key)
unfolding get_bool
get_bool-Foreign key = Raises-bind _ _ (get-Foreign key) λ v. Raises-lift _ (as_bool-Foreign v)

not_caught :
    (env : Env) (config : AuthConfig) (player : String) (e : Error)
    → on_market_error env config player e ≡ none
    → is_market_error e ≡ false
not_caught env config player e h = ground (arith, h)

module _ (env : Env) (config : AuthConfig) (player : String) where
  answer-Foreign :
      (random : String) (found : Option (Command × List String))
      → Raises Foreign (answer env config player random found)
  unfolding answer
  answer-Foreign random none = Raises-pure _
  answer-Foreign random (some (c, groups)) =
      Raises-catch (on_market_error env config player) (dispatch env config player random c groups)
        (λ e h. uncaught-Foreign e (not_caught env config player e h))

  handle_command-Foreign :
      (random msg : String) → Raises Foreign (handle_command env config player random msg)
  unfolding handle_command
  handle_command-Foreign random msg =
      Raises-bind _ _ (get_bool-Foreign "Enabled") λ enabled.
        Raises-if _ _ _ (Raises-pure _) (answer-Foreign random (first_match patterns msg))

-- No exception that leaves the command handler is a MarketError, whatever the message is and
-- whatever the services answer.
pub handle_command-errors :
    (env : Env) (config : AuthConfig) (player random msg : String) (w : World) (e : Error)
    → (handle_command env config player random msg w).0 ≡ err e
    → ¬ IsMarketError e
handle_command-errors env config player random msg w e h =
    (handle_command-Foreign env config player random msg).errors w e h
