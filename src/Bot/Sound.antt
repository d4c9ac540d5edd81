-- ===== src/Bot/Sound.antt =====
-- A tell, an admin command and a round of the scheduler keep the constraints of the tables.
use aomarket_bot.Prelude.{ℕ, String, Bool, true, false, Option, none, some, List}
use aomarket_bot.Exec.{Result, ok, err, value_error}
use aomarket_bot.Exec.Keeps.{Keeps, Keeps-catch, keeps_rules}
use aomarket_bot.Db.{Setting}
use aomarket_bot.MarketRepo.Sound.{SoundWorld, repo_sound}
use aomarket_bot.SettingsRepo.Sound.{set-Sound}
use aomarket_bot.SettingsRepo.Values.{SettingValue}
use aomarket_bot.Market.Env.{Env, Texts}
use aomarket_bot.Market.Sound.{
  register-Sound, unregister-Sound, subscribe-Sound, unsubscribe-Sound, unsubscribe_bulk-Sound,
  unsubscribe_all-Sound, watch_item-Sound, set_price_filter-Sound, set_ql_filter-Sound,
  clear_filter-Sound, poll_market-Sound, sync_top_traded_items-Sound, deliver-Sound,
}
use aomarket_bot.Market.Reads.{reads}
use aomarket_bot.Market.Watching
use aomarket_bot.Market.Dispatch.{handle_command}
use aomarket_bot.Market.Dispatch.Kept.{Writes, handle_command-Kept}
use aomarket_bot.Auth.{AuthConfig}
use aomarket_bot.Auth.Sound.{generate_key-Sound, revoke_keys-Sound}
use aomarket_bot.Bot.Admin.{
  AdminCommand, Coerced, coerce_from, coerce_setting_value, store, admin_dispatch, admin_answer,
  handle_admin_command, admin_patterns, first_admin_match,
}
use aomarket_bot.Bot.Admin
use aomarket_bot.Bot.Tells.{Bot, or_market, handle_tell}
use aomarket_bot.Prelude.Int.{pos}
use aomarket_bot.Bot.Loops.{
  on_exception, force_poll_now, force_autotrack_now, poll_try, poll_round, catch_up_when,
  catch_up_try, catch_up, autotrack_try, autotrack_round,
}

pub Writes-Sound :
    (env : Env) (config : AuthConfig) (player : String) → Writes SoundWorld env config player
Writes-Sound env config player = record {
  register = register-Sound env player;
  unregister = unregister-Sound env player;
  generate_key = λ random. generate_key-Sound config random player;
  revoke_keys = revoke_keys-Sound config player;
  watch_item = λ aoid name ql icon. watch_item-Sound env aoid name ql icon false;
  subscribe = subscribe-Sound env player;
  unsubscribe = unsubscribe-Sound env player;
  unsubscribe_bulk = unsubscribe_bulk-Sound env player;
  unsubscribe_all = unsubscribe_all-Sound env player;
  set_price_filter = set_price_filter-Sound env player;
  set_ql_filter = set_ql_filter-Sound player;
  clear_filter = clear_filter-Sound player;
}

pub untrack_all-Sound : Keeps SoundWorld Watching.untrack_all
unfolding Watching.untrack_all
untrack_all-Sound = search repo_sound

handle_command-Sound :
    (env : Env) (config : AuthConfig) (player random msg : String)
    → Keeps SoundWorld (handle_command env config player random msg)
handle_command-Sound env config player random msg =
    handle_command-Kept SoundWorld env config player random msg
      (λ c groups e m. Writes-Sound env config player) (λ groups e y. untrack_all-Sound)

module _ (texts : Texts) where
  coerce_from-Sound :
      (key raw : String) (row : Setting) (r : Result SettingValue)
      → Keeps SoundWorld (coerce_from texts key raw row r)
  unfolding coerce_from
  coerce_from-Sound key raw row (ok v) = search keeps_rules
  coerce_from-Sound key raw row (err value_error) = search keeps_rules
  coerce_from-Sound key raw row (err e) = search keeps_rules

  coerce-Sound : (key raw : String) → Keeps SoundWorld (coerce_setting_value texts key raw)
  unfolding coerce_setting_value
  coerce-Sound key raw = search (reads, coerce_from-Sound)

  store-Sound : (key : String) (coerced : Coerced) → Keeps SoundWorld (store texts key coerced)
  unfolding store
  store-Sound key (Coerced.refusal text) = search keeps_rules
  store-Sound key (Coerced.value v) = search (reads, set-Sound)

  admin_dispatch-Sound :
      (c : AdminCommand) (groups : List String) → Keeps SoundWorld (admin_dispatch texts c groups)
  unfolding admin_dispatch
  admin_dispatch-Sound Admin.settings_set groups = search (reads, coerce-Sound, store-Sound)
  admin_dispatch-Sound Admin.settings_get groups = search reads
  admin_dispatch-Sound Admin.settings_list groups = search reads

  admin_answer-Sound :
      (config : AuthConfig) (player : String) (found : Option (AdminCommand × List String))
      → Keeps SoundWorld (admin_answer config texts player found)
  unfolding admin_answer
  admin_answer-Sound config player none = search keeps_rules
  admin_answer-Sound config player (some (c, groups)) = search (reads, admin_dispatch-Sound)

  handle_admin_command-Sound :
      (config : AuthConfig) (player msg : String)
      → Keeps SoundWorld (handle_admin_command config texts player msg)
  unfolding handle_admin_command
  handle_admin_command-Sound config player msg =
      admin_answer-Sound config player (first_admin_match admin_patterns msg)

module _ (bot : Bot) where
  or_market-Sound :
      (random player message : String) (text : Option String)
      → Keeps SoundWorld (or_market bot random player message text)
  unfolding or_market
  or_market-Sound random player message (some text) = search keeps_rules
  or_market-Sound random player message none =
      handle_command-Sound bot.env bot.config player random message

  pub handle_tell-Sound :
      (random : String) (char_id : ℕ) (message : String)
      → Keeps SoundWorld (handle_tell bot random char_id message)
  unfolding handle_tell
  handle_tell-Sound random char_id message =
      search (keeps_rules, handle_admin_command-Sound, or_market-Sound, deliver-Sound)

module _ (env : Env) where
  pub force_poll_now-Sound : Keeps SoundWorld (force_poll_now env)
  unfolding force_poll_now
  force_poll_now-Sound = search (keeps_rules, poll_market-Sound)

  pub force_autotrack_now-Sound : Keeps SoundWorld (force_autotrack_now env)
  unfolding force_autotrack_now
  force_autotrack_now-Sound = search (keeps_rules, sync_top_traded_items-Sound)

  poll_try-Sound : Keeps SoundWorld (poll_try env)
  unfolding poll_try
  poll_try-Sound = search (reads, poll_market-Sound)

  pub poll_round-Sound : Keeps SoundWorld (poll_round env)
  unfolding poll_round
  poll_round-Sound = Keeps-catch (on_exception (pos 60, none)) (poll_try env) poll_try-Sound

  catch_up_when-Sound : (due : Bool) → Keeps SoundWorld (catch_up_when env due)
  unfolding catch_up_when
  catch_up_when-Sound false = search keeps_rules
  catch_up_when-Sound true = search (keeps_rules, sync_top_traded_items-Sound)

  catch_up_try-Sound : Keeps SoundWorld (catch_up_try env)
  unfolding catch_up_try
  catch_up_try-Sound = search (reads, catch_up_when-Sound) depth 10

  pub catch_up-Sound : Keeps SoundWorld (catch_up env)
  unfolding catch_up
  catch_up-Sound = Keeps-catch (on_exception none) (catch_up_try env) catch_up_try-Sound

  autotrack_try-Sound : Keeps SoundWorld (autotrack_try env)
  unfolding autotrack_try
  autotrack_try-Sound = search (reads, catch_up_when-Sound)

  pub autotrack_round-Sound : Keeps SoundWorld (autotrack_round env)
  unfolding autotrack_round
  autotrack_round-Sound = Keeps-catch (on_exception none) (autotrack_try env) autotrack_try-Sound
