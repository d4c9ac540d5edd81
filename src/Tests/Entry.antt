-- ===== src/Tests/Entry.antt =====
-- Concrete runs of the chat commands, the tells, the routes and the rounds of the scheduler.
use aomarket_bot.Prelude.{
  ℕ, String, str_eq, ◌≡◌, ◌≢◌, refl, ap, sym, inr, true, false, not, Option, none, some, List, [],
  ◌∷◌, map, ◌==◌,
}
use aomarket_bot.Prelude.Int.{ℤ, pos, negsuc, ◌≤ℤ◌}
use aomarket_bot.Prelude.Table.{any, select, delete, update}
use aomarket_bot.Db.{is_setting, Setting, ValueType}
use aomarket_bot.Exec.{World, Error, ok, err, reply, catch, ◌>>=◌}
use aomarket_bot.SettingsRepo.{get, default_settings, new_setting, write, set, get_int, get_bool}
use aomarket_bot.SettingsRepo.Values.{SettingValue, serialize, deserialize}
use aomarket_bot.SettingsRepo.Numerals.{get_int-set}
use aomarket_bot.MarketRepo
use aomarket_bot.ApiKeyRepo
use aomarket_bot.Auth.{require_admin_key, authenticate}
use aomarket_bot.Market.Env.{Env}
use aomarket_bot.Market.Announce.{deliver, log_action}
use aomarket_bot.Market.Watching.{unsubscribe_bulk, sorted_set, untrack_all, subscribe}
use aomarket_bot.Market.Watching.Bulk.{watches, listed, Ascending, unsubscribe_bulk-Split}
use aomarket_bot.Market.Commands.{Command, patterns, first_match}
use aomarket_bot.Market.Commands.Order.{IsFirst, first_match-IsFirst}
use aomarket_bot.Market.Dispatch.{handle_command}
use aomarket_bot.Market.Dispatch.Others.{Others}
use aomarket_bot.Market.Dispatch.Isolation.{handle_command-Others}
use aomarket_bot.Market.Dispatch.Errors.{IsMarketError, handle_command-errors}
use aomarket_bot.Prelude.Text.{str_ℤ}
use aomarket_bot.Market.Dispatch.Kept.{may_change}
use aomarket_bot.Market.Dispatch.Reading.{handle_command-reads}
use aomarket_bot.Bot.Admin.{AdminCommand, admin_dispatch}
use aomarket_bot.Bot.Readable.{type_of, settings_set-type_of}
use aomarket_bot.Bot.Tells.{Bot, handle_tell}
use aomarket_bot.Bot.Strangers.{handle_tell-stranger}
use aomarket_bot.Bot.Loops.{poll_round}
use aomarket_bot.Bot.Rounds.{Ended, poll_round-Ended}
use aomarket_bot.Api.Requests.{Request, Body, respond}
use aomarket_bot.Api.Answers.{App}
use aomarket_bot.Api.Serve.{anyone, admin_only, guard_of, serve}
use aomarket_bot.Api.Access.{touched, serve-read, serve-unauthorized, serve-forbidden}
use aomarket_bot.Api.Isolation.{serve-Others}
use aomarket_bot.Tests.{env, config, world, db, ann_key}

-- The world of the other tests with every default setting, and the module enabled
abbrev live : World
live = record world {
  db = record db {
    settings =
        update (is_setting "Enabled") (write (pos 0) (SettingValue.bool true))
          (map (new_setting (pos 0)) default_settings);
  };
}

-- The item database is down.
abbrev down : Env
down = record env { get_item = λ aoid. err Error.http_error }

abbrev app : App
app = record { env = env; config = config; bot = none }

abbrev bot : Bot
bot = record {
  env = env;
  config = config;
  name_for_id = λ char_id. some "Ann";
  send_tell = λ char_id text. none;
}

unregister-other :
    (groups : List String)
    → first_match patterns "market unregister confirm" ≢ some (Command.untrack_all, groups)
unfolding first_match
unregister-other groups e = cc

handle_command-Others_example :
    Others "Owner" db.subscriptions
      (ann_key ∷ [])
      (handle_command env config "Owner" "x" "market unregister confirm" live).1
handle_command-Others_example =
    handle_command-Others env config "Owner" "x" "market unregister confirm" live unregister-other

-- Any player may clear the watch list of all, which takes every subscription with it.
untrack_all-anyone :
    (handle_command env config "Bob" "x" "mkt untrack ALL confirm" live).1.db.subscriptions ≡ []
unfolding handle_command get_bool serialize first_match catch untrack_all MarketRepo.clear_watch
untrack_all-anyone = refl

first_match-IsFirst_example :
    IsFirst patterns "MKT  unwatch 7, 12 " Command.unwatch_bulk ("7, 12" ∷ [])
unfolding first_match
first_match-IsFirst_example =
    (first_match-IsFirst "MKT  unwatch 7, 12 ").0 Command.unwatch_bulk ("7, 12" ∷ []) refl

handle_command-errors_example : ¬ IsMarketError Error.http_error
unfolding handle_command get_bool serialize first_match catch subscribe
handle_command-errors_example =
    handle_command-errors down config "Ann" "x" "market watch 8" live Error.http_error refl

handle_tell-stranger_example :
    handle_tell bot "x" 5 "!settings Enabled false" live
    ≡ (handle_command env config "Ann" "x" "!settings Enabled false" >>= λ text.
          deliver (reply 5 text) none)
        live
handle_tell-stranger_example = handle_tell-stranger bot "x" 5 "!settings Enabled false" live refl

poll_round-Ended_example :
    (seconds : ℤ) × (when : Option ℤ) × ((poll_round env live).0 ≡ ok (seconds, when))
    × (pos 60 ≤ℤ seconds)
    × Ended env live seconds when
poll_round-Ended_example = poll_round-Ended env live

unsubscribe_bulk-Split_example :
    (((7 ∷ []) ≡ select (watches "Ann" db.subscriptions) (sorted_set (7 ∷ 3 ∷ 7 ∷ [])))
      × ((3 ∷ [])
          ≡ select (λ a. not (watches "Ann" db.subscriptions a)) (sorted_set (7 ∷ 3 ∷ 7 ∷ []))))
    × ((unsubscribe_bulk env "Ann" (7 ∷ 3 ∷ 7 ∷ []) live).1.db.subscriptions
        ≡ delete (listed "Ann" (7 ∷ 3 ∷ 7 ∷ [])) db.subscriptions)
    × Ascending (sorted_set (7 ∷ 3 ∷ 7 ∷ []))
    × ((a : ℕ)
        → any (λ b. b == a) (sorted_set (7 ∷ 3 ∷ 7 ∷ [])) ≡ any (λ b. b == a) (7 ∷ 3 ∷ 7 ∷ []))
unfolding unsubscribe_bulk MarketRepo.delete_subscription log_action MarketRepo.log_action get_bool
    serialize
unsubscribe_bulk-Split_example = unsubscribe_bulk-Split env "Ann" (7 ∷ 3 ∷ 7 ∷ []) live refl

get_int-set_example :
    ((set "AutoTrackCount" (SettingValue.int (negsuc 41)) live).0 ≡ ok tt)
    × ((get_int "AutoTrackCount" (set "AutoTrackCount" (SettingValue.int (negsuc 41)) live).1).0
        ≡ ok (negsuc 41))
get_int-set_example = get_int-set "AutoTrackCount" (negsuc 41) live refl refl

serve-read_example : (serve app none (Request.get_watch 7) live).1 ≡ live
unfolding guard_of
serve-read_example = serve-read app none (Request.get_watch 7) live refl

unregister-guarded : guard_of (Request.unregister "Ann" true) ≢ anyone
unfolding guard_of
unregister-guarded e = cc

unregister-no_admin : guard_of (Request.unregister "Owner" true) ≢ admin_only
unfolding guard_of
unregister-no_admin e = cc

serve-unauthorized_example :
    serve app (some "old") (Request.unregister "Ann" true) live
    ≡ (ok (respond 401 Body.no_content), live)
serve-unauthorized_example =
    serve-unauthorized app (some "old") (Request.unregister "Ann" true) live unregister-guarded refl

serve-forbidden_example :
    serve app (some "k") (Request.stop_tracking 7) live
    ≡ (ok (respond 403 Body.no_content), touched ann_key live)
unfolding guard_of
serve-forbidden_example = serve-forbidden app (some "k") (Request.stop_tracking 7) live refl refl

serve-Others_example :
    select
      (λ s. not (str_eq s.player "Owner"))
      (serve app (some "o") (Request.unregister "Owner" true) live).1.db.subscriptions
    ≡ db.subscriptions
serve-Others_example =
    serve-Others app (some "o") (Request.unregister "Owner" true) live unregister-no_admin

unconfirmed :
    (c : Command) (groups : List String)
    → first_match patterns "market untrack all" ≡ some (c, groups)
    → may_change c groups ≡ false
unfolding first_match
unconfirmed c groups e =
    ap (λ found. elim found [ none ↦ false | some (d, gs) ↦ may_change d gs ]) (sym e)

handle_command-reads_example :
    (handle_command env config "Owner" "x" "market untrack all" live).1 ≡ live
handle_command-reads_example =
    handle_command-reads env config "Owner" "x" "market untrack all" live (inr unconfirmed)

abbrev poll_minutes : Setting
poll_minutes = record {
  key = "PollIntervalMinutes";
  value = "30";
  value_type = ValueType.int;
  updated_at = pos 0;
}

settings_set-type_of_example :
    (v : SettingValue) × ((get "PollIntervalMinutes"
        (admin_dispatch env.texts AdminCommand.settings_set
          ("PollIntervalMinutes" ∷ "soon" ∷ [])
          live).1).0
      ≡ ok v)
    × (type_of v ≡ ValueType.int)
unfolding deserialize serialize str_ℤ
settings_set-type_of_example =
    settings_set-type_of env.texts ("PollIntervalMinutes" ∷ "soon" ∷ []) live {s = poll_minutes}
      {current = SettingValue.int (pos 30)} refl refl

-- A text that PUT /settings/PollIntervalMinutes stores is there although the request fails.
put-unreadable :
    (get_int "PollIntervalMinutes"
      (serve app
        (some "o")
        (Request.update_setting "PollIntervalMinutes" (SettingValue.str "soon"))
        live).1).0
    ≡ err Error.value_error
unfolding serve guard_of get_int require_admin_key authenticate ApiKeyRepo.get_by_hash
    ApiKeyRepo.touch_last_used set
put-unreadable = refl
