-- ===== src/Api/Routes/BotRoutes.antt =====
-- src/aomarket/api/routes/bot.py, a function for each handler.
use aomarket_bot.Prelude.{String, false, true, Option, none, some}
use aomarket_bot.Prelude.Int.{ℤ}
use aomarket_bot.Exec.{Action, pure, ◌>>=◌, ◌>>◌}
use aomarket_bot.Market.Env.{Env}
use aomarket_bot.Market.Announce
use aomarket_bot.Bot.Loops.{force_poll_now, force_autotrack_now}
use aomarket_bot.Api.Requests.{Body, BotStatusOut, Response, success}
use aomarket_bot.Api.Answers.{App, with_bot}

-- What `call_on_bot` runs on the bot's side, and the answer
unfoldable pub trigger : (Env → Action ℤ) → Env → Action Response
unfolding ◌>>=◌
trigger force bot_env = do force bot_env; pure (success Body.triggered)

unfoldable pub tell_by_bot : String → String → Env → Action Response
unfolding ◌>>=◌
tell_by_bot player message bot_env = do
  Announce.send_tell bot_env player message
  pure (success Body.sent)

abbrev pub status_of : Option (Env × BotStatusOut) → BotStatusOut
status_of none = record {
  connected = false;
  character = none;
  last_poll_at = none;
  last_autotrack_at = none;
}
status_of (some (bot_env, shown)) = record shown { connected = true }

module _ (app : App) where
  unfoldable pub bot_status : Action Response
  bot_status = pure (success (Body.bot_status_out (status_of app.bot)))

  unfoldable pub trigger_poll : Action Response
  unfolding with_bot trigger
  trigger_poll = with_bot app.bot (trigger force_poll_now)

  unfoldable pub trigger_autotrack : Action Response
  unfolding with_bot trigger
  trigger_autotrack = with_bot app.bot (trigger force_autotrack_now)

  unfoldable pub send_tell : String → String → Action Response
  unfolding with_bot tell_by_bot
  send_tell player message = with_bot app.bot (tell_by_bot player message)
