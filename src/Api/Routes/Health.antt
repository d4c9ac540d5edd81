-- ===== src/Api/Routes/Health.antt =====
-- src/aomarket/api/routes/health.py, a function for each handler.
use aomarket_bot.Prelude.{is_some}
use aomarket_bot.Exec.{Action, pure}
use aomarket_bot.Api.Requests.{Body, Response, success}
use aomarket_bot.Api.Answers.{App}

module _ (app : App) where
  unfoldable pub readyz : Action Response
  readyz = pure (success (Body.ready (is_some app.bot)))
