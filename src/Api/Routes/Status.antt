-- ===== src/Api/Routes/Status.antt =====
-- src/aomarket/api/routes/status.py, a function for each handler.
use aomarket_bot.Prelude.Int.{ℤ}
use aomarket_bot.Exec.{Action, pure, ◌>>=◌}
use aomarket_bot.Market.Players
use aomarket_bot.Api.Requests.{Body, Response, success}
use aomarket_bot.Api.Answers.{App, page}

module _ (app : App) where
  unfoldable pub status_summary : Action Response
  unfolding ◌>>=◌
  status_summary = do
    summary ← Players.status_summary
    pure (success (Body.status_summary_out summary))

  unfoldable pub status_details : ℤ → ℤ → Action Response
  unfolding page ◌>>=◌
  status_details limit offset = do
    rows ← page limit offset Players.status_details
    pure (success (Body.watch_items_out rows))
