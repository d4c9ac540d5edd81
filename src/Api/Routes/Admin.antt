-- ===== src/Api/Routes/Admin.antt =====
-- src/aomarket/api/routes/admin.py, a function for each handler.
use aomarket_bot.Prelude.{String, Bool, Option, none, some}
use aomarket_bot.Exec.{Error, Action, pure, raise, ◌>>=◌}
use aomarket_bot.Market.Players
use aomarket_bot.Market.Watching
use aomarket_bot.Api.Requests.{Body, Response, success}
use aomarket_bot.Api.Answers.{App, confirm_first}

module _ (app : App) where
  unfoldable pub stats_or_raise : String → Option Players.UserStats → Action Response
  stats_or_raise player none = raise (Error.no_activity player)
  stats_or_raise player (some stats) = pure (success (Body.user_stats_out player stats))

  unfoldable pub untrack_all : Bool → Action Response
  unfolding ◌>>=◌
  untrack_all confirm =
      confirm_first confirm
        (do cleared ← Watching.untrack_all; pure (success (Body.untrack_all_out cleared)))

  unfoldable pub admin_get_stats : String → Action Response
  unfolding stats_or_raise ◌>>=◌
  admin_get_stats player = do stats ← Players.user_stats player; stats_or_raise player stats
