-- ===== src/Api/Sound.antt =====
-- A request keeps the constraints of the tables.
use aomarket_bot.Prelude.{String, Option}
use aomarket_bot.Exec.Keeps.{Keeps}
use aomarket_bot.MarketRepo.Sound.{SoundWorld, delete_watch-Sound}
use aomarket_bot.SettingsRepo.Sound.{set-Sound}
use aomarket_bot.Market.Sound.{send_tell-Sound}
use aomarket_bot.Auth.Sound.{authenticate-Sound}
use aomarket_bot.Bot.Sound.{
  Writes-Sound, untrack_all-Sound, force_poll_now-Sound, force_autotrack_now-Sound,
}
use aomarket_bot.Api.Requests.{Request}
use aomarket_bot.Api.Answers.{App}
use aomarket_bot.Api.Serve.{serve}
use aomarket_bot.Api.Kept.{AdminWrites, player_of}
use aomarket_bot.Api.Guarded.{serve-Kept}

AdminWrites-Sound : (app : App) → AdminWrites SoundWorld app
AdminWrites-Sound app = record {
  untrack_all = untrack_all-Sound;
  delete_watch = delete_watch-Sound;
  set_setting = set-Sound;
  send_tell = send_tell-Sound;
  poll = force_poll_now-Sound;
  autotrack = force_autotrack_now-Sound;
}

pub serve-Sound :
    (app : App) (header : Option String) (request : Request)
    → Keeps SoundWorld (serve app header request)
serve-Sound app header request =
    serve-Kept SoundWorld app (authenticate-Sound app.config) header request
      (λ _. Writes-Sound app.env app.config (player_of request)) (λ _. AdminWrites-Sound app)
