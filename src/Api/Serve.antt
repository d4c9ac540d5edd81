-- ===== src/Api/Serve.antt =====
-- Which guard stands before each handler of src/aomarket/api/routes, and the whole of a request.
use aomarket_bot.Prelude.{String, Option}
use aomarket_bot.Exec.{Action, pure, catch, ◌>>=◌}
use aomarket_bot.Auth.{Access, granted, refused, require_admin_key, require_player_key}
use aomarket_bot.Api.Requests.{Request, Body, Response, respond, error_response}
use aomarket_bot.Api.Answers.{App}
use aomarket_bot.Api.Routes.Admin
use aomarket_bot.Api.Routes.BotRoutes
use aomarket_bot.Api.Routes.Items
use aomarket_bot.Api.Routes.Settings
use aomarket_bot.Api.Routes.Status
use aomarket_bot.Api.Routes.Users
use aomarket_bot.Api.Routes.Watch
use aomarket_bot.Api.Routes.Health

-- The guard of a route
pub data Guard : Type 0 where
  anyone admin_only : Guard
  player_only : String → Guard

-- The `dependencies` of the routes of admin.py, bot.py, settings.py, users.py and watch.py, with
-- the guard of a request that is none of theirs
abbrev admin_guard : Request → Guard → Guard
admin_guard (Request.untrack_all confirm) otherwise = admin_only
admin_guard _ otherwise = otherwise

abbrev bot_guard : Request → Guard → Guard
bot_guard Request.trigger_poll otherwise = admin_only
bot_guard Request.trigger_autotrack otherwise = admin_only
bot_guard (Request.send_tell player message) otherwise = admin_only
bot_guard _ otherwise = otherwise

abbrev settings_guard : Request → Guard → Guard
settings_guard (Request.update_setting key value) otherwise = admin_only
settings_guard _ otherwise = otherwise

abbrev users_guard : Request → Guard → Guard
users_guard (Request.unregister player confirm) otherwise = player_only player
users_guard (Request.subscribe player aoid) otherwise = player_only player
users_guard (Request.unsubscribe player aoid) otherwise = player_only player
users_guard (Request.bulk_unsubscribe player aoids) otherwise = player_only player
users_guard (Request.unsubscribe_all player confirm) otherwise = player_only player
users_guard (Request.update_filter player aoid price ql) otherwise = player_only player
users_guard (Request.clear_filter player aoid) otherwise = player_only player
users_guard _ otherwise = otherwise

abbrev watch_guard : Request → Guard → Guard
watch_guard (Request.start_watching aoid) otherwise = admin_only
watch_guard (Request.stop_tracking aoid) otherwise = admin_only
watch_guard _ otherwise = otherwise

unfoldable pub guard_of : Request → Guard
guard_of request =
    admin_guard request (
      bot_guard request (settings_guard request (users_guard request (watch_guard request anyone))))

module _ (app : App) where
  -- The handler of each route
  unfoldable pub handle : Request → Action Response
  unfolding Admin.untrack_all Admin.admin_get_stats BotRoutes.bot_status BotRoutes.trigger_poll
      BotRoutes.trigger_autotrack BotRoutes.send_tell Items.search_items Items.get_item
      Settings.list_settings Settings.get_setting Settings.update_setting Status.status_summary
      Status.status_details Users.get_player Users.register Users.unregister Users.get_watchlist
      Users.subscribe Users.unsubscribe Users.bulk_unsubscribe Users.unsubscribe_all
      Users.get_filter Users.update_filter Users.clear_filter Users.get_stats Watch.list_watch
      Watch.get_watch Watch.start_watching Watch.stop_tracking Watch.get_orders Health.readyz
  handle (Request.untrack_all confirm) = Admin.untrack_all app confirm
  handle (Request.admin_get_stats player) = Admin.admin_get_stats app player
  handle Request.bot_status = BotRoutes.bot_status app
  handle Request.trigger_poll = BotRoutes.trigger_poll app
  handle Request.trigger_autotrack = BotRoutes.trigger_autotrack app
  handle (Request.send_tell player message) = BotRoutes.send_tell app player message
  handle (Request.search_items q ql limit offset) = Items.search_items app q ql limit offset
  handle (Request.get_item aoid) = Items.get_item app aoid
  handle Request.list_settings = Settings.list_settings app
  handle (Request.get_setting key) = Settings.get_setting app key
  handle (Request.update_setting key new_value) = Settings.update_setting app key new_value
  handle Request.status_summary = Status.status_summary app
  handle (Request.status_details limit offset) = Status.status_details app limit offset
  handle (Request.get_player player) = Users.get_player app player
  handle (Request.register player) = Users.register app player
  handle (Request.unregister player confirm) = Users.unregister app player confirm
  handle (Request.get_watchlist player) = Users.get_watchlist app player
  handle (Request.subscribe player aoid) = Users.subscribe app player aoid
  handle (Request.unsubscribe player aoid) = Users.unsubscribe app player aoid
  handle (Request.bulk_unsubscribe player aoids) = Users.bulk_unsubscribe app player aoids
  handle (Request.unsubscribe_all player confirm) = Users.unsubscribe_all app player confirm
  handle (Request.get_filter player aoid) = Users.get_filter app player aoid
  handle (Request.update_filter player aoid price_spec ql_spec) =
      Users.update_filter app player aoid price_spec ql_spec
  handle (Request.clear_filter player aoid) = Users.clear_filter app player aoid
  handle (Request.get_stats player) = Users.get_stats app player
  handle (Request.list_watch limit offset auto_tracked) =
      Watch.list_watch app limit offset auto_tracked
  handle (Request.get_watch aoid) = Watch.get_watch app aoid
  handle (Request.start_watching aoid) = Watch.start_watching app aoid
  handle (Request.stop_tracking aoid) = Watch.stop_tracking app aoid
  handle (Request.get_orders aoid) = Watch.get_orders app aoid
  handle Request.readyz = Health.readyz app

  -- The dependencies of a route run before its handler. The text of a refusal is left out.
  unfoldable pub admitted : Access → Request → Action Response
  unfolding handle
  admitted (refused status) request = pure (respond status Body.no_content)
  admitted (granted principal) request = handle request

  unfoldable pub behind : Guard → Option String → Request → Action Response
  unfolding admitted ◌>>=◌
  behind anyone header request = handle request
  behind admin_only header request = do
    access ← require_admin_key app.config header
    admitted access request
  behind (player_only player) header request = do
    access ← require_player_key app.config player header
    admitted access request

  -- `none` for the header `X-Api-Key` when it is missing
  unfoldable pub serve : Option String → Request → Action Response
  unfolding behind error_response catch
  serve header request = catch error_response (behind (guard_of request) header request)
