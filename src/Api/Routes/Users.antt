-- ===== src/Api/Routes/Users.antt =====
-- src/aomarket/api/routes/users.py, a function for each handler.
use aomarket_bot.Prelude.{ℕ, String, Bool, true, not, Option, List, if◌then◌else◌}
use aomarket_bot.Prelude.Text.{str, ◌<>◌}
use aomarket_bot.Exec.{Action, pure, ◌>>=◌, ◌>>◌}
use aomarket_bot.Market.Players
use aomarket_bot.Market.Watching
use aomarket_bot.Api.Requests.{Body, Response, respond, success, refuse}
use aomarket_bot.Api.Answers.{App, confirm_first, stats_body, or_404, when_given}

module _ (app : App) where
  abbrev pub filter_response : String → ℕ → Action Response
  filter_response player aoid = do
    sub ← Watching.get_filter player aoid
    pure (success (Body.subscription_out sub))

  unfoldable pub get_player : String → Action Response
  unfolding ◌>>=◌
  get_player player = do
    registered ← Players.is_registered player
    pure (success (Body.register_out player registered))

  unfoldable pub register : String → Action Response
  unfolding ◌>>=◌
  register player = do
    Players.register app.env player
    pure (success (Body.register_out player true))

  unfoldable pub unregister : String → Bool → Action Response
  unfolding ◌>>=◌
  unregister player confirm = confirm_first confirm (do
    removed ← Players.unregister app.env player
    pure (success (Body.unregister_out player removed)))

  unfoldable pub get_watchlist : String → Action Response
  unfolding ◌>>=◌
  get_watchlist player = do
    subs ← Watching.list_watchlist player
    pure (success (Body.subscriptions_out subs))

  unfoldable pub subscribe : String → ℕ → Action Response
  unfolding ◌>>=◌
  subscribe player aoid = do
    item ← Watching.subscribe app.env player aoid
    pure (success (Body.item_out item))

  unfoldable pub unsubscribe : String → ℕ → Action Response
  unfolding ◌>>=◌
  unsubscribe player aoid = do
    deleted ← Watching.unsubscribe app.env player aoid
    pure (
        if not deleted
        then refuse 404 (player <> " is not watching aoid " <> str aoid)
        else respond 204 Body.no_content)

  unfoldable pub bulk_unsubscribe : String → List ℕ → Action Response
  unfolding ◌>>=◌
  bulk_unsubscribe player aoids = do
    (removed, not_watched) ← Watching.unsubscribe_bulk app.env player aoids
    pure (success (Body.bulk_unwatch_out removed not_watched))

  unfoldable pub unsubscribe_all : String → Bool → Action Response
  unfolding ◌>>=◌
  unsubscribe_all player confirm =
      confirm_first confirm
        (do n ← Watching.unsubscribe_all app.env player; pure (success (Body.unwatched player n)))

  unfoldable pub get_filter : String → ℕ → Action Response
  unfolding ◌>>=◌
  get_filter player aoid = filter_response player aoid

  unfoldable pub update_filter : String → ℕ → Option String → Option String → Action Response
  unfolding when_given ◌>>=◌
  update_filter player aoid price_spec ql_spec = do
    when_given price_spec (Watching.set_price_filter app.env player aoid)
    when_given ql_spec (Watching.set_ql_filter player aoid)
    filter_response player aoid

  unfoldable pub clear_filter : String → ℕ → Action Response
  unfolding ◌>>=◌
  clear_filter player aoid = do Watching.clear_filter player aoid; filter_response player aoid

  unfoldable pub get_stats : String → Action Response
  unfolding ◌>>=◌
  get_stats player = do
    stats ← Players.user_stats player
    pure (or_404 (player <> " has no recorded Market activity") (stats_body player stats))
