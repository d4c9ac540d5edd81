-- ===== src/Api/Routes/Watch.antt =====
-- src/aomarket/api/routes/watch.py, a function for each handler.
use aomarket_bot.Prelude.{ℕ, Bool, false, not, Option, none, some, if◌then◌else◌}
use aomarket_bot.Prelude.Int.{ℤ}
use aomarket_bot.Exec.{Error, Action, pure, raise, lift, ◌>>=◌, ◌>>◌}
use aomarket_bot.MarketRepo
use aomarket_bot.Market.Env.{Item}
use aomarket_bot.Market.Watching
use aomarket_bot.Api.Requests.{Body, Response, respond, success, refuse}
use aomarket_bot.Api.Answers.{App, page, or_404, watch_body, orders_response, not_tracked}

module _ (app : App) where
  unfoldable pub watch_found : ℕ → Option Item → Action Response
  unfolding ◌>>=◌
  watch_found aoid none = raise (Error.unknown_item aoid)
  watch_found aoid (some item) = do
    Watching.watch_item app.env aoid item.name item.ql item.icon false
    pure (success (Body.item_out item))

  unfoldable pub list_watch : ℤ → ℤ → Option Bool → Action Response
  unfolding page ◌>>=◌
  list_watch limit offset auto_tracked = do
    rows ← page limit offset (λ l o. MarketRepo.list_watch l o auto_tracked)
    pure (success (Body.watch_items_out rows))

  unfoldable pub get_watch : ℕ → Action Response
  unfolding ◌>>=◌
  get_watch aoid = do
    row ← MarketRepo.get_watch aoid
    pure (or_404 (not_tracked aoid) (watch_body row))

  unfoldable pub start_watching : ℕ → Action Response
  unfolding watch_found ◌>>=◌
  start_watching aoid = do item ← lift (app.env.get_item aoid); watch_found aoid item

  unfoldable pub stop_tracking : ℕ → Action Response
  unfolding ◌>>=◌
  stop_tracking aoid = do
    deleted ← MarketRepo.delete_watch aoid
    pure (if not deleted then refuse 404 (not_tracked aoid) else respond 204 Body.no_content)

  unfoldable pub get_orders : ℕ → Action Response
  get_orders aoid = pure (orders_response (app.env.get_orders aoid))
