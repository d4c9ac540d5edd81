-- ===== src/Api/Routes/Items.antt =====
-- src/aomarket/api/routes/items.py, a function for each handler.
use aomarket_bot.Prelude.{ℕ, String, Option}
use aomarket_bot.Prelude.Int.{ℤ}
use aomarket_bot.Prelude.Text.{str, ◌<>◌}
use aomarket_bot.Exec.{Action, pure, lift, ◌>>=◌}
use aomarket_bot.Api.Requests.{Body, Response, success}
use aomarket_bot.Api.Answers.{App, or_404, item_body}

module _ (app : App) where
  unfoldable pub search_items : String → Option ℤ → ℤ → ℤ → Action Response
  unfolding ◌>>=◌
  search_items q ql limit offset = do
    (items, total) ← lift (app.env.search_items q ql limit offset)
    pure (success (Body.items_out total items))

  unfoldable pub get_item : ℕ → Action Response
  unfolding ◌>>=◌
  get_item aoid = do
    item ← lift (app.env.get_item aoid)
    pure (or_404 ("unknown item aoid " <> str aoid) (item_body item))
