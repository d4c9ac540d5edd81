-- ===== src/Api/Answers.antt =====
-- What the routes share: the state of the application, and the answers they give.
use aomarket_bot.Prelude.{ℕ, String, Bool, not, Option, none, some, if◌then◌else◌}
use aomarket_bot.Prelude.Int.{ℤ, pos}
use aomarket_bot.Prelude.Text.{str, ◌<>◌}
use aomarket_bot.Exec.{Error, Action, pure, raise, database_error}
use aomarket_bot.Db.{MarketWatch}
use aomarket_bot.Market.Env.{Env, Item, Texts, Orders}
use aomarket_bot.Market.Players
use aomarket_bot.Auth.{AuthConfig}
use aomarket_bot.Api.Requests.{Body, BotStatusOut, Response, success, refuse}

-- `app.state`: the services as the API reaches them, and the bot once it is ready, with the
-- services as the bot reaches them and what `/bot/status` shows.
pub record App : Type 0 where
  pub env : Env
  pub config : AuthConfig
  pub bot : Option (Env × BotStatusOut)

-- PostgreSQL refuses a negative LIMIT and a negative OFFSET.
unfoldable pub page : {A : Type 0} → ℤ → ℤ → (ℕ → ℕ → Action A) → Action A
page (pos limit) (pos offset) f = f limit offset
page limit offset f = raise database_error

abbrev pub confirm_first : Bool → Action Response → Action Response
confirm_first confirm act =
    if not confirm then pure (refuse 400 "destructive action requires confirm=true") else act

abbrev pub stats_body : String → Option Players.UserStats → Option Body
stats_body player none = none
stats_body player (some stats) = some (Body.user_stats_out player stats)

-- A row, or 404 with the text given
abbrev pub or_404 : String → Option Body → Response
or_404 text none = refuse 404 text
or_404 text (some body) = success body

abbrev pub not_found_setting : Texts → Error → Option Response
not_found_setting texts (Error.unknown_setting key) =
    some (refuse 404 ("unknown setting " <> texts.repr key))
not_found_setting texts _ = none

abbrev pub item_body : Option Item → Option Body
item_body none = none
item_body (some item) = some (Body.item_out item)

abbrev pub watch_body : Option MarketWatch → Option Body
watch_body none = none
watch_body (some row) = some (Body.watch_item_out row)

abbrev pub orders_response : Option Orders → Response
orders_response none = refuse 502 "market data currently unavailable"
orders_response (some orders) = success (Body.orders_out orders)

abbrev pub not_tracked : ℕ → String
not_tracked aoid = "aoid " <> str aoid <> " is not currently tracked"

-- `require_bot_ready`
unfoldable pub with_bot : Option (Env × BotStatusOut) → (Env → Action Response) → Action Response
with_bot none f = pure (refuse 503 "bot is not connected yet")
with_bot (some (bot_env, shown)) f = f bot_env

-- `if spec is not None`
unfoldable pub when_given : Option String → (String → Action Unit) → Action Unit
when_given none f = pure tt
when_given (some spec) f = f spec
