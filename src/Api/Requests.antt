-- ===== src/Api/Requests.antt =====
-- The routes of src/aomarket/api/routes, the bodies of src/aomarket/api/schemas.py, and the status
-- codes of src/aomarket/api/app.py.
use aomarket_bot.Prelude.{ℕ, String, Bool, Option, some, none, List}
use aomarket_bot.Prelude.Int.{ℤ}
use aomarket_bot.Prelude.Text.{str, str_ℤ, ◌<>◌}
use aomarket_bot.Db.{MarketWatch, MarketSubscription}
use aomarket_bot.Exec.{Error}
use aomarket_bot.SettingsRepo.Values.{SettingValue}
use aomarket_bot.Market.Env.{Item, Orders}
use aomarket_bot.Market.Players.{UserStats, StatusSummary}

-- One constructor for each route; a flag is the field `confirm` of a body. An item id in a path or
-- a body is not negative; the source takes any integer.
pub data Request : Type 0 where
  -- admin.py
  untrack_all : Bool → Request
  admin_get_stats : String → Request
  -- bot.py
  bot_status trigger_poll trigger_autotrack : Request
  send_tell : String → String → Request
  -- health.py
  readyz : Request
  -- items.py
  search_items : String → Option ℤ → ℤ → ℤ → Request
  get_item : ℕ → Request
  -- settings.py
  list_settings : Request
  get_setting : String → Request
  update_setting : String → SettingValue → Request
  -- status.py
  status_summary : Request
  status_details : ℤ → ℤ → Request
  -- users.py
  get_player register : String → Request
  unregister : String → Bool → Request
  get_watchlist : String → Request
  subscribe unsubscribe : String → ℕ → Request
  bulk_unsubscribe : String → List ℕ → Request
  unsubscribe_all : String → Bool → Request
  get_filter : String → ℕ → Request
  update_filter : String → ℕ → Option String → Option String → Request
  clear_filter : String → ℕ → Request
  get_stats : String → Request
  -- watch.py
  list_watch : ℤ → ℤ → Option Bool → Request
  get_watch start_watching stop_tracking get_orders : ℕ → Request

pub record BotStatusOut : Type 0 where
  pub connected : Bool
  pub character : Option (String × ℕ)
  pub last_poll_at : Option ℤ
  pub last_autotrack_at : Option ℤ

pub data Body : Type 0 where
  no_content : Body
  detail : String → Body
  item_out : Item → Body
  items_out : ℕ → List Item → Body
  watch_item_out : MarketWatch → Body
  watch_items_out : List MarketWatch → Body
  subscription_out : MarketSubscription → Body
  subscriptions_out : List MarketSubscription → Body
  setting_out : String → SettingValue → Body
  settings_out : List (String × SettingValue) → Body
  register_out : String → Bool → Body
  unregister_out : String → ℕ → Body
  bulk_unwatch_out : List ℕ → List ℕ → Body
  unwatched : String → ℕ → Body
  user_stats_out : String → UserStats → Body
  status_summary_out : StatusSummary → Body
  untrack_all_out : ℕ → Body
  orders_out : Orders → Body
  bot_status_out : BotStatusOut → Body
  ready : Bool → Body
  triggered sent : Body

pub record Response : Type 0 where
  pub status : ℕ
  pub body : Body

abbrev pub respond : ℕ → Body → Response
respond status body = record { status = status; body = body }

abbrev pub success : Body → Response
success body = respond 200 body

-- `raise HTTPException(status, detail)`, which FastAPI answers with that status
abbrev pub refuse : ℕ → String → Response
refuse status text = respond status (detail text)

-- `str(exc)` of errors.py, and `_status_code_for`; `none` for what is no MarketError
unfoldable pub market_error : Error → Option (ℕ × String)
market_error (Error.unknown_item aoid) = some (404, "unknown item aoid " <> str aoid)
market_error (Error.not_watching aoid) = some (404, "not watching aoid " <> str aoid)
market_error (Error.no_activity player) = some (404, player)
market_error (Error.already_registered player) = some (409, player)
market_error (Error.already_watching aoid) = some (409, "already watching aoid " <> str aoid)
market_error (Error.subscription_limit limit) =
    some (409, "subscription limit of " <> str_ℤ limit <> " reached")
market_error (Error.not_registered player) = some (400, player)
market_error (Error.invalid_range spec) = some (422, spec)
market_error Error.market_disabled = some (400, "")
market_error _ = none

-- `market_error_handler`, and Starlette's answer to any other exception
unfoldable pub error_response : Error → Option Response
unfolding market_error
error_response e = elim (market_error e) [
  | some (status, text) ↦ some (refuse status text)
  | none ↦ some (refuse 500 "Internal Server Error")
]
