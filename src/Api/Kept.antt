-- ===== src/Api/Kept.antt =====
-- What a request keeps: all that the methods it may call keep.
use aomarket_bot.Prelude.{ℕ, String, ◌≡◌, refl, arith, Bool, true, false, ◌||◌, Option, none, some}
use aomarket_bot.Prelude.Int.{ℤ, pos, negsuc}
use aomarket_bot.Exec.{World, Action, database_error}
use aomarket_bot.Exec.Keeps.{Keeps, Keeps-if, Keeps-pure, Keeps-catch, Keeps-raise, keeps_rules}
use aomarket_bot.MarketRepo
use aomarket_bot.SettingsRepo
use aomarket_bot.SettingsRepo.Values.{SettingValue}
use aomarket_bot.Market.Env.{Env, Item}
use aomarket_bot.Market.Players.{UserStats}
use aomarket_bot.Market.Announce
use aomarket_bot.Market.Watching
use aomarket_bot.Market.Reads.{reads}
use aomarket_bot.Market.Dispatch.Kept.{Writes}
use aomarket_bot.Bot.Loops.{force_poll_now, force_autotrack_now}
use aomarket_bot.Api.Requests.{Request, Response, BotStatusOut}
use aomarket_bot.Api.Answers.{App, page, confirm_first, with_bot, when_given}
use aomarket_bot.Api.Routes.Admin.{stats_or_raise}
use aomarket_bot.Api.Routes.BotRoutes.{trigger, tell_by_bot}
use aomarket_bot.Api.Routes.Settings.{read_setting, write_setting}
use aomarket_bot.Api.Routes.Watch.{watch_found}
use aomarket_bot.Api.Serve.{Guard, anyone, admin_only, player_only, guard_of, handle}

-- The player whose rows a request is about
abbrev pub player_of : Request → String
player_of (Request.register player) = player
player_of (Request.unregister player confirm) = player
player_of (Request.subscribe player aoid) = player
player_of (Request.unsubscribe player aoid) = player
player_of (Request.bulk_unsubscribe player aoids) = player
player_of (Request.unsubscribe_all player confirm) = player
player_of (Request.update_filter player aoid price ql) = player
player_of (Request.clear_filter player aoid) = player
player_of _ = ""

-- The requests that may write: all that a guard stands before, and `:register`
abbrev pub is_guarded : Guard → Bool
is_guarded anyone = false
is_guarded _ = true

abbrev pub is_register : Request → Bool
is_register (Request.register player) = true
is_register _ = false

abbrev pub may_write : Request → Bool
may_write request = is_guarded (guard_of request) || is_register request

pub is_guarded-anyone : (guard : Guard) → is_guarded guard ≡ false → guard ≡ anyone
is_guarded-anyone anyone h = refl
is_guarded-anyone admin_only h = absurd (ground arith)
is_guarded-anyone (player_only player) h = absurd (ground arith)

-- The methods that only the routes of an admin call
pub record AdminWrites (P : World → Type 0) (app : App) : Type 0 where
  pub untrack_all : Keeps P Watching.untrack_all
  pub delete_watch : (aoid : ℕ) → Keeps P (MarketRepo.delete_watch aoid)
  pub set_setting : (key : String) (value : SettingValue) → Keeps P (SettingsRepo.set key value)
  pub send_tell :
      (env : Env) (player message : String) → Keeps P (Announce.send_tell env player message)
  pub poll : (env : Env) → Keeps P (force_poll_now env)
  pub autotrack : (env : Env) → Keeps P (force_autotrack_now env)

module _ (P : World → Type 0) (app : App) where
  page-Kept :
      {A : Type 0} (limit offset : ℤ) (f : ℕ → ℕ → Action A)
      → ((l o : ℕ) → Keeps P (f l o))
      → Keeps P (page limit offset f)
  unfolding page
  page-Kept (pos l) (pos o) f k = k l o
  page-Kept (pos l) (negsuc o) f k = Keeps-raise database_error
  page-Kept (negsuc l) o f k = Keeps-raise database_error

  with_bot-Kept :
      (bot : Option (Env × BotStatusOut)) (f : Env → Action Response)
      → ((env : Env) → Keeps P (f env))
      → Keeps P (with_bot bot f)
  unfolding with_bot
  with_bot-Kept none f k = Keeps-pure _
  with_bot-Kept (some (env, shown)) f k = k env

  when_given-Kept :
      (spec : Option String) (f : String → Action Unit)
      → ((s : String) → Keeps P (f s))
      → Keeps P (when_given spec f)
  unfolding when_given
  when_given-Kept none f k = Keeps-pure tt
  when_given-Kept (some s) f k = k s

  stats-Kept :
      (player : String) (stats : Option UserStats) → Keeps P (stats_or_raise app player stats)
  unfolding stats_or_raise
  stats-Kept player none = search keeps_rules
  stats-Kept player (some stats) = search keeps_rules

  confirmed-Kept :
      (confirm : Bool) (act : Action Response) → Keeps P act → Keeps P (confirm_first confirm act)
  confirmed-Kept confirm act k = Keeps-if _ _ _ (Keeps-pure _) k

  ruleset base = (reads, page-Kept, stats-Kept, when_given-Kept)

  found-Kept :
      (player : String)
      → Writes P app.env app.config player
      → (aoid : ℕ) (item : Option Item) → Keeps P (watch_found app aoid item)
  unfolding watch_found
  found-Kept player ws aoid none = search keeps_rules
  found-Kept player ws aoid (some item) = search (keeps_rules, ws.watch_item)

  trigger-Kept :
      (force : Env → Action ℤ) (env : Env) → Keeps P (force env) → Keeps P (trigger force env)
  unfolding trigger
  trigger-Kept force env k = search (keeps_rules, k)

  tell-Kept :
      (player message : String) (env : Env)
      → Keeps P (Announce.send_tell env player message)
      → Keeps P (tell_by_bot player message env)
  unfolding tell_by_bot
  tell-Kept player message env k = search (keeps_rules, k)

  read_setting-Kept : (key : String) → Keeps P (read_setting key)
  unfolding read_setting
  read_setting-Kept key = search base

  write_setting-Kept :
      (key : String) (value : SettingValue)
      → Keeps P (SettingsRepo.set key value)
      → Keeps P (write_setting key value)
  unfolding write_setting
  write_setting-Kept key value k = search (base, read_setting-Kept, k)

  -- A route needs the writes of its player only where it may write, and the writes of an admin
  -- only behind the admin's guard.
  pub handle-Kept :
      (request : Request)
      → (may_write request ≡ true → Writes P app.env app.config (player_of request))
      → (guard_of request ≡ admin_only → AdminWrites P app)
      → Keeps P (handle app request)
  unfolding handle guard_of
  handle-Kept (Request.untrack_all confirm) ws aws =
      confirmed-Kept confirm _ (search (base, (aws refl).untrack_all))
  handle-Kept (Request.admin_get_stats player) ws aws = search base
  handle-Kept Request.bot_status ws aws = search base
  handle-Kept Request.trigger_poll ws aws =
      with_bot-Kept app.bot _ (λ env. trigger-Kept force_poll_now env ((aws refl).poll env))
  handle-Kept Request.trigger_autotrack ws aws =
      with_bot-Kept app.bot _
        (λ env. trigger-Kept force_autotrack_now env ((aws refl).autotrack env))
  handle-Kept (Request.send_tell player message) ws aws =
      with_bot-Kept app.bot _
        (λ env. tell-Kept player message env ((aws refl).send_tell env player message))
  handle-Kept Request.readyz ws aws = search base
  handle-Kept (Request.search_items q ql limit offset) ws aws = search base
  handle-Kept (Request.get_item aoid) ws aws = search base
  handle-Kept Request.list_settings ws aws = search base
  handle-Kept (Request.get_setting key) ws aws =
      Keeps-catch _ (read_setting key) (read_setting-Kept key)
  handle-Kept (Request.update_setting key value) ws aws =
      Keeps-catch _ (write_setting key value)
        (write_setting-Kept key value ((aws refl).set_setting key value))
  handle-Kept Request.status_summary ws aws = search base
  handle-Kept (Request.status_details limit offset) ws aws = search base
  handle-Kept (Request.get_player player) ws aws = search base
  handle-Kept (Request.register player) ws aws = search (base, (ws refl).register)
  handle-Kept (Request.unregister player confirm) ws aws =
      confirmed-Kept confirm _ (search (base, (ws refl).unregister))
  handle-Kept (Request.get_watchlist player) ws aws = search base
  handle-Kept (Request.subscribe player aoid) ws aws = search (base, (ws refl).subscribe)
  handle-Kept (Request.unsubscribe player aoid) ws aws = search (base, (ws refl).unsubscribe)
  handle-Kept (Request.bulk_unsubscribe player aoids) ws aws =
      search (base, (ws refl).unsubscribe_bulk)
  handle-Kept (Request.unsubscribe_all player confirm) ws aws =
      confirmed-Kept confirm _ (search (base, (ws refl).unsubscribe_all))
  handle-Kept (Request.get_filter player aoid) ws aws = search base
  handle-Kept (Request.update_filter player aoid price ql) ws aws =
      search (base, (ws refl).set_price_filter, (ws refl).set_ql_filter)
  handle-Kept (Request.clear_filter player aoid) ws aws = search (base, (ws refl).clear_filter)
  handle-Kept (Request.get_stats player) ws aws = search base
  handle-Kept (Request.list_watch limit offset auto) ws aws = search base
  handle-Kept (Request.get_watch aoid) ws aws = search base
  handle-Kept (Request.start_watching aoid) ws aws = search (base, found-Kept "" (ws refl))
  handle-Kept (Request.stop_tracking aoid) ws aws = search (base, (aws refl).delete_watch)
  handle-Kept (Request.get_orders aoid) ws aws = search base
