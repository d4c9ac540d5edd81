-- ===== src/Runs.antt =====
-- What the chat commands, the HTTP routes and the scheduler call of `MarketService`, `AuthService`
-- and the settings, and the databases that any sequence of such calls reaches from an empty one.
use aomarket_bot.Prelude.{ℕ, String, Bool, List, [], Option}
use aomarket_bot.Prelude.Int.{ℤ}
use aomarket_bot.Db.{Db}
use aomarket_bot.Db.Integrity.{IsSound}
use aomarket_bot.Exec.{World, Action, pure, ◌>>=◌, ◌>>◌}
use aomarket_bot.Exec.Keeps.{Keeps, keeps_rules}
use aomarket_bot.MarketRepo.Sound.{SoundWorld, repo_sound}
use aomarket_bot.SettingsRepo
use aomarket_bot.SettingsRepo.Values.{SettingValue}
use aomarket_bot.SettingsRepo.Sound.{settings_sound}
use aomarket_bot.Market.Env.{Env}
use aomarket_bot.Market.Players
use aomarket_bot.Market.Watching
use aomarket_bot.Market.Alerts
use aomarket_bot.Market.Poll
use aomarket_bot.Market.AutoTrack
use aomarket_bot.Market.Sound.{
  register-Sound, unregister-Sound, subscribe-Sound, unsubscribe-Sound, unsubscribe_bulk-Sound,
  unsubscribe_all-Sound, watch_item-Sound, set_price_filter-Sound, set_ql_filter-Sound,
  clear_filter-Sound, deliver_pending_alerts-Sound, poll_market-Sound, sync_top_traded_items-Sound,
}
use aomarket_bot.Auth.{AuthConfig}
use aomarket_bot.Auth
use aomarket_bot.Auth.Sound.{auth_sound}
use aomarket_bot.Bot.Tells.{Bot, handle_tell}
use aomarket_bot.Bot.Loops.{poll_round, catch_up, autotrack_round}
use aomarket_bot.Bot.Sound.{
  handle_tell-Sound, poll_round-Sound, catch_up-Sound, autotrack_round-Sound,
}
use aomarket_bot.Api.Requests.{Request}
use aomarket_bot.Api.Answers.{App}
use aomarket_bot.Api.Serve.{serve}
use aomarket_bot.Api.Sound.{serve-Sound}

pub data Call : Type 0 where
  register unregister : String → Call
  watch_item : ℕ → String → ℕ → Option ℕ → Bool → Call
  subscribe unsubscribe : String → ℕ → Call
  unsubscribe_bulk : String → List ℕ → Call
  unsubscribe_all : String → Call
  untrack_all : Call
  set_price_filter set_ql_filter : String → ℕ → String → Call
  clear_filter : String → ℕ → Call
  deliver_pending_alerts : String → Call
  poll_market sync_top_traded_items : Call
  seed_defaults : Call
  set_setting : String → SettingValue → Call
  generate_key : String → String → Call
  revoke_keys : String → Call
  authenticate : String → Call

module _ (env : Env) (config : AuthConfig) where
  -- The call, its result dropped
  unfoldable pub run : Call → Action Unit
  unfolding ◌>>=◌
  run (Call.register player) = Players.register env player
  run (Call.unregister player) = Players.unregister env player >> pure tt
  run (Call.watch_item aoid name ql icon auto) =
      Watching.watch_item env aoid name ql icon auto >> pure tt
  run (Call.subscribe player aoid) = Watching.subscribe env player aoid >> pure tt
  run (Call.unsubscribe player aoid) = Watching.unsubscribe env player aoid >> pure tt
  run (Call.unsubscribe_bulk player aoids) = Watching.unsubscribe_bulk env player aoids >> pure tt
  run (Call.unsubscribe_all player) = Watching.unsubscribe_all env player >> pure tt
  run Call.untrack_all = Watching.untrack_all >> pure tt
  run (Call.set_price_filter player aoid spec) = Watching.set_price_filter env player aoid spec
  run (Call.set_ql_filter player aoid spec) = Watching.set_ql_filter player aoid spec
  run (Call.clear_filter player aoid) = Watching.clear_filter player aoid
  run (Call.deliver_pending_alerts player) = Alerts.deliver_pending_alerts env player >> pure tt
  run Call.poll_market = Poll.poll_market env >> pure tt
  run Call.sync_top_traded_items = AutoTrack.sync_top_traded_items env >> pure tt
  run Call.seed_defaults = SettingsRepo.seed_defaults
  run (Call.set_setting key value) = SettingsRepo.set key value
  run (Call.generate_key random player) = Auth.generate_key config random player >> pure tt
  run (Call.revoke_keys player) = Auth.revoke_keys config player >> pure tt
  run (Call.authenticate raw) = Auth.authenticate config raw >> pure tt

  run-Sound : (c : Call) → Keeps SoundWorld (run c)
  unfolding run Watching.untrack_all
  run-Sound (Call.register player) = register-Sound env player
  run-Sound (Call.unregister player) = search (keeps_rules, unregister-Sound)
  run-Sound (Call.watch_item aoid name ql icon auto) = search (keeps_rules, watch_item-Sound)
  run-Sound (Call.subscribe player aoid) = search (keeps_rules, subscribe-Sound)
  run-Sound (Call.unsubscribe player aoid) = search (keeps_rules, unsubscribe-Sound)
  run-Sound (Call.unsubscribe_bulk player aoids) = search (keeps_rules, unsubscribe_bulk-Sound)
  run-Sound (Call.unsubscribe_all player) = search (keeps_rules, unsubscribe_all-Sound)
  run-Sound Call.untrack_all = search repo_sound
  run-Sound (Call.set_price_filter player aoid spec) = set_price_filter-Sound env player aoid spec
  run-Sound (Call.set_ql_filter player aoid spec) = set_ql_filter-Sound player aoid spec
  run-Sound (Call.clear_filter player aoid) = clear_filter-Sound player aoid
  run-Sound (Call.deliver_pending_alerts player) =
      search (keeps_rules, deliver_pending_alerts-Sound)
  run-Sound Call.poll_market = search (keeps_rules, poll_market-Sound)
  run-Sound Call.sync_top_traded_items = search (keeps_rules, sync_top_traded_items-Sound)
  run-Sound Call.seed_defaults = search settings_sound
  run-Sound (Call.set_setting key value) = search settings_sound
  run-Sound (Call.generate_key random player) = search (keeps_rules, auth_sound)
  run-Sound (Call.revoke_keys player) = search (keeps_rules, auth_sound)
  run-Sound (Call.authenticate raw) = search (keeps_rules, auth_sound)

abbrev pub empty_db : Db
empty_db = record {
  users = [];
  watches = [];
  history = [];
  subscriptions = [];
  seen_orders = [];
  pending_alerts = [];
  user_actions = [];
  api_keys = [];
  backoffs = [];
  settings = [];
  next_id = 1;
}

-- Each call, tell, request and round runs to its end, in a world whose answers (`Env`) may differ from the last call's;
-- time may pass between two calls, in either direction.
pub data Reachable (config : AuthConfig) : World → Type 0 where
  start : (now : ℤ) → Reachable config (record { db = empty_db; now = now; outbox = [] })
  call :
      (env : Env) (c : Call) {w : World}
      → Reachable config w
      → Reachable config (run env config c w).1
  told :
      (bot : Bot) (random : String) (char_id : ℕ) (message : String) {w : World}
      → Reachable config w
      → Reachable config (handle_tell bot random char_id message w).1
  served :
      (app : App) (header : Option String) (request : Request) {w : World}
      → Reachable config w
      → Reachable config (serve app header request w).1
  polled : (env : Env) {w : World} → Reachable config w → Reachable config (poll_round env w).1
  caught_up : (env : Env) {w : World} → Reachable config w → Reachable config (catch_up env w).1
  synced : (env : Env) {w : World} → Reachable config w → Reachable config (autotrack_round env w).1
  wait : (now : ℤ) {w : World} → Reachable config w → Reachable config (record w { now = now })

-- In every database that service calls, tells to the bot, HTTP requests and rounds of the
-- scheduler reach from an empty one, in any order, whatever the services answer and whether each
-- returns or raises, no key stands twice in its table, every subscription
-- belongs to a registered player and a tracked item, every row of history to a tracked item, and
-- every API key to a registered player.
pub Reachable-IsSound : {config : AuthConfig} {w : World} → Reachable config w → IsSound w.db
Reachable-IsSound (Reachable.start now) = record {
  users_once = tt;
  watches_once = tt;
  subscriptions_once = tt;
  keys_once = tt;
  seen_once = tt;
  backoffs_once = tt;
  settings_once = tt;
  subscriptions_linked = tt;
  history_linked = tt;
  keys_linked = tt;
}
Reachable-IsSound {config} (Reachable.call env c r) =
    (run-Sound env config c).run _ (Reachable-IsSound r)
Reachable-IsSound (Reachable.told bot random char_id message r) =
    (handle_tell-Sound bot random char_id message).run _ (Reachable-IsSound r)
Reachable-IsSound (Reachable.served app header request r) =
    (serve-Sound app header request).run _ (Reachable-IsSound r)
Reachable-IsSound (Reachable.polled env r) = (poll_round-Sound env).run _ (Reachable-IsSound r)
Reachable-IsSound (Reachable.caught_up env r) = (catch_up-Sound env).run _ (Reachable-IsSound r)
Reachable-IsSound (Reachable.synced env r) = (autotrack_round-Sound env).run _ (Reachable-IsSound r)
Reachable-IsSound (Reachable.wait now r) = Reachable-IsSound r
