-- ===== src/Market/Reads.antt =====
-- The methods of the repositories, of service.py and of auth/service.py that only read: they keep
-- whatever holds of the world.
use aomarket_bot.Prelude.{ℕ, String, Bool, Option, none, some}
use aomarket_bot.Db.{MarketSubscription, ApiKey}
use aomarket_bot.Exec.{World}
use aomarket_bot.Exec.Keeps.{Keeps, Keeps-bind, Keeps-pure, keeps_rules}
use aomarket_bot.MarketRepo
use aomarket_bot.ApiKeyRepo
use aomarket_bot.SettingsRepo
use aomarket_bot.SettingsRepo.{get_row, get, get_bool, get_int}
use aomarket_bot.Market.Players
use aomarket_bot.Market.Watching
use aomarket_bot.Auth.{AuthConfig}
use aomarket_bot.Auth

module _ (P : World → Type 0) where
  pub get_row-Reads : (key : String) → Keeps P (get_row key)
  unfolding get_row
  get_row-Reads key = search keeps_rules

  pub get-Reads : (key : String) → Keeps P (get key)
  unfolding get
  get-Reads key = search (keeps_rules, get_row-Reads)

  pub get_bool-Reads : (key : String) → Keeps P (get_bool key)
  unfolding get_bool
  get_bool-Reads key = search (keeps_rules, get-Reads)

  pub get_int-Reads : (key : String) → Keeps P (get_int key)
  unfolding get_int
  get_int-Reads key = search (keeps_rules, get-Reads)

  pub all-Reads : Keeps P SettingsRepo.all
  unfolding SettingsRepo.all
  all-Reads = search keeps_rules

  pub get_user-Reads : (player : String) → Keeps P (MarketRepo.get_user player)
  unfolding MarketRepo.get_user
  get_user-Reads player = search keeps_rules

  pub known-Reads : (player : String) → Keeps P (MarketRepo.is_registered player)
  unfolding MarketRepo.is_registered
  known-Reads player = search keeps_rules

  pub is_registered-Reads : (player : String) → Keeps P (Players.is_registered player)
  unfolding Players.is_registered
  is_registered-Reads player = search known-Reads

  pub get_subscription-Reads :
      (player : String) (aoid : ℕ) → Keeps P (MarketRepo.get_subscription player aoid)
  unfolding MarketRepo.get_subscription
  get_subscription-Reads player aoid = search keeps_rules

  pub count_subscriptions-Reads :
      (player : String) → Keeps P (MarketRepo.count_subscriptions player)
  unfolding MarketRepo.count_subscriptions
  count_subscriptions-Reads player = search keeps_rules

  action_summary-Reads : (player : String) → Keeps P (MarketRepo.user_action_summary player)
  unfolding MarketRepo.user_action_summary
  action_summary-Reads player = search keeps_rules

  action_breakdown-Reads : (player : String) → Keeps P (MarketRepo.user_action_breakdown player)
  unfolding MarketRepo.user_action_breakdown
  action_breakdown-Reads player = search keeps_rules

  pub user_stats-Reads : (player : String) → Keeps P (Players.user_stats player)
  unfolding Players.user_stats
  user_stats-Reads player =
      search (keeps_rules, action_summary-Reads, action_breakdown-Reads, count_subscriptions-Reads)
        depth 12

  count_watch-Reads : (auto : Option Bool) → Keeps P (MarketRepo.count_watch auto)
  unfolding MarketRepo.count_watch
  count_watch-Reads auto = search keeps_rules

  pub status_summary-Reads : Keeps P Players.status_summary
  unfolding Players.status_summary
  status_summary-Reads =
      search (keeps_rules, count_watch-Reads, get_bool-Reads, get_int-Reads) depth 12

  pub list_watch-Reads :
      (limit offset : ℕ) (auto : Option Bool) → Keeps P (MarketRepo.list_watch limit offset auto)
  unfolding MarketRepo.list_watch
  list_watch-Reads limit offset auto = search keeps_rules

  pub get_watch-Reads : (aoid : ℕ) → Keeps P (MarketRepo.get_watch aoid)
  unfolding MarketRepo.get_watch
  get_watch-Reads aoid = search keeps_rules

  pub status_details-Reads : (limit offset : ℕ) → Keeps P (Players.status_details limit offset)
  unfolding Players.status_details
  status_details-Reads limit offset = search list_watch-Reads

  pub list_watchlist-Reads : (player : String) → Keeps P (Watching.list_watchlist player)
  unfolding Watching.list_watchlist MarketRepo.list_subscriptions
  list_watchlist-Reads player = search keeps_rules

  or_not_watching-Reads :
      (aoid : ℕ) (s : Option MarketSubscription) → Keeps P (Watching.or_not_watching aoid s)
  unfolding Watching.or_not_watching
  or_not_watching-Reads aoid none = search keeps_rules
  or_not_watching-Reads aoid (some s) = search keeps_rules

  pub require_subscription-Reads :
      (player : String) (aoid : ℕ) → Keeps P (Watching.require_subscription player aoid)
  unfolding Watching.require_subscription
  require_subscription-Reads player aoid =
      search (keeps_rules, get_subscription-Reads, or_not_watching-Reads)

  pub get_filter-Reads : (player : String) (aoid : ℕ) → Keeps P (Watching.get_filter player aoid)
  unfolding Watching.get_filter
  get_filter-Reads player aoid = search require_subscription-Reads

  module _ (config : AuthConfig) where
    pub list_keys-Reads : (player : String) → Keeps P (Auth.list_keys config player)
    unfolding Auth.list_keys ApiKeyRepo.list_for_player
    list_keys-Reads player = search keeps_rules

    pub is_admin_player-Reads : (player : String) → Keeps P (Auth.is_admin_player config player)
    unfolding Auth.is_admin_player
    is_admin_player-Reads player = search (keeps_rules, get_user-Reads)

    get_by_hash-Reads : (key_hash : String) → Keeps P (ApiKeyRepo.get_by_hash key_hash)
    unfolding ApiKeyRepo.get_by_hash
    get_by_hash-Reads key_hash = search keeps_rules

    module _ (touch : (id : ℕ) → Keeps P (ApiKeyRepo.touch_last_used id)) where
      principal_of-Kept : (key : ApiKey) → Keeps P (Auth.principal_of config key)
      unfolding Auth.principal_of
      principal_of-Kept key = search (keeps_rules, touch, is_admin_player-Reads)

      -- Authenticating writes the time of a key's last use and nothing else.
      pub authenticate-Kept : (raw : String) → Keeps P (Auth.authenticate config raw)
      unfolding Auth.authenticate
      authenticate-Kept raw =
          Keeps-bind (ApiKeyRepo.get_by_hash (config.hash raw)) _ (get_by_hash-Reads _)
            (elim [ none ↦ Keeps-pure none | some k ↦ principal_of-Kept k ])

pub ruleset reads = (
  keeps_rules, get_row-Reads, get-Reads, get_bool-Reads, get_int-Reads, all-Reads, get_user-Reads,
  known-Reads, is_registered-Reads, get_subscription-Reads, count_subscriptions-Reads,
  user_stats-Reads, status_summary-Reads, list_watch-Reads, get_watch-Reads, status_details-Reads,
  list_watchlist-Reads, require_subscription-Reads, get_filter-Reads, list_keys-Reads,
  is_admin_player-Reads,
)
