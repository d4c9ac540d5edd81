-- ===== src/Market/Players.antt =====
-- service.py: registration, and the statistics of a player.
use aomarket_bot.Prelude.{
  ℕ, String, Bool, true, not, Option, none, some, List, ◌-◌, ◌==◌, if◌then◌else◌,
}
use aomarket_bot.Prelude.Int.{ℤ}
use aomarket_bot.Exec.{Action, pure, raise, already_registered, not_registered, ◌>>=◌, ◌>>◌}
use aomarket_bot.Db.{MarketWatch}
use aomarket_bot.MarketRepo
use aomarket_bot.SettingsRepo.{get_bool, get_int}
use aomarket_bot.Market.Env.{Env}
use aomarket_bot.Market.Announce.{announce, log_action}

unfoldable pub is_registered : String → Action Bool
unfolding MarketRepo.is_registered
is_registered player = MarketRepo.is_registered player

module _ (env : Env) where
  unfoldable pub register : String → Action Unit
  unfolding ◌>>=◌
  register player = do
    known ← MarketRepo.is_registered player
    if known
        then raise (already_registered player)
        else do MarketRepo.register player; log_action env player "register" none

  unfoldable pub unregister : String → Action ℕ
  unfolding ◌>>=◌
  unregister player = do
    known ← MarketRepo.is_registered player
    if not known then raise (not_registered player) else do
      removed ← MarketRepo.unregister_cascade player
      announce env player "unregister" none
      pure removed

pub record UserStats : Type 0 where
  pub total_actions : ℕ
  pub first_seen : Option ℤ
  pub active_subscriptions : ℕ
  pub by_action : List (String × ℕ)

unfoldable pub user_stats : String → Action (Option UserStats)
unfolding ◌>>=◌
user_stats player = do
  (total, first_seen) ← MarketRepo.user_action_summary player
  if total == 0 then pure none else do
    breakdown ← MarketRepo.user_action_breakdown player
    subscriptions ← MarketRepo.count_subscriptions player
    pure (
        some (record {
          total_actions = total;
          first_seen = first_seen;
          active_subscriptions = subscriptions;
          by_action = breakdown;
        }))

pub record StatusSummary : Type 0 where
  pub total_tracked : ℕ
  pub auto_tracked : ℕ
  pub manually_tracked : ℕ
  pub auto_track_enabled : Bool
  pub auto_track_count : ℤ
  pub auto_track_last_sync : ℤ

unfoldable pub status_summary : Action StatusSummary
unfolding ◌>>=◌
status_summary = do
  total ← MarketRepo.count_watch none
  auto ← MarketRepo.count_watch (some true)
  enabled ← get_bool "AutoTrackEnabled"
  target ← get_int "AutoTrackCount"
  last_sync ← get_int "AutoTrackLastSync"
  pure (record {
    total_tracked = total;
    auto_tracked = auto;
    manually_tracked = total - auto;
    auto_track_enabled = enabled;
    auto_track_count = target;
    auto_track_last_sync = last_sync;
  })

unfoldable pub status_details : ℕ → ℕ → Action (List MarketWatch)
status_details limit offset = MarketRepo.list_watch limit offset none
