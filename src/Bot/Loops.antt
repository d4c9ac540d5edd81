-- ===== src/Bot/Loops.antt =====
-- src/aomarket/bot/scheduler.py, and `force_poll_now` and `force_autotrack_now` of runner.py. A
-- round is what a loop does between two sleeps; cancelling, which ends a loop, is not a round.
use aomarket_bot.Prelude.{
  ℕ, Bool, true, false, not, Option, none, some, List, [], ◌∷◌, if◌then◌else◌,
}
use aomarket_bot.Prelude.Int.{ℤ, pos, leb_ℤ, ◌+ℤ◌, ◌-ℤ◌, ◌*ℤ◌}
use aomarket_bot.Exec.{Error, World, Action, Result, ok, err, pure, clock, catch, ◌>>=◌, ◌>>◌}
use aomarket_bot.SettingsRepo.{get_bool, get_int}
use aomarket_bot.Market.Env.{Env}
use aomarket_bot.Market.Poll.{poll_market}
use aomarket_bot.Market.AutoTrack.{sync_top_traded_items}

-- `max(60, 60 * minutes)`, in seconds
abbrev pub interval : ℤ → ℤ
interval minutes = if leb_ℤ (minutes *ℤ 60) (pos 60) then pos 60 else minutes *ℤ 60

abbrev pub second : ℕ
second = 1000000

-- Every exception but a cancellation, with what the loop goes on with
abbrev pub on_exception : {A : Type 0} → A → Error → Option A
on_exception a e = some a

module _ (env : Env) where
  -- The time of a poll that succeeded
  unfoldable pub force_poll_now : Action ℤ
  unfolding ◌>>=◌
  force_poll_now = do poll_market env; clock

  unfoldable pub force_autotrack_now : Action ℤ
  unfolding ◌>>=◌
  force_autotrack_now = do sync_top_traded_items env; clock

  -- The `try` of `poll_loop`: the seconds to sleep, and the time of the poll
  unfoldable pub poll_try : Action (ℤ × Option ℤ)
  unfolding ◌>>=◌
  poll_try = do
    minutes ← get_int "PollIntervalMinutes"
    poll_market env
    now ← clock
    pure (interval minutes, some now)

  unfoldable pub poll_round : Action (ℤ × Option ℤ)
  unfolding poll_try catch
  poll_round = catch (on_exception (pos 60, none)) poll_try

  -- The catch-up of `autotrack_loop`: the time of the sync, where it ran
  unfoldable pub catch_up_when : Bool → Action (Option ℤ)
  unfolding ◌>>=◌
  catch_up_when false = pure none
  catch_up_when true = do sync_top_traded_items env; now ← clock; pure (some now)

  unfoldable pub catch_up_try : Action (Option ℤ)
  unfolding catch_up_when ◌>>=◌
  catch_up_try = do
    enabled ← get_bool "AutoTrackEnabled"
    if not enabled then pure none else do
      minutes ← get_int "AutoTrackIntervalMinutes"
      last_sync ← get_int "AutoTrackLastSync"
      now ← clock
      catch_up_when (leb_ℤ (interval minutes *ℤ second) (now -ℤ last_sync *ℤ second))

  unfoldable pub catch_up : Action (Option ℤ)
  unfolding catch_up_try catch
  catch_up = catch (on_exception none) catch_up_try

  -- The seconds to sleep before the next sync
  unfoldable pub autotrack_interval : Action ℤ
  unfolding catch ◌>>=◌
  autotrack_interval =
      catch (on_exception (pos 60))
        (do minutes ← get_int "AutoTrackIntervalMinutes"; pure (interval minutes))

  unfoldable pub autotrack_try : Action (Option ℤ)
  unfolding catch_up_when ◌>>=◌
  autotrack_try = do
    enabled ← get_bool "AutoTrackEnabled"
    if not enabled
        then pure none
        else do n ← get_int "AutoTrackCount"; catch_up_when (leb_ℤ (pos 1) n)

  unfoldable pub autotrack_round : Action (Option ℤ)
  unfolding autotrack_try catch
  autotrack_round = catch (on_exception none) autotrack_try

abbrev pub sleep : ℤ → World → World
sleep seconds w = record w { now = w.now +ℤ seconds *ℤ second }

-- The two values of a round that cannot raise; the error is never taken.
abbrev pub outcome : Result (ℤ × Option ℤ) → ℤ × Option ℤ
outcome (ok r) = r
outcome (err e) = (pos 60, none)

abbrev pub remember : Option ℤ → Option ℤ → Option ℤ
remember none before = before
remember (some t) before = some t

-- `poll_loop` for as many rounds as there are answers of the services, each followed by its
-- sleep: `last_poll_at`, and the world.
unfoldable pub poll_loop : List Env → Option ℤ → World → Option ℤ × World
unfolding poll_round
poll_loop [] last w = (last, w)
poll_loop (env ∷ envs) last w =
    let (r, w') = poll_round env w in
    poll_loop envs (remember (outcome r).1 last) (sleep (outcome r).0 w')
