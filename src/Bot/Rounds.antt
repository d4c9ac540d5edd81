-- ===== src/Bot/Rounds.antt =====
-- A round of the poll loop ends in a sleep, whatever fails in it.
use aomarket_bot.Prelude.{
  ◌≡◌, refl, ◌⊎◌, inl, inr, Option, none, some, true, false, arith, Bool-cases,
}
use aomarket_bot.Prelude.Int.{ℤ, pos, negsuc, ◌≤ℤ◌, leb_ℤ, ◌*ℤ◌}
use aomarket_bot.Exec.{World, Error, Result-cases, ok, err, catch, ◌>>=◌}
use aomarket_bot.SettingsRepo.{get_int}
use aomarket_bot.Market.Env.{Env}
use aomarket_bot.Market.Poll.{PollSummary, poll_market}
use aomarket_bot.Market.Reads.{get_int-Reads}
use aomarket_bot.Bot.Loops.{interval, poll_try, poll_round}

interval-bound : (minutes : ℤ) → pos 60 ≤ℤ interval minutes
interval-bound minutes = elim (Bool-cases (leb_ℤ (minutes *ℤ 60) (pos 60))) [
  | inl low ↦ rw low (ground arith)
  | inr high ↦ rw high (ground (arith, high))
]

-- The seconds of so many minutes, and 60 where this is less
abbrev pub IsInterval : ℤ → ℤ → Type 0
IsInterval minutes seconds =
    ((minutes ≤ℤ pos 1) × (seconds ≡ pos 60)) ⊎ ((pos 1 ≤ℤ minutes) × (seconds ≡ minutes *ℤ 60))

at_most_one : (minutes : ℤ) → leb_ℤ (minutes *ℤ 60) (pos 60) ≡ true → minutes ≤ℤ pos 1
unfolding ◌*ℤ◌
at_most_one (pos n) h = ground (arith, h)
at_most_one (negsuc n) h = ground (arith, h)

more_than_one : (minutes : ℤ) → leb_ℤ (minutes *ℤ 60) (pos 60) ≡ false → pos 1 ≤ℤ minutes
unfolding ◌*ℤ◌
more_than_one (pos n) h = ground (arith, h)
more_than_one (negsuc n) h = ground (arith, h)

interval-IsInterval : (minutes : ℤ) → IsInterval minutes (interval minutes)
interval-IsInterval minutes = elim (Bool-cases (leb_ℤ (minutes *ℤ 60) (pos 60))) [
  | inl low ↦ inl (at_most_one minutes low, rw low refl)
  | inr high ↦ inr (more_than_one minutes high, rw high refl)
]

-- What can fail in a round: the reading of its setting, or the poll.
abbrev pub Failed : Env → World → Type 0
Failed env w =
    ((e : Error) × ((get_int "PollIntervalMinutes" w).0 ≡ err e))
    ⊎ ((e : Error) × ((poll_market env w).0 ≡ err e))

-- How a round ends
abbrev pub Ended : Env → World → ℤ → Option ℤ → Type 0
Ended env w seconds when =
    (Failed env w × (seconds ≡ pos 60) × (when ≡ none))
    ⊎ ((minutes : ℤ) × ((get_int "PollIntervalMinutes" w).0 ≡ ok minutes)
        × ((summary : PollSummary) × ((poll_market env w).0 ≡ ok summary))
        × IsInterval minutes seconds
        × (when ≡ some (poll_market env w).1.now))

-- A round of the poll loop never raises, and ends in a sleep of at least 60 seconds. Either reading
-- the setting or the poll raised, and the sleep is of 60 seconds and no poll time is recorded; or
-- both returned, and the sleep is of as many minutes as the setting says, 60 seconds at least, and
-- the time at which the poll was over is recorded.
pub poll_round-Ended :
    (env : Env) (w : World)
    → (seconds : ℤ) × (when : Option ℤ) × ((poll_round env w).0 ≡ ok (seconds, when))
      × (pos 60 ≤ℤ seconds)
      × Ended env w seconds when
unfolding poll_round poll_try catch ◌>>=◌
poll_round-Ended env w =
    let same = (get_int-Reads (λ v. v ≡ w) "PollIntervalMinutes").run w refl in
    elim (Result-cases (get_int "PollIntervalMinutes" w).0) [
      | inr (e, fails) ↦
          (pos 60, none, rw fails refl, ground arith, inl (inl (e, fails), refl, refl))
      | inl (minutes, reads) ↦ elim (Result-cases (poll_market env w).0) [
        | inr (e, fails) ↦ (
          pos 60,
          none,
          rw (reads, same, fails) refl,
          ground arith,
          inl (inr (e, fails), refl, refl),
        )
        | inl (summary, polls) ↦ (
          interval minutes,
          some (poll_market env w).1.now,
          rw (reads, same, polls) refl,
          interval-bound minutes,
          inr (minutes, reads, (summary, polls), interval-IsInterval minutes, refl),
        )
      ]
    ]
