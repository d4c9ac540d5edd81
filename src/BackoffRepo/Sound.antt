-- ===== src/BackoffRepo/Sound.antt =====
-- The methods of aodb_backoff_repo.py keep the constraints of the tables.
use aomarket_bot.Prelude.{ℕ, refl, inl, inr, List, Bool-cases}
use aomarket_bot.Prelude.Table.{any, Unique-select, Unique-append, Unique-update}
use aomarket_bot.Db.{Db, AodbLookupBackoff, is_backoff}
use aomarket_bot.Db.Integrity.{IsSound, backoffs-IsSound}
use aomarket_bot.Exec.{modify}
use aomarket_bot.Exec.Keeps.{Keeps, keeps_rules}
use aomarket_bot.MarketRepo.Sound.{SoundWorld, modify-Sound}
use aomarket_bot.BackoffRepo.{
  due_for_retry, record_failure, record_success, put_backoff, set_backoff,
}

put_backoff-IsSound : (b : AodbLookupBackoff) (db : Db) → IsSound db → IsSound (put_backoff b db)
put_backoff-IsSound b db h = elim (Bool-cases (any (is_backoff b.aoid) db.backoffs)) [
  | inl old ↦ rw old (
      backoffs-IsSound db _
        (Unique-update _ (is_backoff b.aoid) (set_backoff b) db.backoffs (λ r s. refl) (λ r s. refl)
          h.backoffs_once)
        h)
  | inr new ↦ rw new (backoffs-IsSound db _ (Unique-append _ b db.backoffs new h.backoffs_once) h)
]

put_backoff-Sound : (b : AodbLookupBackoff) → Keeps SoundWorld (modify (put_backoff b))
put_backoff-Sound b = modify-Sound _ (put_backoff-IsSound b)

pub due_for_retry-Sound : (aoids : List ℕ) → Keeps SoundWorld (due_for_retry aoids)
unfolding due_for_retry
due_for_retry-Sound aoids = record { run = λ w h. h }

pub record_failure-Sound : (aoid : ℕ) → Keeps SoundWorld (record_failure aoid)
unfolding record_failure
record_failure-Sound aoid = search (keeps_rules, put_backoff-Sound)

pub record_success-Sound : (aoid : ℕ) → Keeps SoundWorld (record_success aoid)
unfolding record_success
record_success-Sound aoid =
    modify-Sound _ (λ db h. backoffs-IsSound db _ (Unique-select _ _ _ h.backoffs_once) h)

pub ruleset backoff_sound = (due_for_retry-Sound, record_failure-Sound, record_success-Sound)
