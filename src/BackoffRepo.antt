-- ===== src/BackoffRepo.antt =====
-- src/aomarket/db/aodb_backoff_repo.py: which items a resync may ask for again, and when.
pub mod Delay
pub mod Sound
pub mod Schedule
use aomarket_bot.Prelude.{
  ℕ, ◌+◌, Bool, ◌&&◌, not, Option, none, some, List, [], ◌∷◌, ◌++◌, ◌==◌, if◌then◌else◌,
}
use aomarket_bot.Prelude.Int.{ℤ, ltb_ℤ}
use aomarket_bot.Prelude.Table.{any, find, select, delete, update}
use aomarket_bot.Db.{Db, AodbLookupBackoff, is_backoff}
use aomarket_bot.Exec.{Action, lift, query, clock, modify, ◌>>=◌, ◌>>◌}
use aomarket_bot.BackoffRepo.Delay.{next_retry_at}

abbrev pub is_backed_off : ℤ → ℕ → AodbLookupBackoff → Bool
is_backed_off now aoid b = b.aoid == aoid && ltb_ℤ now b.next_retry_at

-- `aoids - still_backed_off`, in the order of `aoids`
unfoldable pub due_for_retry : List ℕ → Action (List ℕ)
unfolding ◌>>=◌
due_for_retry aoids = do
  now ← clock
  query (λ db. delete (λ aoid. any (is_backed_off now aoid) db.backoffs) aoids)

abbrev pub new_backoff : ℕ → ℕ → ℤ → ℤ → AodbLookupBackoff
new_backoff aoid failure_count now retry = record {
  aoid = aoid;
  failure_count = failure_count;
  last_attempted_at = now;
  next_retry_at = retry;
}

abbrev pub set_backoff : AodbLookupBackoff → AodbLookupBackoff → AodbLookupBackoff
set_backoff b old = record old {
  failure_count = b.failure_count;
  last_attempted_at = b.last_attempted_at;
  next_retry_at = b.next_retry_at;
}

-- INSERT … ON CONFLICT (aoid) DO UPDATE
abbrev pub put_backoff : AodbLookupBackoff → Db → Db
put_backoff b db = record db {
  backoffs =
      if any (is_backoff b.aoid) db.backoffs
      then update (is_backoff b.aoid) (set_backoff b) db.backoffs
      else db.backoffs ++ b ∷ [];
}

abbrev pub failures_of : Option AodbLookupBackoff → ℕ
failures_of none = 0
failures_of (some b) = b.failure_count

unfoldable pub record_failure : ℕ → Action Unit
unfolding next_retry_at ◌>>=◌
record_failure aoid = do
  now ← clock
  existing ← query (λ db. find (is_backoff aoid) db.backoffs)
  let failure_count = failures_of existing + 1
  retry ← lift (next_retry_at failure_count now)
  modify (put_backoff (new_backoff aoid failure_count now retry))

unfoldable pub record_success : ℕ → Action Unit
unfolding ◌>>=◌
record_success aoid = modify (λ db. record db { backoffs = delete (is_backoff aoid) db.backoffs })
