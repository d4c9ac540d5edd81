-- ===== src/BackoffRepo/Schedule.antt =====
-- What a recorded failure does to the next resync, and where recording fails.
use aomarket_bot.Prelude.{
  ℕ, ◌+◌, ◌≤◌, ◌≡◌, refl, inl, inr, false, ◌&&◌, some, List, [], ◌∷◌, Bool-cases, arith,
  if◌then◌else◌,
}
use aomarket_bot.Prelude.Int.{ℤ, pos, ◌+ℤ◌, ltb_ℤ}
use aomarket_bot.Prelude.Table.{any, find, update, any-append, any-delete_self}
use aomarket_bot.Db.{Db, AodbLookupBackoff, is_backoff}
use aomarket_bot.Exec.{World, Error, Result, Result-cases, ok, err, overflow_error, ◌>>=◌}
use aomarket_bot.BackoffRepo.{
  due_for_retry, record_failure, record_success, put_backoff, set_backoff, new_backoff,
  is_backed_off, failures_of,
}
use aomarket_bot.BackoffRepo.Delay.{
  next_retry_at, next_retry_at-schedule, next_retry_at_bounds, base_delay, max_delay,
}

-- An item whose row counts 35 failures or more cannot be recorded as failing again: every such
-- call raises OverflowError and leaves the row as it is.
pub record_failure_jams :
    (aoid : ℕ) (w : World) {b : AodbLookupBackoff}
    → find (is_backoff aoid) w.db.backoffs ≡ some b
    → 35 ≤ b.failure_count
    → record_failure aoid w ≡ (err overflow_error, w)
unfolding record_failure ◌>>=◌
record_failure_jams aoid w {b} found many =
    rw found (rw (next_retry_at-schedule (b.failure_count + 1) w.now) (ground arith))

-- Both branches of the upsert leave rows of the item with the new time only.
backed_off-update :
    (t : ℤ) (b : AodbLookupBackoff) (bs : List AodbLookupBackoff)
    → any (is_backed_off t b.aoid) (update (is_backoff b.aoid) (set_backoff b) bs)
      ≡ any (is_backoff b.aoid) bs && ltb_ℤ t b.next_retry_at
backed_off-update t b [] = refl
backed_off-update t b (c ∷ bs) = ground (arith, backed_off-update t b bs)

backed_off_needs_row :
    (t : ℤ) (aoid : ℕ) (bs : List AodbLookupBackoff)
    → any (is_backoff aoid) bs ≡ false
    → any (is_backed_off t aoid) bs ≡ false
backed_off_needs_row t aoid [] h = refl
backed_off_needs_row t aoid (c ∷ bs) h = ground (arith, backed_off_needs_row t aoid bs)

backed_off-put :
    (t : ℤ) (b : AodbLookupBackoff) (db : Db)
    → any (is_backed_off t b.aoid) (put_backoff b db).backoffs ≡ ltb_ℤ t b.next_retry_at
backed_off-put t b db = elim (Bool-cases (any (is_backoff b.aoid) db.backoffs)) [
  | inl old ↦ rw old (ground (arith, backed_off-update t b db.backoffs))
  | inr new ↦ rw new (
      ground (
        arith,
        any-append (is_backed_off t b.aoid) db.backoffs (b ∷ []),
        backed_off_needs_row t b.aoid db.backoffs,
      ))
]

-- After a recorded failure the item is left out of every resync for an hour at least, and is
-- asked for again once seven days have passed.
pub due_for_retry-record_failure :
    (aoid : ℕ) (w : World) (t : ℤ)
    → (record_failure aoid w).0 ≡ ok tt
    → let later = record (record_failure aoid w).1 { now = t } in
      (d : ℕ) × (base_delay ≤ d)
      × (d ≤ max_delay)
      × ((due_for_retry (aoid ∷ []) later).0
          ≡ ok (if ltb_ℤ t (w.now +ℤ pos d) then [] else aoid ∷ []))
unfolding record_failure due_for_retry ◌>>=◌
due_for_retry-record_failure aoid w t done =
    let n = failures_of (find (is_backoff aoid) w.db.backoffs) + 1 in
    elim (Result-cases (next_retry_at n w.now)) [
      | inl (retry, e) ↦
          let (d, at, lo, hi) = next_retry_at_bounds n w.now (omega arith) e in
          (
            d,
            lo,
            hi,
            rw (← at)
                (rw e (rw (backed_off-put t (new_backoff aoid n w.now retry) w.db) (ground arith))),
          )
      | inr (fault, e) ↦ absurd (jam (rw e at done))
    ]
  where
    jam : {fault : Error} → ◌≡◌ {A = Result (Unit {0})} (err fault) (ok tt) → ⊥
    jam p = cc

-- A found item is asked for again at once.
due_for_retry-record_success :
    (aoid : ℕ) (w : World)
    → (due_for_retry (aoid ∷ []) (record_success aoid w).1).0 ≡ ok (aoid ∷ [])
unfolding record_success due_for_retry ◌>>=◌
due_for_retry-record_success aoid w =
    rw (backed_off_needs_row w.now aoid _ (any-delete_self (is_backoff aoid) w.db.backoffs)) refl
