-- ===== src/Ingest/Cycle.antt =====
-- crates/reader-storage-postgres/src/ingest_store.rs and ingest_store/queue.rs: what the store keeps
-- of the attempts at a job, how a claim ends a cycle of attempts that has become too old, and how it
-- takes a settlement of `run_one`. Of a job's row these are the columns `attempt` and
-- `first_attempt_ms`; the order in which jobs are claimed, and the limits on their origins, are not
-- modelled. Times are in nanoseconds, but for those in milliseconds that are named so.
pub mod Ended
use inoreader.Prelude.{
  ℕ, zero, suc, ◌+◌, ◌-◌, ◌/◌, Bool, true, false, Option, none, some, if◌then◌else◌, ltb, Result,
  ok, err,
}
use inoreader.Prelude.Text.{Text}
use inoreader.Ingest.Error.{IngestError}
use inoreader.Ingest.Worker.{
  Chrono, IngestWorker, Settlement, complete, fail, retry, settle, millisecond,
}

pub record AttemptRow : Type 0 where
  pub attempt : ℕ
  pub first_attempt_ms : ℕ

unfoldable pub millis : ℕ → ℕ
millis time = time / millisecond

unfoldable pub retry_age_exceeded : (first_attempt_ms oldest_allowed_ms : ℕ) → Bool
retry_age_exceeded first_attempt_ms oldest_allowed_ms = ltb first_attempt_ms oldest_allowed_ms

-- How a cycle of attempts ends: with success, by a settlement that fails the job, or at a claim.
pub data End : Type 0 where
  completed : End
  exhausted : End
  expired : End

-- What a round leaves: the end of the cycle, or a row that can be claimed again.
pub data Round : Type 0 where
  ended : End → Round
  left_ : AttemptRow → Round

-- `lease_update` and `finish` of the store: a lease that does not hold any longer is `StaleLease`,
-- which leaves the attempt; so does a settlement that `run_one` could not form.
unfoldable pub write_settlement :
    (holds : Bool) → Result IngestError Settlement → AttemptRow → Round
write_settlement holds (err e) row = left_ row
write_settlement false (ok s) row = left_ row
write_settlement true (ok complete) row = ended completed
write_settlement true (ok (fail diagnostic not_before)) row = ended exhausted
write_settlement true (ok (retry run_at diagnostic)) row =
    left_ (record row { attempt = row.attempt + 1 })

-- One run of the job: when it is claimed, when its handler ended, with which result, and whether the
-- lease still holds then.
pub record Run : Type 0 where
  pub claimed_at : ℕ
  pub ended_at : ℕ
  pub result : Result IngestError (Unit {0})
  pub holds : Bool

module _ (chrono : Chrono) (show_time : ℕ → Text) (w : IngestWorker)
    (max_retry_age job_id : ℕ) where
  -- A claim of the job, and what `run_one` and the store make of its run.
  unfoldable pub round : AttemptRow → Run → Round
  unfolding millis retry_age_exceeded write_settlement settle
  round row run =
      if retry_age_exceeded row.first_attempt_ms (millis (run.claimed_at - max_retry_age))
      then ended expired
      else write_settlement run.holds
          (settle chrono show_time w run.ended_at run.claimed_at job_id row.attempt run.result) row

  -- The runs of a claimed row that was not refused: one more than those before a round, unless it is
  -- the claim that ends the cycle.
  abbrev pub runs_of : ℕ → End → ℕ
  runs_of i completed = i + 1
  runs_of i exhausted = i + 1
  runs_of i expired = i

  -- The rounds of a cycle, from the round of a number on; its end, and how many runs there were.
  abbrev pub follow : ℕ → (AttemptRow → Option (End × ℕ)) → Round → Option (End × ℕ)
  follow i rest (ended e) = some (e, runs_of i e)
  follow i rest (left_ row) = rest row

  unfoldable pub cycle : (fuel : ℕ) → (ℕ → Run) → ℕ → AttemptRow → Option (End × ℕ)
  unfolding round
  cycle zero runs i row = none
  cycle (suc fuel) runs i row = follow i (λ next. cycle fuel runs (i + 1) next) (round row (runs i))
