-- ===== src/Core/Jobs.antt =====
-- crates/reader-core/src/jobs.rs: a durable job, leased by one worker and completed by its owner.
-- A method on `&mut self` that returns a `bool` returns the new record beside it.
pub mod Lifecycle
use inoreader.Prelude.{
  ℕ, Bool, true, false, Option, List, ◌==◌, nat_eq, list_eq, if◌then◌else◌, next_u64,
}
use inoreader.Prelude.Text.{Text}

pub data JobKind : Type 0 where
  poll_source deliver_record extract_full_text evaluate_rule apply_rule_to_archive : JobKind

pub record JobLease : Type 0 where
  pub owner : Text
  pub acquired_at : ℕ
  pub expires_at : ℕ

pub data JobStatus : Type 0 where
  ready : JobStatus
  leased : JobLease → JobStatus
  retry_at : ℕ → JobStatus
  completed : JobStatus
  failed : Text → JobStatus

pub record DurableJob : Type 0 where
  pub id : ℕ
  pub kind : JobKind
  pub idempotency_key : Text
  pub payload : List ℕ
  pub status : JobStatus
  pub attempts : ℕ  -- u32
  pub revision : ℕ  -- u64

-- `matches!(self.status, JobStatus::Ready | JobStatus::RetryAt(_))`
abbrev pub is_claimable : JobStatus → Bool
is_claimable ready = true
is_claimable (retry_at t) = true
is_claimable _ = false

-- `matches!(&self.status, JobStatus::Leased(v) if v.owner == owner)`
abbrev pub is_leased_by : JobStatus → Text → Bool
is_leased_by (leased v) owner = v.owner == owner
is_leased_by _ owner = false

unfoldable pub lease : DurableJob → JobLease → DurableJob × Bool
lease job v =
    if is_claimable job.status
    then (record job { status = leased v; revision = next_u64 job.revision }, true)
    else (job, false)

unfoldable pub complete : DurableJob → Text → DurableJob × Bool
complete job owner =
    if is_leased_by job.status owner
    then (record job { status = completed; revision = next_u64 job.revision }, true)
    else (job, false)
