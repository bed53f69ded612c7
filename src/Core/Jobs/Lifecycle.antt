-- ===== src/Core/Jobs/Lifecycle.antt =====
-- What any interleaving of `lease` and `complete` calls does to one job.
use inoreader.Prelude.{
  ◌+◌, ◌%◌, next_u64-lt, ◌∙◌, ◌<◌, ◌≡◌, refl, ◌⊎◌, inl, inr, Bool, true, false, List, [], ◌∷◌,
  arith, next_u64, length, u64_mod, ◌==◌, nat_eq, list_eq, eq_of_==, Bool-cases, if◌then◌else◌,
}
use inoreader.Prelude.Text.{Text}
use inoreader.Core.Jobs
use inoreader.Core.Jobs.{
  JobLease, JobStatus, DurableJob, ready, leased, retry_at, completed, failed, is_claimable,
  is_leased_by,
}

-- The calls of any workers, in the order in which they reach the job.
pub data Call : Type 0 where
  lease : JobLease → Call
  complete : Text → Call

unfoldable pub call : DurableJob → Call → DurableJob × Bool
call job (lease v) = Jobs.lease job v
call job (complete owner) = Jobs.complete job owner

-- The job after the calls, and the calls that were granted.
unfoldable pub run : DurableJob → List Call → DurableJob × List Call
run job [] = (job, [])
run job (c ∷ cs) =
    let (job', granted) = call job c in
    let rest = run job' cs in (rest.0, if granted then c ∷ rest.1 else rest.1)

-- What the granted calls of a claimable job can be: none; one lease, which is still held; or one
-- lease and its completion by the owner of the lease.
pub data IsLifecycle : JobStatus → List Call → Type 0 where
  untouched : {s : JobStatus} → is_claimable s ≡ true → IsLifecycle s []
  held : {v : JobLease} → IsLifecycle (leased v) (lease v ∷ [])
  finished : {v : JobLease} → IsLifecycle completed (lease v ∷ complete v.owner ∷ [])

call-completed : (job : DurableJob) (c : Call) → job.status ≡ completed → call job c ≡ (job, false)
unfolding call Jobs.lease Jobs.complete
call-completed job (lease v) h = ground arith
call-completed job (complete owner) h = ground arith

run-completed :
    (job : DurableJob) (cs : List Call) → job.status ≡ completed → run job cs ≡ (job, [])
unfolding run
run-completed job [] h = refl
run-completed job (c ∷ cs) h = rw (call-completed job c h) (run-completed job cs h)

abbrev settled : DurableJob → JobStatus → DurableJob
settled job s = record job { status = s; revision = next_u64 job.revision }

lease-leased :
    (v w : JobLease) (job : DurableJob) → job.status ≡ leased v → Jobs.lease job w ≡ (job, false)
unfolding Jobs.lease
lease-leased v w job h = ground arith

complete-leased :
    (v : JobLease) (owner : Text) (job : DurableJob)
    → job.status ≡ leased v
    → Jobs.complete job owner
      ≡ (if v.owner == owner then (settled job completed, true) else (job, false))
unfolding Jobs.complete
complete-leased v owner job h = ground arith

run-leased :
    (v : JobLease) (job : DurableJob) (cs : List Call)
    → job.status ≡ leased v
    → IsLifecycle (run job cs).0.status (lease v ∷ (run job cs).1)
unfolding run call
run-leased v job [] h = rw h held
run-leased v job (lease w ∷ cs) h = rw (lease-leased v w job h) (run-leased v job cs h)
run-leased v job (complete owner ∷ cs) h = elim (Bool-cases (v.owner == owner)) [
  | inl mine ↦
      rw (complete-leased v owner job h, mine, run-completed (settled job completed) cs refl)
        (rw (← eq_of_== v.owner owner mine) finished)
  | inr theirs ↦ rw (complete-leased v owner job h, theirs) (run-leased v job cs h)
]

lease-claimable :
    (w : JobLease) (job : DurableJob)
    → is_claimable job.status ≡ true
    → Jobs.lease job w ≡ (settled job (leased w), true)
unfolding Jobs.lease
lease-claimable w job h = ground arith

complete-claimable :
    (owner : Text) (job : DurableJob)
    → is_claimable job.status ≡ true
    → Jobs.complete job owner ≡ (job, false)
unfolding Jobs.complete
complete-claimable owner job h = ground arith

-- From a job that may be claimed, whatever calls any workers make in whatever order, the granted
-- calls are none, one lease, or one lease followed by its completion by the owner of that lease;
-- the status is then claimable, leased by that lease, or completed.
pub run-IsLifecycle :
    (job : DurableJob) (cs : List Call)
    → is_claimable job.status ≡ true
    → IsLifecycle (run job cs).0.status (run job cs).1
unfolding run call
run-IsLifecycle job [] h = untouched h
run-IsLifecycle job (lease w ∷ cs) h =
    rw (lease-claimable w job h) (run-leased w (settled job (leased w)) cs refl)
run-IsLifecycle job (complete owner ∷ cs) h =
    rw (complete-claimable owner job h) (run-IsLifecycle job cs h)

call-cases :
    (job : DurableJob) (c : Call)
    → (call job c ≡ (job, false)) ⊎ ((s : JobStatus) × (call job c ≡ (settled job s, true)))
unfolding call Jobs.lease Jobs.complete
call-cases job (lease w) = elim (Bool-cases (is_claimable job.status)) [
  | inl free ↦ inr (leased w, rw free)
  | inr taken ↦ inl (rw taken)
]
call-cases job (complete owner) = elim (Bool-cases (is_leased_by job.status owner)) [
  | inl mine ↦ inr (completed, rw mine)
  | inr theirs ↦ inl (rw theirs)
]

-- The revision counts the granted calls, and nothing but the status and the revision changes.
pub run-revision :
    (job : DurableJob) (cs : List Call)
    → job.revision < u64_mod
    → (run job cs).0 ≡ record job {
      status = (run job cs).0.status;
      revision = (job.revision + length (run job cs).1) % u64_mod;
    }
unfolding run next_u64
run-revision job [] h = ground arith
run-revision job (c ∷ cs) h = elim (call-cases job c) [
  | inl refused ↦ rw refused (run-revision job cs h)
  | inr (s, granted) ↦
      rw granted (run-revision (settled job s) cs (next_u64-lt job.revision) ∙ ground arith)
]
