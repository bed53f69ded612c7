-- ===== src/Ingest/Cycle/Ended.antt =====
-- A job whose every run fails: how its cycle of attempts ends.
use inoreader.Prelude.{
  ℕ, zero, suc, ◌+◌, ◌-◌, ◌≤◌, ◌<◌, min, ◌≡◌, refl, sym, ap, not, ◌||◌, ◌⊎◌, inl, inr, eqb,
  refuse_if-ok, Bool, true, false, Option, some, arith, leb, ltb, subst, if◌then◌else◌, Bool-cases,
  ok, err,
}
use inoreader.Prelude.Text.{Text}
use inoreader.Ingest.Error.{IngestError, invalid_lease_duration, invalid_retry_policy}
use inoreader.Ingest.Worker.{
  Chrono, IngestWorker, u32_max, is_exhausted, retry_at_of, settle, Duration, is_positive,
  is_negative, nanos, delay_fits, with_runtime_policy,
}
use inoreader.Ingest.Cycle.{
  AttemptRow, Run, End, exhausted, expired, ended, left_, millis, retry_age_exceeded,
  write_settlement, round, cycle,
}

module _ (chrono : Chrono) (show_time : ℕ → Text) (w : IngestWorker)
    (max_retry_age job_id first : ℕ) (runs : ℕ → Run) where
  -- At the claim of that number the first attempt at the job lies further back than the greatest age.
  abbrev pub is_too_old : ℕ → Bool
  is_too_old i = ltb first (millis ((runs i).claimed_at - max_retry_age))

  -- The handler fails with an error, the time of a retry is representable, and the lease holds when
  -- the settlement is written.
  pub record IsFailing (i : ℕ) : Type 0 where
    pub error : IngestError
    pub at : ℕ
    pub failed : (runs i).result ≡ err error
    pub timely : retry_at_of chrono w (runs i).ended_at (runs i).claimed_at job_id i error ≡ ok at
    pub held : (runs i).holds ≡ true

  -- From a round on: the cycle ends by the run that is the last one allowed, or at the first claim
  -- that is too late.
  abbrev pub EndsFrom : ℕ → Option (End × ℕ) → Type 0
  EndsFrom i o =
      ((o ≡ some (exhausted, w.retry_attempts))
        × ((j : ℕ) → i ≤ j → j < w.retry_attempts → is_too_old j ≡ false))
      ⊎ ((n : ℕ) × (o ≡ some (expired, n))
          × (n < w.retry_attempts)
          × (is_too_old n ≡ true)
          × ((j : ℕ) → i ≤ j → j < n → is_too_old j ≡ false))

  -- The row before a round.
  abbrev row_at : ℕ → AttemptRow
  row_at i = record { attempt = i; first_attempt_ms = first }

  round-too_old :
      (i : ℕ)
      → is_too_old i ≡ true
      → round chrono show_time w max_retry_age job_id (row_at i) (runs i) ≡ ended expired
  unfolding round retry_age_exceeded
  round-too_old i old = rw old refl

  round-failing :
      (i : ℕ)
      → is_too_old i ≡ false
      → IsFailing i
      → round chrono show_time w max_retry_age job_id (row_at i) (runs i)
        ≡ (if is_exhausted w i then ended exhausted else left_ (row_at (i + 1)))
  unfolding round retry_age_exceeded write_settlement settle
  round-failing i young f =
      rw (young, f.failed, f.held, f.timely)
        (elim (Bool-cases (is_exhausted w i)) [ inl last ↦ rw last refl | inr more ↦ rw more refl ])

  -- One claim that is early enough, before the others.
  young_before :
      (i n j : ℕ)
      → is_too_old i ≡ false
      → ((j : ℕ) → i + 1 ≤ j → j < n → is_too_old j ≡ false)
      → i ≤ j
      → j < n
      → is_too_old j ≡ false
  young_before i n j young rest from below = elim (Bool-cases (eqb i j)) [
    | inl same ↦ let e : i ≡ j = ground arith in subst (λ k. is_too_old k ≡ false) e young
    | inr other ↦ rest j (ground arith) below
  ]

  EndsFrom-earlier :
      (i : ℕ) (o : Option (End × ℕ)) → is_too_old i ≡ false → EndsFrom (i + 1) o → EndsFrom i o
  EndsFrom-earlier i o young (inl (e, rest)) =
      inl (e, λ j. young_before i w.retry_attempts j young rest)
  EndsFrom-earlier i o young (inr (n, e, below, old, rest)) =
      inr (n, e, below, old, λ j. young_before i n j young rest)

  expired-EndsFrom :
      (i : ℕ) → i < w.retry_attempts → is_too_old i ≡ true → EndsFrom i (some (expired, i))
  expired-EndsFrom i below old =
      inr (i, refl, below, old, λ j from under. absurd (omega (arith, from, under)))

  cycle-EndsFrom :
      (left i : ℕ)
      → w.retry_attempts ≤ u32_max
      → left + i + 1 ≡ w.retry_attempts
      → ((j : ℕ) → j < w.retry_attempts → IsFailing j)
      → EndsFrom i (cycle chrono show_time w max_retry_age job_id (suc left) runs i (row_at i))
  unfolding cycle is_exhausted
  cycle-EndsFrom zero i bound e failing = elim (Bool-cases (is_too_old i)) [
    | inl old ↦ rw (round-too_old i old) (expired-EndsFrom i (omega (arith, e)) old)
    | inr young ↦
        let last : leb w.retry_attempts (min (i + 1) u32_max) ≡ true = ground arith in
        let all_ : i + 1 ≡ w.retry_attempts = omega (arith, e) in
        rw (round-failing i young (failing i (omega (arith, e))), last)
          (inl (
            ap (λ n. some (exhausted, n)) all_,
            λ j.
                young_before i w.retry_attempts j young
                  (λ k from below. absurd (omega (arith, from, below, e))),
          ))
  ]
  cycle-EndsFrom (suc left) i bound e failing = elim (Bool-cases (is_too_old i)) [
    | inl old ↦ rw (round-too_old i old) (expired-EndsFrom i (omega (arith, e)) old)
    | inr young ↦
        let more : leb w.retry_attempts (min (i + 1) u32_max) ≡ false = ground arith in
        rw (round-failing i young (failing i (omega (arith, e))), more)
          (EndsFrom-earlier i _ young
            (cycle-EndsFrom left (i + 1) bound (omega (arith, e)) failing))
  ]

module _ (chrono : Chrono) (show_time : ℕ → Text) where
  with_runtime_policy-ok :
      (base : IngestWorker) (clock retry_attempts : ℕ)
      (renew_interval rate_limit_delay retry_jitter : Duration) {w : IngestWorker}
      → with_runtime_policy chrono base clock renew_interval retry_attempts rate_limit_delay
          retry_jitter
        ≡ ok w
      → (w.retry_attempts ≡ retry_attempts) × (0 < retry_attempts)
  unfolding with_runtime_policy
  with_runtime_policy-ok base clock retry_attempts renew delay jitter {w = w} h =
      let (g, h₁) =
        refuse_if-ok
          (not (is_positive renew) || leb base.lease_duration (nanos renew) || eqb retry_attempts 0)
          invalid_lease_duration _ h in
      let (_, h₂) =
        refuse_if-ok
          (not (is_positive delay)
            || is_negative jitter
            || not (delay_fits chrono clock (nanos delay) (nanos jitter)))
          invalid_retry_policy _ h₁ in
      let new_ : IngestWorker = record base {
        renew_interval = nanos renew;
        retry_attempts = retry_attempts;
        rate_limit_delay = nanos delay;
        retry_jitter = nanos jitter;
      } in
      let e : new_ ≡ w = cc h₂ in
      (ap (λ (v : IngestWorker). v.retry_attempts) (sym e), ground arith)

  -- Under a policy that is accepted, the cycle of a job whose every run fails ends. It is failed by
  -- exactly as many runs as the policy allows, or sooner, by the first claim at which the first
  -- attempt lies further back than the greatest age; the times of the retries are representable, and
  -- each settlement is written while the lease holds.
  pub cycle-EndsFrom_policy :
      (base : IngestWorker) (clock retry_attempts : ℕ)
      (renew_interval rate_limit_delay retry_jitter : Duration) (max_retry_age job_id first : ℕ)
      (runs : ℕ → Run) {w : IngestWorker}
      → with_runtime_policy chrono base clock renew_interval retry_attempts rate_limit_delay
          retry_jitter
        ≡ ok w
      → retry_attempts ≤ u32_max
      → ((i : ℕ)
          → i < w.retry_attempts
          → IsFailing chrono show_time w max_retry_age job_id first runs i)
      → (w.retry_attempts ≡ retry_attempts)
        × EndsFrom chrono show_time w max_retry_age job_id first runs 0 (
            cycle chrono show_time w max_retry_age job_id retry_attempts runs 0
              (record { attempt = 0; first_attempt_ms = first }))
  cycle-EndsFrom_policy base clock retry_attempts renew delay jitter max_retry_age job_id first runs
        {w = w} h bound failing =
      let (same, some_) = with_runtime_policy-ok base clock retry_attempts renew delay jitter h in
      (same, counted retry_attempts same some_ bound)
    where
      counted :
          (n : ℕ)
          → w.retry_attempts ≡ n
          → 0 < n
          → n ≤ u32_max
          → EndsFrom chrono show_time w max_retry_age job_id first runs 0 (
              cycle chrono show_time w max_retry_age job_id n runs 0
                (record { attempt = 0; first_attempt_ms = first }))
      counted zero same some_ fits = absurd (omega (arith, some_))
      counted (suc left) same some_ fits =
          cycle-EndsFrom chrono show_time w max_retry_age job_id first runs left 0
            (omega (arith, same, fits)) (omega (arith, same)) failing
