-- ===== src/Ingest/Worker.antt =====
-- crates/reader-ingest/src/engine/mod.rs: a worker, its policy, and what it makes of the job that it
-- claims. Times are nanoseconds since 1970 and a `Duration` is a number of nanoseconds.
pub mod Backoff
use inoreader.Prelude.{
  ℕ, suc, ◌+◌, ◌*◌, ◌/◌, ◌%◌, ◌^◌, ◌-◌, min, Bool, true, false, not, ◌&&◌, ◌||◌, Option, none, some,
  List, nat_eq, ◌==◌, if◌then◌else◌, eqb, ltb, leb, is_some, unwrap_or, Result, ok, err, ◌>>=◌,
  ◌>>◌, refuse_if, map_err, ok_or,
}
use Prim.Native.Nat.{max}
use inoreader.Prelude.Text.{Text}
use inoreader.Core.Rules.{PendingRuleEvaluation}
use inoreader.Ingest.Error.{
  StoreError, IngestError, store, fetch, http, retry_after, invalid_lease_duration,
  invalid_retry_policy, diagnostic,
}
use inoreader.Ingest.Source.{IngestLimits, SourceDefinition, SourceKind, web_page, built_in}

pub data Duration : Type 0 where
  pos : ℕ → Duration
  negsuc : ℕ → Duration

-- `d > zero` and the number of a duration that is not negative
unfoldable pub is_positive : Duration → Bool
is_positive (pos n) = not (eqb n 0)
is_positive (negsuc n) = false

unfoldable pub is_negative : Duration → Bool
is_negative (pos n) = false
is_negative (negsuc n) = true

unfoldable pub nanos : Duration → ℕ
nanos (pos n) = n
nanos (negsuc n) = 0

-- The greatest time difference and instant of chrono.
pub record Chrono : Type 0 where
  pub longest : ℕ
  pub latest : ℕ

abbrev pub second : ℕ
second = 10 ^ 9

abbrev pub millisecond : ℕ
millisecond = 10 ^ 6

abbrev pub u32_max : ℕ
u32_max = 2 ^ 32 - 1

pub record IngestWorker : Type 0 where
  pub limits : IngestLimits
  pub lease_duration : ℕ
  pub renew_interval : ℕ
  pub retry_attempts : ℕ  -- u32
  pub rate_limit_delay : ℕ
  pub retry_jitter : ℕ

unfoldable pub new : IngestLimits → Duration → Result IngestError IngestWorker
unfolding is_positive nanos
new limits lease_duration = do
  refuse_if (not (is_positive lease_duration)) invalid_lease_duration
  ok (record {
    limits = limits;
    lease_duration = nanos lease_duration;
    renew_interval = nanos lease_duration / 3;
    retry_attempts = u32_max;
    rate_limit_delay = 0;
    retry_jitter = 0;
  })

-- `checked_add` within a bound
unfoldable pub add_within : ℕ → ℕ → ℕ → Option ℕ
add_within bound a b = if leb (a + b) bound then some (a + b) else none

module _ (chrono : Chrono) where
  -- `clock` is `Utc::now()`.
  unfoldable pub delay_fits : (clock delay jitter : ℕ) → Bool
  unfolding add_within
  delay_fits clock delay jitter =
      fits (add_within chrono.longest (max delay (1024 * second)) jitter)
    where
      fits : Option ℕ → Bool
      fits none = false
      fits (some d) = is_some (add_within chrono.latest clock d)

  unfoldable pub with_runtime_policy :
      IngestWorker
      → (clock : ℕ) → (renew_interval : Duration) → (retry_attempts : ℕ)
      → (rate_limit_delay retry_jitter : Duration) → Result IngestError IngestWorker
  unfolding is_positive is_negative nanos delay_fits
  with_runtime_policy w clock renew_interval retry_attempts rate_limit_delay retry_jitter = do
    refuse_if
        (not (is_positive renew_interval)
          || leb w.lease_duration (nanos renew_interval)
          || eqb retry_attempts 0)
        invalid_lease_duration
    refuse_if
        (not (is_positive rate_limit_delay)
          || is_negative retry_jitter
          || not (delay_fits clock (nanos rate_limit_delay) (nanos retry_jitter)))
        invalid_retry_policy
    ok (record w {
      renew_interval = nanos renew_interval;
      retry_attempts = retry_attempts;
      rate_limit_delay = nanos rate_limit_delay;
      retry_jitter = nanos retry_jitter;
    })

pub data WorkItem (Url : Type 0) : Type 0 where
  poll_source : ℕ → WorkItem Url
  refresh_source : ℕ → WorkItem Url
  fan_out : ℕ → ℕ → Option ℕ → WorkItem Url
  extract_full_text : ℕ → ℕ → Url → Bool → WorkItem Url
  collect_web_feed : ℕ → WorkItem Url
  cleanup_content : ℕ → ℕ → WorkItem Url
  evaluate_article_rules : ℕ → ℕ → List PendingRuleEvaluation → WorkItem Url
  apply_rule : ℕ → ℕ → ℕ → Option ℕ → Option ℕ → WorkItem Url

pub record LeasedWork (Url : Type 0) : Type 0 where
  pub job_id : ℕ  -- u128
  pub item : WorkItem Url
  pub token : ℕ
  pub deadline : ℕ
  pub attempt : ℕ  -- u32

-- What becomes of the job.
pub data Settlement : Type 0 where
  complete : Settlement
  fail : Text → Option ℕ → Settlement
  retry : ℕ → Text → Settlement

unfoldable pub not_before_of : IngestError → Option ℕ
not_before_of (fetch (retry_after status not_before)) = some not_before
not_before_of _ = none

unfoldable pub is_rate_limited : IngestError → Bool
is_rate_limited (fetch (http status)) = eqb status 429
is_rate_limited (fetch (retry_after status not_before)) = eqb status 429
is_rate_limited _ = false

-- `1 << min(attempt, 10)` seconds, but at least the delay for a limited rate
unfoldable pub delay_of : IngestWorker → ℕ → Bool → ℕ
delay_of w attempt rate_limited =
    max (2 ^ min attempt 10 * second) (if rate_limited then w.rate_limit_delay else 0)

-- The offset of the job within the spread, in whole milliseconds.
unfoldable pub jitter_of : IngestWorker → ℕ → ℕ
jitter_of w job_id =
    let spread = w.retry_jitter / millisecond in
    if ltb 0 spread then (job_id % spread) * millisecond else 0

module _ (chrono : Chrono) where
  -- `max(now).checked_add_signed(delay).and_then(.. jitter)`, then `max` with the remote's wish
  unfoldable pub retry_at_of :
      IngestWorker → (clock now job_id attempt : ℕ) → IngestError → Result IngestError ℕ
  unfolding add_within delay_of jitter_of not_before_of is_rate_limited
  retry_at_of w clock now job_id attempt e = do
    at ←
        ok_or (add_within chrono.latest (max clock now) (delay_of w attempt (is_rate_limited e)))
          invalid_lease_duration
    at' ← ok_or (add_within chrono.latest at (jitter_of w job_id)) invalid_lease_duration
    ok (max at' (unwrap_or (not_before_of e) now))

-- `attempt.saturating_add(1) >= self.retry_attempts`
unfoldable pub is_exhausted : IngestWorker → ℕ → Bool
is_exhausted w attempt = leb w.retry_attempts (min (attempt + 1) u32_max)

module _ (chrono : Chrono) (show_time : ℕ → Text) where
  -- What `run_one` asks of the store for the result of the handler.
  unfoldable pub settle :
      IngestWorker
      → (clock now job_id attempt : ℕ) → Result IngestError (Unit {0})
      → Result IngestError Settlement
  unfolding retry_at_of is_exhausted diagnostic
  settle w clock now job_id attempt (ok u) = ok complete
  settle w clock now job_id attempt (err e) = do
    at ← retry_at_of chrono w clock now job_id attempt e
    ok (
        if is_exhausted w attempt
        then fail (diagnostic show_time e) (if is_rate_limited e then some at else not_before_of e)
        else retry at (diagnostic show_time e))

  -- The answer of `run_one` when the store has taken the settlement.
  abbrev pub answer_of : Result IngestError (Unit {0}) → Result IngestError Bool
  answer_of (ok u) = ok true
  answer_of (err e) = err e

  -- `handle` is the handler under its heartbeat, `clock` the time when it ended, and `write` the
  -- store's answer to a settlement; `claimed` is its answer to the claim.
  module _ {Url : Type 0} (w : IngestWorker) (clock now : ℕ)
      (handle : LeasedWork Url → Result IngestError (Unit {0}))
      (write : LeasedWork Url → Settlement → Result StoreError (Unit {0})) where
    unfoldable pub run_lease : Option (LeasedWork Url) → Result IngestError Bool
    unfolding settle
    run_lease none = ok false
    run_lease (some lease) = do
      settlement ← settle w clock now lease.job_id lease.attempt (handle lease)
      map_err store (write lease settlement)
      answer_of (handle lease)

    unfoldable pub run_one : Result StoreError (Option (LeasedWork Url)) → Result IngestError Bool
    unfolding run_lease
    run_one claimed = do lease ← map_err store claimed; run_lease lease
