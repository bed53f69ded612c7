-- ===== src/Ingest/Worker/Backoff.antt =====
-- When a job that failed is tried again.
use inoreader.Prelude.{
  ℕ, ◌+◌, ◌*◌, ◌^◌, ◌%◌, ◌/◌, ◌≤◌, ◌<◌, min, ◌≡◌, refl, sym, ◌⊎◌, if_true, if_false, leb→le, ltb→lt,
  Bool, true, false, Option, none, some, arith, ltb, leb, unwrap_or, OptionAll, Bool-cases, inl,
  inr, ok, >>=-eq-ok, ok_or, ok_or-ok,
}
use Prim.Native.Nat.{max}
use native.Mathlib.Nat.{mod-lt, pow-le-pow_right}
use inoreader.Ingest.Error.{IngestError, invalid_lease_duration}
use inoreader.Ingest.Worker.{
  Chrono, IngestWorker, second, millisecond, add_within, not_before_of, is_rate_limited, delay_of,
  jitter_of, retry_at_of,
}

add_within-ok : (bound a b : ℕ) {c : ℕ} → add_within bound a b ≡ some c → (c ≡ a + b) × (c ≤ bound)
unfolding add_within
add_within-ok bound a b {c = c} h = elim (Bool-cases (leb (a + b) bound)) [
  | inl fits ↦
      let e : a + b ≡ c = cc (if_true (leb (a + b) bound) (some (a + b)) none fits h) in
      (sym e, ground (arith, leb→le (a + b) bound fits))
  | inr over ↦ absurd (cc (if_false (leb (a + b) bound) (some (a + b)) none over h))
]

jitter_of-le : (w : IngestWorker) (job_id : ℕ) → jitter_of w job_id ≤ w.retry_jitter
unfolding jitter_of
jitter_of-le w job_id = elim (Bool-cases (ltb 0 (w.retry_jitter / millisecond))) [
  | inl some_ ↦ rw some_ (
      scaled (job_id % (w.retry_jitter / millisecond))
        (mod-lt job_id (ltb→lt 0 (w.retry_jitter / millisecond) some_)))
  | inr none_ ↦ rw none_ (omega arith)
]
  where
    scaled : (r : ℕ) → r < w.retry_jitter / millisecond → r * millisecond ≤ w.retry_jitter
    scaled r h = omega arith

pow-le_1024 : (n : ℕ) → 2 ^ min n 10 ≤ 1024
pow-le_1024 n = pow-le-pow_right {n = 2} (omega arith) {i = min n 10} {j = 10} (omega arith)

-- A time of the next attempt: past the backoff after both the claim and the failure, past the delay of
-- a limited rate and what the remote asked for, and no later than these and the spread make it.
pub record IsBackoff (w : IngestWorker) (clock now attempt : ℕ) (e : IngestError) (at : ℕ)
    : Type 0 where
  pub after_run : clock + 2 ^ min attempt 10 * second ≤ at
  pub after_claim : now + 2 ^ min attempt 10 * second ≤ at
  pub limited : (is_rate_limited e ≡ false) ⊎ (clock + w.rate_limit_delay ≤ at)
  pub asked : OptionAll (λ t. t ≤ at) (not_before_of e)
  pub bounded :
      at
      ≤ max
          (max clock now + max (1024 * second) w.rate_limit_delay + w.retry_jitter)
          (unwrap_or (not_before_of e) now)

delay_of_lem :
    (w : IngestWorker) (attempt : ℕ) (limited : Bool)
    → (2 ^ min attempt 10 * second ≤ delay_of w attempt limited)
      × ((limited ≡ false) ⊎ (w.rate_limit_delay ≤ delay_of w attempt limited))
      × (delay_of w attempt limited ≤ max (1024 * second) w.rate_limit_delay)
unfolding delay_of
delay_of_lem w attempt true = (omega arith, inr (omega arith), omega (arith, pow-le_1024 attempt))
delay_of_lem w attempt false = (omega arith, inl refl, omega (arith, pow-le_1024 attempt))

asked_lem : (wish : Option ℕ) (at now : ℕ) → unwrap_or wish now ≤ at → OptionAll (λ t. t ≤ at) wish
asked_lem none at now h = tt
asked_lem (some t) at now h = h

module _ (chrono : Chrono) where
  -- The time of the next attempt is past the doubling backoff, counted from the claim and from the
  -- failure, past the delay of a limited rate, and not before the time that the remote named; it is
  -- no later than these and the spread make it.
  pub retry_at_of-IsBackoff :
      (w : IngestWorker) (clock now job_id attempt : ℕ) (e : IngestError) {at : ℕ}
      → retry_at_of chrono w clock now job_id attempt e ≡ ok at
      → IsBackoff w clock now attempt e at
  unfolding retry_at_of
  retry_at_of-IsBackoff w clock now job_id attempt e {at = at} h =
      let limited = is_rate_limited e in
      let delay = delay_of w attempt limited in
      let (a, first, h₁) =
        >>=-eq-ok (ok_or (add_within chrono.latest (max clock now) delay) invalid_lease_duration) _
          h in
      let (b, second_, h₂) =
        >>=-eq-ok (ok_or (add_within chrono.latest a (jitter_of w job_id)) invalid_lease_duration) _
          h₁ in
      let p =
        (add_within-ok chrono.latest (max clock now) delay (
          ok_or-ok (add_within chrono.latest (max clock now) delay) invalid_lease_duration
            first)).0 in
      let q =
        (add_within-ok chrono.latest a (jitter_of w job_id) (
          ok_or-ok (add_within chrono.latest a (jitter_of w job_id)) invalid_lease_duration
            second_)).0 in
      let r : max b (unwrap_or (not_before_of e) now) ≡ at = cc h₂ in
      let j = jitter_of-le w job_id in
      let d = delay_of_lem w attempt limited in
      record {
        after_run = omega (arith, p, q, r, d.0);
        after_claim = omega (arith, p, q, r, d.0);
        limited = elim d.1 [ inl free ↦ inl free | inr le ↦ inr (omega (arith, p, q, r, le)) ];
        asked = asked_lem (not_before_of e) at now (omega (arith, r));
        bounded = omega (arith, p, q, r, j, d.2);
      }
