-- ===== src/Core/Reason.antt =====
-- crates/reader-core/src/reason.rs: bounded, non-blank reasons of state changes.
use inoreader.Prelude.{
  ℕ, ◌≤◌, ◌≡◌, Bool, false, arith, ltb, if◌then◌else◌, Eq, ◌==◌, nat_eq, list_eq, list_beq_iff,
  Result, ok, err, ◌>>=◌, map_err, all, ap,
}
use inoreader.Prelude.Text.{Text, is_whitespace, byte_len}

pub record Reason : Type 0 where
  pub raw : Text

pub record ReasonPolicy : Type 0 where
  pub max_bytes : ℕ

pub data ReasonError : Type 0 where
  blank : ReasonError
  too_long : ℕ → ℕ → ReasonError
  invalid_limit : ReasonError

pub data StateValidationError : Type 0 where
  invalid_reason : ReasonError → StateValidationError
  status_history_mismatch : StateValidationError
  source_url_mismatch : StateValidationError

-- `ReasonPolicy::new`
unfoldable pub new_policy : ℕ → Result ReasonError ReasonPolicy
new_policy max_bytes =
    if ltb 0 max_bytes then ok (record { max_bytes = max_bytes }) else err invalid_limit

-- `raw.chars().all(char::is_whitespace)`
unfoldable pub is_blank : Text → Bool
unfolding all is_whitespace
is_blank raw = all is_whitespace raw

-- `ReasonPolicy::validate`
unfoldable pub validate : ReasonPolicy → Text → Result ReasonError Reason
validate policy raw =
    if is_blank raw
    then err blank
    else if ltb policy.max_bytes (byte_len raw)
    then err (too_long (byte_len raw) policy.max_bytes)
    else ok (record { raw = raw })

-- `Deserialize for Reason`: a stored reason is not measured, and may not be blank.
unfoldable pub deserialize : Text → Result ReasonError Reason
deserialize raw = if is_blank raw then err blank else ok (record { raw = raw })

-- `policy.validate(reason.as_str().to_owned())?` where the caller returns `StateValidationError`
unfoldable pub check_reason : ReasonPolicy → Reason → Result StateValidationError (Unit {0})
unfolding validate
check_reason policy reason = map_err invalid_reason (validate policy reason.raw) >>= λ _. ok tt

-- What a policy asks of a reason, without the order of the tests.
pub record IsAllowed (policy : ReasonPolicy) (reason : Reason) : Type 0 where
  pub not_blank : is_blank reason.raw ≡ false
  pub fits : byte_len reason.raw ≤ policy.max_bytes

pub check_reason-IsAllowed :
    (policy : ReasonPolicy) (reason : Reason)
    → check_reason policy reason ≡ ok tt
    → IsAllowed policy reason
unfolding check_reason
check_reason-IsAllowed policy reason h = ground arith

pub IsAllowed-check_reason :
    (policy : ReasonPolicy) (reason : Reason)
    → IsAllowed policy reason
    → check_reason policy reason ≡ ok tt
unfolding check_reason
IsAllowed-check_reason policy reason h = ground arith

instance abbrev pub reason_eq : Eq Reason
reason_eq = record {
  beq = λ a b. a.raw == b.raw;
  beq_iff = λ a b. (
    λ h.
        ap (λ (t : Text). let r : Reason = record { raw = t } in r)
          ((list_beq_iff a.raw b.raw).0 h),
    λ p. (list_beq_iff a.raw b.raw).1 (ap (λ (r : Reason). r.raw) p),
  );
}
