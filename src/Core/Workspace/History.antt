-- ===== src/Core/Workspace/History.antt =====
-- Every workspace that the operations build passes `validate`, and its revision tells its changes.
use inoreader.Prelude.{
  ℕ, ◌<◌, ◌≡◌, refl, ◌↔◌, inl, inr, some, List, [], ◌∷◌, arith, eq_of_==, ==_refl, next_u64-ne,
  next_u64-lt, u64_mod, get_last?, get_last?-push, All, All-push, All-get_last?, All-map, ok,
  for_each, for_each-All, All-for_each, >>=-eq-ok, nat_eq, list_eq, option_eq, ◌==◌, ◌!=◌, Option,
  refuse_if, Bool-cases,
}
use inoreader.Prelude.Text.{Text}
use inoreader.Core.Reason.{
  status_history_mismatch, ReasonPolicy, check_reason, IsAllowed, check_reason-IsAllowed,
  IsAllowed-check_reason,
}
use inoreader.Core.Workspace
use inoreader.Core.Workspace.{
  Workspace, WorkspaceStateEvent, WorkspaceStatus, active, archived, new, validate, event_eq,
  check_status,
}

-- The calls that change a workspace.
pub data Op : Type 0 where
  archive : WorkspaceStateEvent → Op
  restore : Op
  rename : Text → Op

unfoldable pub step : Workspace → Op → Workspace
step w (archive e) = Workspace.archive w e
step w restore = Workspace.restore w
step w (rename name) = Workspace.rename w name

unfoldable pub run : Workspace → List Op → Workspace
run w [] = w
run w (op ∷ ops) = run (step w op) ops

abbrev pub HasAllowedReason : ReasonPolicy → WorkspaceStateEvent → Type 0
HasAllowedReason policy e = IsAllowed policy e.reason

abbrev pub IsAllowedOp : ReasonPolicy → Op → Type 0
IsAllowedOp policy (archive e) = HasAllowedReason policy e
IsAllowedOp policy _ = Unit

abbrev IsRecorded : WorkspaceStatus → List WorkspaceStateEvent → Type 0
IsRecorded active history = Unit
IsRecorded (archived current) history = get_last? history ≡ some current

-- Every event of the history has an allowed reason, and an archived workspace's event is the last.
pub record IsConsistent (policy : ReasonPolicy) (w : Workspace) : Type 0 where
  pub reasons : All (HasAllowedReason policy) w.history
  pub recorded : IsRecorded w.status w.history

module _ (policy : ReasonPolicy) where
  step-IsConsistent :
      (w : Workspace) (op : Op)
      → IsAllowedOp policy op
      → IsConsistent policy w
      → IsConsistent policy (step w op)
  unfolding step Workspace.archive Workspace.restore Workspace.rename
  step-IsConsistent w (archive e) a h = elim (Bool-cases (Workspace.is_active w.status)) [
    | inl open_ ↦ rw open_ record {
      reasons = All-push (HasAllowedReason policy) w.history e h.reasons a;
      recorded = get_last?-push w.history e;
    }
    | inr shut ↦ rw shut h
  ]
  step-IsConsistent w restore a h = elim (Bool-cases (Workspace.is_active w.status)) [
    | inl open_ ↦ rw open_ h
    | inr shut ↦ rw shut (record { reasons = h.reasons; recorded = tt })
  ]
  step-IsConsistent w (rename name) a h = elim (Bool-cases (w.name == name)) [
    | inl same ↦ rw same h
    | inr new_name ↦ rw new_name (record { reasons = h.reasons; recorded = h.recorded })
  ]

  run-IsConsistent :
      (w : Workspace) (ops : List Op)
      → All (IsAllowedOp policy) ops
      → IsConsistent policy w
      → IsConsistent policy (run w ops)
  unfolding run
  run-IsConsistent w [] a h = h
  run-IsConsistent w (op ∷ ops) a h =
      run-IsConsistent (step w op) ops a.1 (step-IsConsistent w op a.0 h)

  IsRecorded-check_status :
      (status : WorkspaceStatus) (history : List WorkspaceStateEvent)
      → All (HasAllowedReason policy) history
      → IsRecorded status history
      → check_status policy status history ≡ ok tt
  unfolding check_status
  IsRecorded-check_status active history a r = refl
  IsRecorded-check_status (archived e) history a r =
      rw
        (IsAllowed-check_reason policy e.reason
          (All-get_last? (HasAllowedReason policy) history e a r))
        (rw (r, ==_refl {A = Option WorkspaceStateEvent} (some e)) refl)

  check_status-IsRecorded :
      (status : WorkspaceStatus) (history : List WorkspaceStateEvent)
      → check_status policy status history ≡ ok tt
      → IsRecorded status history
  unfolding check_status
  check_status-IsRecorded active history h = tt
  check_status-IsRecorded (archived e) history h =
      let (u, p, q) =
        >>=-eq-ok (check_reason policy e.reason)
          (λ _. refuse_if (get_last? history != some e) status_history_mismatch) h in
      elim (Bool-cases (get_last? history == some e)) [
        | inl same ↦ eq_of_== (get_last? history) (some e) same
        | inr other ↦ absurd (ground (arith, q))
      ]

  validate-IsConsistent : (w : Workspace) → IsConsistent policy w → validate w policy ≡ ok tt
  unfolding validate
  validate-IsConsistent w h =
      rw
        (for_each-All (λ e. check_reason policy e.reason) w.history
          (All-map (λ e. IsAllowed-check_reason policy e.reason) w.history h.reasons))
        (IsRecorded-check_status w.status w.history h.reasons h.recorded)

  IsConsistent-validate : (w : Workspace) → validate w policy ≡ ok tt → IsConsistent policy w
  unfolding validate
  IsConsistent-validate w h =
      let (u, reasons_ok, status_ok) =
        >>=-eq-ok (for_each (λ e. check_reason policy e.reason) w.history)
          (λ _. check_status policy w.status w.history) h in
      record {
        reasons =
            All-map (λ e. check_reason-IsAllowed policy e.reason) w.history
              (All-for_each (λ e. check_reason policy e.reason) w.history reasons_ok);
        recorded = check_status-IsRecorded w.status w.history status_ok;
      }

  -- A workspace passes `validate` exactly when every recorded reason is allowed and an archived
  -- workspace's current event is the last of its history.
  validate_iff : (w : Workspace) → (validate w policy ≡ ok tt) ↔ IsConsistent policy w
  validate_iff w = (IsConsistent-validate w, validate-IsConsistent w)

  -- Whatever calls of `archive`, `restore` and `rename` a new workspace has seen, it passes
  -- `validate` if each archival came with an allowed reason.
  pub validate-run :
      (id owner : ℕ) (name : Text) (ops : List Op)
      → All (IsAllowedOp policy) ops
      → validate (run (new id owner name) ops) policy ≡ ok tt
  unfolding new
  validate-run id owner name ops a =
      validate-IsConsistent (run (new id owner name) ops)
        (run-IsConsistent (new id owner name) ops a (record { reasons = tt; recorded = tt }))

-- A call changes the revision exactly when it changes the workspace, and the counter stays a u64.
revision-step :
    (w : Workspace) (op : Op)
    → w.revision < u64_mod
    → (((step w op).revision ≡ w.revision) ↔ (step w op ≡ w)) × ((step w op).revision < u64_mod)
unfolding step Workspace.archive Workspace.restore Workspace.rename
revision-step w (archive e) h = ground (arith, next_u64-ne w.revision, next_u64-lt w.revision)
revision-step w restore h = ground (arith, next_u64-ne w.revision, next_u64-lt w.revision)
revision-step w (rename name) h = ground (arith, next_u64-ne w.revision, next_u64-lt w.revision)
