-- ===== src/Core/Workspace.antt =====
-- crates/reader-core/src/workspace.rs: a workspace, its archive state and the history of archivals.
-- A method on `&mut self` returns the new record. Instants and identities are numbers.
pub mod History
use inoreader.Prelude.{
  ℕ, ◌≡◌, ◌↔◌, Bool, true, false, not, ◌&&◌, Option, none, some, List, [], ◌∷◌, ◌++◌, arith, Eq,
  ◌==◌, ◌!=◌, nat_eq, list_eq, option_eq, eq_of_==, ==_refl, if◌then◌else◌, next_u64, get_last?,
  Result, ok, err, ◌>>=◌, ◌>>◌, refuse_if, for_each, ap,
}
use inoreader.Prelude.Text.{Text}
use inoreader.Core.Reason.{
  Reason, ReasonPolicy, StateValidationError, status_history_mismatch, check_reason, reason_eq,
}

pub record WorkspaceStateEvent : Type 0 where
  pub reason : Reason
  pub actor : ℕ
  pub at : ℕ

pub data WorkspaceStatus : Type 0 where
  active : WorkspaceStatus
  archived : WorkspaceStateEvent → WorkspaceStatus

pub record Workspace : Type 0 where
  pub id : ℕ
  pub owner : ℕ
  pub name : Text
  pub status : WorkspaceStatus
  pub revision : ℕ  -- u64
  pub history : List WorkspaceStateEvent

-- `#[derive(PartialEq)]`
unfoldable pub event_beq : WorkspaceStateEvent → WorkspaceStateEvent → Bool
event_beq a b = a.reason == b.reason && a.actor == b.actor && a.at == b.at

pub event_beq_iff : (a b : WorkspaceStateEvent) → (event_beq a b ≡ true) ↔ (a ≡ b)
unfolding event_beq
event_beq_iff a b =
    (λ h. ground (arith, eq_of_== a.reason b.reason), λ p. ground (arith, ==_refl a.reason))

instance abbrev pub event_eq : Eq WorkspaceStateEvent
event_eq = record { beq = event_beq; beq_iff = event_beq_iff }

unfoldable pub new : ℕ → ℕ → Text → Workspace
new id owner name = record {
  id = id;
  owner = owner;
  name = name;
  status = active;
  revision = 0;
  history = [];
}

abbrev pub is_active : WorkspaceStatus → Bool
is_active active = true
is_active (archived e) = false

unfoldable pub accepts_delivery : Workspace → Bool
accepts_delivery w = is_active w.status

unfoldable pub archive : Workspace → WorkspaceStateEvent → Workspace
unfolding accepts_delivery next_u64
archive w event =
    if accepts_delivery w
    then record w {
      status = archived event;
      history = w.history ++ event ∷ [];
      revision = next_u64 w.revision;
    }
    else w

unfoldable pub restore : Workspace → Workspace
unfolding accepts_delivery
restore w =
    if not (accepts_delivery w)
    then record w { status = active; revision = next_u64 w.revision }
    else w

unfoldable pub rename : Workspace → Text → Workspace
rename w name =
    if w.name != name then record w { name = name; revision = next_u64 w.revision } else w

-- The last block of `validate`.
unfoldable pub check_status :
    ReasonPolicy
    → WorkspaceStatus
    → List WorkspaceStateEvent
    → Result StateValidationError (Unit {0})
check_status policy active history = ok tt
check_status policy (archived current) history = do
  check_reason policy current.reason
  refuse_if (get_last? history != some current) status_history_mismatch

unfoldable pub validate : Workspace → ReasonPolicy → Result StateValidationError (Unit {0})
unfolding check_status
validate w policy = do
  for_each (λ event. check_reason policy event.reason) w.history
  check_status policy w.status w.history
