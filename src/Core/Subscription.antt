-- ===== src/Core/Subscription.antt =====
-- crates/reader-core/src/subscription.rs: a subscription of a workspace to a source, its status and
-- the history of its pauses. `Utc::now()` is the argument `now` of `new`.
pub mod History
use inoreader.Prelude.{
  unwrap_or, ℕ, ◌≡◌, ◌↔◌, Bool, true, false, not, ◌&&◌, ◌||◌, Option, none, some, List, [], ◌∷◌,
  ◌++◌, arith, Eq, ◌==◌, ◌!=◌, nat_eq, list_eq, option_eq, eq_of_==, ==_refl, if◌then◌else◌,
  next_u64, get_last?, Result, ok, err, ◌>>=◌, ◌>>◌, refuse_if, for_each,
}
use inoreader.Prelude.Text.{Text, is_empty}
use inoreader.Prelude.Url.{UrlApi}
use inoreader.Core.Reason.{
  Reason, ReasonPolicy, StateValidationError, status_history_mismatch, source_url_mismatch,
  check_reason, reason_eq,
}

pub record StateEvent : Type 0 where
  pub reason : Reason
  pub actor : ℕ
  pub at : ℕ

pub data SubscriptionStatus : Type 0 where
  active : SubscriptionStatus
  paused : StateEvent → SubscriptionStatus
  archived : SubscriptionStatus

pub record Subscription (Url : Type 0) : Type 0 where
  pub id : ℕ
  pub workspace_id : ℕ
  pub source_url : Url
  pub exact_url : Option Text  -- the field `source_url_exact`
  pub source_title : Text
  pub custom_name : Option Text
  pub created_at : Option ℕ
  pub status : SubscriptionStatus
  pub revision : ℕ  -- u64
  pub history : List StateEvent

-- `#[derive(PartialEq)]`
unfoldable pub event_beq : StateEvent → StateEvent → Bool
event_beq a b = a.reason == b.reason && a.actor == b.actor && a.at == b.at

pub event_beq_iff : (a b : StateEvent) → (event_beq a b ≡ true) ↔ (a ≡ b)
unfolding event_beq
event_beq_iff a b =
    (λ h. ground (arith, eq_of_== a.reason b.reason), λ p. ground (arith, ==_refl a.reason))

instance abbrev pub event_eq : Eq StateEvent
event_eq = record { beq = event_beq; beq_iff = event_beq_iff }

abbrev pub is_paused : SubscriptionStatus → Bool
is_paused (paused e) = true
is_paused _ = false

abbrev pub is_archived : SubscriptionStatus → Bool
is_archived archived = true
is_archived _ = false

-- `(!title.is_empty()).then_some(title)`
unfoldable pub non_empty : Text → Option Text
unfolding is_empty
non_empty title = if not (is_empty title) then some title else none

-- The last block of `validate`.
unfoldable pub check_status :
    ReasonPolicy → SubscriptionStatus → List StateEvent → Result StateValidationError (Unit {0})
check_status policy (paused current) history = do
  check_reason policy current.reason
  refuse_if (get_last? history != some current) status_history_mismatch
check_status policy _ history = ok tt

module _ (api : UrlApi) where
  open api use {Url, parse, as_str}

  unfoldable pub new : ℕ → ℕ → Url → Text → ℕ → Subscription Url
  new id workspace_id source_url title now = record {
    id = id;
    workspace_id = workspace_id;
    source_url = source_url;
    exact_url = none;
    source_title = title;
    custom_name = none;
    created_at = some now;
    status = active;
    revision = 0;
    history = [];
  }

  -- `Url::parse(&exact).ok().as_ref() == Some(&url)`
  unfoldable pub parses_to : Text → Url → Bool
  parses_to exact url = (option_eq ⦃e = api.url_eq⦄).beq (parse exact) (some url)

  unfoldable pub new_with_exact_url :
      ℕ → ℕ → Url → Text → Text → ℕ → Result StateValidationError (Subscription Url)
  unfolding parses_to new
  new_with_exact_url id workspace_id source_url exact title now =
      if not (parses_to exact source_url)
      then err source_url_mismatch
      else let value = new id workspace_id source_url title now in
        ok (record value { exact_url = some exact })

  -- The method `source_url_exact`.
  unfoldable pub source_url_exact : Subscription Url → Text
  source_url_exact s = unwrap_or s.exact_url (as_str s.source_url)

  unfoldable pub title : Subscription Url → Text
  title s = unwrap_or s.custom_name s.source_title

  unfoldable pub rename : Subscription Url → Text → Subscription Url
  rename s title =
      let custom_name = non_empty title in
      if s.custom_name != custom_name
      then record s { custom_name = custom_name; revision = next_u64 s.revision }
      else s

  unfoldable pub replace_source :
      Subscription Url → Url → Text → Text → Result StateValidationError (Subscription Url)
  unfolding parses_to source_url_exact
  replace_source s source_url exact source_title =
      if not (parses_to exact source_url)
      then err source_url_mismatch
      else if not (api.url_eq.beq s.source_url source_url)
          || source_url_exact s != exact
          || s.source_title != source_title
      then ok (record s {
        source_url = source_url;
        exact_url = some exact;
        source_title = source_title;
        revision = next_u64 s.revision;
      })
      else ok s

  unfoldable pub pause : Subscription Url → StateEvent → Subscription Url
  pause s event = if is_paused s.status then s else record s {
    status = paused event;
    history = s.history ++ event ∷ [];
    revision = next_u64 s.revision;
  }

  unfoldable pub resume : Subscription Url → Subscription Url
  resume s =
      if is_paused s.status then record s { status = active; revision = next_u64 s.revision } else s

  unfoldable pub archive : Subscription Url → Subscription Url
  archive s =
      if not (is_archived s.status)
      then record s { status = archived; revision = next_u64 s.revision }
      else s

  unfoldable pub restore : Subscription Url → Subscription Url
  restore s =
      if is_archived s.status
      then record s { status = active; revision = next_u64 s.revision }
      else s

  -- `is_some_and(|exact| Url::parse(exact).ok().as_ref() != Some(&self.source_url))`
  abbrev pub contradicts : Option Text → Url → Bool
  contradicts none url = false
  contradicts (some exact) url = not (parses_to exact url)

  unfoldable pub validate : Subscription Url → ReasonPolicy → Result StateValidationError (Unit {0})
  unfolding check_status
  validate s policy = do
    refuse_if (contradicts s.exact_url s.source_url) source_url_mismatch
    for_each (λ event. check_reason policy event.reason) s.history
    check_status policy s.status s.history
