-- ===== src/Core/Subscription/History.antt =====
-- Every subscription that the operations build passes `validate`, its exact URL names its source,
-- and its revision tells its changes.
use inoreader.Prelude.{
  unwrap_or, ℕ, ◌<◌, ◌≡◌, refl, ◌↔◌, inl, inr, false, not, Option, none, some, List, [], ◌∷◌, arith,
  eq_of_==, ==_refl, next_u64-ne, next_u64-lt, u64_mod, get_last?, get_last?-push, All, All-push,
  All-get_last?, All-map, Result, ok, err, for_each, for_each-All, All-for_each, >>=-eq-ok, nat_eq,
  list_eq, option_eq, option_beq_iff, ◌==◌, ◌!=◌, ◌||◌, subst, Bool-cases, refuse_if,
}
use inoreader.Prelude.Text.{Text}
use inoreader.Prelude.Url.{UrlApi, Serializes}
use inoreader.Core.Reason.{
  ReasonPolicy, StateValidationError, status_history_mismatch, check_reason, IsAllowed,
  check_reason-IsAllowed, IsAllowed-check_reason,
}
use inoreader.Core.Subscription
use inoreader.Core.Subscription.{
  Subscription, StateEvent, SubscriptionStatus, active, paused, archived, is_paused, is_archived,
  event_eq, parses_to, contradicts, check_status, source_url_exact, new, new_with_exact_url,
  validate, non_empty,
}

abbrev pub HasAllowedReason : ReasonPolicy → StateEvent → Type 0
HasAllowedReason policy e = IsAllowed policy e.reason

abbrev IsRecorded : SubscriptionStatus → List StateEvent → Type 0
IsRecorded (paused current) history = get_last? history ≡ some current
IsRecorded _ history = Unit

module _ (policy : ReasonPolicy) where
  IsRecorded-check_status :
      (status : SubscriptionStatus) (history : List StateEvent)
      → All (HasAllowedReason policy) history
      → IsRecorded status history
      → check_status policy status history ≡ ok tt
  unfolding check_status
  IsRecorded-check_status (paused e) history a r =
      rw
        (IsAllowed-check_reason policy e.reason
          (All-get_last? (HasAllowedReason policy) history e a r))
        (rw (r, ==_refl {A = Option StateEvent} (some e)) refl)
  IsRecorded-check_status _ history a r = refl

  check_status-IsRecorded :
      (status : SubscriptionStatus) (history : List StateEvent)
      → check_status policy status history ≡ ok tt
      → IsRecorded status history
  unfolding check_status
  check_status-IsRecorded (paused e) history h =
      let (u, p, q) =
        >>=-eq-ok (check_reason policy e.reason)
          (λ _. refuse_if (get_last? history != some e) status_history_mismatch) h in
      elim (Bool-cases (get_last? history == some e)) [
        | inl same ↦ eq_of_== (get_last? history) (some e) same
        | inr other ↦ absurd (ground (arith, q))
      ]
  check_status-IsRecorded _ history h = tt

module _ (api : UrlApi) where
  open api use {Url, parse, as_str}

  -- The calls that change a subscription.
  pub data Call : Type 0 where
    rename : Text → Call
    replace_source : Url → Text → Text → Call
    pause : StateEvent → Call
    resume : Call
    archive : Call
    restore : Call

  -- A refused call leaves the subscription as it was.
  abbrev pub settle :
      Subscription Url → Result StateValidationError (Subscription Url) → Subscription Url
  settle s (ok t) = t
  settle s (err e) = s

  unfoldable pub apply_call : Subscription Url → Call → Subscription Url
  apply_call s (rename title) = Subscription.rename api s title
  apply_call s (replace_source url exact title) =
      settle s (Subscription.replace_source api s url exact title)
  apply_call s (pause e) = Subscription.pause api s e
  apply_call s resume = Subscription.resume api s
  apply_call s archive = Subscription.archive api s
  apply_call s restore = Subscription.restore api s

  unfoldable pub run_calls : Subscription Url → List Call → Subscription Url
  run_calls s [] = s
  run_calls s (c ∷ calls) = run_calls (apply_call s c) calls

  abbrev pub IsAllowedCall : ReasonPolicy → Call → Type 0
  IsAllowedCall policy (pause e) = HasAllowedReason policy e
  IsAllowedCall policy _ = Unit

  -- The exact spelling names the source, every pause had an allowed reason, and the event of a
  -- paused subscription is the last of its history.
  pub record IsConsistent (policy : ReasonPolicy) (s : Subscription Url) : Type 0 where
    pub named : contradicts api s.exact_url s.source_url ≡ false
    pub reasons : All (HasAllowedReason policy) s.history
    pub recorded : IsRecorded s.status s.history

module _ (api : UrlApi) (policy : ReasonPolicy) where
  open api use {Url, parse, as_str}

  apply_call-IsConsistent :
      (s : Subscription Url) (c : Call api)
      → IsAllowedCall api policy c
      → IsConsistent api policy s
      → IsConsistent api policy (apply_call api s c)
  unfolding apply_call Subscription.rename Subscription.replace_source Subscription.pause
      Subscription.resume Subscription.archive Subscription.restore
  apply_call-IsConsistent s (rename title) a h =
      elim (Bool-cases (s.custom_name == non_empty title)) [
        | inl same ↦ rw same h
        | inr other ↦
            rw other (record { named = h.named; reasons = h.reasons; recorded = h.recorded })
      ]
  apply_call-IsConsistent s (replace_source url exact title) a h =
      elim (Bool-cases (parses_to api exact url)) [
        | inr stray ↦ rw stray h
        | inl named ↦
            rw named
              (elim (Bool-cases (
                not (api.url_eq.beq s.source_url url)
                || source_url_exact api s != exact
                || s.source_title != title)) [
                  | inl differs ↦
                      rw differs (record {
                        named = rw named refl;
                        reasons = h.reasons;
                        recorded = h.recorded;
                      })
                  | inr same ↦ rw same h
                ])
      ]
  apply_call-IsConsistent s (pause e) a h = elim (Bool-cases (is_paused s.status)) [
    | inl still ↦ rw still h
    | inr running ↦ rw running (record {
      named = h.named;
      reasons = All-push (HasAllowedReason policy) s.history e h.reasons a;
      recorded = get_last?-push s.history e;
    })
  ]
  apply_call-IsConsistent s resume a h = elim (Bool-cases (is_paused s.status)) [
    | inl still ↦ rw still (record { named = h.named; reasons = h.reasons; recorded = tt })
    | inr running ↦ rw running h
  ]
  apply_call-IsConsistent s archive a h = elim (Bool-cases (is_archived s.status)) [
    | inl gone ↦ rw gone h
    | inr kept ↦ rw kept (record { named = h.named; reasons = h.reasons; recorded = tt })
  ]
  apply_call-IsConsistent s restore a h = elim (Bool-cases (is_archived s.status)) [
    | inl gone ↦ rw gone (record { named = h.named; reasons = h.reasons; recorded = tt })
    | inr kept ↦ rw kept h
  ]

  run_calls-IsConsistent :
      (s : Subscription Url) (calls : List (Call api))
      → All (IsAllowedCall api policy) calls
      → IsConsistent api policy s
      → IsConsistent api policy (run_calls api s calls)
  unfolding run_calls
  run_calls-IsConsistent s [] a h = h
  run_calls-IsConsistent s (c ∷ calls) a h =
      run_calls-IsConsistent (apply_call api s c) calls a.1 (apply_call-IsConsistent s c a.0 h)

  validate-IsConsistent :
      (s : Subscription Url) → IsConsistent api policy s → validate api s policy ≡ ok tt
  unfolding validate
  validate-IsConsistent s h = rw h.named (
      rw
        (for_each-All (λ e. check_reason policy e.reason) s.history
          (All-map (λ e. IsAllowed-check_reason policy e.reason) s.history h.reasons))
        (IsRecorded-check_status policy s.status s.history h.reasons h.recorded))

  IsConsistent-validate :
      (s : Subscription Url) → validate api s policy ≡ ok tt → IsConsistent api policy s
  unfolding validate
  IsConsistent-validate s h = elim (Bool-cases (contradicts api s.exact_url s.source_url)) [
    | inl stray ↦ absurd (ground (arith, rw stray at h))
    | inr named ↦
        let (u, reasons_ok, status_ok) =
          >>=-eq-ok (for_each (λ e. check_reason policy e.reason) s.history)
            (λ _. check_status policy s.status s.history) (rw named at h) in
        record {
          named = named;
          reasons =
              All-map (λ e. check_reason-IsAllowed policy e.reason) s.history
                (All-for_each (λ e. check_reason policy e.reason) s.history reasons_ok);
          recorded = check_status-IsRecorded policy s.status s.history status_ok;
        }
  ]

  -- A subscription passes `validate` exactly when its exact spelling, if any, parses to its source
  -- URL, every recorded reason is allowed, and a paused one's event is the last of its history.
  validate_subscription_iff :
      (s : Subscription Url) → (validate api s policy ≡ ok tt) ↔ IsConsistent api policy s
  validate_subscription_iff s = (IsConsistent-validate s, validate-IsConsistent s)

  new_with_exact_url-IsConsistent :
      (id workspace_id : ℕ) (url : Url) (exact title : Text) (now : ℕ) {s : Subscription Url}
      → new_with_exact_url api id workspace_id url exact title now ≡ ok s
      → IsConsistent api policy s
  unfolding new_with_exact_url
  new_with_exact_url-IsConsistent id workspace_id url exact title now {s} h =
      elim (Bool-cases (parses_to api exact url)) [
        | inr stray ↦ absurd (cc (rw stray at h))
        | inl named ↦
            let t : Subscription Url = record (new api id workspace_id url title now) {
              exact_url = some exact;
            } in
            let e : t ≡ s = cc (rw named at h) in
            subst (IsConsistent api policy) e
              (record { named = rw named refl; reasons = tt; recorded = tt })
      ]

  -- Whatever calls a subscription has seen since `new_with_exact_url` accepted it, failed ones
  -- included, it passes `validate` if each pause came with an allowed reason.
  pub validate-run_calls :
      (id workspace_id : ℕ) (url : Url) (exact title : Text) (now : ℕ) (calls : List (Call api))
      {s : Subscription Url}
      → new_with_exact_url api id workspace_id url exact title now ≡ ok s
      → All (IsAllowedCall api policy) calls
      → validate api (run_calls api s calls) policy ≡ ok tt
  validate-run_calls id workspace_id url exact title now calls {s} made a =
      validate-IsConsistent (run_calls api s calls) (
        run_calls-IsConsistent s calls a
          (new_with_exact_url-IsConsistent id workspace_id url exact title now made))

  exact-parse :
      Serializes api
      → (e : Option Text) (url : Url) → contradicts api e url ≡ false
      → parse (unwrap_or e (as_str url)) ≡ some url
  unfolding parses_to
  exact-parse back none url named = back url
  exact-parse back (some exact) url named =
      (option_beq_iff ⦃e = api.url_eq⦄ (parse exact) (some url)).0 (ground arith)

  -- The exact URL that a valid subscription reports parses to the URL that is polled, if
  -- serialized URLs parse back.
  source_url_exact-parse :
      Serializes api
      → (s : Subscription Url) → validate api s policy ≡ ok tt
      → parse (source_url_exact api s) ≡ some s.source_url
  unfolding source_url_exact
  source_url_exact-parse back s h =
      exact-parse back s.exact_url s.source_url (IsConsistent-validate s h).named

-- A call changes the revision exactly when it changes the subscription, and the counter stays a
-- u64.
revision-apply_call :
    (api : UrlApi) (s : Subscription api.Url) (c : Call api)
    → s.revision < u64_mod
    → (((apply_call api s c).revision ≡ s.revision) ↔ (apply_call api s c ≡ s))
      × ((apply_call api s c).revision < u64_mod)
unfolding apply_call Subscription.rename Subscription.replace_source Subscription.pause
    Subscription.resume Subscription.archive Subscription.restore
revision-apply_call api s (rename title) h =
    ground (arith, next_u64-ne s.revision, next_u64-lt s.revision)
revision-apply_call api s (replace_source url exact title) h =
    ground (arith, next_u64-ne s.revision, next_u64-lt s.revision)
revision-apply_call api s (pause e) h =
    ground (arith, next_u64-ne s.revision, next_u64-lt s.revision)
revision-apply_call api s resume h = ground (arith, next_u64-ne s.revision, next_u64-lt s.revision)
revision-apply_call api s archive h = ground (arith, next_u64-ne s.revision, next_u64-lt s.revision)
revision-apply_call api s restore h = ground (arith, next_u64-ne s.revision, next_u64-lt s.revision)
