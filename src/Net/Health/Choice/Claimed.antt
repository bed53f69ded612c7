-- ===== src/Net/Health/Choice/Claimed.antt =====
-- What a claim hands out: the endpoint that the policy prefers, marked as tried.
use inoreader.Prelude.{
  Eq, ℕ, ◌+◌, ◌≡◌, ◌≢◌, refl, ap, ◌∙◌, Bool, false, not, none, some, List, [], ◌∷◌, arith, nat_eq,
  list_eq, ◌==◌, ◌!=◌, All, All-map, get_elem?, modify, Bool-cases, inl, inr, Option, any, length,
  is_some, subst, eqb_iff, ==_refl, eq_of_==, ok,
}
use inoreader.Prelude.Text.{Text}
use inoreader.Net.Health.{
  EndpointHealth, EndpointAttempt, RouteHealth, Key, key_of, candidates, key_lt, min_key, start,
  claim, take_endpoint, find_host, put_host,
}
use inoreader.Net.Health.Choice.{min_key_lem}
use inoreader.Net.Health.Flight.{get_elem?-modify, find_host-put_host}
use inoreader.Net.Health.Choice.Preferred.{
  IsAvailable, IsPreferred, key_lt-IsPreferred, candidates-IsAvailable, is_due-IsRested,
}

==_differ {ℓ} : {A : Type ℓ} ⦃e : Eq A⦄ → (a b : A) → a ≢ b → (a == b) ≡ false
==_differ a b differ = elim (Bool-cases (a == b)) [
  | inl same ↦ absurd (differ (eq_of_== a b same))
  | inr other ↦ other
]

module _ (r : RouteHealth) (host : Text) (attempted : List Bool) (now : ℕ)
    (states : List EndpointHealth) where
  abbrev pub IsFree : ℕ → EndpointHealth → Type 0
  IsFree = IsAvailable r.quarantine now attempted states

  -- What a claim comes to: nothing without an available endpoint, and else an attempt on one that is
  -- preferred to all; that one is marked as tried, and as probed if it had failed, and no other
  -- endpoint, of this host or another, is changed.
  pub data IsClaim : RouteHealth → Option EndpointAttempt → Type 0 where
    exhausted : ((j : ℕ) (t : EndpointHealth) → ¬ IsFree j t) → IsClaim r none
    taken :
        {r' : RouteHealth} (i : ℕ) (s : EndpointHealth) (after : List EndpointHealth)
        → IsFree i s
        → ((j : ℕ) (t : EndpointHealth)
            → IsFree j t
            → IsPreferred (not (any (λ v. v) attempted)) s i t j)
        → find_host host r'.hosts ≡ some after
        → get_elem? after i
          ≡ some (record s { last_attempt = some now; probing = is_some s.failed_at })
        → ((j : ℕ) → i ≢ j → get_elem? after j ≡ get_elem? states j)
        → ((other : Text) → host ≢ other → find_host other r'.hosts ≡ find_host other r.hosts)
        → IsClaim r' (
            some (record { host = host; index = i; probe = is_some s.failed_at; finished = false }))

  start-idle :
      (s : EndpointHealth)
      → s.probing ≡ false
      → start now s ≡ record s { last_attempt = some now; probing = is_some s.failed_at }
  unfolding start
  start-idle s idle = elim (Bool-cases (is_some s.failed_at)) [
    | inl failed ↦ rw failed refl
    | inr sound ↦ rw sound (ap (λ p. record s { last_attempt = some now; probing = p }) idle)
  ]

  module _ (e : find_host host r.hosts ≡ some states) (k : Key)
      (best : min_key
          (candidates r.quarantine now (not (any (λ v. v) attempted)) 0 attempted states)
        ≡ some k) where
    take_endpoint-IsClaim :
        IsClaim
          (take_endpoint r host states now (some k)).0
          (take_endpoint r host states now (some k)).1
    unfolding key_of
    take_endpoint-IsClaim =
        let first = not (any (λ v. v) attempted) in
        let (c, least) = min_key_lem r.quarantine now first attempted states k best in
        let at : k.index ≡ c.at = rw c.key (omega arith) in
        let chosen : get_elem? states k.index ≡ some c.state = rw at c.here in
        let free : IsFree k.index c.state = record {
          here = chosen;
          untried = rw at c.untried;
          idle = c.idle;
          rested = is_due-IsRested r.quarantine now c.state.failed_at c.due;
        } in
        let key : k ≡ key_of first k.index c.state =
          c.key ∙ ap (λ n. key_of first n c.state) (omega (arith, at)) in
        let before : (j : ℕ) (t : EndpointHealth)
            → IsFree j t
            → key_lt (key_of first j t) (key_of first k.index c.state) ≡ false =
          λ j t f.
            let at_ : 0 + j ≡ j = omega arith in
            subst (λ n. key_lt (key_of first n t) (key_of first k.index c.state) ≡ false) at_
              (candidates-IsAvailable r.quarantine now first
                (λ k'. key_lt k' (key_of first k.index c.state) ≡ false) 0 attempted states
                (All-map (λ k' p. subst (λ (q : Key). key_lt k' q ≡ false) key p) _ least) j t f) in
        let after = modify k.index (start now) states in
        let here : find_host host (put_host host after r.hosts) ≡ some after =
          find_host-put_host host host after states r.hosts e ∙ rw (==_refl host) refl in
        let there : (other : Text)
            → host ≢ other
            → find_host other (put_host host after r.hosts) ≡ find_host other r.hosts =
          λ other differ.
            find_host-put_host host other after states r.hosts e
            ∙ rw (==_differ host other differ) refl in
        let marked : get_elem? after k.index
            ≡ some
                (record c.state { last_attempt = some now; probing = is_some c.state.failed_at }) =
          get_elem?-modify k.index k.index (start now) states
          ∙ rw ((eqb_iff k.index k.index).1 refl, chosen) (ap some (start-idle c.state c.idle)) in
        let kept : (j : ℕ) → k.index ≢ j → get_elem? after j ≡ get_elem? states j = λ j differ.
          get_elem?-modify k.index j (start now) states ∙ rw (==_differ k.index j differ) refl in
        rw chosen (
          taken k.index c.state after free
            (λ j t f. key_lt-IsPreferred first c.state k.index t j (before j t f)) here marked kept
            there)

  length-match : length attempted ≡ length states → (length attempted != length states) ≡ false
  length-match same = rw (same, ==_refl (length states)) refl

  chosen_or_none :
      (e : find_host host r.hosts ≡ some states)
      → (o : Option Key)
      → min_key (candidates r.quarantine now (not (any (λ v. v) attempted)) 0 attempted states) ≡ o
      → IsClaim (take_endpoint r host states now o).0 (take_endpoint r host states now o).1
  chosen_or_none e none h = exhausted (λ j t f.
      candidates-IsAvailable r.quarantine now (not (any (λ v. v) attempted)) (λ k. ⊥) 0 attempted
        states (no_keys _ h) j t f)
    where
      no_keys : (ks : List Key) → min_key ks ≡ none → All (λ k. ⊥) ks
      no_keys [] h = tt
      no_keys (k ∷ ks) h = absurd (cc h)
  chosen_or_none e (some k) h = take_endpoint-IsClaim e k h

  -- A claim for a known host, with a mark for each endpoint, succeeds. It hands out nothing if no
  -- endpoint is available, and else an attempt on an available one that goes before every other
  -- available one; it marks that one as tried, and as probed if it had failed, and changes no other
  -- endpoint.
  pub claim-IsClaim :
      find_host host r.hosts ≡ some states
      → length attempted ≡ length states
      → (r' : RouteHealth) × (o : Option EndpointAttempt) × (claim r host attempted now
          ≡ (r', ok o))
        × IsClaim r' o
  unfolding claim
  claim-IsClaim e same =
      let chosen =
        min_key (candidates r.quarantine now (not (any (λ v. v) attempted)) 0 attempted states) in
      (
        (take_endpoint r host states now chosen).0,
        (take_endpoint r host states now chosen).1,
        rw (e, length-match same) refl,
        chosen_or_none e chosen refl,
      )
