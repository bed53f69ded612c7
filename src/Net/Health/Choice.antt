-- ===== src/Net/Health/Choice.antt =====
-- Which endpoint a claim takes: an eligible one, and none that sorts before it.
pub mod Preferred
pub mod Claimed
use inoreader.Prelude.{
  ℕ, suc, ◌+◌, ◌≡◌, refl, Bool, true, false, some, List, [], ◌∷◌, arith, nat_eq, All, All-map,
  get_elem?, if◌then◌else◌, Bool-cases, inl, inr, subst,
}
use inoreader.Net.Health.{
  EndpointHealth, Key, eligible, key_of, candidates, key_lt, min_from, min_key, is_due,
}

module _ (quarantine now : ℕ) (first : Bool) where
  -- The key of an endpoint that was not attempted yet, is not being probed, and has no failure or
  -- one whose quarantine has passed.
  pub record IsCandidate (attempted : List Bool) (states : List EndpointHealth) (i : ℕ) (k : Key)
      : Type 0 where
    pub at : ℕ
    pub state : EndpointHealth
    pub key : k ≡ key_of first (i + at) state
    pub here : get_elem? states at ≡ some state
    pub untried : get_elem? attempted at ≡ some false
    pub idle : state.probing ≡ false
    pub due : is_due quarantine now state.failed_at ≡ true

  later :
      (a : Bool) (attempted : List Bool) (s : EndpointHealth) (states : List EndpointHealth) (i : ℕ)
      (k : Key)
      → IsCandidate attempted states (suc i) k
      → IsCandidate (a ∷ attempted) (s ∷ states) i k
  later a attempted s states i k c = record {
    at = suc c.at;
    state = c.state;
    key = rw (shift i c.at) c.key;
    here = c.here;
    untried = c.untried;
    idle = c.idle;
    due = c.due;
  }
    where
      shift : (i n : ℕ) → i + suc n ≡ suc i + n
      shift i n = omega arith

  candidates-All :
      (i : ℕ) (attempted : List Bool) (states : List EndpointHealth)
      → All (IsCandidate attempted states i) (candidates quarantine now first i attempted states)
  unfolding candidates
  candidates-All i [] states = tt
  candidates-All i (a ∷ attempted) [] = tt
  candidates-All i (a ∷ attempted) (s ∷ states) = elim (Bool-cases (eligible quarantine now a s)) [
    | inl fit ↦ rw fit (
      record {
        at = 0;
        state = s;
        key = ground arith;
        here = refl;
        untried = ground arith;
        idle = ground arith;
        due = ground arith;
      },
      All-map (later a attempted s states i) _ (candidates-All (suc i) attempted states),
    )
    | inr unfit ↦
        rw unfit
          (All-map (later a attempted s states i) _ (candidates-All (suc i) attempted states))
  ]

min_from-All {ℓ} :
    (P : Key → Type ℓ) (best : Key) (ks : List Key) → P best → All P ks → P (min_from best ks)
unfolding min_from
min_from-All P best [] p h = p
min_from-All P best (k ∷ ks) p h = elim (Bool-cases (key_lt k best)) [
  | inl less ↦ rw (less, min_from) (min_from-All P k ks h.0 h.1)
  | inr more ↦ rw (more, min_from) (min_from-All P best ks p h.1)
]

key_lt_trans : (a b c : Key) → key_lt a b ≡ true → key_lt b c ≡ true → key_lt a c ≡ true
unfolding key_lt
key_lt_trans a b c h k = ground arith

key_lt_total : (a b c : Key) → key_lt b a ≡ false → key_lt b c ≡ true → key_lt a c ≡ true
unfolding key_lt
key_lt_total a b c h k = ground arith

key_lt_irrefl : (a : Key) → key_lt a a ≡ false
unfolding key_lt
key_lt_irrefl a = ground arith

-- A key that the smaller of two keys is not before has neither before it.
key_lt-smaller :
    (best k m : Key)
    → key_lt (if key_lt k best then k else best) m ≡ false
    → (key_lt best m ≡ false) × (key_lt k m ≡ false)
key_lt-smaller best k m h = elim (Bool-cases (key_lt k best)) [
  | inl less ↦ (ground (arith, key_lt_trans k best m), ground arith)
  | inr more ↦ (ground arith, ground (arith, key_lt_total best k m))
]

min_from-least :
    (best : Key) (ks : List Key) → All (λ k. key_lt k (min_from best ks) ≡ false) (best ∷ ks)
unfolding min_from
min_from-least best [] = (key_lt_irrefl best, tt)
min_from-least best (k ∷ ks) =
    let b = if key_lt k best then k else best in
    let least = min_from-least b ks in
    let (p, q) = key_lt-smaller best k (min_from b ks) least.0 in (p, (q, least.1))

-- What a claim takes is an endpoint that may be taken, and no such endpoint sorts before it.
pub min_key_lem :
    (quarantine now : ℕ) (first : Bool) (attempted : List Bool) (states : List EndpointHealth)
    (k : Key)
    → min_key (candidates quarantine now first 0 attempted states) ≡ some k
    → IsCandidate quarantine now first attempted states 0 k
      × All (λ k'. key_lt k' k ≡ false) (candidates quarantine now first 0 attempted states)
min_key_lem quarantine now first attempted states k h =
    go (candidates quarantine now first 0 attempted states) h
      (candidates-All quarantine now first 0 attempted states)
  where
    go :
        (ks : List Key)
        → min_key ks ≡ some k
        → All (IsCandidate quarantine now first attempted states 0) ks
        → IsCandidate quarantine now first attempted states 0 k × All (λ k'. key_lt k' k ≡ false) ks
    go [] e c = absurd (cc e)
    go (x ∷ xs) e c =
        let same : min_from x xs ≡ k = cc in
        subst
          (λ (t : Key).
            IsCandidate quarantine now first attempted states 0 t
            × All (λ k'. key_lt k' t ≡ false) (x ∷ xs))
          same
          (
            min_from-All (IsCandidate quarantine now first attempted states 0) x xs c.0 c.1,
            min_from-least x xs,
          )
