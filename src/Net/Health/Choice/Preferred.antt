-- ===== src/Net/Health/Choice/Preferred.antt =====
-- The order in which a claim prefers the endpoints that are available to it.
use inoreader.Prelude.{
  ℕ, zero, suc, ◌+◌, ◌-◌, ◌≤◌, ◌<◌, ◌≡◌, ◌⊎◌, refl, Bool, true, false, not, ◌&&◌, ◌||◌, none, some,
  List, [], ◌∷◌, arith, nat_eq, list_eq, ◌==◌, All, get_elem?, ltb, Bool-cases, inl, inr, Option,
  is_some, subst,
}
use inoreader.Net.Health.{
  EndpointHealth, Key, eligible, key_of, candidates, key_lt, is_due, option_rank, and_then,
}

-- There was no failure, or the time since it has reached the quarantine.
abbrev pub IsRested : ℕ → ℕ → Option ℕ → Type 0
IsRested quarantine now none = Unit
IsRested quarantine now (some at) = quarantine ≤ now - at

-- An endpoint that the request did not attempt yet, that no one probes, and that is rested.
pub record IsAvailable (quarantine now : ℕ) (attempted : List Bool) (states : List EndpointHealth)
    (i : ℕ) (s : EndpointHealth) : Type 0 where
  pub here : get_elem? states i ≡ some s
  pub untried : get_elem? attempted i ≡ some false
  pub idle : s.probing ≡ false
  pub rested : IsRested quarantine now s.failed_at

-- A time, or none, before another time; no time is the earliest.
abbrev pub IsOlder : Option ℕ → Option ℕ → Type 0
IsOlder none none = ⊥
IsOlder (some a) none = ⊥
IsOlder none (some t) = Unit
IsOlder (some a) (some t) = a < t

-- One endpoint goes before another: a failed one before all in the first attempt of a request, and
-- after all in later ones; of failed ones that which was tried least recently, of others a healthy
-- one; and else the first in the list.
pub data IsPreferred (first : Bool) (s : EndpointHealth) (i : ℕ) (t : EndpointHealth) (j : ℕ)
    : Type 0 where
  recovery :
      first ≡ true
      → is_some s.failed_at ≡ true
      → is_some t.failed_at ≡ false
      → IsPreferred first s i t j
  last_resort :
      first ≡ false
      → is_some s.failed_at ≡ false
      → is_some t.failed_at ≡ true
      → IsPreferred first s i t j
  older :
      is_some s.failed_at ≡ true
      → is_some t.failed_at ≡ true
      → IsOlder s.last_attempt t.last_attempt
      → IsPreferred first s i t j
  failed_order :
      is_some s.failed_at ≡ true
      → is_some t.failed_at ≡ true
      → s.last_attempt ≡ t.last_attempt
      → i ≤ j
      → IsPreferred first s i t j
  sound :
      is_some s.failed_at ≡ false
      → is_some t.failed_at ≡ false
      → s.healthy ≡ true
      → t.healthy ≡ false
      → IsPreferred first s i t j
  sound_order :
      is_some s.failed_at ≡ false
      → is_some t.failed_at ≡ false
      → s.healthy ≡ t.healthy
      → i ≤ j
      → IsPreferred first s i t j

-- The order of the times, and then of the indices.
same_or_earlier :
    (a b : Option ℕ) (i j : ℕ)
    → (ltb (option_rank b) (option_rank a) || (option_rank b == option_rank a && ltb j i)) ≡ false
    → IsOlder a b ⊎ ((a ≡ b) × (i ≤ j))
same_or_earlier none none i j h = inr (refl, ground arith)
same_or_earlier none (some t) i j h = inl tt
same_or_earlier (some a) none i j h = absurd (ground arith)
same_or_earlier (some a) (some t) i j h = elim (Bool-cases (ltb a t)) [
  | inl less ↦ inl (ground arith)
  | inr more ↦ let same : a ≡ t = ground arith in inr (rw same refl, ground arith)
]

-- The last attempt counts for a failed endpoint, and only for it.
and_then_failed : (a b : Option ℕ) → is_some a ≡ true → and_then a b ≡ b
and_then_failed none b h = absurd (cc h)
and_then_failed (some x) b h = refl

and_then_sound : (a b : Option ℕ) → is_some a ≡ false → and_then a b ≡ none
and_then_sound none b h = refl
and_then_sound (some x) b h = absurd (cc h)

module _ (first : Bool) (s : EndpointHealth) (i : ℕ) (t : EndpointHealth) (j : ℕ)
    (h : key_lt (key_of first j t) (key_of first i s) ≡ false) where
  both_failed : is_some s.failed_at ≡ true → is_some t.failed_at ≡ true → IsPreferred first s i t j
  unfolding key_lt key_of
  both_failed f g =
      let timed : (ltb (option_rank t.last_attempt) (option_rank s.last_attempt)
            || (option_rank t.last_attempt == option_rank s.last_attempt && ltb j i))
          ≡ false =
        elim (Bool-cases first) [
          | inl yes_ ↦
              let p =
                rw
                  (
                    f,
                    g,
                    yes_,
                    and_then_failed s.failed_at s.last_attempt f,
                    and_then_failed t.failed_at t.last_attempt g,
                  )
                  at h in
              ground arith
          | inr no_ ↦
              let p =
                rw
                  (
                    f,
                    g,
                    no_,
                    and_then_failed s.failed_at s.last_attempt f,
                    and_then_failed t.failed_at t.last_attempt g,
                  )
                  at h in
              ground arith
        ] in
      elim (same_or_earlier s.last_attempt t.last_attempt i j timed) [
        | inl less ↦ older f g less
        | inr (same, le) ↦ failed_order f g same le
      ]

  none_failed :
      is_some s.failed_at ≡ false → is_some t.failed_at ≡ false → IsPreferred first s i t j
  unfolding key_lt key_of
  none_failed f g =
      let p =
        rw
          (
            f,
            g,
            and_then_sound s.failed_at s.last_attempt f,
            and_then_sound t.failed_at t.last_attempt g,
          )
          at h in
      elim (Bool-cases s.healthy) [
        | inl well ↦ elim (Bool-cases t.healthy) [
          | inl well_ ↦
              sound_order f g (cc (well, well_)) (let q = rw (well, well_) at p in ground arith)
          | inr ill_ ↦ sound f g well ill_
        ]
        | inr ill ↦ elim (Bool-cases t.healthy) [
          | inl well_ ↦ absurd (let q = rw (ill, well_) at p in ground arith)
          | inr ill_ ↦
              sound_order f g (cc (ill, ill_)) (let q = rw (ill, ill_) at p in ground arith)
        ]
      ]

  failed_sound :
      is_some s.failed_at ≡ true → is_some t.failed_at ≡ false → IsPreferred first s i t j
  unfolding key_lt key_of
  failed_sound f g = elim (Bool-cases first) [
    | inl yes_ ↦ recovery yes_ f g
    | inr no_ ↦ elim (Bool-cases t.healthy) [
      | inl well ↦ absurd (let p = rw (f, g, no_, well) at h in ground arith)
      | inr ill ↦ absurd (let p = rw (f, g, no_, ill) at h in ground arith)
    ]
  ]

  sound_failed :
      is_some s.failed_at ≡ false → is_some t.failed_at ≡ true → IsPreferred first s i t j
  unfolding key_lt key_of
  sound_failed f g = elim (Bool-cases first) [
    | inl yes_ ↦ elim (Bool-cases s.healthy) [
      | inl well ↦ absurd (let p = rw (f, g, yes_, well) at h in ground arith)
      | inr ill ↦ absurd (let p = rw (f, g, yes_, ill) at h in ground arith)
    ]
    | inr no_ ↦ last_resort no_ f g
  ]

  pub key_lt-IsPreferred : IsPreferred first s i t j
  key_lt-IsPreferred = elim (Bool-cases (is_some s.failed_at)) [
    | inl f ↦ elim (Bool-cases (is_some t.failed_at)) [
      | inl g ↦ both_failed f g
      | inr g ↦ failed_sound f g
    ]
    | inr f ↦ elim (Bool-cases (is_some t.failed_at)) [
      | inl g ↦ sound_failed f g
      | inr g ↦ none_failed f g
    ]
  ]

pub is_due-IsRested :
    (quarantine now : ℕ) (o : Option ℕ) → is_due quarantine now o ≡ true → IsRested quarantine now o
is_due-IsRested quarantine now none h = tt
is_due-IsRested quarantine now (some at) h = ground arith

IsRested-is_due :
    (quarantine now : ℕ) (o : Option ℕ) → IsRested quarantine now o → is_due quarantine now o ≡ true
IsRested-is_due quarantine now none h = refl
IsRested-is_due quarantine now (some at) h = ground arith

module _ (quarantine now : ℕ) (first : Bool) (P : Key → Type 0) where
  -- What holds of all keys that are compared holds of that of each available endpoint.
  pub candidates-IsAvailable :
      (i : ℕ) (attempted : List Bool) (states : List EndpointHealth)
      → All P (candidates quarantine now first i attempted states)
      → (j : ℕ) (t : EndpointHealth) → IsAvailable quarantine now attempted states j t
      → P (key_of first (i + j) t)
  unfolding candidates eligible
  candidates-IsAvailable i attempted [] h j t a = absurd (cc a.here)
  candidates-IsAvailable i [] (s ∷ states) h j t a = absurd (cc a.untried)
  candidates-IsAvailable i (u ∷ attempted) (s ∷ states) h zero t a =
      let same : s ≡ t = cc a.here in
      let new_ : u ≡ false = cc a.untried in
      let idle : s.probing ≡ false = rw same a.idle in
      let due : is_due quarantine now s.failed_at ≡ true =
        rw same (IsRested-is_due quarantine now t.failed_at a.rested) in
      let all_ = rw (new_, idle, due) at h in
      let at_ : i ≡ i + 0 = omega arith in
      subst (λ n. P (key_of first n t)) at_
        (subst (λ (x : EndpointHealth). P (key_of first i x)) same all_.0)
  candidates-IsAvailable i (u ∷ attempted) (s ∷ states) h (suc j) t a =
      let rest : All P (candidates quarantine now first (suc i) attempted states) =
        elim (Bool-cases (not u && not s.probing && is_due quarantine now s.failed_at)) [
          | inl fit ↦ (rw fit at h).1
          | inr unfit ↦ rw unfit at h
        ] in
      let at_ : suc i + j ≡ i + suc j = omega arith in
      subst (λ n. P (key_of first n t)) at_
        (candidates-IsAvailable (suc i) attempted states rest j t
          (record { here = a.here; untried = a.untried; idle = a.idle; rested = a.rested }))
