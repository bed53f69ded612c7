-- ===== src/Core/Article/Origins.antt =====
-- Which source records an article counts as its origins.
use mathlib.Core.List.{flat_map}
use inoreader.Prelude.{
  ℕ, ◌≤◌, ◌≡◌, refl, ap, sym, ◌∙◌, inl, inr, Bool, true, false, not, ◌&&◌, ◌||◌, Option, none, some,
  List, [], ◌∷◌, ◌++◌, map, arith, All, Eq, nat_eq, list_eq, option_eq, ◌==◌, Bool-cases, any,
  contains, IsDistinct, IsDistinct-push, contains-push, contains-append, eqb_iff, leb,
  if◌then◌else◌, subst,
}
use inoreader.Core.Article.{
  Article, DedupKey, push_new, push_all, put_back, detached, merged_state, remove_first,
  attach_origin, detach_origin, merge, merge_states, key_beq, key_beq_iff, min_from,
}

contains-push_new : (os : List ℕ) (o x : ℕ) → contains (push_new os o) x ≡ (contains os x || o == x)
unfolding push_new
contains-push_new os o x = ground (arith, contains-push os o x)

push_new-IsDistinct : (os : List ℕ) (o : ℕ) → IsDistinct os → IsDistinct (push_new os o)
unfolding push_new
push_new-IsDistinct os o d = elim (Bool-cases (contains os o)) [
  | inl old ↦ rw old d
  | inr fresh ↦ rw fresh (IsDistinct-push os o d fresh)
]

contains-push_all :
    (os new : List ℕ) (x : ℕ) → contains (push_all os new) x ≡ (contains os x || contains new x)
unfolding push_all contains
contains-push_all os [] x = ground arith
contains-push_all os (o ∷ new) x =
    ground (arith, contains-push_all (push_new os o) new x, contains-push_new os o x)

push_all-IsDistinct : (os new : List ℕ) → IsDistinct os → IsDistinct (push_all os new)
unfolding push_all
push_all-IsDistinct os [] d = d
push_all-IsDistinct os (o ∷ new) d =
    push_all-IsDistinct (push_new os o) new (push_new-IsDistinct os o d)

module _ {Url : Type 0} where
  contains-flat_map :
      (as_ : List (Article Url)) (x : ℕ)
      → contains (flat_map (λ a. a.origins) as_) x ≡ any (λ a. contains a.origins x) as_
  unfolding contains any flat_map
  contains-flat_map [] x = refl
  contains-flat_map (a ∷ as_) x =
      contains-append a.origins (flat_map (λ b. b.origins) as_) x
      ∙ ap (λ (t : Bool). contains a.origins x || t) (contains-flat_map as_ x)

  -- Attaching an origin adds it to the set of origins and repeats none.
  attach_origin_set :
      (a : Article Url) (o : ℕ)
      → IsDistinct a.origins
      → IsDistinct (attach_origin a o).origins
        × ((x : ℕ) → contains (attach_origin a o).origins x ≡ (contains a.origins x || o == x))
  unfolding attach_origin
  attach_origin_set a o d = elim (Bool-cases (contains a.origins o)) [
    | inl old ↦ rw old (d, λ x. ground (arith, old))
    | inr fresh ↦ rw fresh (IsDistinct-push a.origins o d fresh, λ x. contains-push a.origins o x)
  ]

-- What `remove_first` leaves.
abbrev Removes : ℕ → List ℕ → Option (List ℕ) → Type 0
Removes o os none = contains os o ≡ false
Removes o os (some rest) =
    (contains os o ≡ true)
    × IsDistinct rest
    × ((x : ℕ) → contains rest x ≡ (contains os x && not (o == x)))

Removes-here :
    (o y : ℕ) (os : List ℕ)
    → y ≡ o
    → contains os y ≡ false
    → IsDistinct os
    → Removes o (y ∷ os) (some os)
unfolding contains
Removes-here o y os e fresh d = (
  ground arith,
  d,
  λ x. elim (Bool-cases (o == x)) [
    | inl same ↦ rw (← (eqb_iff o x).0 same, ← e) (ground (arith, fresh))
    | inr other ↦ ground arith
  ],
)

Removes-there :
    (o y : ℕ) (os : List ℕ) (r : Option (List ℕ))
    → (y == o) ≡ false
    → contains os y ≡ false
    → Removes o os r
    → Removes o (y ∷ os) (put_back y r)
unfolding contains
Removes-there o y os none other fresh h = ground arith
Removes-there o y os (some r) other fresh h =
    (ground arith, (ground (arith, h.2 y), h.1), λ x. ground (arith, h.2 x))

remove_first-Removes : (o : ℕ) (os : List ℕ) → IsDistinct os → Removes o os (remove_first o os)
unfolding remove_first
remove_first-Removes o [] d = unfold contains in refl
remove_first-Removes o (y ∷ os) d = elim (Bool-cases (y == o)) [
  | inl same ↦ rw same (Removes-here o y os ((eqb_iff y o).0 same) d.0 d.1)
  | inr other ↦
      rw other (Removes-there o y os (remove_first o os) other d.0 (remove_first-Removes o os d.1))
]

remove_first-push :
    (o : ℕ) (os : List ℕ) → contains os o ≡ false → remove_first o (os ++ o ∷ []) ≡ some os
unfolding remove_first contains
remove_first-push o [] h = ground arith
remove_first-push o (y ∷ os) h = ground (arith, remove_first-push o os)

module _ {Url : Type 0} where
  detached_set :
      (a : Article Url) (o : ℕ) (r : Option (List ℕ))
      → IsDistinct a.origins
      → Removes o a.origins r
      → ((detached a r).1 ≡ contains a.origins o)
        × IsDistinct (detached a r).0.origins
        × ((x : ℕ) → contains (detached a r).0.origins x ≡ (contains a.origins x && not (o == x)))
  detached_set a o none d h = (
    sym h,
    d,
    λ x. elim (Bool-cases (o == x)) [
      | inl same ↦ rw (← (eqb_iff o x).0 same) (ground (arith, h))
      | inr other ↦ ground (arith, other)
    ],
  )
  detached_set a o (some rest) d h = (sym h.0, h.1, h.2)

  -- Detaching an origin reports whether the article had it, takes that origin out of the set and
  -- no other, and repeats none.
  pub detach_origin_set :
      (a : Article Url) (o : ℕ)
      → IsDistinct a.origins
      → ((detach_origin a o).1 ≡ contains a.origins o)
        × IsDistinct (detach_origin a o).0.origins
        × ((x : ℕ)
            → contains (detach_origin a o).0.origins x ≡ (contains a.origins x && not (o == x)))
  unfolding detach_origin
  detach_origin_set a o d =
      detached_set a o (remove_first o a.origins) d (remove_first-Removes o a.origins d)

  -- Detaching an origin that was just attached anew leaves the origins in their order.
  pub detach_origin-attach_origin :
      (a : Article Url) (o : ℕ)
      → contains a.origins o ≡ false
      → (detach_origin (attach_origin a o) o).0.origins ≡ a.origins
  unfolding detach_origin attach_origin
  detach_origin-attach_origin a o fresh = rw fresh (rw (remove_first-push o a.origins fresh))

min_from-le : (m : ℕ) (xs : List ℕ) → min_from m xs ≤ m
unfolding min_from
min_from-le m [] = omega arith
min_from-le m (x ∷ xs) = ground (arith, min_from-le m xs, min_from-le x xs)

min_from-All : (m : ℕ) (xs : List ℕ) → All (λ x. min_from m xs ≤ x) xs
unfolding min_from
min_from-All m [] = tt
min_from-All m (x ∷ xs) =
    (ground (arith, min_from-le m xs, min_from-le x xs), min_from-All (if leb m x then m else x) xs)

contains-min_from : (m : ℕ) (xs : List ℕ) → contains (m ∷ xs) (min_from m xs) ≡ true
unfolding min_from contains
contains-min_from m [] = ground arith
contains-min_from m (x ∷ xs) = ground (arith, contains-min_from m xs, contains-min_from x xs)

abbrev pub arrivals : {Url : Type 0} → List (Article Url) → List ℕ
arrivals as_ = map (λ a. a.first_arrived_at) as_

-- What a merge of articles promises of the article that it builds.
pub record IsMerge {Url : Type 0} (id : ℕ) (as_ : List (Article Url)) (m : Article Url)
    : Type 0 where
  pub identity : (m.id ≡ id) × (m.revision ≡ 0)
  pub keys : All (λ (a : Article Url). a.key ≡ m.key) as_
  pub state : merge_states (map (λ a. a.state) as_) ≡ some m.state
  pub distinct : IsDistinct m.origins
  pub origins : (x : ℕ) → contains m.origins x ≡ any (λ a. contains a.origins x) as_
  pub earliest : All (λ t. m.first_arrived_at ≤ t) (arrivals as_)
  pub attained : contains (arrivals as_) m.first_arrived_at ≡ true

module _ {Url : Type 0} ⦃e : Eq Url⦄ where
  same_keys :
      (key : DedupKey Url) (as_ : List (Article Url))
      → any (λ b. not (key_beq b.key key)) as_ ≡ false
      → All (λ (a : Article Url). a.key ≡ key) as_
  unfolding any
  same_keys key [] h = tt
  same_keys key (a ∷ as_) h =
      ((key_beq_iff a.key key).0 (ground arith), same_keys key as_ (ground arith))

  any_differs :
      (key : DedupKey Url) (as_ : List (Article Url))
      → All (λ (a : Article Url). a.key ≡ key) as_
      → any (λ b. not (key_beq b.key key)) as_ ≡ false
  unfolding any
  any_differs key [] h = refl
  any_differs key (a ∷ as_) h = rw ((key_beq_iff a.key key).1 h.0) (any_differs key as_ h.1)

  merge-cons :
      (id : ℕ) (a : Article Url) (as_ : List (Article Url))
      → any (λ b. not (key_beq b.key a.key)) (a ∷ as_) ≡ false
      → (m : Article Url) × (merge id (a ∷ as_) ≡ some m) × IsMerge id (a ∷ as_) m
  merge-cons id a as_ same = (
    record {
      id = id;
      key = a.key;
      state = merged_state a.state (map (λ b. b.state) as_);
      first_arrived_at = min_from a.first_arrived_at (arrivals as_);
      origins = push_all [] (flat_map (λ b. b.origins) (a ∷ as_));
      revision = 0;
    },
    unfold merge in rw same refl,
    record {
      identity = (refl, refl);
      keys = same_keys a.key (a ∷ as_) same;
      state = unfold merge_states in refl;
      distinct = push_all-IsDistinct [] (flat_map (λ b. b.origins) (a ∷ as_)) tt;
      origins = λ x.
          contains-push_all [] (flat_map (λ b. b.origins) (a ∷ as_)) x
          ∙ unfold contains in contains-flat_map (a ∷ as_) x;
      earliest = (
        min_from-le a.first_arrived_at (arrivals as_),
        min_from-All a.first_arrived_at (arrivals as_),
      );
      attained = contains-min_from a.first_arrived_at (arrivals as_);
    },
  )

  merge-differ :
      (id : ℕ) (a : Article Url) (as_ : List (Article Url))
      → any (λ b. not (key_beq b.key a.key)) (a ∷ as_) ≡ true
      → merge id (a ∷ as_) ≡ none
  unfolding merge
  merge-differ id a as_ differ = rw differ

  -- An article that `merge` builds has the key of all its parts, each of their origins once and no
  -- other, the earliest arrival among them, their merged state, the given identity and revision 0.
  pub merge-IsMerge :
      (id : ℕ) (as_ : List (Article Url)) {m : Article Url}
      → merge id as_ ≡ some m
      → IsMerge id as_ m
  merge-IsMerge id [] h = absurd (unfold merge in cc)
  merge-IsMerge id (a ∷ as_) {m} h =
      elim (Bool-cases (any (λ b. not (key_beq b.key a.key)) (a ∷ as_))) [
        | inl differ ↦ absurd (cc (merge-differ id a as_ differ))
        | inr same ↦
            let (n, built, spec) = merge-cons id a as_ same in
            let e : n ≡ m = cc in subst (IsMerge id (a ∷ as_)) e spec
      ]

  -- A merge of at least one article is refused only if their keys differ.
  pub merge-total :
      (id : ℕ) (a : Article Url) (as_ : List (Article Url))
      → All (λ (b : Article Url). b.key ≡ a.key) as_
      → (m : Article Url) × (merge id (a ∷ as_) ≡ some m)
  merge-total id a as_ same =
      let (m, built, spec) = merge-cons id a as_ (any_differs a.key (a ∷ as_) (refl, same)) in
      (m, built)
