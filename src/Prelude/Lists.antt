-- ===== src/Prelude/Lists.antt =====
-- Lists measured and indexed by native numbers, under the library's names, with Rust's slice
-- operations that the program uses.
use Prim.Native.Nat.{ℕ, zero, suc, ◌+◌, min}
use mathlib.Core.Path.{◌≡◌, refl, subst, ap, ◌∙◌}
use mathlib.Core.Bool.{Bool, true, false, ◌&&◌, ◌||◌}
use mathlib.Core.List.{List, [], ◌∷◌, ◌++◌, Permᴰ}
use mathlib.Core.Option.{Option, none, some}
use native.Mathlib.Omega.{arith}
use mathlib.Core.Logic.{inl, inr}
use inoreader.Prelude.Tests.{Bool-cases}
use inoreader.Prelude.Equality.{Eq, ◌==◌}

module _ {ℓ} {A : Type ℓ} where
  abbrev pub length : List A → ℕ
  length [] = 0
  length (x ∷ xs) = suc (length xs)

  abbrev pub get_elem? : List A → ℕ → Option A
  get_elem? [] i = none
  get_elem? (x ∷ xs) zero = some x
  get_elem? (x ∷ xs) (suc i) = get_elem? xs i

  -- `last()`
  abbrev pub get_last? : List A → Option A
  get_last? [] = none
  get_last? (x ∷ []) = some x
  get_last? (x ∷ y ∷ xs) = get_last? (y ∷ xs)

  pub length-append : (xs ys : List A) → length (xs ++ ys) ≡ length xs + length ys
  length-append [] ys = omega arith
  length-append (x ∷ xs) ys = omega (arith, length-append xs ys)

  pub get_last?-push : (xs : List A) (x : A) → get_last? (xs ++ x ∷ []) ≡ some x
  get_last?-push [] x = refl
  get_last?-push (y ∷ []) x = refl
  get_last?-push (y ∷ z ∷ xs) x = get_last?-push (z ∷ xs) x

  -- `iter().all(p)` and `iter().any(p)`
  unfoldable pub all : (A → Bool) → List A → Bool
  all p [] = true
  all p (x ∷ xs) = p x && all p xs

  unfoldable pub any : (A → Bool) → List A → Bool
  any p [] = false
  any p (x ∷ xs) = p x || any p xs

  -- A predicate on every element.
  abbrev pub All {κ} : (A → Type κ) → List A → Type κ
  All P [] = Unit
  All P (x ∷ xs) = P x × All P xs

module _ {ℓ} {A : Type ℓ} where
  pub All-push {κ} : (P : A → Type κ) (xs : List A) (x : A) → All P xs → P x → All P (xs ++ x ∷ [])
  All-push P [] x h p = (p, tt)
  All-push P (y ∷ ys) x h p = (h.0, All-push P ys x h.1 p)

-- `contains`
unfoldable pub contains {ℓ} : {A : Type ℓ} ⦃e : Eq A⦄ → List A → A → Bool
contains [] a = false
contains (x ∷ xs) a = x == a || contains xs a

module _ {ℓ κ μ} {A : Type ℓ} {P : A → Type κ} {Q : A → Type μ} where
  pub All-map : ((a : A) → P a → Q a) → (xs : List A) → All P xs → All Q xs
  All-map f [] h = tt
  All-map f (x ∷ xs) h = (f x h.0, All-map f xs h.1)

module _ {ℓ κ} {A : Type ℓ} (P : A → Type κ) where
  pub All-get_last? : (xs : List A) (x : A) → All P xs → get_last? xs ≡ some x → P x
  All-get_last? [] x h l = cc
  All-get_last? (y ∷ []) x h l = let e : y ≡ x = cc in subst P e h.0
  All-get_last? (y ∷ z ∷ xs) x h l = All-get_last? (z ∷ xs) x h.1 l

module _ {ℓ} {A : Type ℓ} (p : A → Bool) where
  pub all-append : (xs ys : List A) → all p (xs ++ ys) ≡ (all p xs && all p ys)
  unfolding all
  all-append [] ys = refl
  all-append (x ∷ xs) ys = ground (arith, all-append xs ys)

  pub any-append : (xs ys : List A) → any p (xs ++ ys) ≡ (any p xs || any p ys)
  unfolding any
  any-append [] ys = refl
  any-append (x ∷ xs) ys = ground (arith, any-append xs ys)

  -- Order does not matter to either.
  pub all-perm : {xs ys : List A} → Permᴰ xs ys → all p xs ≡ all p ys
  unfolding all
  all-perm Permᴰ.nil = refl
  all-perm (Permᴰ.cons x h) = cc (ap p x, all-perm h)
  all-perm (Permᴰ.swap {a = a} {b = b} x y) = rw (← x, ← y) (ground (arith))
  all-perm (Permᴰ.trans h k) = all-perm h ∙ all-perm k

  pub any-perm : {xs ys : List A} → Permᴰ xs ys → any p xs ≡ any p ys
  unfolding any
  any-perm Permᴰ.nil = refl
  any-perm (Permᴰ.cons x h) = cc (ap p x, any-perm h)
  any-perm (Permᴰ.swap {a = a} {b = b} x y) = rw (← x, ← y) (ground (arith))
  any-perm (Permᴰ.trans h k) = any-perm h ∙ any-perm k

module _ {ℓ} {A : Type ℓ} ⦃e : Eq A⦄ where
  -- No element twice.
  abbrev pub IsDistinct : List A → Type 0
  IsDistinct [] = Unit
  IsDistinct (x ∷ xs) = (contains xs x ≡ false) × IsDistinct xs

  pub contains-append :
      (xs ys : List A) (a : A) → contains (xs ++ ys) a ≡ (contains xs a || contains ys a)
  unfolding contains
  contains-append [] ys a = refl
  contains-append (x ∷ xs) ys a = ground (arith, contains-append xs ys a)

  pub contains-push :
      (xs : List A) (x a : A) → contains (xs ++ x ∷ []) a ≡ (contains xs a || x == a)
  unfolding contains
  contains-push xs x a = ground (arith, contains-append xs (x ∷ []) a)

  pub IsDistinct-push :
      (xs : List A) (x : A) → IsDistinct xs → contains xs x ≡ false → IsDistinct (xs ++ x ∷ [])
  unfolding contains
  IsDistinct-push [] x d h = (refl, tt)
  IsDistinct-push (y ∷ ys) x d h = (
    ground (arith, contains-push ys x y, e.beq_iff x y, e.beq_iff y x),
    IsDistinct-push ys x d.1 (ground arith),
  )

module _ {ℓ κ μ ν} {A : Type ℓ} {P : A → Type κ} {Q : A → Type μ} {R : A → Type ν} where
  pub All-map₂ : ((a : A) → P a → Q a → R a) → (xs : List A) → All P xs → All Q xs → All R xs
  All-map₂ f [] h k = tt
  All-map₂ f (x ∷ xs) h k = (f x h.0 k.0, All-map₂ f xs h.1 k.1)

module _ {ℓ} {A : Type ℓ} where
  -- `xs[i] = f(xs[i])`; a write out of range, which panics in Rust, changes nothing.
  abbrev pub modify : ℕ → (A → A) → List A → List A
  modify i f [] = []
  modify zero f (x ∷ xs) = f x ∷ xs
  modify (suc i) f (x ∷ xs) = x ∷ modify i f xs

  abbrev pub replicate : ℕ → A → List A
  replicate zero a = []
  replicate (suc n) a = a ∷ replicate n a

  abbrev pub take : ℕ → List A → List A
  take zero xs = []
  take (suc n) [] = []
  take (suc n) (x ∷ xs) = x ∷ take n xs

  abbrev pub drop : ℕ → List A → List A
  drop zero xs = xs
  drop (suc n) [] = []
  drop (suc n) (x ∷ xs) = drop n xs

  pub take-drop : (n : ℕ) (xs : List A) → take n xs ++ drop n xs ≡ xs
  take-drop zero xs = refl
  take-drop (suc n) [] = refl
  take-drop (suc n) (x ∷ xs) = ap (λ ys. x ∷ ys) (take-drop n xs)

  pub length-take : (n : ℕ) (xs : List A) → length (take n xs) ≡ min n (length xs)
  length-take zero xs = omega arith
  length-take (suc n) [] = omega arith
  length-take (suc n) (x ∷ xs) = omega (arith, length-take n xs)

  -- The values of those that have one.
  abbrev pub cat_options : List (Option A) → List A
  cat_options [] = []
  cat_options (none ∷ os) = cat_options os
  cat_options (some a ∷ os) = a ∷ cat_options os

module _ {ℓ} {A : Type ℓ} ⦃e : Eq A⦄ where
  pub contains-apart :
      (xs : List A) (a k : A) → contains xs a ≡ false → contains xs k ≡ true → (a == k) ≡ false
  contains-apart xs a k h m = elim (Bool-cases (a == k)) [
    | inl same ↦ let p : a ≡ k = (e.beq_iff a k).0 same in absurd (cc (h, m, ap (contains xs) p))
    | inr other ↦ other
  ]
