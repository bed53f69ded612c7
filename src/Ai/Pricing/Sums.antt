-- ===== src/Ai/Pricing/Sums.antt =====
-- Fewer tokens cost no more, and overflow nowhere where more tokens did not.
use inoreader.Prelude.{
  ℕ, ◌+◌, ◌*◌, ◌≤◌, ◌<◌, ◌≡◌, refl, subst, true, Option, none, some, List, [], ◌∷◌, arith,
  if◌then◌else◌, ltb, ltb→lt, Bool-cases, inl, inr, if_true, if_false, traverse, ok, >>=-eq-ok,
  ok_or, ok_or-ok, ok_injective,
}
use native.Mathlib.Nat.{mul-le-mul}
use inoreader.Prelude.Text.{Text}
use inoreader.Ai.Pricing.{
  configuration, DecimalRate, u128_mod, checked_pow10, checked_mul_u128, checked_add_u128,
  wrapping_sub, and_then, product, add_up, max_scale, parse, parse_entry,
}

-- The same rates, with fewer tokens each.
pub data Fewer {A : Type 0} : List (A × ℕ) → List (A × ℕ) → Type 0 where
  none_ : Fewer [] []
  fewer :
      {rate : A} {s t : ℕ} {xs ys : List (A × ℕ)}
      → s ≤ t
      → Fewer xs ys
      → Fewer ((rate, s) ∷ xs) ((rate, t) ∷ ys)

-- A checked operation that succeeds within a bound, and the value.
pub within-some :
    (n : ℕ) {m : ℕ} → (if ltb n u128_mod then some n else none) ≡ some m → (n ≡ m) × (n < u128_mod)
within-some n {m = m} h = elim (Bool-cases (ltb n u128_mod)) [
  | inl fits ↦
      let e : n ≡ m = cc (if_true (ltb n u128_mod) (some n) none fits h) in
      (e, ltb→lt n u128_mod fits)
  | inr over ↦ absurd (cc (if_false (ltb n u128_mod) (some n) none over h))
]

some-within : (n : ℕ) → n < u128_mod → (if ltb n u128_mod then some n else none) ≡ some n
some-within n h = let fits : ltb n u128_mod ≡ true = ground arith in rw fits refl

checked_mul-le :
    (a b a' b' : ℕ) {c : ℕ}
    → checked_mul_u128 a b ≡ some c
    → a' ≤ a
    → b' ≤ b
    → (c' : ℕ) × (checked_mul_u128 a' b' ≡ some c') × (c' ≤ c)
unfolding checked_mul_u128
checked_mul-le a b a' b' h p q =
    let (e, small) = within-some (a * b) h in
    let le : a' * b' ≤ a * b = mul-le-mul p q in
    (a' * b', some-within (a' * b') (omega (arith, le, small)), omega (arith, le, e))

checked_add-le :
    (a b a' b' : ℕ) {c : ℕ}
    → checked_add_u128 a b ≡ some c
    → a' ≤ a
    → b' ≤ b
    → (c' : ℕ) × (checked_add_u128 a' b' ≡ some c') × (c' ≤ c)
unfolding checked_add_u128
checked_add-le a b a' b' h p q =
    let (e, small) = within-some (a + b) h in
    (a' + b', some-within (a' + b') (omega (arith, small)), omega (arith, e))

pub and_then-some :
    {A B : Type 0} (o : Option A) (f : A → Option B) {b : B}
    → and_then o f ≡ some b
    → (a : A) × (o ≡ some a) × (f a ≡ some b)
and_then-some none f h = absurd (cc h)
and_then-some (some a) f h = (a, refl, h)

product-le :
    (scale : ℕ) (rate : DecimalRate) (s t : ℕ) {v : ℕ}
    → product scale rate t ≡ some v
    → s ≤ t
    → (u : ℕ) × (product scale rate s ≡ some u) × (u ≤ v)
unfolding product
product-le scale rate s t h le =
    let power = checked_pow10 (wrapping_sub (wrapping_sub scale rate.scale) 6) in
    let (x, mx, h₁) =
      and_then-some (checked_mul_u128 rate.integer t)
        (λ v. and_then power (λ p. checked_mul_u128 v p)) h in
    let (p, mp, h₂) = and_then-some power (λ p. checked_mul_u128 x p) h₁ in
    let (y, my, y_le) = checked_mul-le rate.integer t rate.integer s mx (omega arith) le in
    let (u, mu, u_le) = checked_mul-le x p y p h₂ y_le (omega arith) in
    (u, rw (my, mp, mu) refl, u_le)

pub add_up-le :
    (scale total total' : ℕ) {xs ys : List (DecimalRate × ℕ)} {v : ℕ}
    → Fewer xs ys
    → total' ≤ total
    → add_up scale total ys ≡ ok v
    → (u : ℕ) × (add_up scale total' xs ≡ ok u) × (u ≤ v)
unfolding add_up
add_up-le scale total total' none_ le h = (total', refl, omega (arith, le, ok_injective h))
add_up-le scale total total' (fewer {rate = rate} {s = s} {t = t} p rest) le h =
    let (x, mx, h₁) = >>=-eq-ok (ok_or (product scale rate t) configuration) _ h in
    let (sum, ms, h₂) = >>=-eq-ok (ok_or (checked_add_u128 total x) configuration) _ h₁ in
    let (y, my, y_le) =
      product-le scale rate s t (ok_or-ok (product scale rate t) configuration mx) p in
    let (sum', ms', s_le) =
      checked_add-le total x total' y (ok_or-ok (checked_add_u128 total x) configuration ms) le
        y_le in
    let (u, mu, u_le) = add_up-le scale sum sum' rest s_le h₂ in (u, rw (my, ms', mu) refl, u_le)

pub max_scale-Fewer : {xs ys : List (DecimalRate × ℕ)} → Fewer xs ys → max_scale xs ≡ max_scale ys
unfolding max_scale
max_scale-Fewer none_ = refl
max_scale-Fewer (fewer p rest) = rw (max_scale-Fewer rest) refl

pub traverse-Fewer :
    {xs ys : List (Text × ℕ)} {rates : List (DecimalRate × ℕ)}
    → Fewer xs ys
    → traverse parse_entry ys ≡ ok rates
    → (rates' : List (DecimalRate × ℕ)) × (traverse parse_entry xs ≡ ok rates') × Fewer rates' rates
unfolding traverse
traverse-Fewer none_ h = ([], refl, subst (Fewer []) (ok_injective h) none_)
traverse-Fewer (fewer {rate = value} {s = s} {t = t} {xs = xs} {ys = ys} p rest) h =
    let (x, here, h₁) = >>=-eq-ok (parse_entry (value, t)) _ h in
    let (more, there, h₂) = >>=-eq-ok (traverse parse_entry ys) _ h₁ in
    let (rate, read, e) = >>=-eq-ok (parse value) _ here in
    let (more', there', q) = traverse-Fewer rest there in
    let same : (rate, t) ≡ x = ok_injective e in
    (
      (rate, s) ∷ more',
      rw (read, there') refl,
      subst (Fewer ((rate, s) ∷ more')) (ok_injective h₂)
          (subst (λ y. Fewer ((rate, s) ∷ more') (y ∷ more)) same (fewer p q)),
    )
