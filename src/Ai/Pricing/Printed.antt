-- ===== src/Ai/Pricing/Printed.antt =====
-- The printed digits of a cost, read back.
use native.Mathlib.Nat.{one-le-pow, mod-lt, div-add-mod, div-le_self}
use inoreader.Prelude.{
  ℕ, zero, suc, ◌+◌, ◌-◌, ◌*◌, ◌/◌, ◌%◌, ◌^◌, ◌≤◌, ◌<◌, ◌≡◌, refl, sym, ap, ◌∙◌, [], ◌∷◌, ◌++◌,
  arith, ltb, Bool-cases, inl, inr, length, length-append, replicate,
}
use inoreader.Prelude.Text.{Text, digits_onto, decimal}
use inoreader.Ai.Pricing.{digits_value, padded, u128_mod}

pow_ten : (n : ℕ) → 10 ^ suc n ≡ 10 * 10 ^ n
pow_ten n = grind arith

digits_onto-value :
    (fuel n : ℕ) (s : Text)
    → n < 10 ^ suc fuel
    → digits_value 0 (digits_onto fuel n s) ≡ digits_value n s
unfolding digits_onto digits_value
digits_onto-value zero n s h = ap (λ m. digits_value m s) (omega (arith, h))
digits_onto-value (suc fuel) n s h = elim (Bool-cases (ltb n 10)) [
  | inl small ↦ rw small (ap (λ m. digits_value m s) (omega arith))
  | inr large ↦ rw large (
      digits_onto-value fuel (n / 10) ((48 + n % 10) ∷ s) (omega (arith, h, pow_ten (suc fuel)))
      ∙ ap (λ m. digits_value m s) (omega arith))
]

-- The digits before the last of a number of more than one.
wider :
    (fuel width n : ℕ) (s : Text)
    → 10 ≤ n
    → n < 10 ^ suc width
    → ((w : ℕ)
        → n / 10 < 10 ^ suc w
        → length (digits_onto fuel (n / 10) ((48 + n % 10) ∷ s)) ≤ suc w + suc (length s))
    → length (digits_onto fuel (n / 10) ((48 + n % 10) ∷ s)) ≤ suc width + length s
wider fuel zero n s large h shorter = absurd (omega (arith, large, h))
wider fuel (suc w) n s large h shorter =
    let p = shorter w (omega (arith, h, pow_ten (suc w))) in omega (arith, p)

length-digits_onto :
    (fuel width n : ℕ) (s : Text)
    → n < 10 ^ suc width
    → length (digits_onto fuel n s) ≤ suc width + length s
unfolding digits_onto
length-digits_onto zero width n s h = omega arith
length-digits_onto (suc fuel) width n s h = elim (Bool-cases (ltb n 10)) [
  | inl small ↦ rw small (omega arith)
  | inr large ↦ rw large (
      wider fuel width n s (ground arith) h
        (λ w p. length-digits_onto fuel w (n / 10) ((48 + n % 10) ∷ s) p))
]

digits_value-append :
    (acc : ℕ) (xs ys : Text) → digits_value acc (xs ++ ys) ≡ digits_value (digits_value acc xs) ys
unfolding digits_value
digits_value-append acc [] ys = refl
digits_value-append acc (x ∷ xs) ys = digits_value-append (acc * 10 + (x - 48)) xs ys

digits_value-zeros : (k : ℕ) (s : Text) → digits_value 0 (replicate k 48 ++ s) ≡ digits_value 0 s
unfolding digits_value
digits_value-zeros zero s = refl
digits_value-zeros (suc k) s = digits_value-zeros k s

shifted :
    (acc d power value : ℕ)
    → (acc * 10 + d) * power + value ≡ acc * (10 * power) + ((0 * 10 + d) * power + value)
shifted acc d power value = grind arith

digits_value-from :
    (acc : ℕ) (s : Text) → digits_value acc s ≡ acc * 10 ^ length s + digits_value 0 s
unfolding digits_value
digits_value-from acc [] = omega arith
digits_value-from acc (x ∷ xs) =
    let d = x - 48 in
    let power = 10 ^ length xs in
    let value = digits_value 0 xs in
    digits_value-from (acc * 10 + d) xs
    ∙ shifted acc d power value
    ∙ sym (ap (λ v. acc * (10 * power) + v) (digits_value-from (0 * 10 + d) xs))
    ∙ ap (λ q. acc * q + digits_value (0 * 10 + d) xs) (sym (pow_ten (length xs)))

length-replicate : (k : ℕ) (c : ℕ) → length (replicate k c) ≡ k
length-replicate zero c = refl
length-replicate (suc k) c = ap suc (length-replicate k c)

pub length-padded : (width n : ℕ) → n < 10 ^ suc width → length (padded (suc width) n) ≡ suc width
unfolding padded decimal
length-padded width n h =
    let s = digits_onto 38 n [] in
    let k = suc width - length s in
    length-append (replicate k b'0') s
    ∙ omega (arith, length-replicate k b'0', length-digits_onto 38 width n [] h)

digits_value-decimal : (n : ℕ) → n < u128_mod → digits_value 0 (decimal n) ≡ n
unfolding decimal digits_value
digits_value-decimal n h = digits_onto-value 38 n [] (omega (arith, h))

digits_value-padded : (width n : ℕ) → n < u128_mod → digits_value 0 (padded width n) ≡ n
unfolding padded
digits_value-padded width n h =
    digits_value-zeros (width - length (decimal n)) (decimal n) ∙ digits_value-decimal n h

put_together : (q r d total e v : ℕ) → d * q + r ≡ total → e ≡ d → v ≡ r → q * e + v ≡ total
put_together q r d total e v whole p t = rw (p, t) (grind (arith, whole))

-- The digits of a printed cost, before and after the dot, are those of the sum.
pub digits_value-printed :
    (width total : ℕ)
    → total < u128_mod
    → let d = 10 ^ suc width in
      digits_value 0 (decimal (total / d) ++ padded (suc width) (total % d)) ≡ total
digits_value-printed width total small =
    let d = 10 ^ suc width in
    let q = total / d in
    let r = total % d in
    let positive : 0 < d = one-le-pow (suc width) 10 (omega arith) in
    let r_lt : r < d = mod-lt total positive in
    let whole : d * q + r ≡ total = div-add-mod total d in
    let q_le : q ≤ total = div-le_self total d in
    let r_le : r ≤ total = omega (arith, whole) in
    digits_value-append 0 (decimal q) (padded (suc width) r)
    ∙ ap (λ m. digits_value m (padded (suc width) r))
        (digits_value-decimal q (omega (arith, q_le, small)))
    ∙ digits_value-from q (padded (suc width) r)
    ∙ put_together q r d total (10 ^ length (padded (suc width) r))
        (digits_value 0 (padded (suc width) r)) whole
        (ap (λ w. 10 ^ w) (length-padded width r r_lt))
        (digits_value-padded (suc width) r (omega (arith, r_le, small)))
