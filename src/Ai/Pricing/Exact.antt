-- ===== src/Ai/Pricing/Exact.antt =====
-- A cost is the exact sum of the products of rates and tokens.
use inoreader.Prelude.{
  ℕ, zero, suc, ◌+◌, ◌-◌, ◌*◌, ◌/◌, ◌%◌, ◌^◌, ◌≤◌, ◌<◌, ◌≡◌, refl, sym, ap, ◌∙◌, subst, not, ◌||◌,
  Option, none, some, List, [], ◌∷◌, ◌++◌, arith, eqb, leb, ltb, Bool-cases, inl, inr, length, all,
  All, All-map, traverse, ok, >>=-eq-ok, refuse_if-ok, ok_or, ok_or-ok, ok_injective, if_true,
  if_false,
}
use native.Mathlib.Nat.{one-le-pow, mod-lt}
use inoreader.Prelude.Text.{Text, split, push_front, is_empty, is_ascii_digit, decimal}
use inoreader.Ai.Pricing.{
  configuration, DecimalRate, u32_mod, u128_mod, checked_pow10, checked_mul_u128, checked_add_u128,
  add_six, wrapping_sub, parse_u128, fraction_of, has_more, parse_parts, parse, parse_entry,
  and_then, product, add_up, larger, max_scale, sum_of, cost_of, format_cost, padded, digits_value,
}
use inoreader.Ai.Pricing.Sums.{within-some, and_then-some}
use inoreader.Ai.Pricing.Printed.{digits_value-printed, length-padded}

-- The sum at a scale: each product of a rate and its tokens, brought to that scale.
pub exact : (scale : ℕ) → List (DecimalRate × ℕ) → ℕ
exact scale [] = 0
exact scale ((rate, tokens) ∷ rates) =
    rate.integer * tokens * 10 ^ (scale - (rate.scale + 6)) + exact scale rates

-- Rates that the scale covers.
abbrev pub IsScale : ℕ → List (DecimalRate × ℕ) → Type 0
IsScale scale rates = All (λ e. e.0.scale + 6 ≤ scale) rates

checked_pow10-some : (e : ℕ) {p : ℕ} → checked_pow10 e ≡ some p → 10 ^ e ≡ p
unfolding checked_pow10
checked_pow10-some e {p = p} h = elim (Bool-cases (leb e 38)) [
  | inl small ↦ cc (if_true (leb e 38) (some (10 ^ e)) none small h)
  | inr large ↦ absurd (cc (if_false (leb e 38) (some (10 ^ e)) none large h))
]

wrapping_sub-scale :
    (scale s : ℕ)
    → s + 6 ≤ scale
    → scale < u32_mod
    → wrapping_sub (wrapping_sub scale s) 6 ≡ scale - (s + 6)
unfolding wrapping_sub
wrapping_sub-scale scale s h small = omega (arith, h, small)

product-exact :
    (scale : ℕ) (rate : DecimalRate) (tokens : ℕ) {v : ℕ}
    → rate.scale + 6 ≤ scale
    → scale < u32_mod
    → product scale rate tokens ≡ some v
    → rate.integer * tokens * 10 ^ (scale - (rate.scale + 6)) ≡ v
unfolding product checked_mul_u128
product-exact scale rate tokens h small e =
    let power = checked_pow10 (wrapping_sub (wrapping_sub scale rate.scale) 6) in
    let (x, mx, e₁) =
      and_then-some (checked_mul_u128 rate.integer tokens)
        (λ v. and_then power (λ p. checked_mul_u128 v p)) e in
    let (p, mp, e₂) = and_then-some power (λ p. checked_mul_u128 x p) e₁ in
    let x_is = (within-some (rate.integer * tokens) mx).0 in
    let p_is = checked_pow10-some (wrapping_sub (wrapping_sub scale rate.scale) 6) mp in
    let v_is = (within-some (x * p) e₂).0 in
    ap (λ y. y * 10 ^ (scale - (rate.scale + 6))) x_is
    ∙ ap (λ k. x * 10 ^ k) (sym (wrapping_sub-scale scale rate.scale h small))
    ∙ ap (λ q. x * q) p_is
    ∙ v_is

checked_add-some :
    (a b : ℕ) {c : ℕ} → checked_add_u128 a b ≡ some c → (a + b ≡ c) × (a + b < u128_mod)
unfolding checked_add_u128
checked_add-some a b h = within-some (a + b) h

added : (total p e x sum v : ℕ) → p ≡ x → total + x ≡ sum → sum + e ≡ v → total + (p + e) ≡ v
added total p e x sum v h k l = omega (arith, h, k, l)

add_up-exact :
    (scale total : ℕ) (rates : List (DecimalRate × ℕ)) {v : ℕ}
    → IsScale scale rates
    → scale < u32_mod
    → total < u128_mod
    → add_up scale total rates ≡ ok v
    → (total + exact scale rates ≡ v) × (v < u128_mod)
unfolding add_up exact
add_up-exact scale total [] h small fits e =
    let p = ok_injective e in (omega (arith, p), omega (arith, p, fits))
add_up-exact scale total ((rate, tokens) ∷ rates) {v = v} h small fits e =
    let (x, mx, e₁) = >>=-eq-ok (ok_or (product scale rate tokens) configuration) _ e in
    let (sum, ms, e₂) = >>=-eq-ok (ok_or (checked_add_u128 total x) configuration) _ e₁ in
    let p =
      product-exact scale rate tokens h.0 small
        (ok_or-ok (product scale rate tokens) configuration mx) in
    let (s, s_lt) =
      checked_add-some total x (ok_or-ok (checked_add_u128 total x) configuration ms) in
    let (rest, bound) = add_up-exact scale sum rates h.1 small (omega (arith, s, s_lt)) e₂ in
    (
      added total (rate.integer * tokens * 10 ^ (scale - (rate.scale + 6))) (exact scale rates) x
          sum v p s rest,
      bound,
    )

-- No part of a text is longer than the text.
split-length : (at : ℕ) (s : Text) → All (λ part. length part ≤ length s) (split at s)
unfolding split
split-length at [] = (omega arith, tt)
split-length at (c ∷ s) = elim (Bool-cases (eqb c at)) [
  | inl here ↦ rw here (omega arith, longer (split at s) (split-length at s))
  | inr other ↦ rw other (pushed (split at s) (split-length at s))
]
  where
    longer :
        (parts : List Text)
        → All (λ part. length part ≤ length s) parts
        → All (λ part. length part ≤ length (c ∷ s)) parts
    longer parts h = All-map (λ part p. omega (arith, p)) parts h

    pushed :
        (parts : List Text)
        → All (λ part. length part ≤ length s) parts
        → All (λ part. length part ≤ length (c ∷ s)) (push_front c parts)
    pushed [] h = (omega arith, tt)
    pushed (part ∷ parts) h = (omega (arith, h.0), longer parts h.1)

fraction_of-length :
    (n : ℕ) (rest : List Text) → All (λ part. length part ≤ n) rest → length (fraction_of rest) ≤ n
fraction_of-length n [] h = omega arith
fraction_of-length n (part ∷ rest) h = h.0

parse_parts-scale :
    (n : ℕ) (parts : List Text) {r : DecimalRate}
    → All (λ part. length part ≤ n) parts
    → parse_parts parts ≡ ok r
    → r.scale ≤ n
unfolding parse_parts
parse_parts-scale n [] h e = absurd (cc e)
parse_parts-scale n (whole ∷ rest) {r = r} h e =
    let fractional = fraction_of rest in
    let (_, e₁) =
      refuse_if-ok
        (has_more rest || is_empty whole || not (all is_ascii_digit (whole ++ fractional)))
        configuration _ e in
    let (_, e₂) = refuse_if-ok (not (ltb (length fractional) u32_mod)) configuration _ e₁ in
    let (p, _, e₃) =
      >>=-eq-ok (ok_or (checked_pow10 (add_six (length fractional))) configuration) _ e₂ in
    let (i, _, e₄) = >>=-eq-ok (ok_or (parse_u128 (whole ++ fractional)) configuration) _ e₃ in
    let q = ap (λ (d : DecimalRate). d.scale) (ok_injective e₄) in
    let le = fraction_of-length n rest h.1 in subst (λ m. m ≤ n) q le

-- The rates of texts that are not absurdly long have a scale with which a u32 does not wrap.
IsShort : List (DecimalRate × ℕ) → Type 0
IsShort rates = All (λ e. e.0.scale + 6 < u32_mod) rates

traverse-IsShort :
    (entries : List (Text × ℕ)) {rates : List (DecimalRate × ℕ)}
    → All (λ e. length e.0 + 6 < u32_mod) entries
    → traverse parse_entry entries ≡ ok rates
    → IsShort rates
unfolding traverse parse IsShort
traverse-IsShort [] h e = subst (λ rs. All (λ e. e.0.scale + 6 < u32_mod) rs) (ok_injective e) tt
traverse-IsShort ((value, tokens) ∷ entries) h e =
    let (x, here, e₁) = >>=-eq-ok (parse_entry (value, tokens)) _ e in
    let (more, there, e₂) = >>=-eq-ok (traverse parse_entry entries) _ e₁ in
    let (rate, read, e₃) = >>=-eq-ok (parse value) _ here in
    let le : rate.scale ≤ length value =
      parse_parts-scale (length value) (split b'.' value) (split-length b'.' value) read in
    subst (λ rs. All (λ e. e.0.scale + 6 < u32_mod) rs) (ok_injective e₂)
      (
        subst (λ (y : DecimalRate × ℕ). y.0.scale + 6 < u32_mod) (ok_injective e₃)
            (omega (arith, le, h.0)),
        traverse-IsShort entries h.1 there,
      )

-- The greatest scale, and that there is none of no rates.
abbrev IsMax : List (DecimalRate × ℕ) → Option ℕ → Type 0
IsMax rates none = rates ≡ []
IsMax rates (some m) = IsScale m rates × (m < u32_mod) × (6 ≤ m)

larger-IsMax :
    (rate : DecimalRate) (tokens : ℕ) (rates : List (DecimalRate × ℕ)) (o : Option ℕ)
    → rate.scale + 6 < u32_mod
    → IsMax rates o
    → IsMax ((rate, tokens) ∷ rates) (larger (add_six rate.scale) o)
unfolding add_six
larger-IsMax rate tokens rates none short e = (
  (omega (arith, short), subst (IsScale ((rate.scale + 6) % u32_mod)) (sym e) tt),
  omega arith,
  omega (arith, short),
)
larger-IsMax rate tokens rates (some m) short h = (
  (omega (arith, short), All-map (λ e p. omega (arith, p)) rates h.0),
  omega (arith, h.1),
  omega (arith, h.2),
)

max_scale-IsMax : (rates : List (DecimalRate × ℕ)) → IsShort rates → IsMax rates (max_scale rates)
unfolding max_scale IsShort
max_scale-IsMax [] h = refl
max_scale-IsMax ((rate, tokens) ∷ rates) h =
    larger-IsMax rate tokens rates (max_scale rates) h.0 (max_scale-IsMax rates h.1)

-- The cost as an exact decimal: its digits are those of the sum at a scale that covers the rates,
-- with as many after the dot as the scale says.
pub record IsExact (rates : List (DecimalRate × ℕ)) (cost : Text) : Type 0 where
  pub scale : ℕ
  pub whole : Text
  pub fraction : Text
  pub covered : IsScale scale rates
  pub written : cost ≡ whole ++ b'.' ∷ fraction
  pub places : length fraction ≡ scale
  pub value : digits_value 0 (whole ++ fraction) ≡ exact scale rates

format_cost-IsExact :
    (rates : List (DecimalRate × ℕ)) (scale total divisor : ℕ)
    → IsMax rates (some scale)
    → exact scale rates ≡ total
    → total < u128_mod
    → 10 ^ scale ≡ divisor
    → IsExact rates (format_cost scale total divisor)
unfolding format_cost
format_cost-IsExact rates zero total divisor m e small d = absurd (omega (arith, m.2))
format_cost-IsExact rates (suc width) total divisor m e small d = record {
  scale = suc width;
  whole = decimal (total / divisor);
  fraction = padded (suc width) (total % divisor);
  covered = m.0;
  written = refl;
  places = length-padded width (total % divisor) (
      subst (λ k. total % k < 10 ^ suc width) d
        (mod-lt total (one-le-pow (suc width) 10 (omega arith))));
  value =
      subst (λ k. digits_value 0 (decimal (total / k) ++ padded (suc width) (total % k)) ≡ total) d
        (digits_value-printed width total small)
      ∙ sym e;
}

-- A cost is the exact sum of its products, without rounding: its digits spell the sum of each rate
-- times its tokens, at a decimal scale that leaves six more places than any rate has; the rates are
-- texts shorter than a u32 counts.
pub cost_of-IsExact :
    (entries : List (Text × ℕ)) {cost : Text}
    → All (λ e. length e.0 + 6 < u32_mod) entries
    → cost_of entries ≡ ok cost
    → (rates : List (DecimalRate × ℕ)) × (traverse parse_entry entries ≡ ok rates)
      × IsExact rates cost
unfolding cost_of sum_of
cost_of-IsExact entries {cost = cost} short h =
    let ((scale, total, divisor), summed, e) = >>=-eq-ok (sum_of entries) _ h in
    let (rates, read, h₁) = >>=-eq-ok (traverse parse_entry entries) _ summed in
    let (top, found, h₂) = >>=-eq-ok (ok_or (max_scale rates) configuration) _ h₁ in
    let (sum, added_, h₃) = >>=-eq-ok (add_up top 0 rates) _ h₂ in
    let (power, ten, h₄) = >>=-eq-ok (ok_or (checked_pow10 top) configuration) _ h₃ in
    let m : IsMax rates (some top) =
      subst (IsMax rates) (ok_or-ok (max_scale rates) configuration found)
        (max_scale-IsMax rates (traverse-IsShort entries short read)) in
    let (total_is, small) = add_up-exact top 0 rates m.0 m.1 (omega arith) added_ in
    let exact_ =
      format_cost-IsExact rates top sum power m (omega (arith, total_is)) small
        (checked_pow10-some top (ok_or-ok (checked_pow10 top) configuration ten)) in
    let same : (top, sum, power) ≡ (scale, total, divisor) = ok_injective h₄ in
    (
      rates,
      read,
      subst (IsExact rates) (ap (λ (s, t, d). format_cost s t d) same ∙ ok_injective e) exact_,
    )
