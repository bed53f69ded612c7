-- ===== src/Ai/Pricing/Covered.antt =====
-- Tariffs that are accepted can be charged for any usage.
use inoreader.Prelude.{
  ℕ, ◌+◌, ◌-◌, ◌≤◌, ◌<◌, ◌≡◌, refl, subst, ap, ◌∙◌, ltb, ◌↔◌, ◌⊎◌, ◌≢◌, inl, inr, false, none, some,
  List, arith, ◌!=◌, nat_eq, option_eq, Bool-cases, u64_mod, checked_add, traverse, ok, err, ◌>>=◌,
  >>=-eq-ok, ok_or, ok_injective, ne_iff,
}
use inoreader.Prelude.Text.{Text}
use inoreader.Ai.Pricing.{
  configuration, protocol, CostRates, Usage, DecimalRate, checked_pow10, add_up, max_scale,
  parse_entry, sum_of, cost_of, format_cost, at_rates, try_from, new, maximum, cost,
}
use inoreader.Ai.Pricing.Sums.{Fewer, none_, fewer, add_up-le, max_scale-Fewer, traverse-Fewer}

sum_of-chain :
    (xs : List (Text × ℕ)) (rates : List (DecimalRate × ℕ)) (scale total divisor : ℕ)
    → traverse parse_entry xs ≡ ok rates
    → ok_or (max_scale rates) configuration ≡ ok scale
    → add_up scale 0 rates ≡ ok total
    → ok_or (checked_pow10 scale) configuration ≡ ok divisor
    → sum_of xs ≡ ok (scale, total, divisor)
unfolding sum_of
sum_of-chain xs rates scale total divisor read found summed power =
    rw (read, found, summed, power) refl

sum_of-Fewer :
    {xs ys : List (Text × ℕ)} {sum : ℕ × ℕ × ℕ}
    → Fewer xs ys
    → sum_of ys ≡ ok sum
    → (less : ℕ × ℕ × ℕ) × (sum_of xs ≡ ok less)
unfolding sum_of
sum_of-Fewer {xs = xs} {ys = ys} less h =
    let (rates, read, h₁) = >>=-eq-ok (traverse parse_entry ys) _ h in
    let (scale, found, h₂) = >>=-eq-ok (ok_or (max_scale rates) configuration) _ h₁ in
    let (total, summed, h₃) = >>=-eq-ok (add_up scale 0 rates) _ h₂ in
    let (divisor, power, _) = >>=-eq-ok (ok_or (checked_pow10 scale) configuration) _ h₃ in
    let (rates', read', less') = traverse-Fewer less read in
    let (total', summed', _) = add_up-le scale 0 0 less' (omega arith) summed in
    (
      (scale, total', divisor),
      sum_of-chain xs rates' scale total' divisor read'
          (ap (λ m. ok_or m configuration) (max_scale-Fewer less') ∙ found) summed' power,
    )

cost_of-Fewer :
    {xs ys : List (Text × ℕ)} {s : Text}
    → Fewer xs ys
    → cost_of ys ≡ ok s
    → (r : Text) × (cost_of xs ≡ ok r)
unfolding cost_of
cost_of-Fewer {xs = xs} {ys = ys} less h =
    let (sum, found, _) = >>=-eq-ok (sum_of ys) _ h in
    let ((scale, total, divisor), found') = sum_of-Fewer less found in
    (
      format_cost scale total divisor,
      ap (λ m. m >>= λ (scale, total, divisor). ok (format_cost scale total divisor)) found',
    )

at_rates-Fewer :
    (r : CostRates) (a b c m : ℕ)
    → a ≤ m
    → b ≤ m
    → c ≤ m
    → Fewer (at_rates r a b c) (at_rates r m m m)
at_rates-Fewer r a b c m p q s = fewer p (fewer q (fewer s none_))

new-covers :
    (input cached output : Text) {r : CostRates} (a b c : ℕ)
    → new input cached output ≡ ok r
    → a < u64_mod
    → b < u64_mod
    → c < u64_mod
    → (s : Text) × (cost_of (at_rates r a b c) ≡ ok s)
unfolding new try_from
new-covers input cached output {r = r} a b c h p q s =
    let raw : CostRates = record {
      input_usd_per_million_tokens = input;
      cached_input_usd_per_million_tokens = cached;
      output_usd_per_million_tokens = output;
    } in
    let m = u64_mod - 1 in
    let (text, most, e) = >>=-eq-ok (cost_of (at_rates raw m m m)) _ h in
    let same : raw ≡ r = ok_injective e in
    subst (λ r. (s : Text) × (cost_of (at_rates r a b c) ≡ ok s)) same
      (cost_of-Fewer
        (at_rates-Fewer raw a b c m (omega (arith, p)) (omega (arith, q)) (omega (arith, s))) most)

-- The test of the prompt tokens.
adds_up_iff :
    (hit miss prompt : ℕ)
    → prompt < u64_mod
    → ((checked_add hit miss != some prompt) ≡ false) ↔ (hit + miss ≡ prompt)
unfolding checked_add
adds_up_iff hit miss prompt small = elim (Bool-cases (ltb (hit + miss) u64_mod)) [
  | inl fits ↦ rw fits (
    λ h. some_injective ((ne_iff (some (hit + miss)) (some prompt)).0 h),
    λ e. (ne_iff (some (hit + miss)) (some prompt)).1 (ap some e),
  )
  | inr over ↦
      rw over (λ h. absurd (cc ((ne_iff none (some prompt)).0 h)), λ e. absurd (ground arith))
]
  where
    some_injective : {a b : ℕ} → some a ≡ some b → a ≡ b
    some_injective h = cc h

-- Tariffs that are accepted never overflow: the bound of any request is a cost, and so is that of any
-- usage whose cached and uncached prompt tokens add up; of any other the error is that of the protocol.
pub new-cost :
    (input cached output : Text) (usage : Usage) (requested allowed : ℕ) {r : CostRates}
    → new input cached output ≡ ok r
    → usage.prompt_tokens < u64_mod
    → usage.completion_tokens < u64_mod
    → usage.prompt_cache_hit_tokens < u64_mod
    → usage.prompt_cache_miss_tokens < u64_mod
    → requested < u64_mod
    → allowed < u64_mod
    → ((s : Text) × (maximum r requested allowed ≡ ok s))
      × (((usage.prompt_cache_hit_tokens + usage.prompt_cache_miss_tokens ≡ usage.prompt_tokens)
            × ((s : Text) × (cost r usage ≡ ok s)))
          ⊎ ((usage.prompt_cache_hit_tokens + usage.prompt_cache_miss_tokens ≢ usage.prompt_tokens)
              × (cost r usage ≡ err protocol)))
unfolding maximum cost checked_add
new-cost input cached output usage requested allowed {r = r} h prompt completion hit miss p q =
    let hits = usage.prompt_cache_hit_tokens in
    let misses = usage.prompt_cache_miss_tokens in
    let add = checked_add usage.prompt_cache_hit_tokens usage.prompt_cache_miss_tokens in
    (
      new-covers input cached output requested requested allowed h p p q,
      elim (Bool-cases (add != some usage.prompt_tokens)) [
        | inl differ ↦ inr (
          λ e. absurd (cc (differ, (adds_up_iff hits misses usage.prompt_tokens prompt).1 e)),
          rw differ refl,
        )
        | inr same ↦
            let (s, e) =
              new-covers input cached output usage.prompt_cache_miss_tokens
                usage.prompt_cache_hit_tokens usage.completion_tokens h miss hit completion in
            inl ((adds_up_iff hits misses usage.prompt_tokens prompt).0 same, (s, rw same e))
      ],
    )
