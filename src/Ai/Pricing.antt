-- ===== src/Ai/Pricing.antt =====
-- crates/reader-ai/src/model.rs (DecimalRate, Usage, AiError) and pricing.rs: exact decimal tariffs and
-- what an amount of tokens costs at them.
pub mod Sums
pub mod Covered
pub mod Printed
pub mod Exact
use inoreader.Prelude.{
  ℕ, zero, suc, ◌+◌, ◌-◌, ◌*◌, ◌/◌, ◌%◌, ◌^◌, Bool, true, false, not, ◌&&◌, ◌||◌, Option, none,
  some, List, [], ◌∷◌, ◌++◌, Eq, ◌==◌, ◌!=◌, nat_eq, option_eq, if◌then◌else◌, eqb, leb, ltb, all,
  any, length, replicate, u64_mod, checked_add, Result, ok, err, ◌>>=◌, ◌>>◌, refuse_if, ok_or,
  traverse,
}
use Prim.Native.Nat.{max}
use inoreader.Prelude.Text.{Text, split, is_empty, is_ascii_digit, decimal}

pub data AiError : Type 0 where
  automatic_duplicate : AiError
  statistics_range : AiError
  automatic_paused : AiError
  budget : AiError
  automatic_excluded : AiError
  not_found : AiError
  conflict : AiError
  unavailable : AiError
  prompt_pending : AiError
  missing_key : AiError
  invalid_key : AiError
  balance : AiError
  rate_limit : AiError
  provider : AiError
  rejected : AiError
  protocol : AiError
  translation : Text → AiError
  quote : AiError
  review : AiError
  context : AiError
  full_text : AiError
  message : AiError
  configuration : AiError
  encryption : AiError
  storage : AiError
  cancelled : AiError

abbrev pub u32_mod : ℕ
u32_mod = 2 ^ 32

abbrev pub u128_mod : ℕ
u128_mod = 2 ^ 128

pub record DecimalRate : Type 0 where
  pub integer : ℕ  -- u128
  pub scale : ℕ  -- u32

-- `10_u128.checked_pow(e)`: 10^38 is the last power of ten below 2^128.
unfoldable pub checked_pow10 : ℕ → Option ℕ
checked_pow10 e = if leb e 38 then some (10 ^ e) else none

-- `checked_mul` and `checked_add` on u128
unfoldable pub checked_mul_u128 : ℕ → ℕ → Option ℕ
checked_mul_u128 a b = if ltb (a * b) u128_mod then some (a * b) else none

unfoldable pub checked_add_u128 : ℕ → ℕ → Option ℕ
checked_add_u128 a b = if ltb (a + b) u128_mod then some (a + b) else none

-- `+ 6` and `-` on u32, which wrap in a release build
unfoldable pub add_six : ℕ → ℕ
add_six scale = (scale + 6) % u32_mod

unfoldable pub wrapping_sub : ℕ → ℕ → ℕ
wrapping_sub a b = (a + (u32_mod - b % u32_mod)) % u32_mod

-- The number that decimal digits spell after `acc`.
unfoldable pub digits_value : ℕ → Text → ℕ
digits_value acc [] = acc
digits_value acc (c ∷ s) = digits_value (acc * 10 + (c - 48)) s

-- `str::parse::<u128>()` of digits
unfoldable pub parse_u128 : Text → Option ℕ
unfolding digits_value
parse_u128 s = let n = digits_value 0 s in if ltb n u128_mod then some n else none

abbrev pub fraction_of : List Text → Text
fraction_of [] = []
fraction_of (fractional ∷ rest) = fractional

abbrev pub has_more : List Text → Bool
has_more [] = false
has_more (fractional ∷ []) = false
has_more (fractional ∷ more ∷ rest) = true

-- `DecimalRate::parse` of the parts between the dots
unfoldable pub parse_parts : List Text → Result AiError DecimalRate
unfolding is_empty is_ascii_digit checked_pow10 add_six parse_u128 all
parse_parts [] = err configuration
parse_parts (whole ∷ rest) = do
  let fractional = fraction_of rest
  refuse_if (has_more rest || is_empty whole || not (all is_ascii_digit (whole ++ fractional)))
      configuration
  refuse_if (not (ltb (length fractional) u32_mod)) configuration
  let scale = length fractional
  power ← ok_or (checked_pow10 (add_six scale)) configuration
  integer ← ok_or (parse_u128 (whole ++ fractional)) configuration
  ok (record { integer = integer; scale = scale })

unfoldable pub parse : Text → Result AiError DecimalRate
unfolding parse_parts split
parse value = parse_parts (split b'.' value)

abbrev pub and_then : {A B : Type 0} → Option A → (A → Option B) → Option B
and_then none f = none
and_then (some a) f = f a

-- One product of `DecimalRate::cost`, at the common scale.
unfoldable pub product : (scale : ℕ) → DecimalRate → (tokens : ℕ) → Option ℕ
unfolding checked_mul_u128 checked_pow10 wrapping_sub
product scale rate tokens = and_then (checked_mul_u128 rate.integer tokens) (λ v.
    and_then (checked_pow10 (wrapping_sub (wrapping_sub scale rate.scale) 6))
      (λ p. checked_mul_u128 v p))

-- The loop of `DecimalRate::cost`.
unfoldable pub add_up : (scale total : ℕ) → List (DecimalRate × ℕ) → Result AiError ℕ
unfolding product checked_add_u128
add_up scale total [] = ok total
add_up scale total ((rate, tokens) ∷ rates) = do
  v ← ok_or (product scale rate tokens) configuration
  sum ← ok_or (checked_add_u128 total v) configuration
  add_up scale sum rates

abbrev pub larger : ℕ → Option ℕ → Option ℕ
larger a none = some a
larger a (some b) = some (max a b)

-- `map(scale + 6).max()`
unfoldable pub max_scale : List (DecimalRate × ℕ) → Option ℕ
unfolding add_six
max_scale [] = none
max_scale ((rate, tokens) ∷ rates) = larger (add_six rate.scale) (max_scale rates)

-- `{:0width$}`
unfoldable pub padded : ℕ → ℕ → Text
unfolding decimal
padded width n = let s = decimal n in replicate (width - length s) b'0' ++ s

unfoldable pub format_cost : (scale total divisor : ℕ) → Text
unfolding padded decimal
format_cost scale total divisor = decimal (total / divisor) ++ b'.' ∷ padded scale (total % divisor)

abbrev pub parse_entry : Text × ℕ → Result AiError (DecimalRate × ℕ)
parse_entry (value, tokens) = parse value >>= λ rate. ok (rate, tokens)

-- `DecimalRate::cost` up to its result: the common scale, the sum at it, and the divisor.
unfoldable pub sum_of : List (Text × ℕ) → Result AiError (ℕ × ℕ × ℕ)
unfolding max_scale add_up checked_pow10 parse
sum_of entries = do
  rates ← traverse parse_entry entries
  scale ← ok_or (max_scale rates) configuration
  total ← add_up scale 0 rates
  divisor ← ok_or (checked_pow10 scale) configuration
  ok (scale, total, divisor)

unfoldable pub cost_of : List (Text × ℕ) → Result AiError Text
unfolding sum_of format_cost
cost_of entries = sum_of entries >>= λ (scale, total, divisor). ok (format_cost scale total divisor)

pub record CostRates : Type 0 where
  pub input_usd_per_million_tokens : Text
  pub cached_input_usd_per_million_tokens : Text
  pub output_usd_per_million_tokens : Text

pub record Usage : Type 0 where
  pub prompt_tokens : ℕ
  pub completion_tokens : ℕ
  pub prompt_cache_hit_tokens : ℕ
  pub prompt_cache_miss_tokens : ℕ
  pub estimated_cost_usd : Option Text

abbrev pub at_rates : CostRates → (miss hit output : ℕ) → List (Text × ℕ)
at_rates r miss hit output =
    (r.input_usd_per_million_tokens, miss)
    ∷ (r.cached_input_usd_per_million_tokens, hit)
    ∷ (r.output_usd_per_million_tokens, output)
    ∷ []

-- `TryFrom<RawCostRates>`
unfoldable pub try_from : CostRates → Result AiError CostRates
unfolding cost_of
try_from raw = do _ ← cost_of (at_rates raw (u64_mod - 1) (u64_mod - 1) (u64_mod - 1)); ok raw

unfoldable pub new : Text → Text → Text → Result AiError CostRates
unfolding try_from
new input cached_input output = try_from (record {
  input_usd_per_million_tokens = input;
  cached_input_usd_per_million_tokens = cached_input;
  output_usd_per_million_tokens = output;
})

unfoldable pub maximum : CostRates → (input output : ℕ) → Result AiError Text
unfolding cost_of
maximum r input output = cost_of (at_rates r input input output)

unfoldable pub cost : CostRates → Usage → Result AiError Text
unfolding cost_of checked_add
cost r usage = do
  refuse_if
      (checked_add usage.prompt_cache_hit_tokens usage.prompt_cache_miss_tokens
        != some usage.prompt_tokens)
      protocol
  cost_of (
      at_rates r usage.prompt_cache_miss_tokens usage.prompt_cache_hit_tokens
        usage.completion_tokens)
