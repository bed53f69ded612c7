-- ===== src/Tests/OnAi.antt =====
-- The theorems on tariffs and streamed answers, applied to the tariffs of a usage and to an answer of
-- one segment; the toy parser takes any object for that segment.
use mathlib.Core.List.{flatten}
use inoreader.Prelude.{
  true, ℕ, List, [], ◌∷◌, some, ◌+◌, ◌≡◌, ◌≢◌, ◌⊎◌, refl, none, arith, ok, err, all, traverse,
  false, length, ◌≤◌, ◌>>=◌,
}
use inoreader.Prelude.Text.{Text, codes, split, is_empty, is_ascii_digit, decimal, digits_onto}
use inoreader.Ai.Pricing.{
  CostRates, DecimalRate, Usage, parse_entry, protocol, new, try_from, maximum, cost, cost_of,
  sum_of, parse, parse_parts, checked_pow10, add_six, parse_u128, digits_value, max_scale, add_up,
  product, checked_mul_u128, checked_add_u128, wrapping_sub, format_cost, padded,
}
use inoreader.Ai.Stream
use inoreader.Ai.Stream.{JsonApi, Segment, VerifiedSegments, push}
use inoreader.Ai.Stream.Cut.{feed, feed-push}
use inoreader.Ai.Pricing.Covered.{new-cost}
use inoreader.Ai.Pricing.Exact.{IsExact, cost_of-IsExact}

abbrev rates : CostRates
rates = record {
  input_usd_per_million_tokens = codes "0.14";
  cached_input_usd_per_million_tokens = codes "0.014";
  output_usd_per_million_tokens = codes "0.28";
}

abbrev usage : Usage
usage = record {
  prompt_tokens = 30;
  completion_tokens = 7;
  prompt_cache_hit_tokens = 10;
  prompt_cache_miss_tokens = 20;
  estimated_cost_usd = none;
}

accepted : new (codes "0.14") (codes "0.014") (codes "0.28") ≡ ok rates
unfolding new try_from cost_of sum_of parse parse_parts split is_empty is_ascii_digit all
    checked_pow10 add_six parse_u128 digits_value max_scale add_up product checked_mul_u128
    checked_add_u128 wrapping_sub format_cost padded decimal digits_onto traverse
accepted = refl

new-cost_example :
    ((s : Text) × (maximum rates 100 50 ≡ ok s))
    × (((10 + 20 ≡ 30) × ((s : Text) × (cost rates usage ≡ ok s)))
        ⊎ ((10 + 20 ≢ 30) × (cost rates usage ≡ err protocol)))
new-cost_example =
    new-cost (codes "0.14") (codes "0.014") (codes "0.28") usage 100 50 accepted (omega arith)
      (omega arith) (omega arith) (omega arith) (omega arith) (omega arith)

abbrev priced : List (Text × ℕ)
priced = (codes "0.14", 1000000) ∷ (codes "2", 30) ∷ []

priced_cost : cost_of priced ≡ ok (codes "0.14006000")
unfolding cost_of sum_of parse parse_parts split is_empty is_ascii_digit all checked_pow10 add_six
    parse_u128 digits_value max_scale add_up product checked_mul_u128 checked_add_u128 wrapping_sub
    format_cost padded decimal digits_onto traverse
priced_cost = refl

cost_of-IsExact_example :
    (rates : List (DecimalRate × ℕ)) × (traverse parse_entry priced ≡ ok rates)
    × IsExact rates (codes "0.14006000")
cost_of-IsExact_example = cost_of-IsExact priced (omega arith, (omega arith, tt)) priced_cost

abbrev said : Segment
said = record { kind = codes "text"; content = codes "hi" }

abbrev toy_json : JsonApi
toy_json = record { segment = λ bytes. some said; envelope = λ bytes. some (said ∷ []) }

abbrev answer_chunks : List (List ℕ)
answer_chunks = codes "{\"s\":[{" ∷ codes "}]" ∷ codes "}" ∷ []

room : length (flatten answer_chunks) ≤ 20
unfolding flatten
room = omega arith

feed-push_example :
    feed toy_json (Stream.new [] 20) answer_chunks
    ≡ (push toy_json (Stream.new [] 20) (flatten answer_chunks) >>= λ r. ok r.0)
feed-push_example = feed-push toy_json [] 20 answer_chunks room (omega arith)

-- What is held when the answer has come.
abbrev heard : VerifiedSegments
heard = record {
  raw = flatten answer_chunks;
  state = record {
    cursor = 10;
    array_started = true;
    array_finished = true;
    object_start = none;
    depth = 0;
    quoted = false;
    escaped = false;
    separator = true;
    emitted = 1;
    content = codes "hi";
  };
  article = [];
  limit = 20;
}
