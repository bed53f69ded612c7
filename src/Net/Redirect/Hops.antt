-- ===== src/Net/Redirect/Hops.antt =====
-- How far the redirects of one request go: they are bounded, and none returns to a URL seen before.
use inoreader.Prelude.{
  ℕ, ◌+◌, ◌≤◌, ◌<◌, ◌≡◌, refl, ap, ◌∙◌, Option, none, some, List, [], ◌∷◌, map, arith, nat_eq,
  list_eq, leb, contains, length, Result, ok, err, IsDistinct, Bool-cases, inl, inr,
}
use inoreader.Prelude.Text.{Text}
use inoreader.Prelude.Url.{UrlApi}
use inoreader.Net.Redirect.{RedirectChain, follow, take_hop, new}

-- The URLs to which `follow` led, newest first, before those already listed.
abbrev pub led_to {ℓ} : {E Url : Type ℓ} → Result E Url → List Url → List Url
led_to (ok next) visited = next ∷ visited
led_to (err e) visited = visited

module _ (api : UrlApi) where
  open api use {Url, join, as_str}

  -- Any calls of `follow` on one chain, refused ones included.
  unfoldable pub run : RedirectChain → List Url → List (Url × Text) → RedirectChain × List Url
  run c visited [] = (c, visited)
  run c visited ((current, location) ∷ calls) =
      let (c', answer) = follow api c current location in run c' (led_to answer visited) calls

  record IsTrail (c : RedirectChain) (visited : List Url) : Type 0 where
    seen : c.seen ≡ map as_str visited
    counted : length visited ≡ c.hops + 1
    distinct : IsDistinct c.seen
    bounded : c.hops ≤ c.max_hops

  take_hop-IsTrail :
      (c : RedirectChain) (visited : List Url) (o : Option Url)
      → c.hops < c.max_hops
      → IsTrail c visited
      → IsTrail (take_hop api c o).0 (led_to (take_hop api c o).1 visited)
        × ((take_hop api c o).0.max_hops ≡ c.max_hops)
  take_hop-IsTrail c visited none room h = (h, refl)
  take_hop-IsTrail c visited (some next) room h =
      elim (Bool-cases (contains c.seen (as_str next))) [
        | inl old ↦ rw old (h, refl)
        | inr fresh ↦ rw fresh (
          record {
            seen = ap (λ (t : List Text). as_str next ∷ t) h.seen;
            counted = omega (arith, h.counted);
            distinct = (fresh, h.distinct);
            bounded = omega arith;
          },
          refl,
        )
      ]

  follow-IsTrail :
      (c : RedirectChain) (visited : List Url) (current : Url) (location : Text)
      → IsTrail c visited
      → IsTrail (follow api c current location).0 (led_to (follow api c current location).1 visited)
        × ((follow api c current location).0.max_hops ≡ c.max_hops)
  unfolding follow
  follow-IsTrail c visited current location h = elim (Bool-cases (leb c.max_hops c.hops)) [
    | inl full ↦ rw full (h, refl)
    | inr room ↦ rw room (take_hop-IsTrail c visited (join current location) (ground arith) h)
  ]

  run-IsTrail :
      (c : RedirectChain) (visited : List Url) (calls : List (Url × Text))
      → IsTrail c visited
      → IsTrail (run c visited calls).0 (run c visited calls).1
        × ((run c visited calls).0.max_hops ≡ c.max_hops)
  unfolding run
  run-IsTrail c visited [] h = (h, refl)
  run-IsTrail c visited ((current, location) ∷ calls) h =
      let (t, same) = follow-IsTrail c visited current location h in
      let (u, still) =
        run-IsTrail (follow api c current location).0
          (led_to (follow api c current location).1 visited) calls t in
      (u, still ∙ same)

  new-IsTrail : (initial : Url) (max_hops : ℕ) → IsTrail (new api initial max_hops) (initial ∷ [])
  unfolding new contains
  new-IsTrail initial max_hops = record {
    seen = refl;
    counted = omega arith;
    distinct = (refl, tt);
    bounded = omega arith;
  }

  visited_bounded :
      (initial : Url) (max_hops : ℕ) {n hops bound : ℕ}
      → bound ≡ (new api initial max_hops).max_hops
      → n ≡ hops + 1
      → hops ≤ bound
      → n ≤ max_hops + 1
  unfolding new
  visited_bounded initial max_hops e k h = omega arith

  -- However a client calls `follow` on the chain of one request, the URLs visited, the first one
  -- included, are at most `max_hops` more than one, and no two of them have the same spelling.
  pub run_bounded :
      (initial : Url) (max_hops : ℕ) (calls : List (Url × Text))
      → (length (run (new api initial max_hops) (initial ∷ []) calls).1 ≤ max_hops + 1)
        × IsDistinct (map as_str (run (new api initial max_hops) (initial ∷ []) calls).1)
  run_bounded initial max_hops calls =
      let (t, same) =
        run-IsTrail (new api initial max_hops) (initial ∷ []) calls
          (new-IsTrail initial max_hops) in
      (visited_bounded initial max_hops same t.counted t.bounded, rw (← t.seen) t.distinct)
