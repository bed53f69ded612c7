-- ===== src/Net/Body.antt =====
-- crates/reader-web-runtime/src/network.rs, `Deadline` and `BoundedBody`: the deadline of a request and the bounded
-- body of its response.
use inoreader.Prelude.{
  ℕ, ◌+◌, ◌-◌, ◌≤◌, ◌<◌, ◌≡◌, refl, ◌∙◌, Option, none, some, List, [], ◌∷◌, ◌++◌, arith, ltb,
  if◌then◌else◌, length, length-append, u64_mod, checked_add, Result, ok, err, Bool-cases, inl, inr,
}
use inoreader.Net.Error.{OutboundError, response_body_too_large, deadline_exceeded}
use mathlib.Core.List.{flatten, append_assoc, append-nil}

-- `Deadline::remaining`, of the time that has elapsed since its start
unfoldable pub remaining : ℕ → ℕ → Result OutboundError ℕ
remaining duration elapsed =
    if ltb duration elapsed then err deadline_exceeded else ok (duration - elapsed)

pub record BoundedBody : Type 0 where
  pub bytes : List ℕ
  pub limit : ℕ

unfoldable pub new : ℕ → BoundedBody
new limit = record { bytes = []; limit = limit }

-- The part of `push` behind `checked_add`.
abbrev pub push_next :
    BoundedBody → List ℕ → Option ℕ → BoundedBody × Result OutboundError (Unit {0})
push_next body chunk none = (body, err (response_body_too_large body.limit))
push_next body chunk (some next) =
    if ltb body.limit next
    then (body, err (response_body_too_large body.limit))
    else (record body { bytes = body.bytes ++ chunk }, ok tt)

unfoldable pub push : BoundedBody → List ℕ → BoundedBody × Result OutboundError (Unit {0})
unfolding checked_add
push body chunk = push_next body chunk (checked_add (length body.bytes) (length chunk))

-- `body.push(chunk)?` and what follows it
abbrev pub then_read :
    BoundedBody × Result OutboundError (Unit {0})
    → (BoundedBody → BoundedBody × Result OutboundError (Unit {0}))
    → BoundedBody × Result OutboundError (Unit {0})
then_read (body, ok u) rest = rest body
then_read (body, err e) rest = (body, err e)

-- A reader's loop: it pushes each chunk and stops at the first refusal.
unfoldable pub read_all :
    BoundedBody → List (List ℕ) → BoundedBody × Result OutboundError (Unit {0})
read_all body [] = (body, ok tt)
read_all body (chunk ∷ chunks) = then_read (push body chunk) (λ b. read_all b chunks)

push-fits :
    (body : BoundedBody) (chunk : List ℕ)
    → body.limit < u64_mod
    → length body.bytes + length chunk ≤ body.limit
    → push body chunk ≡ (record body { bytes = body.bytes ++ chunk }, ok tt)
unfolding push
push-fits body chunk small fits = ground arith

push-too_large :
    (body : BoundedBody) (chunk : List ℕ)
    → body.limit < length body.bytes + length chunk
    → push body chunk ≡ (body, err (response_body_too_large body.limit))
unfolding push
push-too_large body chunk big = ground arith

-- How many bytes the chunks hold.
abbrev pub total : List (List ℕ) → ℕ
total [] = 0
total (c ∷ cs) = length c + total cs

read_all-fits :
    (body : BoundedBody) (chunks : List (List ℕ))
    → body.limit < u64_mod
    → length body.bytes + total chunks ≤ body.limit
    → read_all body chunks ≡ (record body { bytes = body.bytes ++ flatten chunks }, ok tt)
unfolding read_all flatten
read_all-fits body [] small fits = rw (append-nil body.bytes) refl
read_all-fits body (c ∷ cs) small fits = rw (push-fits body c small (omega arith)) (
    read_all-fits (record body { bytes = body.bytes ++ c }) cs small
      (omega (arith, length-append body.bytes c))
    ∙ rw (append_assoc body.bytes c (flatten cs)))

read_all-too_large :
    (body : BoundedBody) (chunks : List (List ℕ))
    → body.limit < u64_mod
    → length body.bytes ≤ body.limit
    → body.limit < length body.bytes + total chunks
    → ((read_all body chunks).1 ≡ err (response_body_too_large body.limit))
      × (length (read_all body chunks).0.bytes ≤ body.limit)
unfolding read_all
read_all-too_large body [] small within big = absurd (omega arith)
read_all-too_large body (c ∷ cs) small within big =
    elim (Bool-cases (ltb body.limit (length body.bytes + length c))) [
      | inl over ↦ rw (push-too_large body c (ground arith)) (refl, within)
      | inr fits ↦ rw (push-fits body c small (ground arith)) (
          read_all-too_large (record body { bytes = body.bytes ++ c }) cs small
            (ground (arith, length-append body.bytes c))
            (omega (arith, length-append body.bytes c)))
    ]

-- Chunks that fit the limit together are read to their end, and the body is their concatenation.
pub read_all-within :
    (limit : ℕ) (chunks : List (List ℕ))
    → limit < u64_mod
    → total chunks ≤ limit
    → read_all (new limit) chunks ≡ (record { bytes = flatten chunks; limit = limit }, ok tt)
unfolding new
read_all-within limit chunks small fits = read_all-fits (new limit) chunks small (omega arith)

-- Chunks that exceed the limit together end in the error of that limit, and no more bytes than the
-- limit are kept.
pub read_all-over :
    (limit : ℕ) (chunks : List (List ℕ))
    → limit < u64_mod
    → limit < total chunks
    → ((read_all (new limit) chunks).1 ≡ err (response_body_too_large limit))
      × (length (read_all (new limit) chunks).0.bytes ≤ limit)
unfolding new
read_all-over limit chunks small big =
    read_all-too_large (new limit) chunks small (omega arith) (omega arith)
