-- ===== src/Ingest/Content/Chunks.antt =====
-- The chunks of a content are the content.
use inoreader.Prelude.{
  min, ℕ, zero, suc, ◌+◌, ◌-◌, ◌^◌, ◌≤◌, ◌≡◌, refl, ap, ◌∙◌, List, [], ◌∷◌, ◌++◌, map, arith,
  length, take, drop, take-drop, length-take,
}
use mathlib.Core.List.{flatten}
use inoreader.Ingest.Content.{ContentChunk, chunks_from, chunks}

-- The chunks are numbered from `n` on, none is empty, and only the last may be shorter than `size`.
pub data IsChunking (size : ℕ) : ℕ → List ContentChunk → Type 0 where
  none_ : {n : ℕ} → IsChunking size n []
  last_ :
      {n : ℕ} (c : ContentChunk)
      → c.ordinal ≡ n
      → 1 ≤ length c.bytes
      → length c.bytes ≤ size
      → IsChunking size n (c ∷ [])
  full :
      {n : ℕ} (c d : ContentChunk) (cs : List ContentChunk)
      → c.ordinal ≡ n
      → length c.bytes ≡ size
      → IsChunking size (n + 1) (d ∷ cs)
      → IsChunking size n (c ∷ d ∷ cs)

pub bytes_of : List ContentChunk → List ℕ
bytes_of cs = flatten (map (λ c. c.bytes) cs)

length-drop : (n : ℕ) (xs : List ℕ) → length (drop n xs) ≡ length xs - n
length-drop zero xs = omega arith
length-drop (suc n) [] = omega arith
length-drop (suc n) (x ∷ xs) = omega (arith, length-drop n xs)

pub chunks_from-bytes :
    (fuel size ordinal : ℕ) (bytes : List ℕ)
    → 1 ≤ size
    → length bytes ≤ fuel
    → bytes_of (chunks_from fuel size ordinal bytes) ≡ bytes
unfolding bytes_of chunks_from flatten
chunks_from-bytes fuel size ordinal [] s h = refl
chunks_from-bytes zero size ordinal (b ∷ bs) s h = absurd (omega (arith, h))
chunks_from-bytes (suc fuel) size ordinal (b ∷ bs) s h =
    let rest =
      chunks_from-bytes fuel size (ordinal + 1) (drop size (b ∷ bs)) s
        (omega (arith, h, length-drop size (b ∷ bs))) in
    ap (λ ys. take size (b ∷ bs) ++ ys) rest ∙ take-drop size (b ∷ bs)

-- A chunk in front of those of the bytes that it leaves.
first_chunk-IsChunking :
    (fuel size n : ℕ) (c : ContentChunk) (all_ rest : List ℕ)
    → c.ordinal ≡ n
    → length c.bytes ≡ min size (length all_)
    → length rest ≡ length all_ - size
    → 1 ≤ size
    → 1 ≤ length all_
    → length rest ≤ fuel
    → IsChunking size (n + 1) (chunks_from fuel size (n + 1) rest)
    → IsChunking size n (c ∷ chunks_from fuel size (n + 1) rest)
unfolding chunks_from
first_chunk-IsChunking fuel size n c all_ [] o t d s some_ f h =
    last_ c o (omega (arith, t, some_, s)) (omega (arith, t))
first_chunk-IsChunking zero size n c all_ (r ∷ rs) o t d s some_ f h = absurd (omega (arith, f))
first_chunk-IsChunking (suc fuel) size n c all_ (r ∷ rs) o t d s some_ f h =
    full c _ _ o (omega (arith, t, d)) h

chunks_from-IsChunking :
    (fuel size n : ℕ) (bytes : List ℕ)
    → 1 ≤ size
    → length bytes ≤ fuel
    → n + length bytes ≤ 2 ^ 32
    → IsChunking size n (chunks_from fuel size n bytes)
unfolding chunks_from
chunks_from-IsChunking fuel size n [] s h small = none_
chunks_from-IsChunking zero size n (b ∷ bs) s h small = absurd (omega (arith, h))
chunks_from-IsChunking (suc fuel) size n (b ∷ bs) s h small =
    let d = length-drop size (b ∷ bs) in
    first_chunk-IsChunking fuel size n _ (b ∷ bs) (drop size (b ∷ bs)) (omega (arith, small))
      (length-take size (b ∷ bs)) d s (omega arith) (omega (arith, h, d))
      (chunks_from-IsChunking fuel size (n + 1) (drop size (b ∷ bs)) s (omega (arith, h, d))
        (omega (arith, small, d)))

-- A content of at most 2^32 bytes is cut into chunks of a positive size, numbered from 0 on, that
-- give it back when put together; none is empty, and all but the last have the full size.
pub chunks-IsChunking :
    (bytes : List ℕ) (size : ℕ)
    → 1 ≤ size
    → length bytes ≤ 2 ^ 32
    → (bytes_of (chunks bytes size) ≡ bytes) × IsChunking size 0 (chunks bytes size)
unfolding chunks
chunks-IsChunking bytes size s small = (
  chunks_from-bytes (length bytes) size 0 bytes s (omega arith),
  chunks_from-IsChunking (length bytes) size 0 bytes s (omega arith) (omega (arith, small)),
)
