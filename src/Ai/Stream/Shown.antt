-- ===== src/Ai/Stream/Shown.antt =====
-- How segments are shown: the text that the scan builds of those it accepts.
use mathlib.Core.List.{append_assoc}
use inoreader.Prelude.{
  ℕ, ◌≡◌, refl, sym, ap, ◌∙◌, inl, inr, false, not, List, [], ◌∷◌, ◌++◌, ◌==◌, nat_eq, list_eq, eqb,
  if◌then◌else◌, any, map, All, Bool-cases, if_true, if_false, ok, refuse_if-ok, ok_injective,
}
use inoreader.Prelude.Text.{Text, codes, is_empty, split, contains_text}
use inoreader.Ai.Pricing.{protocol, quote}
use inoreader.Ai.Stream.{Segment, quotes_line, join_lines, joined, render_segment}

-- Texts as paragraphs, with an empty line between them.
abbrev pub paragraphs : List Text → Text
paragraphs [] = []
paragraphs (t ∷ []) = t
paragraphs (t ∷ u ∷ ts) = t ++ b'\n' ∷ b'\n' ∷ paragraphs (u ∷ ts)

-- How a segment is shown: a text as it is, a quotation with a mark before each line.
unfoldable pub shown : Segment → Text
unfolding split
shown s =
    if s.kind == codes "text"
    then s.content
    else join_lines (map (λ line. codes "> " ++ line) (split b'\n' s.content))

abbrev pub IsFull : Text → Type 0
IsFull t = is_empty t ≡ false

IsFull-append : (s t : Text) → IsFull s → IsFull (s ++ t)
unfolding is_empty
IsFull-append [] t h = absurd (cc h)
IsFull-append (c ∷ s) t h = refl

IsFull-paragraphs : (t : Text) (ts : List Text) → IsFull t → IsFull (paragraphs (t ∷ ts))
IsFull-paragraphs t [] h = h
IsFull-paragraphs t (u ∷ ts) h = IsFull-append t (b'\n' ∷ b'\n' ∷ paragraphs (u ∷ ts)) h

-- A paragraph at the end, as the scan adds it.
pub paragraphs-joined :
    (ts : List Text) (r : Text)
    → All IsFull ts
    → paragraphs (ts ++ r ∷ []) ≡ joined (paragraphs ts) r
paragraphs-joined [] r h = unfold is_empty in refl
paragraphs-joined (t ∷ []) r h = rw (h.0) refl
paragraphs-joined (t ∷ u ∷ ts) r h =
    let rest = paragraphs (u ∷ ts) in
    let more = paragraphs-joined (u ∷ ts) r h.1 in
    let full = IsFull-paragraphs u ts h.1.0 in
    let whole : IsFull (t ++ b'\n' ∷ b'\n' ∷ rest) = IsFull-append t (b'\n' ∷ b'\n' ∷ rest) h.0 in
    ap (λ p. t ++ b'\n' ∷ b'\n' ∷ p) (more ∙ rw full refl)
    ∙ sym (append_assoc t (b'\n' ∷ b'\n' ∷ rest) (b'\n' ∷ b'\n' ∷ r))
    ∙ sym (rw whole refl)

split_some : (at : ℕ) (s : Text) → (first : Text) × (rest : List Text) × (split at s ≡ first ∷ rest)
unfolding split
split_some at [] = ([], [], refl)
split_some at (c ∷ s) = elim (Bool-cases (eqb c at)) [
  | inl here ↦ ([], split at s, rw here refl)
  | inr other ↦ let (first, rest, e) = split_some at s in (c ∷ first, rest, rw (other, e) refl)
]

shown_quote : (s : Segment) → (s.kind == codes "text") ≡ false → IsFull (shown s)
unfolding shown is_empty
shown_quote s other =
    let (first, rest, e) = split_some b'\n' s.content in rw (other, e) (marked first rest)
  where
    marked :
        (first : Text) (rest : List Text)
        → IsFull (join_lines (map (λ line. codes "> " ++ line) (first ∷ rest)))
    marked first [] = refl
    marked first (next ∷ rest) = refl

pub IsFull-shown : (s : Segment) → is_empty s.content ≡ false → IsFull (shown s)
unfolding shown
IsFull-shown s full = elim (Bool-cases (s.kind == codes "text")) [
  | inl plain ↦ rw plain full
  | inr other ↦ shown_quote s other
]

pub render_segment-shown :
    (s : Segment) (article : Text) {r : Text} → render_segment s article ≡ ok r → shown s ≡ r
unfolding render_segment shown
render_segment-shown s article h =
    let (some_, h₁) = refuse_if-ok (is_empty s.content) protocol _ h in
    elim (Bool-cases (s.kind == codes "text")) [
      | inl plain ↦
          let (clean, h₂) =
            refuse_if-ok (any quotes_line (split b'\n' s.content)) quote _
              (if_true (s.kind == codes "text") _ _ plain h₁) in
          rw plain (ok_injective h₂)
      | inr other ↦
          let h₂ = if_false (s.kind == codes "text") _ _ other h₁ in
          elim (Bool-cases (s.kind == codes "quote")) [
            | inl quoted ↦
                let (found, h₃) =
                  refuse_if-ok (not (contains_text article s.content)) quote _
                    (if_true (s.kind == codes "quote") _ _ quoted h₂) in
                rw other (ok_injective h₃)
            | inr neither ↦ absurd (cc (if_false (s.kind == codes "quote") _ _ neither h₂))
          ]
    ]
