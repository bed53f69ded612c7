-- ===== src/Ai/Stream/Verified.antt =====
-- What a finished answer says.
use inoreader.Prelude.{
  ◌≡◌, sym, inl, inr, true, false, not, ◌||◌, List, ◌==◌, ◌!=◌, arith, nat_eq, list_eq, eq_of_==,
  ne_iff, if_true, if_false, Bool-cases, any, length, some, All, All-map, All-for_each, for_each,
  Result, ok, ◌>>=◌, >>=-eq-ok, refuse_if-ok, ok_or, ok_or-ok, ok_injective,
}
use inoreader.Prelude.Text.{Text, codes, is_empty, split, contains_text}
use inoreader.Ai.Pricing.{AiError, protocol, quote}
use inoreader.Ai.Stream.{
  JsonApi, Segment, VerifiedSegments, quotes_line, is_nil, render_segment, finish,
}

-- A segment that may be shown: text of which no line is set as a quotation, or a quotation that
-- stands in the article word for word.
pub data IsVerified (article : Text) (s : Segment) : Type 0 where
  text :
      s.kind ≡ codes "text" → any quotes_line (split b'\n' s.content) ≡ false → IsVerified article s
  quotation : s.kind ≡ codes "quote" → contains_text article s.content ≡ true → IsVerified article s

-- The judgement on a segment that is not empty.
pub render_segment-IsVerified :
    (s : Segment) (article : Text) {r : Text}
    → render_segment s article ≡ ok r
    → (is_empty s.content ≡ false) × IsVerified article s
unfolding render_segment
render_segment-IsVerified s article h =
    let (some_, h₁) = refuse_if-ok (is_empty s.content) protocol _ h in
    (
      some_,
      elim (Bool-cases (s.kind == codes "text")) [
        | inl plain ↦
            let (clean, _) =
              refuse_if-ok (any quotes_line (split b'\n' s.content)) quote _
                (if_true (s.kind == codes "text") _ _ plain h₁) in
            text (eq_of_== s.kind (codes "text") plain) clean
        | inr other ↦
            let h₂ = if_false (s.kind == codes "text") _ _ other h₁ in
            elim (Bool-cases (s.kind == codes "quote")) [
              | inl quoted ↦
                  let (found, _) =
                    refuse_if-ok (not (contains_text article s.content)) quote _
                      (if_true (s.kind == codes "quote") _ _ quoted h₂) in
                  quotation (eq_of_== s.kind (codes "quote") quoted) (ground arith)
              | inr neither ↦ absurd (cc (if_false (s.kind == codes "quote") _ _ neither h₂))
            ]
      ],
    )

-- An answer that is finished is an envelope of at least one segment, as many as were accepted on the
-- way; none is empty, each is text without a quotation or a quotation from the article, and the
-- content is that of the scan.
pub finish-IsVerified :
    (json : JsonApi) (v : VerifiedSegments) {content : Text}
    → finish json v ≡ ok content
    → (content ≡ v.state.content)
      × ((segments : List Segment) × (json.envelope v.raw ≡ some segments)
          × (is_nil segments ≡ false)
          × (length segments ≡ v.state.emitted)
          × All (λ s. (is_empty s.content ≡ false) × IsVerified v.article s) segments)
unfolding finish
finish-IsVerified json v {content = content} h =
    let (segments, read, h₁) = >>=-eq-ok (ok_or (json.envelope v.raw) protocol) _ h in
    let (counted, h₂) =
      refuse_if-ok (is_nil segments || length segments != v.state.emitted) protocol _ h₁ in
    let judge : Segment → Result AiError Unit = λ s. render_segment s v.article >>= λ _. ok tt in
    let (u, each, h₃) = >>=-eq-ok (for_each judge segments) _ h₂ in
    (
      sym (ok_injective h₃),
      (
        segments,
        ok_or-ok (json.envelope v.raw) protocol read,
        ground (arith),
        (ne_iff (length segments) v.state.emitted).0 (ground arith),
        All-map
            (λ s e.
              let (r, rendered, _) = >>=-eq-ok (render_segment s v.article) _ e in
              render_segment-IsVerified s v.article rendered)
            segments (All-for_each judge segments each),
      ),
    )
