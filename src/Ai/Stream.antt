-- ===== src/Ai/Stream.antt =====
-- crates/reader-ai/src/stream.rs: the segments of a streamed answer, accepted one complete JSON
-- object at a time. A chunk and the answer are lists of bytes; their limits are in bytes.
pub mod Cursor
pub mod Cut
pub mod Verified
pub mod Shown
pub mod Accepted
use inoreader.Prelude.{
  ℕ, zero, suc, ◌+◌, ◌-◌, Bool, true, false, not, ◌&&◌, ◌||◌, Option, none, some, List, [], ◌∷◌,
  ◌++◌, ◌==◌, ◌!=◌, nat_eq, list_eq, if◌then◌else◌, eqb, ltb, any, length, map, take, drop, Result,
  ok, err, ◌>>=◌, ◌>>◌, refuse_if, ok_or, for_each, checked_add,
}
use inoreader.Prelude.Text.{
  Text, codes, is_empty, split, trim_start, starts_with, contains_text, is_ascii_whitespace,
}
use inoreader.Ai.Pricing.{AiError, protocol, quote}

pub record Segment : Type 0 where
  pub kind : Text
  pub content : Text

-- `serde_json::from_str` of the two types
pub record JsonApi : Type 0 where
  pub segment : List ℕ → Option Segment
  pub envelope : List ℕ → Option (List Segment)

-- The fields that the scan changes; `raw` beside them is what was received.
pub record Scan : Type 0 where
  pub cursor : ℕ
  pub array_started : Bool
  pub array_finished : Bool
  pub object_start : Option ℕ
  pub depth : ℕ
  pub quoted : Bool
  pub escaped : Bool
  pub separator : Bool
  pub emitted : ℕ
  pub content : Text

-- `str::lines` as far as `render_segment` looks: whether a line begins, after white space, with `>`
unfoldable pub quotes_line : Text → Bool
unfolding trim_start starts_with
quotes_line line = starts_with (trim_start line) (codes ">")

abbrev pub is_none : {A : Type 0} → Option A → Bool
is_none none = true
is_none (some a) = false

abbrev pub is_nil : {A : Type 0} → List A → Bool
is_nil [] = true
is_nil (x ∷ xs) = false

abbrev pub join_lines : List Text → Text
join_lines [] = []
join_lines (line ∷ []) = line
join_lines (line ∷ next ∷ lines) = line ++ b'\n' ∷ join_lines (next ∷ lines)

unfoldable pub render_segment : Segment → (source : Text) → Result AiError Text
unfolding quotes_line contains_text split is_empty any
render_segment segment source = do
  refuse_if (is_empty segment.content) protocol
  if segment.kind == codes "text"
      then (refuse_if (any quotes_line (split b'\n' segment.content)) quote >>= λ _.
          ok segment.content)
      else (if segment.kind == codes "quote"
          then (refuse_if (not (contains_text source segment.content)) quote >>= λ _.
              ok (join_lines (map (λ line. codes "> " ++ line) (split b'\n' segment.content))))
          else err protocol)

-- `&raw[start..end]`
unfoldable pub slice : (start end_ : ℕ) → List ℕ → List ℕ
slice start end_ raw = take (end_ - start) (drop start raw)

-- Inside a string, or at its end.
unfoldable pub in_string : Scan → ℕ → Scan
in_string s byte =
    if s.escaped
    then record s { escaped = false }
    else (if byte == b'\\'
        then record s { escaped = true }
        else (if byte == b'"' then record s { quoted = false } else s))

-- Between the objects of the array.
unfoldable pub between : Scan → (position byte : ℕ) → Result AiError Scan
unfolding is_ascii_whitespace
between s position byte =
    if is_ascii_whitespace byte
    then ok s
    else (if byte == b']'
        then ok (record s { array_finished = true })
        else (if s.separator
            then (refuse_if (byte != b',') protocol >>= λ _. ok (record s { separator = false }))
            else (refuse_if (byte != b'{') protocol >>= λ _.
                ok (record s { object_start = some position; depth = 1 }))))

-- A segment's text after those before it.
abbrev pub joined : Text → Text → Text
joined content rendered = if is_empty content then rendered else content ++ b'\n' ∷ b'\n' ∷ rendered

module _ (json : JsonApi) (article : Text) where
  -- The end of an object: it is parsed, judged and added.
  unfoldable pub close_object : List ℕ → Scan → (start : ℕ) → Result AiError Scan
  unfolding slice render_segment is_empty
  close_object raw s start = do
    segment ← ok_or (json.segment (slice start s.cursor raw)) protocol
    rendered ← render_segment segment article
    ok (record s {
      object_start = none;
      content = joined s.content rendered;
      emitted = s.emitted + 1;
      separator = true;
    })

  unfoldable pub inside : List ℕ → Scan → (start byte : ℕ) → Result AiError Scan
  unfolding close_object
  inside raw s start byte =
      let opened : Scan = record s { depth = if byte == b'{' then s.depth + 1 else s.depth } in
      let closed : Scan = record opened { depth = opened.depth - 1 } in
      if byte == b'}'
      then (if eqb closed.depth 0 then close_object raw closed start else ok closed)
      else ok opened

  unfoldable pub start_array : List ℕ → Scan → Result AiError Scan
  unfolding slice
  start_array raw s = do
    _ ← ok_or (json.envelope (slice 0 s.cursor raw ++ codes "]}")) protocol
    ok (record s { array_started = true })

  abbrev pub in_array : List ℕ → Scan → (position byte : ℕ) → Option ℕ → Result AiError Scan
  in_array raw s position byte none = between s position byte
  in_array raw s position byte (some start) = inside raw s start byte

  -- One round of the loop of `push`, at the byte under the cursor.
  unfoldable pub step : List ℕ → Scan → ℕ → Result AiError Scan
  unfolding in_string between inside start_array
  step raw old byte =
      let s : Scan = record old { cursor = old.cursor + 1 } in
      if s.array_finished
      then ok s
      else (if s.quoted
          then ok (in_string s byte)
          else (if byte == b'"'
              then (refuse_if (s.array_started && is_none s.object_start) protocol >>= λ _.
                  ok (record s { quoted = true }))
              else (if not s.array_started
                  then (if byte == b'[' then start_array raw s else ok s)
                  else in_array raw s old.cursor byte s.object_start)))

  -- The loop, over the bytes from the cursor on.
  unfoldable pub scan : List ℕ → Scan → List ℕ → Result AiError Scan
  unfolding step
  scan raw s [] = ok s
  scan raw s (byte ∷ bytes) = step raw s byte >>= λ next. scan raw next bytes

pub record VerifiedSegments : Type 0 where
  pub raw : List ℕ
  pub state : Scan
  pub article : Text
  pub limit : ℕ

unfoldable pub new : (article : Text) → (limit : ℕ) → VerifiedSegments
new article limit = record {
  raw = [];
  state = record {
    cursor = 0;
    array_started = false;
    array_finished = false;
    object_start = none;
    depth = 0;
    quoted = false;
    escaped = false;
    separator = false;
    emitted = 0;
    content = [];
  };
  article = article;
  limit = limit;
}

abbrev pub fits : Option ℕ → ℕ → Bool
fits none limit = false
fits (some n) limit = not (ltb limit n)

module _ (json : JsonApi) where
  -- `push`, after an error of which the caller drops the value. The content is returned if a segment
  -- was added, which `changed` says in the code and `emitted` counts.
  unfoldable pub push : VerifiedSegments → List ℕ → Result AiError (VerifiedSegments × Option Text)
  unfolding scan checked_add
  push v text = do
    refuse_if (not (fits (checked_add (length v.raw) (length text)) v.limit)) protocol
    let raw : List ℕ = v.raw ++ text
    state ← scan json v.article raw v.state (drop v.state.cursor raw)
    ok (
      record v { raw = raw; state = state },
      if ltb v.state.emitted state.emitted then some state.content else none,
    )

  unfoldable pub finish : VerifiedSegments → Result AiError Text
  unfolding render_segment for_each
  finish v = do
    segments ← ok_or (json.envelope v.raw) protocol
    refuse_if (is_nil segments || length segments != v.state.emitted) protocol
    for_each (λ segment. render_segment segment v.article >>= λ _. ok tt) segments
    ok v.state.content
