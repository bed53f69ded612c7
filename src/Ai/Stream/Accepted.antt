-- ===== src/Ai/Stream/Accepted.antt =====
-- What the scan has accepted, whatever it was fed, and what `finish` makes of it.
use inoreader.Prelude.{ℕ, ◌≡◌, false, some, List, nat_eq, list_eq, length, map, All}
use inoreader.Prelude.Text.{Text, is_empty}
use inoreader.Ai.Stream.{JsonApi, Segment, Scan, is_nil, slice}
use inoreader.Ai.Stream.Verified.{IsVerified}
use inoreader.Ai.Stream.Shown.{paragraphs, shown}

module _ (json : JsonApi) (article : Text) (raw : List ℕ) where
  -- A segment that was read from a stretch of the answer, is not empty, and may be shown.
  pub record IsTaken (s : Segment) : Type 0 where
    pub start : ℕ
    pub end_ : ℕ
    pub read : json.segment (slice start end_ raw) ≡ some s
    pub full : is_empty s.content ≡ false
    pub verified : IsVerified article s

  -- So many segments of the answer were accepted, and the content shows them as its paragraphs, in
  -- their order.
  pub record IsAccepted (count : ℕ) (content : Text) : Type 0 where
    pub segments : List Segment
    pub counted : length segments ≡ count
    pub written : content ≡ paragraphs (map shown segments)
    pub taken : All IsTaken segments

  abbrev Holds : Scan → Type 0
  Holds s = IsAccepted s.emitted s.content

  -- What a finished answer is: at least one segment was accepted, the content is the accepted
  -- segments as paragraphs, and the whole answer is an envelope of as many segments, each of which is
  -- not empty and may be shown.
  pub record IsAnswer (content : Text) : Type 0 where
    pub count : ℕ
    pub accepted : IsAccepted count content
    pub envelope : List Segment
    pub whole : json.envelope raw ≡ some envelope
    pub some_ : is_nil envelope ≡ false
    pub as_many : length envelope ≡ count
    pub judged : All (λ s. (is_empty s.content ≡ false) × IsVerified article s) envelope
