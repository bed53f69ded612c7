-- ===== src/Ingest/Content.antt =====
-- crates/reader-ingest/src/engine/mod.rs and model/mod.rs: the full text of an article, cut into
-- chunks and published as one revision of its content.
pub mod Chunks
pub mod Extracted
use inoreader.Prelude.{
  ℕ, zero, suc, ◌+◌, ◌%◌, ◌^◌, Bool, true, false, Option, none, some, List, [], ◌∷◌, eqb, ◌!=◌,
  ◌==◌, nat_eq, list_eq, if◌then◌else◌, ltb, length, take, drop, Result, ok, err, ◌>>=◌, ◌>>◌,
  refuse_if, map_err, ok_or,
}
use inoreader.Prelude.Text.{Text, codes, byte_len, as_bytes}
use inoreader.Core.Publication.{PublicationEvidence, or_else}
use inoreader.Ingest.Error.{StoreError, FetchError, IngestError, store, fetch, parse}
use inoreader.Ingest.Record.{SourceRecord}
use inoreader.Ingest.Source.{SourceDefinition, SourceKind, built_in, telegram, zhihu, IngestLimits}
use inoreader.Ingest.Poll.{FetchedPage, CacheValidators}

pub record ContentChunk : Type 0 where
  pub ordinal : ℕ  -- u32
  pub bytes : List ℕ

-- `slice::chunks` with the ordinals from `ordinal` on; the fuel is the number of bytes. A size of 0,
-- on which Rust panics, gives empty chunks.
unfoldable pub chunks_from : ℕ → (size ordinal : ℕ) → List ℕ → List ContentChunk
chunks_from fuel size ordinal [] = []
chunks_from zero size ordinal (b ∷ bs) = []
chunks_from (suc fuel) size ordinal (b ∷ bs) =
    record { ordinal = ordinal % 2 ^ 32; bytes = take size (b ∷ bs) }
    ∷ chunks_from fuel size (ordinal + 1) (drop size (b ∷ bs))

unfoldable pub chunks : List ℕ → ℕ → List ContentChunk
unfolding chunks_from
chunks bytes size = chunks_from (length bytes) size 0 bytes

pub record VideoMetadata : Type 0 where
  pub duration_seconds : Option ℕ
  pub shorts : Option Bool

pub record ContentRevision (Url : Type 0) : Type 0 where
  pub reddit_flair : Option Text
  pub video : Option VideoMetadata
  pub publication : List PublicationEvidence
  pub record_id : ℕ
  pub source_revision : ℕ
  pub refresh_id : ℕ
  pub raw_chunks : List ContentChunk
  pub safe_html_chunks : List ContentChunk
  pub fetched_at : ℕ
  pub final_url : Url

pub record ContentManifestPointer (Url : Type 0) : Type 0 where
  pub reddit_flair : Option Text
  pub video : Option VideoMetadata
  pub publication : Option (List PublicationEvidence)
  pub record_id : ℕ
  pub source_revision : ℕ
  pub refresh_id : ℕ
  pub raw_chunks : ℕ  -- u32
  pub safe_html_chunks : ℕ  -- u32
  pub fetched_at : ℕ
  pub final_url : Url

-- `From<&ContentRevision>`
unfoldable pub manifest_pointer : {Url : Type 0} → ContentRevision Url → ContentManifestPointer Url
manifest_pointer v = record {
  reddit_flair = v.reddit_flair;
  video = v.video;
  publication = some v.publication;
  record_id = v.record_id;
  source_revision = v.source_revision;
  refresh_id = v.refresh_id;
  raw_chunks = length v.raw_chunks % 2 ^ 32;
  safe_html_chunks = length v.safe_html_chunks % 2 ^ 32;
  fetched_at = v.fetched_at;
  final_url = v.final_url;
}

-- What the crate reads from HTML, in modules that stand on an HTML parser, and the sanitizer.
pub record Extraction (Url : Type 0) : Type 0 where
  pub decode_html : List ℕ → Option Text → Result Text Text  -- an error as its text
  pub extract_publication : Text → Url → List PublicationEvidence
  pub extract_reddit_flair : Text → Url → Option Text
  pub extract_video : Text → Url → Result FetchError (Option VideoMetadata)
  pub readable_fragment : Text → Text
  pub sanitize : Text → Text  -- `SafeRenderedContent::from_untrusted_html(..).html()`

unfoldable pub is_embedded : {Url : Type 0} → SourceKind Url → Bool
is_embedded (built_in (telegram n)) = true
is_embedded (built_in (zhihu n)) = true
is_embedded _ = false

abbrev pub career_in : Option (List Text) → Option Text
career_in none = none
career_in (some []) = none
career_in (some (c ∷ cs)) =
    let rest = career_in (some cs) in if c == codes "Career" then some c else rest

unfoldable pub embedded_page :
    {Url : Type 0}
    → SourceRecord Url
    → (source_revision : ℕ) → Url
    → Result IngestError (FetchedPage Url)
unfolding as_bytes
embedded_page a source_revision url = do
  refuse_if (a.revision != source_revision) (parse (codes "embedded_content_revision_changed"))
  html ← ok_or a.feed_content_html (parse (codes "embedded_stored_body_missing"))
  ok (record {
    final_url = url;
    content_type = some (codes "text/html; charset=utf-8");
    body = as_bytes html;
    validators = record { etag = none; last_modified = none };
    not_modified = false;
  })

module _ {Url : Type 0} (extraction : Extraction Url) (limits : IngestLimits) where
  open extraction use {
    decode_html, extract_publication, extract_reddit_flair, extract_video, readable_fragment,
    sanitize,
  }

  -- The revision of the content that a page gives.
  unfoldable pub revision_of :
      SourceRecord Url
      → (embedded : Bool) → (record_id source_revision refresh_id now : ℕ) → FetchedPage Url
      → Result IngestError (ContentRevision Url)
  unfolding chunks byte_len as_bytes
  revision_of a embedded record_id source_revision refresh_id now page = do
    refuse_if (ltb limits.max_input_bytes (length page.body))
        (parse (codes "fulltext response exceeds configured max_input_bytes"))
    source ← map_err parse (decode_html page.body page.content_type)
    video ← map_err fetch (extract_video source page.final_url)
    let readable = if embedded then source else readable_fragment source
    refuse_if (ltb limits.max_extracted_bytes (byte_len readable))
        (parse (codes "extracted content exceeds configured max_extracted_bytes"))
    ok (record {
      reddit_flair = or_else (extract_reddit_flair source page.final_url) (career_in a.categories);
      video = video;
      publication = extract_publication source page.final_url;
      record_id = record_id;
      source_revision = source_revision;
      refresh_id = refresh_id;
      raw_chunks = chunks page.body limits.content_chunk_bytes;
      safe_html_chunks = chunks (as_bytes (sanitize readable)) limits.content_chunk_bytes;
      fetched_at = now;
      final_url = page.final_url;
    })

  -- `async { .. }` of `fulltext` up to the publication; the reads of the store, the extractor and
  -- the fresh `refresh_id` are what the run meets.
  unfoldable pub extract_content :
      (records : ℕ → Result StoreError (SourceRecord Url))
      → (sources : ℕ → Result StoreError (SourceDefinition Url))
      → (extract : Url → Result FetchError (FetchedPage Url)) → (record_id source_revision : ℕ)
      → Url
      → (refresh_id now : ℕ) → Result IngestError (ContentRevision Url)
  unfolding is_embedded embedded_page revision_of
  extract_content records sources extract record_id source_revision url refresh_id now = do
    a ← map_err store (records record_id)
    definition ← map_err store (sources a.source_id)
    let embedded = is_embedded definition.kind
    page ← (if embedded then embedded_page a source_revision url else map_err fetch (extract url))
    revision_of a embedded record_id source_revision refresh_id now page

-- The publication, and the record of a failure: `publish` and `record_failure` are the store's
-- answers, and `diagnostic` the text that is kept of an error.
unfoldable pub fulltext :
    {Url : Type 0}
    → (diagnostic : IngestError → Text) → Result IngestError (ContentRevision Url)
    → (publish : ContentRevision Url → Result StoreError (Unit {0}))
    → (record_failure : Text → Result StoreError (Unit {0})) → Result IngestError (Unit {0})
fulltext {Url} diagnostic content publish record_failure =
    record_error (content >>= λ revision. map_err store (publish revision))
  where
    record_error : Result IngestError (Unit {0}) → Result IngestError (Unit {0})
    record_error (ok u) = ok u
    record_error (err e) = map_err store (record_failure (diagnostic e)) >>= λ _. err e
