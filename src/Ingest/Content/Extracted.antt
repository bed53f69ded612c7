-- ===== src/Ingest/Content/Extracted.antt =====
-- What the revision of a content is made of.
use inoreader.Prelude.{
  ℕ, ◌^◌, ◌≤◌, ◌≡◌, sym, subst, Bool, true, false, some, arith, ◌!=◌, nat_eq, ne_iff, if◌then◌else◌,
  ltb, length, Result, ok, >>=-eq-ok, refuse_if-ok, map_err, map_err-ok, ok_or, ok_or-ok,
  ok_injective, ap,
}
use inoreader.Prelude.Text.{Text, codes, byte_len, as_bytes}
use inoreader.Ingest.Error.{StoreError, FetchError, store, fetch, parse}
use inoreader.Ingest.Record.{SourceRecord}
use inoreader.Ingest.Source.{SourceDefinition, IngestLimits}
use inoreader.Ingest.Poll.{FetchedPage}
use inoreader.Ingest.Content.{
  ContentRevision, Extraction, is_embedded, chunks, embedded_page, revision_of, extract_content,
}
use inoreader.Ingest.Content.Chunks.{IsChunking, bytes_of, chunks_from-bytes, chunks-IsChunking}

module _ {Url : Type 0} (extraction : Extraction Url) (limits : IngestLimits) where
  open extraction use {decode_html, extract_video, readable_fragment, sanitize}

  -- The chunks of a revision are the page and what the sanitizer makes of its text.
  pub record IsRevisionOf (embedded : Bool) (page : FetchedPage Url) (r : ContentRevision Url)
      : Type 0 where
    pub source : Text
    pub decoded : decode_html page.body page.content_type ≡ ok source
    pub within : length page.body ≤ limits.max_input_bytes
    pub raw : bytes_of r.raw_chunks ≡ page.body
    pub numbered : IsChunking limits.content_chunk_bytes 0 r.raw_chunks
    pub safe :
        bytes_of r.safe_html_chunks
        ≡ as_bytes (sanitize (if embedded then source else readable_fragment source))

  revision_of-IsRevisionOf :
      (a : SourceRecord Url) (embedded : Bool) (record_id source_revision refresh_id now : ℕ)
      (page : FetchedPage Url) {r : ContentRevision Url}
      → 1 ≤ limits.content_chunk_bytes
      → limits.max_input_bytes ≤ 2 ^ 32
      → revision_of extraction limits a embedded record_id source_revision refresh_id now page
        ≡ ok r
      → IsRevisionOf embedded page r
  unfolding revision_of chunks
  revision_of-IsRevisionOf a embedded record_id source_revision refresh_id now page {r = r} size
        small h =
      let (fits, h₁) =
        refuse_if-ok (ltb limits.max_input_bytes (length page.body))
          (parse (codes "fulltext response exceeds configured max_input_bytes")) _ h in
      let (source, read, h₂) =
        >>=-eq-ok (map_err parse (decode_html page.body page.content_type)) _ h₁ in
      let (video, _, h₃) = >>=-eq-ok (map_err fetch (extract_video source page.final_url)) _ h₂ in
      let readable = if embedded then source else readable_fragment source in
      let (_, h₄) =
        refuse_if-ok (ltb limits.max_extracted_bytes (byte_len readable))
          (parse (codes "extracted content exceeds configured max_extracted_bytes")) _ h₃ in
      let n = limits.content_chunk_bytes in
      let within : length page.body ≤ limits.max_input_bytes = ground arith in
      let (whole, numbered) = chunks-IsChunking page.body n size (omega (arith, within, small)) in
      let raw : chunks page.body n ≡ r.raw_chunks =
        ap (λ (v : ContentRevision Url). v.raw_chunks) (ok_injective h₄) in
      let safe : chunks (as_bytes (sanitize readable)) n ≡ r.safe_html_chunks =
        ap (λ (v : ContentRevision Url). v.safe_html_chunks) (ok_injective h₄) in
      record {
        source = source;
        decoded = map_err-ok parse (decode_html page.body page.content_type) read;
        within = within;
        raw = subst (λ cs. bytes_of cs ≡ page.body) raw whole;
        numbered = subst (IsChunking n 0) raw numbered;
        safe =
            subst (λ cs. bytes_of cs ≡ as_bytes (sanitize readable)) safe
              (chunks_from-bytes (length (as_bytes (sanitize readable))) n 0
                (as_bytes (sanitize readable)) size (omega arith));
      }

  -- Where the page comes from: the body stored with the record, of the revision asked for, or the
  -- extractor.
  pub data IsPageOf (a : SourceRecord Url) (source_revision : ℕ)
      (extract : Url → Result FetchError (FetchedPage Url)) (url : Url) (page : FetchedPage Url)
      : Bool → Type 0 where
    stored :
        (html : Text)
        → a.revision ≡ source_revision
        → a.feed_content_html ≡ some html
        → page.body ≡ as_bytes html
        → IsPageOf a source_revision extract url page true
    fetched : extract url ≡ ok page → IsPageOf a source_revision extract url page false

  page_of :
      (a : SourceRecord Url) (source_revision : ℕ)
      (extract : Url → Result FetchError (FetchedPage Url)) (url : Url) (embedded : Bool)
      {page : FetchedPage Url}
      → (if embedded then embedded_page a source_revision url else map_err fetch (extract url))
        ≡ ok page
      → IsPageOf a source_revision extract url page embedded
  unfolding embedded_page
  page_of a source_revision extract url true h =
      let (same, h₁) =
        refuse_if-ok (a.revision != source_revision)
          (parse (codes "embedded_content_revision_changed")) _ h in
      let (html, found, h₂) =
        >>=-eq-ok (ok_or a.feed_content_html (parse (codes "embedded_stored_body_missing"))) _ h₁ in
      stored html ((ne_iff a.revision source_revision).0 same)
        (ok_or-ok a.feed_content_html (parse (codes "embedded_stored_body_missing")) found)
        (ap (λ (p : FetchedPage Url). p.body) (sym (ok_injective h₂)))
  page_of a source_revision extract url false h = fetched (map_err-ok fetch (extract url) h)

  pub record IsExtracted (records : ℕ → Result StoreError (SourceRecord Url))
      (sources : ℕ → Result StoreError (SourceDefinition Url))
      (extract : Url → Result FetchError (FetchedPage Url)) (record_id source_revision : ℕ)
      (url : Url) (r : ContentRevision Url) : Type 0 where
    pub a : SourceRecord Url
    pub definition : SourceDefinition Url
    pub page : FetchedPage Url
    pub read : records record_id ≡ ok a
    pub defined : sources a.source_id ≡ ok definition
    pub origin : IsPageOf a source_revision extract url page (is_embedded definition.kind)
    pub revision : IsRevisionOf (is_embedded definition.kind) page r

  -- The content that is published is a page within the input limit, of the extractor or, for sources
  -- with embedded bodies, the body stored with the record at the revision asked for: its raw chunks
  -- put together are the page, numbered and of the configured size, and its safe chunks what the
  -- sanitizer makes of the decoded page, or of its readable part.
  pub extract_content-IsExtracted :
      (records : ℕ → Result StoreError (SourceRecord Url))
      (sources : ℕ → Result StoreError (SourceDefinition Url))
      (extract : Url → Result FetchError (FetchedPage Url)) (record_id source_revision : ℕ)
      (url : Url) (refresh_id now : ℕ) {r : ContentRevision Url}
      → 1 ≤ limits.content_chunk_bytes
      → limits.max_input_bytes ≤ 2 ^ 32
      → extract_content extraction limits records sources extract record_id source_revision url
          refresh_id now
        ≡ ok r
      → IsExtracted records sources extract record_id source_revision url r
  unfolding extract_content
  extract_content-IsExtracted records sources extract record_id source_revision url refresh_id now
        size small h =
      let (a, read, h₁) = >>=-eq-ok (map_err store (records record_id)) _ h in
      let (definition, defined, h₂) = >>=-eq-ok (map_err store (sources a.source_id)) _ h₁ in
      let embedded = is_embedded definition.kind in
      let (page, got, h₃) =
        >>=-eq-ok
          (if embedded then embedded_page a source_revision url else map_err fetch (extract url)) _
          h₂ in
      record {
        a = a;
        definition = definition;
        page = page;
        read = map_err-ok store (records record_id) read;
        defined = map_err-ok store (sources a.source_id) defined;
        origin = page_of a source_revision extract url embedded got;
        revision =
            revision_of-IsRevisionOf a embedded record_id source_revision refresh_id now page size
              small h₃;
      }
