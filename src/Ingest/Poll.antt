-- ===== src/Ingest/Poll.antt =====
-- crates/reader-ingest/src/engine/mod.rs: polling a feed and collecting a web source, each up to the
-- one write that it asks the store for. The store's answers, the page fetched and the parsers are
-- what a run meets; `elapsed` is the time that it took, in milliseconds.
pub mod Committed
pub mod Runs
use inoreader.Prelude.{
  ℕ, Bool, true, false, not, ◌&&◌, ◌||◌, Option, none, some, List, [], ◌∷◌, ◌==◌, nat_eq, list_eq,
  Eq, option_eq, if◌then◌else◌, eqb, ltb, leb, length, Result, ok, err, ◌>>=◌, ◌>>◌, refuse_if,
  map_err, u64_mod,
}
use inoreader.Prelude.Text.{Text, codes, contains_text, to_ascii_lowercase, is_ascii_whitespace}
use inoreader.Prelude.Url.{UrlApi}
use inoreader.Core.Publication.{DateApi}
use inoreader.Ingest.Error.{
  StoreError, FetchError, IngestError, store, fetch, parse, browser_degraded, rejected,
}
use inoreader.Ingest.Record.{
  ModelError, RecordRevision, ParsedRecord, SourceRecord, HasHost, from_parsed, revise,
  revise_from_record, revise_from_dropbox_listing,
}
use inoreader.Ingest.Source.{
  SourceDefinition, SourceKind, auto, xml_feed, rss_coalesce_identical, json_feed, web_page,
  built_in, dropbox, IngestLimits,
}
use inoreader.Ingest.Batch.{Intake, PolledRecord, batch, split_initial}

pub record CacheValidators : Type 0 where
  pub etag : Option Text
  pub last_modified : Option Text

pub record FetchedPage (Url : Type 0) : Type 0 where
  pub final_url : Url
  pub content_type : Option Text
  pub body : List ℕ
  pub validators : CacheValidators
  pub not_modified : Bool

pub record PollCommit (Url : Type 0) : Type 0 where
  pub source_id : ℕ
  pub source_revision : ℕ
  pub records : List (PolledRecord Url)
  pub remainder : List (PolledRecord Url)
  pub fetched_at : ℕ
  pub final_url : Url
  pub validators : CacheValidators
  pub incomplete : Bool
  pub duration_ms : ℕ  -- u64

-- What a run asks the store to write.
pub data PollWrite (Url : Type 0) : Type 0 where
  nothing : PollWrite Url
  commit_poll : PollCommit Url → PollWrite Url
  record_source_success : ℕ → PollWrite Url

-- The reads of `IngestStore` that the runs make.
pub record StoreReads (Url : Type 0) : Type 0 where
  pub source : ℕ → Result StoreError (SourceDefinition Url)
  pub has_committed_poll : ℕ → Result StoreError Bool
  pub source_validators : ℕ → Result StoreError CacheValidators
  pub pending_poll : ℕ → ℕ → Result StoreError (Option (PollCommit Url))
  pub active_delivery_count : ℕ → Result StoreError ℕ
  pub record_by_upstream : ℕ → Text → Result StoreError (Option (SourceRecord Url))

-- The parsers of `reader_collectors`, an error as its text.
pub record FeedParsers (Url : Type 0) : Type 0 where
  pub parse_rss_coalescing_identical : List ℕ → Url → Result Text (List (ParsedRecord Url))
  pub parse_xml : List ℕ → Url → Result Text (List (ParsedRecord Url))
  pub parse_json : List ℕ → Url → Result Text (List (ParsedRecord Url))

pub data BrowserCapability : Type 0 where
  available : BrowserCapability
  degraded : BrowserCapability

-- `elapsed().as_millis().try_into()` into a u64
unfoldable pub duration_of : Text → ℕ → Result IngestError ℕ
duration_of message elapsed = if ltb elapsed u64_mod then ok elapsed else err (parse message)

-- `find(|v| !v.is_ascii_whitespace()) == Some(b'{')`
unfoldable pub starts_object : List ℕ → Bool
unfolding is_ascii_whitespace
starts_object [] = false
starts_object (c ∷ body) =
    let rest = starts_object body in if is_ascii_whitespace c then rest else eqb c b'{'

abbrev pub is_json_type : Option Text → Bool
is_json_type none = false
is_json_type (some t) = contains_text (to_ascii_lowercase t) (codes "json")

module _ {Url : Type 0} (parsers : FeedParsers Url) where
  unfoldable pub parse_page :
      SourceKind Url → FetchedPage Url → Result IngestError (List (ParsedRecord Url))
  unfolding starts_object contains_text to_ascii_lowercase
  parse_page rss_coalesce_identical page =
      map_err parse (parsers.parse_rss_coalescing_identical page.body page.final_url)
  parse_page xml_feed page = map_err parse (parsers.parse_xml page.body page.final_url)
  parse_page json_feed page = map_err parse (parsers.parse_json page.body page.final_url)
  parse_page auto page =
      if is_json_type page.content_type || starts_object page.body
      then map_err parse (parsers.parse_json page.body page.final_url)
      else map_err parse (parsers.parse_xml page.body page.final_url)
  parse_page (web_page recipe) page = err (parse (codes "Web feed source must use CollectWebFeed"))
  parse_page (built_in adapter) page = err (parse (codes "Web feed source must use CollectWebFeed"))

-- Both runs begin alike: without an active delivery there is nothing to do, and a pending remainder
-- goes before a new request.
module _ {Url : Type 0} (reads : StoreReads Url) (limits : IngestLimits) (source_id : ℕ) where
  abbrev pub commit_or :
      Option (PollCommit Url)
      → Result IngestError (PollWrite Url)
      → Result IngestError (PollWrite Url)
  commit_or (some pending) next = ok (commit_poll pending)
  commit_or none next = next

  unfoldable pub unless_pending :
      Result IngestError (PollWrite Url) → Result IngestError (PollWrite Url)
  unless_pending next = do
    count ← map_err store (reads.active_delivery_count source_id)
    if eqb count 0 then ok nothing else do
      pending ← map_err store (reads.pending_poll source_id limits.fanout_batch)
      commit_or pending next

-- The commit of the items received.
module _ {Url Item : Type 0} (limits : IngestLimits) where
  unfoldable pub commit_of :
      Intake Url Item
      → SourceDefinition Url
      → (source_id : ℕ) → (is_initial : Bool) → List Item
      → (fetched_at : ℕ) → Url
      → CacheValidators
      → Result IngestError ℕ
      → Result IngestError (PollWrite Url)
  unfolding batch split_initial
  commit_of intake source source_id is_initial items now final_url validators duration = do
    records ← batch intake [] items
    let split = split_initial is_initial limits.initial_feed_items records
    duration_ms ← duration
    ok (
        commit_poll (record {
          source_id = source_id;
          source_revision = source.revision;
          records = split.0;
          remainder = split.1;
          fetched_at = now;
          final_url = final_url;
          validators = validators;
          incomplete = is_initial && ltb limits.initial_feed_items (length items);
          duration_ms = duration_ms;
        }))

-- The error of the browser that says that it is degraded is told apart.
unfoldable pub collect_error : FetchError → IngestError
collect_error (rejected value) =
    if value == codes "browser_degraded" then browser_degraded else fetch (rejected value)
collect_error e = fetch e

unfoldable pub is_dropbox : {Url : Type 0} → SourceKind Url → Bool
is_dropbox (built_in dropbox) = true
is_dropbox _ = false

-- The revision that the kind of the source asks for.
unfoldable pub revise_collected :
    {Url : Type 0} ⦃e : Eq Url⦄
    → DateApi
    → SourceKind Url
    → SourceRecord Url
    → SourceRecord Url
    → Result ModelError (RecordRevision Url)
unfolding is_dropbox revise_from_dropbox_listing revise_from_record
revise_collected dates kind existing proposed =
    if is_dropbox kind
    then revise_from_dropbox_listing dates existing proposed
    else revise_from_record existing proposed

abbrev pub is_degraded : BrowserCapability → Bool
is_degraded available = false
is_degraded degraded = true

abbrev pub is_nil : {A : Type 0} → List A → Bool
is_nil [] = true
is_nil (x ∷ xs) = false

module _ (api : UrlApi) (has_host : HasHost api) (reads : StoreReads api.Url) where
  open api use {Url, url_eq}

  -- `new_id` is the fresh identity drawn for the item of an upstream identity.
  abbrev pub poll_intake : (new_id : Text → ℕ) → (source_id : ℕ) → Intake Url (ParsedRecord Url)
  poll_intake new_id source_id = record {
    id_of = λ x. x.upstream_id;
    fresh = λ x. from_parsed api has_host (new_id x.upstream_id) source_id x;
    revise_by = revise api has_host ⦃e = url_eq⦄;
    record_by_upstream = reads.record_by_upstream source_id;
    repeated = codes "duplicate upstream identity in feed response";
  }

  abbrev pub collect_intake : DateApi → SourceKind Url → ℕ → Intake Url (SourceRecord Url)
  collect_intake dates kind source_id = record {
    id_of = λ x. x.upstream_id;
    fresh = ok;
    revise_by = revise_collected ⦃e = url_eq⦄ dates kind;
    record_by_upstream = reads.record_by_upstream source_id;
    repeated = codes "duplicate upstream identity in collection";
  }

  -- What a poll does with a page within the input limit.
  unfoldable pub take_page :
      FeedParsers Url
      → IngestLimits
      → (new_id : Text → ℕ) → (source_id now elapsed : ℕ) → SourceDefinition Url
      → FetchedPage Url
      → Result IngestError (PollWrite Url)
  unfolding duration_of parse_page commit_of from_parsed revise
  take_page parsers limits new_id source_id now elapsed source page =
      let duration = duration_of (codes "poll duration exceeds u64 milliseconds") elapsed in
      if page.not_modified then (duration >>= λ d. ok (record_source_success d)) else do
        parsed ← parse_page parsers source.kind page
        committed ← map_err store (reads.has_committed_poll source_id)
        commit_of limits (poll_intake new_id source_id) source source_id (not committed) parsed now
            page.final_url page.validators duration

  unfoldable pub poll :
      (Url → CacheValidators → Result FetchError (FetchedPage Url))
      → FeedParsers Url
      → IngestLimits
      → (new_id : Text → ℕ) → (source_id now elapsed : ℕ) → Result IngestError (PollWrite Url)
  unfolding unless_pending take_page
  poll fetch_feed parsers limits new_id source_id now elapsed =
      unless_pending reads limits source_id (do
        source ← map_err store (reads.source source_id)
        validators ← map_err store (reads.source_validators source_id)
        page ← map_err fetch (fetch_feed source.url validators)
        refuse_if (ltb limits.max_input_bytes (length page.body))
            (parse (codes "feed exceeds configured max_input_bytes"))
        take_page parsers limits new_id source_id now elapsed source page)

  unfoldable pub collect_web_feed :
      DateApi
      → BrowserCapability
      → (SourceDefinition Url → Result FetchError (List (SourceRecord Url)))
      → IngestLimits
      → (source_id now elapsed : ℕ) → Result IngestError (PollWrite Url)
  unfolding unless_pending duration_of commit_of collect_error revise_collected
  collect_web_feed dates capability collect limits source_id now elapsed =
      unless_pending reads limits source_id (do
        refuse_if (is_degraded capability) browser_degraded
        source ← map_err store (reads.source source_id)
        committed ← map_err store (reads.has_committed_poll source_id)
        collected ← map_err collect_error (collect source)
        refuse_if (committed && is_nil collected) (parse (codes "web_feed_empty_after_success"))
        commit_of limits (collect_intake dates source.kind source_id) source source_id
            (not committed) collected now source.url (record { etag = none; last_modified = none })
            (duration_of (codes "collection duration exceeds u64 milliseconds") elapsed))
