-- ===== src/Ingest/Poll/Runs.antt =====
-- A whole run of a poll or of a collection: when it asks for no write, for the pending remainder, or
-- for a commit of what it received.
use inoreader.Prelude.{
  ℕ, ◌≡◌, sym, subst, ◌⊎◌, inl, inr, Bool, true, false, not, ◌&&◌, Option, none, some, List, arith,
  Bool-cases, if_true, if_false, eqb, ltb, length, ◌≤◌, Result, ok, ◌>>=◌, >>=-eq-ok, refuse_if-ok,
  map_err, map_err-ok,
}
use inoreader.Prelude.Text.{Text, codes}
use inoreader.Prelude.Url.{UrlApi}
use inoreader.Core.Publication.{DateApi}
use inoreader.Ingest.Error.{FetchError, IngestError, store, fetch, parse, browser_degraded}
use inoreader.Ingest.Record.{ParsedRecord, SourceRecord, HasHost}
use inoreader.Ingest.Source.{SourceDefinition, IngestLimits}
use inoreader.Ingest.Poll.{
  StoreReads, CacheValidators, FetchedPage, FeedParsers, PollCommit, PollWrite, nothing,
  commit_poll, record_source_success, BrowserCapability, is_degraded, is_nil, unless_pending,
  commit_or, duration_of, parse_page, collect_error, poll_intake, collect_intake, take_page, poll,
  collect_web_feed,
}
use inoreader.Ingest.Poll.Committed.{IsFresh, commit_of-IsFresh}

module _ {Url : Type 0} (reads : StoreReads Url) (limits : IngestLimits) (source_id : ℕ) where
  -- A run that received nothing: no subscription takes deliveries, or a remainder is pending.
  pub data IsBefore : PollWrite Url → Type 0 where
    idle : reads.active_delivery_count source_id ≡ ok 0 → IsBefore nothing
    pending :
        (c : PollCommit Url)
        → reads.pending_poll source_id limits.fanout_batch ≡ ok (some c)
        → IsBefore (commit_poll c)

  commit_or-ok :
      (found : Option (PollCommit Url)) (next : Result IngestError (PollWrite Url))
      {w : PollWrite Url}
      → reads.pending_poll source_id limits.fanout_batch ≡ ok found
      → commit_or reads limits source_id found next ≡ ok w
      → IsBefore w ⊎ (next ≡ ok w)
  commit_or-ok none next asked h = inr h
  commit_or-ok (some c) next {w = w} asked h =
      let e : commit_poll c ≡ w = cc h in inl (subst IsBefore e (pending c asked))

  unless_pending-ok :
      (next : Result IngestError (PollWrite Url)) {w : PollWrite Url}
      → unless_pending reads limits source_id next ≡ ok w
      → IsBefore w ⊎ (next ≡ ok w)
  unfolding unless_pending
  unless_pending-ok next {w = w} h =
      let (count, counted, h₁) =
        >>=-eq-ok (map_err store (reads.active_delivery_count source_id)) _ h in
      let c = map_err-ok store (reads.active_delivery_count source_id) counted in
      let more = map_err store (reads.pending_poll source_id limits.fanout_batch) >>= λ found.
      commit_or reads limits source_id found next in
      elim (Bool-cases (eqb count 0)) [
        | inl zero_ ↦
            let e : nothing ≡ w = cc (if_true (eqb count 0) _ _ zero_ h₁) in
            let z : count ≡ 0 = ground (arith) in inl (subst IsBefore e (idle (cc (c, z))))
        | inr some_ ↦
            let h₂ : more ≡ ok w = if_false (eqb count 0) _ _ some_ h₁ in
            let (found, asked, h₃) =
              >>=-eq-ok (map_err store (reads.pending_poll source_id limits.fanout_batch)) _ h₂ in
            commit_or-ok found next
              (map_err-ok store (reads.pending_poll source_id limits.fanout_batch) asked) h₃
      ]

module _ (api : UrlApi) (has_host : HasHost api) (reads : StoreReads api.Url)
    (limits : IngestLimits) (source_id : ℕ) where
  open api use {Url}

  -- A commit of what the browser collected.
  pub record IsCollected (dates : DateApi) (capability : BrowserCapability)
      (collect : SourceDefinition Url → Result FetchError (List (SourceRecord Url)))
      (w : PollWrite Url) : Type 0 where
    pub source : SourceDefinition Url
    pub items : List (SourceRecord Url)
    pub was_committed : Bool
    pub c : PollCommit Url
    pub written : w ≡ commit_poll c
    pub is_available : is_degraded capability ≡ false
    pub found : reads.source source_id ≡ ok source
    pub history : reads.has_committed_poll source_id ≡ ok was_committed
    pub collected : collect source ≡ ok items
    pub not_empty : (was_committed && is_nil items) ≡ false
    pub fresh :
        IsFresh limits
          (collect_intake api has_host reads dates source.kind source_id)
          source
          source_id
          (not was_committed)
          items
          c

  -- A collection that succeeds has nothing to do for want of active deliveries, commits the pending
  -- remainder, or commits what a working browser collected: all that its items give and only that,
  -- with no item twice, and at most the initial depth at first; later an empty collection is refused.
  pub collect_web_feed-IsCollected :
      (dates : DateApi) (capability : BrowserCapability)
      (collect : SourceDefinition Url → Result FetchError (List (SourceRecord Url)))
      (now elapsed : ℕ) {w : PollWrite Url}
      → collect_web_feed api has_host reads dates capability collect limits source_id now elapsed
        ≡ ok w
      → IsBefore reads limits source_id w ⊎ IsCollected dates capability collect w
  unfolding collect_web_feed
  collect_web_feed-IsCollected dates capability collect now elapsed {w = w} h =
      elim (unless_pending-ok reads limits source_id _ h) [
        | inl before ↦ inl before
        | inr g ↦
            let (works, g₁) = refuse_if-ok (is_degraded capability) browser_degraded _ g in
            let (source, found, g₂) = >>=-eq-ok (map_err store (reads.source source_id)) _ g₁ in
            let (past, history, g₃) =
              >>=-eq-ok (map_err store (reads.has_committed_poll source_id)) _ g₂ in
            let (items, got, g₄) = >>=-eq-ok (map_err collect_error (collect source)) _ g₃ in
            let (some_, g₅) =
              refuse_if-ok (past && is_nil items) (parse (codes "web_feed_empty_after_success")) _
                g₄ in
            let (c, same, fresh) =
              commit_of-IsFresh limits
                (collect_intake api has_host reads dates source.kind source_id) source source_id
                (not past) items now source.url (record { etag = none; last_modified = none })
                (codes "collection duration exceeds u64 milliseconds") elapsed g₅ in
            inr (record {
              source = source;
              items = items;
              was_committed = past;
              c = c;
              written = same;
              is_available = works;
              found = map_err-ok store (reads.source source_id) found;
              history = map_err-ok store (reads.has_committed_poll source_id) history;
              collected = map_err-ok collect_error (collect source) got;
              not_empty = some_;
              fresh = fresh;
            })
      ]

  -- An unmodified page is a success; of another, the items that the parser reads are committed.
  pub IsTaken :
      FeedParsers Url → (Text → ℕ) → SourceDefinition Url → FetchedPage Url → PollWrite Url → Type 0
  IsTaken parsers new_id source page w =
      ((page.not_modified ≡ true) × ((d : ℕ) × (w ≡ record_source_success d)))
      ⊎ ((page.not_modified ≡ false)
          × ((items : List (ParsedRecord Url)) × (was_committed : Bool) × (c : PollCommit Url)
              × (parse_page parsers source.kind page ≡ ok items)
              × (reads.has_committed_poll source_id ≡ ok was_committed)
              × (w ≡ commit_poll c)
              × IsFresh limits (poll_intake api has_host reads new_id source_id) source source_id
                  (not was_committed) items c))

  take_page-IsTaken :
      (parsers : FeedParsers Url) (new_id : Text → ℕ) (now elapsed : ℕ)
      (source : SourceDefinition Url) (page : FetchedPage Url) {w : PollWrite Url}
      → take_page api has_host reads parsers limits new_id source_id now elapsed source page ≡ ok w
      → IsTaken parsers new_id source page w
  unfolding take_page IsTaken
  take_page-IsTaken parsers new_id now elapsed source page {w = w} h =
      elim (Bool-cases page.not_modified) [
        | inl same ↦
            let g = if_true page.not_modified _ _ same h in
            let (d, _, e) =
              >>=-eq-ok (duration_of (codes "poll duration exceeds u64 milliseconds") elapsed) _
                g in
            let q : record_source_success d ≡ w = cc e in inl (same, (d, sym q))
        | inr other ↦
            let g = if_false page.not_modified _ _ other h in
            let (items, read, g₁) = >>=-eq-ok (parse_page parsers source.kind page) _ g in
            let (past, history, g₂) =
              >>=-eq-ok (map_err store (reads.has_committed_poll source_id)) _ g₁ in
            let (c, made, fresh) =
              commit_of-IsFresh limits (poll_intake api has_host reads new_id source_id) source
                source_id (not past) items now page.final_url page.validators
                (codes "poll duration exceeds u64 milliseconds") elapsed g₂ in
            inr (
              other,
              (
                items,
                past,
                c,
                read,
                map_err-ok store (reads.has_committed_poll source_id) history,
                made,
                fresh,
              ),
            )
      ]

  -- A response of the feed: unmodified, or items that a parser read and that are committed.
  pub record IsPolled (fetch_feed : Url → CacheValidators → Result FetchError (FetchedPage Url))
      (parsers : FeedParsers Url) (new_id : Text → ℕ) (w : PollWrite Url) : Type 0 where
    pub source : SourceDefinition Url
    pub validators : CacheValidators
    pub page : FetchedPage Url
    pub found : reads.source source_id ≡ ok source
    pub known : reads.source_validators source_id ≡ ok validators
    pub fetched : fetch_feed source.url validators ≡ ok page
    pub within : length page.body ≤ limits.max_input_bytes
    pub outcome : IsTaken parsers new_id source page w

  -- A poll that succeeds has nothing to do for want of active deliveries, commits the pending
  -- remainder, or has fetched the source with the stored validators a page within the input limit;
  -- an unmodified page is recorded as a success, and of another everything that the parser's items
  -- give is committed, with no item twice, and at most the initial depth at first.
  pub poll-IsPolled :
      (fetch_feed : Url → CacheValidators → Result FetchError (FetchedPage Url))
      (parsers : FeedParsers Url) (new_id : Text → ℕ) (now elapsed : ℕ) {w : PollWrite Url}
      → poll api has_host reads fetch_feed parsers limits new_id source_id now elapsed ≡ ok w
      → IsBefore reads limits source_id w ⊎ IsPolled fetch_feed parsers new_id w
  unfolding poll
  poll-IsPolled fetch_feed parsers new_id now elapsed {w = w} h =
      elim (unless_pending-ok reads limits source_id _ h) [
        | inl before ↦ inl before
        | inr g ↦
            let (source, found, g₁) = >>=-eq-ok (map_err store (reads.source source_id)) _ g in
            let (validators, known, g₂) =
              >>=-eq-ok (map_err store (reads.source_validators source_id)) _ g₁ in
            let (page, got, g₃) =
              >>=-eq-ok (map_err fetch (fetch_feed source.url validators)) _ g₂ in
            let (fits, g₄) =
              refuse_if-ok (ltb limits.max_input_bytes (length page.body))
                (parse (codes "feed exceeds configured max_input_bytes")) _ g₃ in
            inr (record {
              source = source;
              validators = validators;
              page = page;
              found = map_err-ok store (reads.source source_id) found;
              known = map_err-ok store (reads.source_validators source_id) known;
              fetched = map_err-ok fetch (fetch_feed source.url validators) got;
              within = ground arith;
              outcome = take_page-IsTaken parsers new_id now elapsed source page g₄;
            })
      ]
