-- ===== src/Tests/OnIngest.antt =====
-- The theorems on ingestion, applied to a feed of two items, a store that knows nothing of them, and
-- a worker of small limits.
use inoreader.Prelude.{
  ℕ, ◌≡◌, ◌⊎◌, ◌↔◌, refl, Bool, true, false, none, some, List, [], ◌∷◌, ◌++◌, map, nat_eq, list_eq,
  list_beq, option_beq, contains, IsDistinct, length, Result, ok, err, traverse, next_u64,
}
use inoreader.Prelude.Text.{Text, codes, is_empty}
use inoreader.Core.Article.{key_beq, location_beq}
use inoreader.Ingest.Error.{FetchError, parse}
use inoreader.Ingest.Record.{
  ParsedRecord, SourceRecord, RecordRevision, article_location, exact_spelling, from_value,
  from_parsed, revise, regroup_and_refresh, effect_of, needs_regrouping, needs_refresh,
}
use inoreader.Ingest.Record.Revised.{IsRevision, SameContent, says, revise-IsRevision}
use inoreader.Ingest.Source.{SourceDefinition, xml_feed, IngestLimits}
use inoreader.Ingest.Batch.{Intake, PolledRecord, deliver, batch, step, take_in, split_initial}
use inoreader.Ingest.Batch.Accepted.{IsBatch, batch_iff, batch_repeated}
use inoreader.Ingest.Batch.Again.{committed}
use inoreader.Ingest.Poll.{
  StoreReads, CacheValidators, FetchedPage, FeedParsers, PollCommit, commit_poll, available,
  poll_intake, poll, take_page, collect_web_feed, unless_pending, duration_of, commit_of,
  parse_page, collect_error,
}
use inoreader.Ingest.Poll.Committed.{poll-committed}
use inoreader.Ingest.Poll.Runs.{
  IsBefore, IsPolled, IsCollected, poll-IsPolled, collect_web_feed-IsCollected,
}
use inoreader.Tests.{toy_urls, feed}
use inoreader.Tests.OnFeeds.{toy_dates}

abbrev pub has_host : Text → Bool
has_host u = true

abbrev pub item : Text → ParsedRecord Text
item id = record {
  categories = none;
  upstream_id = id;
  original_url = feed;
  absolute_url = some feed;
  title = codes "t";
  description = none;
  description_media_type = none;
  content_html = none;
  published_at = none;
}

abbrev items : List (ParsedRecord Text)
items = item (codes "a") ∷ item (codes "b") ∷ []

abbrev pub kept : ℕ → Text → ℕ → SourceRecord Text
kept id upstream_id revision = from_value toy_urls has_host (item upstream_id) id 7 revision

abbrev pub source : SourceDefinition Text
source = record { id = 7; url = feed; kind = xml_feed; revision = 3 }

abbrev reads : StoreReads Text
reads = record {
  source = λ id. ok source;
  has_committed_poll = λ id. ok false;
  source_validators = λ id. ok (record { etag = none; last_modified = none });
  pending_poll = λ id limit. ok none;
  active_delivery_count = λ id. ok 1;
  record_by_upstream = λ id upstream_id. ok none;
}

abbrev pub limits : IngestLimits
limits = record {
  initial_feed_items = 1;
  fanout_batch = 5;
  content_chunk_bytes = 2;
  max_input_bytes = 9;
  max_extracted_bytes = 9;
}

abbrev new_id : Text → ℕ
new_id upstream_id = length upstream_id

abbrev pub page : FetchedPage Text
page = record {
  final_url = feed;
  content_type = none;
  body = 60 ∷ 62 ∷ 60 ∷ [];
  validators = record { etag = none; last_modified = none };
  not_modified = false;
}

abbrev parsers : FeedParsers Text
parsers = record {
  parse_rss_coalescing_identical = λ body url. ok items;
  parse_xml = λ body url. ok items;
  parse_json = λ body url. ok items;
}

abbrev records : List (PolledRecord Text)
records =
    record { record_ = kept 1 (codes "a") 0; action = deliver }
    ∷ record { record_ = kept 1 (codes "b") 0; action = deliver }
    ∷ []

taken : batch (poll_intake toy_urls has_host reads new_id 7) [] items ≡ ok records
unfolding batch step take_in from_parsed is_empty contains list_beq
taken = refl

abbrev intake : Intake Text (ParsedRecord Text)
intake = poll_intake toy_urls has_host reads new_id 7

poll-committed_example : batch (committed records intake) [] items ≡ ok []
poll-committed_example = poll-committed toy_urls has_host reads new_id 7 items taken

batch_iff_example : (batch intake [] items ≡ ok records) ↔ IsBatch intake items records
batch_iff_example = batch_iff intake items records

apart : IsDistinct (map intake.id_of items)
unfolding contains list_beq
apart = (refl, (refl, tt))

each : traverse (step intake) items ≡ ok (map some records)
unfolding traverse step take_in from_parsed is_empty
each = refl

twice : contains (map intake.id_of items) (codes "a") ≡ true
unfolding contains list_beq
twice = refl

batch_repeated_example :
    batch intake [] (items ++ item (codes "a") ∷ items) ≡ err (parse intake.repeated)
batch_repeated_example =
    batch_repeated intake items items (item (codes "a")) (map some records) apart each twice

abbrev fetch_feed : Text → CacheValidators → Result FetchError (FetchedPage Text)
fetch_feed url validators = ok page

abbrev first_commit : PollCommit Text
first_commit = record {
  source_id = 7;
  source_revision = 3;
  records = record { record_ = kept 1 (codes "a") 0; action = deliver } ∷ [];
  remainder = record { record_ = kept 1 (codes "b") 0; action = deliver } ∷ [];
  fetched_at = 100;
  final_url = feed;
  validators = record { etag = none; last_modified = none };
  incomplete = true;
  duration_ms = 5;
}

polled_ :
    poll toy_urls has_host reads fetch_feed parsers limits new_id 7 100 5
    ≡ ok (commit_poll first_commit)
unfolding poll unless_pending take_page duration_of parse_page commit_of split_initial batch step
    take_in from_parsed is_empty contains list_beq
polled_ = refl

poll-IsPolled_example :
    IsBefore reads limits 7 (commit_poll first_commit)
    ⊎ IsPolled toy_urls has_host reads limits 7 fetch_feed parsers new_id (commit_poll first_commit)
poll-IsPolled_example =
    poll-IsPolled toy_urls has_host reads limits 7 fetch_feed parsers new_id 100 5 polled_

abbrev proposed : List (SourceRecord Text)
proposed = kept 1 (codes "a") 0 ∷ kept 2 (codes "b") 0 ∷ []

abbrev collected_records : List (PolledRecord Text)
collected_records = map (λ a. record { record_ = a; action = deliver }) proposed

abbrev browser : SourceDefinition Text → Result FetchError (List (SourceRecord Text))
browser s = ok proposed

abbrev second_commit : PollCommit Text
second_commit = record first_commit {
  remainder = record { record_ = kept 2 (codes "b") 0; action = deliver } ∷ [];
}

collected :
    collect_web_feed toy_urls has_host reads toy_dates available browser limits 7 100 5
    ≡ ok (commit_poll second_commit)
unfolding collect_web_feed unless_pending duration_of commit_of split_initial batch step take_in
    contains list_beq from_value collect_error
collected = refl

collect_web_feed-IsCollected_example :
    IsBefore reads limits 7 (commit_poll second_commit)
    ⊎ IsCollected toy_urls has_host reads limits 7 toy_dates available browser
        (commit_poll second_commit)
collect_web_feed-IsCollected_example =
    collect_web_feed-IsCollected toy_urls has_host reads limits 7 toy_dates available browser 100 5
      collected

abbrev new_title : ParsedRecord Text
new_title = record (item (codes "a")) { title = codes "u" }

abbrev retitled : RecordRevision Text
retitled = record {
  record_ = from_value toy_urls has_host new_title 1 7 1;
  effect = regroup_and_refresh;
}

revised :
    revise toy_urls has_host ⦃e = toy_urls.url_eq⦄ (kept 1 (codes "a") 0) new_title ≡ ok retitled
unfolding revise from_value effect_of needs_regrouping needs_refresh list_beq key_beq location_beq
    option_beq next_u64 article_location exact_spelling
revised = refl

revise-IsRevision_example :
    IsRevision ⦃e = toy_urls.url_eq⦄ (kept 1 (codes "a") 0) retitled
    × SameContent retitled.record_ (says toy_urls has_host new_title 7)
unfolding from_value
revise-IsRevision_example =
    revise-IsRevision toy_urls has_host (kept 1 (codes "a") 0) new_title revised
