-- ===== src/Tests/OnWorker.antt =====
-- The theorems on sources, listings, workers and contents, applied to concrete ones.
use inoreader.Prelude.{
  err, true, Option, ℕ, zero, suc, ◌+◌, ◌*◌, ◌^◌, ◌<◌, ◌≡◌, refl, none, some, List, [], ◌∷◌, arith,
  nat_eq, list_eq, list_beq, Result, ok,
}
use inoreader.Prelude.Text.{Text, codes, as_bytes, byte_len, utf8_char, utf8_len}
use inoreader.Ingest.Error.{IngestError, FetchError, http, fetch}
use inoreader.Ingest.Record.{SourceRecord, RecordRevision, from_value, regroup_and_refresh}
use inoreader.Ingest.Source.{
  UrlParts, SourceDefinition, json_feed, is_telegram, is_zhihu, new, try_from_draft,
}
use inoreader.Ingest.Source.Changes.{Call, with_url, revise_kind, run, IsReached, run-IsReached}
use inoreader.Ingest.Worker.{
  Chrono, IngestWorker, pos, second, retry_at_of, add_within, delay_of, jitter_of, not_before_of,
  is_rate_limited, with_runtime_policy, is_positive, is_negative, nanos, delay_fits,
}
use inoreader.Ingest.Worker.Backoff.{IsBackoff, retry_at_of-IsBackoff}
use inoreader.Ingest.Cycle.{Run, cycle}
use inoreader.Ingest.Cycle.Ended.{IsFailing, EndsFrom, cycle-EndsFrom_policy}
use inoreader.Ingest.Poll.{FetchedPage}
use inoreader.Ingest.Content.{
  ContentRevision, Extraction, chunks, chunks_from, extract_content, is_embedded, revision_of,
}
use inoreader.Ingest.Content.Chunks.{IsChunking, bytes_of, chunks-IsChunking}
use inoreader.Ingest.Content.Extracted.{IsExtracted, extract_content-IsExtracted}
use inoreader.Ingest.Error.{StoreError, stale_lease}
use inoreader.Ingest.Delivery.{DeliveryTarget, Write, fanout}
use inoreader.Ingest.Delivery.Prefix.{IsFanout, fanout-IsFanout}
use inoreader.Tests.{toy_urls, feed, other_feed}
use inoreader.Tests.OnIngest.{has_host, item, kept, limits, page, source}

-- A listing that says another title and no date.
abbrev listing : SourceRecord Text
listing = from_value toy_urls has_host (record (item (codes "a")) { title = codes "u" }) 9 7 4

abbrev relisted : RecordRevision Text
relisted = record {
  record_ = from_value toy_urls has_host (record (item (codes "a")) { title = codes "u" }) 1 7 1;
  effect = regroup_and_refresh;
}

abbrev url_parts : UrlParts Text
url_parts = record { port = λ u. none; path = λ u. []; query = λ u. none; fragment = λ u. none }

abbrev draft : SourceDefinition Text
draft = source

abbrev calls : List (Call Text)
calls = revise_kind json_feed ∷ with_url other_feed ∷ []

loaded : try_from_draft toy_urls url_parts draft ≡ ok draft
unfolding try_from_draft new is_telegram is_zhihu list_beq
loaded = refl

run-IsReached_example :
    IsReached toy_urls url_parts draft
      (run toy_urls url_parts (draft, 0) calls).0
      (run toy_urls url_parts (draft, 0) calls).1
run-IsReached_example = run-IsReached toy_urls url_parts draft calls loaded (omega arith)

abbrev chrono : Chrono
chrono = record { longest = 2 ^ 80; latest = 2 ^ 80 }

abbrev worker : IngestWorker
worker = record {
  limits = limits;
  lease_duration = 30 * second;
  renew_interval = 10 * second;
  retry_attempts = 3;
  rate_limit_delay = 60 * second;
  retry_jitter = 0;
}

abbrev limited : IngestError
limited = fetch (http 429)

backed_off : retry_at_of chrono worker 200 100 77 2 limited ≡ ok (60 * second + 200)
unfolding retry_at_of add_within delay_of jitter_of not_before_of is_rate_limited
backed_off = refl

retry_at_of-IsBackoff_example : IsBackoff worker 200 100 2 limited (60 * second + 200)
retry_at_of-IsBackoff_example = retry_at_of-IsBackoff chrono worker 200 100 77 2 limited backed_off

-- Runs that fail far later and later after the first attempt.
abbrev failing : ℕ → Run
failing i = record {
  claimed_at = i * (60 * second);
  ended_at = i * (60 * second) + 200;
  result = err limited;
  holds = true;
}

granted :
    with_runtime_policy chrono worker 0 (pos (10 * second)) 3 (pos (60 * second)) (pos 0)
    ≡ ok worker
unfolding with_runtime_policy is_positive is_negative nanos delay_fits add_within
granted = refl

all_failing : (i : ℕ) → i < 3 → IsFailing chrono (λ t. []) worker (90 * second) 77 0 failing i
unfolding retry_at_of add_within delay_of jitter_of not_before_of is_rate_limited
all_failing zero h = record { error = limited; at = _; failed = refl; timely = refl; held = refl }
all_failing (suc zero) h = record {
  error = limited;
  at = _;
  failed = refl;
  timely = refl;
  held = refl;
}
all_failing (suc (suc zero)) h = record {
  error = limited;
  at = _;
  failed = refl;
  timely = refl;
  held = refl;
}
all_failing (suc (suc (suc i))) h = absurd (omega arith)

-- The third claim is too late.
cycle-EndsFrom_policy_example :
    (worker.retry_attempts ≡ 3)
    × EndsFrom chrono
        (λ t. [])
        worker
        (90 * second)
        77
        0
        failing
        0
        (cycle chrono
          (λ t. [])
          worker
          (90 * second)
          77
          3
          failing
          0
          (record { attempt = 0; first_attempt_ms = 0 }))
cycle-EndsFrom_policy_example =
    cycle-EndsFrom_policy chrono (λ t. []) worker 0 3 (pos (10 * second)) (pos (60 * second))
      (pos 0) (90 * second) 77 0 failing granted (omega arith) all_failing

chunks-IsChunking_example :
    (bytes_of (chunks page.body 2) ≡ page.body) × IsChunking 2 0 (chunks page.body 2)
chunks-IsChunking_example = chunks-IsChunking page.body 2 (omega arith) (omega arith)

abbrev extraction : Extraction Text
extraction = record {
  decode_html = λ body content_type. ok body;
  extract_publication = λ html url. [];
  extract_reddit_flair = λ html url. none;
  extract_video = λ html url. ok none;
  readable_fragment = λ html. html;
  sanitize = λ html. html;
}

abbrev revision : ContentRevision Text
revision = record {
  reddit_flair = none;
  video = none;
  publication = [];
  record_id = 1;
  source_revision = 0;
  refresh_id = 5;
  raw_chunks =
      record { ordinal = 0; bytes = 60 ∷ 62 ∷ [] } ∷ record { ordinal = 1; bytes = 60 ∷ [] } ∷ [];
  safe_html_chunks =
      record { ordinal = 0; bytes = 60 ∷ 62 ∷ [] } ∷ record { ordinal = 1; bytes = 60 ∷ [] } ∷ [];
  fetched_at = 100;
  final_url = feed;
}

abbrev extract : Text → Result FetchError (FetchedPage Text)
extract url = ok page

extracted :
    extract_content extraction limits
      (λ id. ok (kept id (codes "a") 0))
      (λ id. ok source)
      extract
      1
      0
      feed
      5
      100
    ≡ ok revision
unfolding extract_content is_embedded revision_of chunks chunks_from byte_len utf8_len as_bytes
    utf8_char from_value
extracted = refl

extract_content-IsExtracted_example :
    IsExtracted extraction limits
      (λ id. ok (kept id (codes "a") 0))
      (λ id. ok source)
      extract
      1
      0
      feed
      revision
extract_content-IsExtracted_example =
    extract_content-IsExtracted extraction limits (λ id. ok (kept id (codes "a") 0))
      (λ id. ok source) extract 1 0 feed 5 100 (omega arith) (omega arith) extracted

abbrev target : ℕ → DeliveryTarget
target n = record { workspace_id = 3; subscription_id = n }

abbrev targets : List DeliveryTarget
targets = target 5 ∷ target 6 ∷ []

-- A store that refuses the third write, which is that of the cursor.
abbrev refusing : List (Write Text) → Write Text → Option StoreError
refusing (v ∷ w ∷ done) x = some stale_lease
refusing _ x = none

abbrev new_article : DeliveryTarget → ℕ
new_article t = 40 + t.subscription_id

fanout-IsFanout_example :
    IsFanout refusing
      (kept 1 (codes "a") 0)
      new_article
      100
      targets
      (fanout refusing (ok (kept 1 (codes "a") 0)) (ok targets) new_article 100)
fanout-IsFanout_example = fanout-IsFanout refusing (kept 1 (codes "a") 0) new_article 100 targets
