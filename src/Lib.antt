-- ===== src/Lib.antt =====
-- Verification of the reader: the domain model of crates/reader-core, the outbound request safety of
-- crates/reader-web-runtime, the ingestion engine of crates/reader-ingest, and the tariffs and streamed
-- answers of crates/reader-ai.
--
-- The program reads sources on behalf of workspaces. A workspace subscribes to source URLs; jobs
-- poll them; what arrives becomes articles, whose reading states rules may change. Every fetch goes
-- through one outbound policy, which judges the URL, the resolved addresses, the connected peer,
-- each redirect and the size of the body; the records of a source are revised by what is received, and
-- a batch of them is committed together with the rest that waits; public proxies, where configured, are chosen by the health
-- of their endpoints.
--
-- What stands where:
--   Prelude         Boolean tests, equality as an instance argument, results with do blocks, lists
--                   over the native numbers, texts as lists of Unicode scalar values, and the
--                   interface of the url crate.
--   Core.Reason     crates/reader-core/src/reason.rs
--   Core.Workspace  crates/reader-core/src/workspace.rs; Workspace.History is any sequence of calls
--   Core.Subscription  crates/reader-core/src/subscription.rs, with its History
--   Core.Jobs       crates/reader-core/src/jobs.rs; Jobs.Lifecycle is any interleaving of workers
--   Core.Article    crates/reader-core/src/article.rs; Article.States and Article.Origins
--   Core.Rules      crates/reader-core/src/rules.rs; Rules.Effect
--   Core.Publication  crates/reader-core/src/publication.rs; Publication.Resolution
--   Core.WebFeed    crates/reader-core/src/web_feed.rs: the configuration itself; WebFeed.Checked is
--                   what its constructors establish, WebFeed.Draft the way from an author's texts
--                   (Draft.Accepted what is then known), WebFeed.Stored the way through storage
--   Net.Address, Net.Policy, Net.Redirect, Net.Body, Net.Error
--                   crates/reader-web-runtime/src/network.rs
--   Net.Limits      crates/reader-web-runtime/src/config.rs
--   Net.Health      RouteHealth and EndpointAttempt of
--                   crates/reader-web-runtime/src/public_proxy/health.rs; Health.Choice is what a
--                   claim picks (Choice.Preferred the order, Choice.Claimed the whole claim),
--                   Health.Flight any sequence of claims, calls of `finish` and drops
--   Ingest.Record, Ingest.Source, Ingest.Error
--                   crates/reader-ingest/src/model/mod.rs and ports.rs, with the author's address of
--                   zhihu/mod.rs: records (Record.Revised, Record.Dropbox), sources (Source.Changes)
--                   and the errors with their diagnostic
--   Ingest.Batch, Ingest.Poll, Ingest.Worker, Ingest.Content, Ingest.Delivery
--                   crates/reader-ingest/src/engine/mod.rs: the loop over the items received
--                   (Batch.Accepted, Batch.Again), `poll` and `collect_web_feed` (Poll.Committed,
--                   Poll.Runs), `run_one` with the policy of retries (Worker.Backoff), `fulltext` with its chunks (Content.Chunks,
--                   Content.Extracted), and `fanout` (Delivery.Prefix) and `handle`
--   Ingest.Cycle    crates/reader-storage-postgres/src/ingest_store.rs and ingest_store/queue.rs, as far
--                   as they end a cycle of attempts at a job; Cycle.Ended is a cycle of failing runs
--   Ai.Pricing      crates/reader-ai/src/pricing.rs and DecimalRate of model.rs; Pricing.Sums is the
--                   arithmetic, Pricing.Covered what accepted tariffs promise,
--                   Pricing.Printed the decimal digits, Pricing.Exact the sum they spell
--   Ai.Stream       crates/reader-ai/src/stream.rs; Stream.Cut is how an answer is cut into chunks,
--                   Stream.Cursor the movement of the scan, Stream.Verified what may be shown,
--                   Stream.Shown how, and Stream.Accepted what a finished answer says
--   Tests           concrete inputs on which the theorems are applied.
--
-- How the code is read: a struct is a record, an enum a data type, and a method on `&mut self`
-- returns the new record, beside its answer where it has one. A `Result` is `Result E A`, and `?` is
-- the bind of a do block. Identities and instants are numbers. A `u64` revision that is increased by
-- one wraps at 2 ^ 64, as in a release build; the `usize` of a length is taken as 64 bits wide.
-- Loops are structural recursion on a list, but for two: the cutting into chunks runs on the number of
-- bytes as fuel, each chunk taking one at least, and the printing of an integer on 38, since a u128
-- has at most 39 digits. The rounds of a job's attempts run on fuel too: as many as the policy allows
-- attempts, which is enough when every settlement is written. The engine's handlers are functions of what a run meets: the answers of the
-- store, the page fetched, the clock; they return the one write that they ask for, and the fan-out the writes in their order. Times there are
-- nanoseconds, with the greatest instant and duration of chrono as parameters.
--
-- Not under the repository's control, and therefore interfaces: the url crate (UrlApi; where a
-- theorem needs it, that a serialized URL parses to the same URL), http::HeaderMap (HeaderApi; that
-- `remove` takes out the entries of one name, in whatever order the others are then iterated), chrono
-- (DateApi; that what it prints in a format it parses in that format, but not a year beyond 9999 as
-- RFC 3339), serde_json (JsonApi), whether scraper accepts a CSS selector and regex a pattern (SyntaxApi), and
-- Unicode's lowercasing, which the rules take as a parameter. The feed parsers of
-- crates/reader-collectors, and the extraction from HTML, stand on third-party parsers; the engine takes
-- them as interfaces too (FeedParsers, Extraction), and the store (StoreReads).
--
-- Not modelled: of the store all but the attempts at a job; of the engine the heartbeat that renews a lease beside the handler; the adapters of single publishers; servers, the front end, the transports and the browser, which are input and
-- output around this logic, and the remaining crates.
pub mod Prelude
pub mod Core
pub mod Net
pub mod Ingest
pub mod Ai
pub mod Tests
