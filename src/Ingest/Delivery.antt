-- ===== src/Ingest/Delivery.antt =====
-- crates/reader-ingest/src/engine/mod.rs: the fan-out of a record to the subscriptions of its source,
-- and the dispatch of a job to its handler. What the store was asked to write is kept in order, and
-- the store's answer to a write is a function of what it wrote before.
pub mod Prefix
use inoreader.Prelude.{
  ℕ, Bool, true, false, ◌||◌, Option, none, some, List, [], ◌∷◌, ◌++◌, if◌then◌else◌, Result, ok,
  err, ◌>>=◌, map_err,
}
use inoreader.Core.Rules.{PendingRuleEvaluation}
use inoreader.Ingest.Error.{StoreError, IngestError, store}
use inoreader.Ingest.Record.{SourceRecord}
use inoreader.Ingest.Source.{SourceDefinition, SourceKind, web_page, built_in, IngestLimits}
use inoreader.Ingest.Worker.{
  WorkItem, poll_source, refresh_source, fan_out, extract_full_text, collect_web_feed,
  cleanup_content, evaluate_article_rules, apply_rule,
}

pub record DeliveryTarget : Type 0 where
  pub workspace_id : ℕ
  pub subscription_id : ℕ

pub record DeliveryCommit (Url : Type 0) : Type 0 where
  pub target : DeliveryTarget
  pub record_ : SourceRecord Url
  pub proposed_article_id : ℕ
  pub delivered_at : ℕ

pub data Write (Url : Type 0) : Type 0 where
  deliver : DeliveryCommit Url → Write Url
  advance_fanout : ℕ → Write Url

-- What was written, and what the handler returns.
abbrev pub Written : Type 0 → Type 0
Written Url = List (Write Url) × Result IngestError (Unit {0})

-- `.await?` of a write: an error of the store leaves what was written before.
abbrev pub then_write :
    {Url : Type 0}
    → List (Write Url)
    → Write Url
    → Option StoreError
    → (List (Write Url) → Written Url)
    → Written Url
then_write done w none next = next (done ++ w ∷ [])
then_write done w (some e) next = (done, err (store e))

module _ {Url : Type 0} (a : SourceRecord Url) (new_article : DeliveryTarget → ℕ) (now : ℕ) where
  unfoldable pub delivery : DeliveryTarget → Write Url
  delivery target = deliver (record {
    target = target;
    record_ = a;
    proposed_article_id = new_article target;
    delivered_at = now;
  })

module _ {Url : Type 0} (answer : List (Write Url) → Write Url → Option StoreError) where
  -- After the loop: the cursor is advanced to the last target, where there was one.
  unfoldable pub advance : List (Write Url) → (last : Option ℕ) → Written Url
  advance done none = (done, ok tt)
  advance done (some subscription) =
      let w = advance_fanout subscription in then_write done w (answer done w) (λ ws. (ws, ok tt))

module _ {Url : Type 0} (answer : List (Write Url) → Write Url → Option StoreError)
    (a : SourceRecord Url) (new_article : DeliveryTarget → ℕ) (now : ℕ) where
  -- The loop over the targets.
  unfoldable pub deliver_each :
      List (Write Url) → (last : Option ℕ) → List DeliveryTarget → Written Url
  unfolding delivery advance
  deliver_each done last [] = advance answer done last
  deliver_each done last (target ∷ targets) =
      let w = delivery a new_article now target in
      then_write done w (answer done w)
        (λ ws. deliver_each ws (some target.subscription_id) targets)

-- `fanout`: the record and the targets are the store's answers.
unfoldable pub fanout :
    {Url : Type 0}
    → (answer : List (Write Url) → Write Url → Option StoreError)
    → Result StoreError (SourceRecord Url)
    → Result StoreError (List DeliveryTarget)
    → (new_article : DeliveryTarget → ℕ) → (now : ℕ) → Written Url
unfolding deliver_each
fanout answer (err e) targets new_article now = ([], err (store e))
fanout answer (ok a) (err e) new_article now = ([], err (store e))
fanout answer (ok a) (ok targets) new_article now =
    deliver_each answer a new_article now [] none targets

-- The handlers of the work items.
pub record Handlers (Url : Type 0) : Type 0 where
  pub source : ℕ → Result StoreError (SourceDefinition Url)
  pub poll : ℕ → Result IngestError (Unit {0})
  pub collect : ℕ → Result IngestError (Unit {0})
  pub fan_out_to : ℕ → ℕ → Option ℕ → Result IngestError (Unit {0})
  pub fulltext : ℕ → ℕ → Url → Result IngestError (Unit {0})
  pub cleanup : ℕ → ℕ → Result StoreError (Unit {0})
  pub evaluate : ℕ → ℕ → List PendingRuleEvaluation → Result StoreError (Unit {0})
  pub apply_rule_batch :
      ℕ → ℕ → ℕ → Option ℕ → Option ℕ → (limit : ℕ) → Result StoreError (Option ℕ)

-- `matches!(source.kind(), SourceKind::WebPage(_) | SourceKind::BuiltIn(_))`
unfoldable pub is_collected : {Url : Type 0} → SourceKind Url → Bool
is_collected (web_page recipe) = true
is_collected (built_in adapter) = true
is_collected _ = false

module _ {Url : Type 0} (handlers : Handlers Url) (limits : IngestLimits) where
  open handlers use {
    source, poll, collect, fan_out_to, fulltext, cleanup, evaluate, apply_rule_batch,
  }

  unfoldable pub poll_or_collect : ℕ → Result IngestError (Unit {0})
  unfolding is_collected
  poll_or_collect source_id = do
    definition ← map_err store (source source_id)
    if is_collected definition.kind then collect source_id else poll source_id

  unfoldable pub handle : WorkItem Url → Result IngestError (Unit {0})
  unfolding poll_or_collect
  handle (poll_source source_id) = poll_or_collect source_id
  handle (refresh_source source_id) = poll_or_collect source_id
  handle (fan_out source_id record_id after) = fan_out_to source_id record_id after
  handle (extract_full_text record_id source_revision url manual) =
      fulltext record_id source_revision url
  handle (collect_web_feed source_id) = collect source_id
  handle (cleanup_content record_id keep_refresh_id) =
      map_err store (cleanup record_id keep_refresh_id)
  handle (evaluate_article_rules workspace_id article_id evaluations) =
      map_err store (evaluate workspace_id article_id evaluations)
  handle (apply_rule workspace_id rule_id rule_version after_article through_article) = do
    _ ← map_err store (
        apply_rule_batch workspace_id rule_id rule_version after_article through_article
          limits.fanout_batch)
    ok tt
