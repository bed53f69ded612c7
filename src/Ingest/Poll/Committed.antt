-- ===== src/Ingest/Poll/Committed.antt =====
-- What the runs commit, and that the same items again give nothing to commit.
use inoreader.Prelude.{
  ℕ, suc, ◌≤◌, ◌<◌, ◌≡◌, refl, subst, sym, ◌⊎◌, inl, inr, Bool, true, false, ◌&&◌, Option, none,
  some, List, [], ◌∷◌, ◌++◌, arith, nat_eq, list_eq, Bool-cases, ltb, length, cat_options, traverse,
  length-take, Result, ok, >>=-eq-ok, u64_mod,
}
use inoreader.Prelude.Text.{Text}
use inoreader.Prelude.Url.{UrlApi}
use inoreader.Ingest.Record.{ParsedRecord, HasHost}
use inoreader.Ingest.Record.Revised.{
  revise-again, revise-from_parsed, revise-upstream_id, from_parsed-upstream_id,
}
use inoreader.Ingest.Source.{SourceDefinition, IngestLimits}
use inoreader.Ingest.Batch.{Intake, PolledRecord, step, batch, split_initial}
use inoreader.Ingest.Batch.Accepted.{IsBatch, batch_iff, split_initial_lem}
use inoreader.Ingest.Batch.Again.{IsReviser, committed, batch-committed}
use inoreader.Ingest.Poll.{
  StoreReads, CacheValidators, PollCommit, PollWrite, commit_poll, commit_of, duration_of,
  poll_intake,
}

length-traverse :
    {E A B : Type 0} (f : A → Result E (Option B)) (xs : List A) (values : List (Option B))
    → traverse f xs ≡ ok values
    → length (cat_options values) ≤ length xs
unfolding traverse
length-traverse f [] values h =
    let e : [] ≡ values = cc h in subst (λ v. length (cat_options v) ≤ 0) e (omega arith)
length-traverse f (x ∷ xs) values h =
    let (value, _, h₁) = >>=-eq-ok (f x) _ h in
    let (rest, there, h₂) = >>=-eq-ok (traverse f xs) _ h₁ in
    let e : value ∷ rest ≡ values = cc h₂ in
    subst (λ v. length (cat_options v) ≤ length (x ∷ xs)) e
      (one_more value rest (length-traverse f xs rest there))
  where
    one_more :
        {B : Type 0} {n : ℕ} (value : Option B) (rest : List (Option B))
        → length (cat_options rest) ≤ n
        → length (cat_options (value ∷ rest)) ≤ suc n
    one_more none rest h = omega (arith)
    one_more (some b) rest h = omega (arith)

duration_of-lt :
    (message : Text) (elapsed : ℕ) {d : ℕ} → duration_of message elapsed ≡ ok d → d < u64_mod
unfolding duration_of
duration_of-lt message elapsed {d = d} h = ground arith

module _ {Url Item : Type 0} (limits : IngestLimits) (intake : Intake Url Item)
    (source : SourceDefinition Url) (source_id : ℕ) where
  -- A commit of items just received: the records and the remainder are those that the items give,
  -- and only a first commit leaves a remainder, which it reports.
  pub record IsFresh (is_initial : Bool) (items : List Item) (c : PollCommit Url) : Type 0 where
    pub same_source : c.source_id ≡ source_id
    pub same_revision : c.source_revision ≡ source.revision
    pub whole : IsBatch intake items (c.records ++ c.remainder)
    pub depth : (is_initial ≡ false) ⊎ (length c.records ≤ limits.initial_feed_items)
    pub deferred :
        (c.remainder ≡ [])
        ⊎ ((is_initial ≡ true)
            × (length c.records ≡ limits.initial_feed_items)
            × (c.incomplete ≡ true))
    pub duration : c.duration_ms < u64_mod

  -- A longer remainder than none is one of more items than the initial depth.
  deferred_lem :
      (is_initial : Bool) (items : List Item) (records : List (PolledRecord Url))
      → length records ≤ length items
      → let (now, later) = split_initial is_initial limits.initial_feed_items records in
        (later ≡ [])
        ⊎ ((is_initial ≡ true)
            × (length now ≡ limits.initial_feed_items)
            × ((is_initial && ltb limits.initial_feed_items (length items)) ≡ true))
  unfolding split_initial
  deferred_lem false items records h = inl refl
  deferred_lem true items records h =
      let depth = limits.initial_feed_items in
      elim (Bool-cases (ltb depth (length records))) [
        | inl more ↦ rw more (inr (refl, ground (arith, length-take depth records), ground arith))
        | inr fits ↦ rw fits (inl refl)
      ]

  pub commit_of-IsFresh :
      (is_initial : Bool) (items : List Item) (now : ℕ) (final_url : Url)
      (validators : CacheValidators) (message : Text) (elapsed : ℕ) {w : PollWrite Url}
      → commit_of limits intake source source_id is_initial items now final_url validators
          (duration_of message elapsed)
        ≡ ok w
      → (c : PollCommit Url) × (w ≡ commit_poll c) × IsFresh is_initial items c
  unfolding commit_of
  commit_of-IsFresh is_initial items now final_url validators message elapsed {w = w} h =
      let (records, made, h₁) = >>=-eq-ok (batch intake [] items) _ h in
      let (d, in_time, h₂) = >>=-eq-ok (duration_of message elapsed) _ h₁ in
      let b = (batch_iff intake items records).0 made in
      let (parts, _, most) = split_initial_lem is_initial limits.initial_feed_items records in
      let size : length records ≤ length items =
        rw b.kept (length-traverse (step intake) items b.values b.taken_in) in
      let split = split_initial is_initial limits.initial_feed_items records in
      let c : PollCommit Url = record {
        source_id = source_id;
        source_revision = source.revision;
        records = split.0;
        remainder = split.1;
        fetched_at = now;
        final_url = final_url;
        validators = validators;
        incomplete = is_initial && ltb limits.initial_feed_items (length items);
        duration_ms = d;
      } in
      (
        c,
        sym (cc h₂),
        record {
          same_source = refl;
          same_revision = refl;
          whole = subst (IsBatch intake items) (sym parts) b;
          depth = most;
          deferred = deferred_lem is_initial items records size;
          duration = duration_of-lt message elapsed in_time;
        },
      )

module _ (api : UrlApi) (has_host : HasHost api) (reads : StoreReads api.Url) where
  open api use {Url, url_eq}

  poll_intake-IsReviser :
      (new_id : Text → ℕ) (source_id : ℕ)
      → IsReviser (poll_intake api has_host reads new_id source_id)
  poll_intake-IsReviser new_id source_id = record {
    fresh_id = λ x a h. (
      from_parsed-upstream_id api has_host (new_id x.upstream_id) source_id x h,
      (_, revise-from_parsed api has_host (new_id x.upstream_id) source_id x h),
    );
    revise_id = λ old x r h.
        (revise-upstream_id api has_host old x h, (_, revise-again api has_host old x h));
  }

  -- A feed response that was committed leaves nothing to commit when it is received again, if the
  -- store answers with the committed records.
  pub poll-committed :
      (new_id : Text → ℕ) (source_id : ℕ) (items : List (ParsedRecord Url))
      {records : List (PolledRecord Url)}
      → batch (poll_intake api has_host reads new_id source_id) [] items ≡ ok records
      → batch (committed records (poll_intake api has_host reads new_id source_id)) [] items ≡ ok []
  poll-committed new_id source_id items h =
      batch-committed (poll_intake api has_host reads new_id source_id)
        (poll_intake-IsReviser new_id source_id) items h
