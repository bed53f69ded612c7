-- ===== src/Ingest/Batch.antt =====
-- crates/reader-ingest/src/engine/mod.rs: the records that a poll or a collection commits, made of
-- the items received one by one.
pub mod Accepted
pub mod Again
use inoreader.Prelude.{
  ℕ, Bool, true, false, not, ◌&&◌, Option, none, some, List, [], ◌∷◌, nat_eq, list_eq, contains,
  if◌then◌else◌, ltb, length, take, drop, Result, ok, err, ◌>>=◌, ◌>>◌, refuse_if, map_err,
}
use inoreader.Prelude.Text.{Text}
use inoreader.Ingest.Error.{StoreError, IngestError, store, parse, model_text}
use inoreader.Ingest.Record.{
  ModelError, SourceRecord, RecordRevision, RecordRevisionEffect, unchanged, refresh_content,
  regroup_and_refresh,
}

pub data PollAction : Type 0 where
  deliver : PollAction
  refresh : PollAction
  regroup : PollAction

pub record PolledRecord (Url : Type 0) : Type 0 where
  pub record_ : SourceRecord Url
  pub action : PollAction

-- What a poll and a collection do differently: the identity of an item, the record of a new one,
-- the revision of a known one, the store's answer, and the words for a repeated identity.
pub record Intake (Url Item : Type 0) : Type 0 where
  pub id_of : Item → Text
  pub fresh : Item → Result ModelError (SourceRecord Url)
  pub revise_by : SourceRecord Url → Item → Result ModelError (RecordRevision Url)
  pub record_by_upstream : Text → Result StoreError (Option (SourceRecord Url))
  pub repeated : Text

abbrev pub parse_error : ModelError → IngestError
parse_error e = parse (model_text e)

abbrev pub polled : {Url : Type 0} → SourceRecord Url → PollAction → PolledRecord Url
polled a action = record { record_ = a; action = action }

-- The `match` on the effect; `continue` is `none`.
unfoldable pub by_effect :
    {Url : Type 0} → SourceRecord Url → RecordRevisionEffect → Option (PolledRecord Url)
by_effect a unchanged = none
by_effect a refresh_content = some (polled a refresh)
by_effect a regroup_and_refresh = some (polled a regroup)

abbrev pub add_some {ℓ} : {A : Type ℓ} → Option A → List A → List A
add_some none xs = xs
add_some (some x) xs = x ∷ xs

module _ {Url Item : Type 0} (intake : Intake Url Item) where
  open intake use {id_of, fresh, revise_by, record_by_upstream, repeated}

  unfoldable pub take_in :
      Item → Option (SourceRecord Url) → Result IngestError (Option (PolledRecord Url))
  unfolding by_effect
  take_in x (some existing) = do
    revision ← map_err parse_error (revise_by existing x)
    ok (by_effect revision.record_ revision.effect)
  take_in x none = do a ← map_err parse_error (fresh x); ok (some (polled a deliver))

  -- One round of the loop past its test for a repeated identity.
  unfoldable pub step : Item → Result IngestError (Option (PolledRecord Url))
  unfolding take_in
  step x = do found ← map_err store (record_by_upstream (id_of x)); take_in x found

  -- The loop; `seen` is the set `upstream_ids`.
  unfoldable pub batch : List Text → List Item → Result IngestError (List (PolledRecord Url))
  unfolding step contains
  batch seen [] = ok []
  batch seen (x ∷ xs) =
      let rest = batch (id_of x ∷ seen) xs in
      do
        refuse_if (contains seen (id_of x)) (parse repeated)
        value ← step x
        records ← rest
        ok (add_some value records)

-- `split_off` at the initial depth, for the first poll only: the records to commit now and the
-- remainder.
unfoldable pub split_initial :
    {A : Type 0} → (is_initial : Bool) → (depth : ℕ) → List A → List A × List A
split_initial is_initial depth records =
    if is_initial && ltb depth (length records)
    then (take depth records, drop depth records)
    else (records, [])
