-- ===== src/Ingest/Batch/Again.antt =====
-- A response that was committed, received again: against a store that keeps what was committed, as
-- ports.rs asks of `commit_poll`, nothing of it is left to commit.
use inoreader.Prelude.{
  ◌≡◌, refl, subst, ap, ◌∙◌, sym, true, false, Option, none, some, List, [], ◌∷◌, map, arith, ◌==◌,
  nat_eq, list_eq, contains, contains-apart, if◌then◌else◌, All, IsDistinct, cat_options, traverse,
  Result, ok, >>=-eq-ok, map_err, map_err-ok, ==_refl,
}
use inoreader.Prelude.Text.{Text}
use inoreader.Ingest.Error.{StoreError, store}
use inoreader.Ingest.Record.{
  SourceRecord, RecordRevision, RecordRevisionEffect, unchanged, refresh_content,
  regroup_and_refresh,
}
use inoreader.Ingest.Batch.{
  Intake, PolledRecord, polled, deliver, refresh, regroup, parse_error, by_effect, take_in, step,
  batch,
}
use inoreader.Ingest.Batch.Accepted.{batch_iff}

-- The store's answers after the records were committed.
unfoldable pub keeps :
    {Url : Type 0}
    → List (PolledRecord Url)
    → (Text → Result StoreError (Option (SourceRecord Url)))
    → Text
    → Result StoreError (Option (SourceRecord Url))
keeps [] lookup k = lookup k
keeps (p ∷ ps) lookup k =
    let rest = keeps ps lookup k in if p.record_.upstream_id == k then ok (some p.record_) else rest

module _ {Url Item : Type 0} where
  unfoldable pub committed : List (PolledRecord Url) → Intake Url Item → Intake Url Item
  unfolding keeps
  committed records intake = record intake {
    record_by_upstream = keeps records intake.record_by_upstream;
  }

  -- The item says nothing that the record does not.
  abbrev pub IsSettled : Intake Url Item → Item → SourceRecord Url → Type 0
  IsSettled intake x a =
      (b : SourceRecord Url) × (intake.revise_by a x
        ≡ ok (record { record_ = b; effect = unchanged }))

  -- What the intakes of a poll and of a collection share: records keep the identity of their item,
  -- and the item changes its own record no more.
  pub record IsReviser (intake : Intake Url Item) : Type 0 where
    pub fresh_id :
        (x : Item) (a : SourceRecord Url)
        → intake.fresh x ≡ ok a
        → (a.upstream_id ≡ intake.id_of x) × IsSettled intake x a
    pub revise_id :
        (old : SourceRecord Url) (x : Item) (r : RecordRevision Url)
        → intake.revise_by old x ≡ ok r
        → (r.record_.upstream_id ≡ intake.id_of x) × IsSettled intake x r.record_

module _ {Url Item : Type 0} (intake : Intake Url Item) (law : IsReviser intake) where
  open intake use {id_of, fresh, revise_by, record_by_upstream}

  by_effect-record :
      (a : SourceRecord Url) (effect : RecordRevisionEffect) (p : PolledRecord Url)
      → by_effect a effect ≡ some p
      → a ≡ p.record_
  unfolding by_effect
  by_effect-record a unchanged p h = absurd (cc h)
  by_effect-record a refresh_content p h =
      let e : polled a refresh ≡ p = cc h in ap (λ (q : PolledRecord Url). q.record_) e
  by_effect-record a regroup_and_refresh p h =
      let e : polled a regroup ≡ p = cc h in ap (λ (q : PolledRecord Url). q.record_) e

  -- What was taken in has the identity of its item, and the item changes it no more.
  take_in-IsSettled :
      (x : Item) (found : Option (SourceRecord Url)) (p : PolledRecord Url)
      → take_in intake x found ≡ ok (some p)
      → (p.record_.upstream_id ≡ id_of x) × IsSettled intake x p.record_
  unfolding take_in
  take_in-IsSettled x none p h =
      let (a, made, h₁) = >>=-eq-ok (map_err parse_error (fresh x)) _ h in
      let e : polled a deliver ≡ p = cc h₁ in
      subst
        (λ (q : PolledRecord Url). (q.record_.upstream_id ≡ id_of x) × IsSettled intake x q.record_)
        e (law.fresh_id x a (map_err-ok parse_error (fresh x) made))
  take_in-IsSettled x (some old) p h =
      let (r, made, h₁) = >>=-eq-ok (map_err parse_error (revise_by old x)) _ h in
      let e : by_effect r.record_ r.effect ≡ some p = cc h₁ in
      subst (λ a. (a.upstream_id ≡ id_of x) × IsSettled intake x a)
        (by_effect-record r.record_ r.effect p e)
        (law.revise_id old x r (map_err-ok parse_error (revise_by old x) made))

  take_in-again :
      (x : Item) (a : SourceRecord Url) → IsSettled intake x a → take_in intake x (some a) ≡ ok none
  unfolding take_in by_effect
  take_in-again x a (b, e) = rw e refl

  step-IsSettled :
      (x : Item) (p : PolledRecord Url)
      → step intake x ≡ ok (some p)
      → (p.record_.upstream_id ≡ id_of x) × IsSettled intake x p.record_
  unfolding step
  step-IsSettled x p h =
      let (found, _, h₁) = >>=-eq-ok (map_err store (record_by_upstream (id_of x))) _ h in
      take_in-IsSettled x found p h₁

  keeps-skip :
      (x : Item) (value : Option (PolledRecord Url)) (rest : List (Option (PolledRecord Url)))
      (k : Text)
      → step intake x ≡ ok value
      → (id_of x == k) ≡ false
      → keeps (cat_options (value ∷ rest)) record_by_upstream k
        ≡ keeps (cat_options rest) record_by_upstream k
  unfolding keeps
  keeps-skip x none rest k took other = refl
  keeps-skip x (some p) rest k took other = rw ((step-IsSettled x p took).0, other) refl

  -- An item of another identity leaves the answer as it was.
  keeps-other :
      (xs : List Item) (values : List (Option (PolledRecord Url))) (k : Text)
      → traverse (step intake) xs ≡ ok values
      → contains (map id_of xs) k ≡ false
      → keeps (cat_options values) record_by_upstream k ≡ record_by_upstream k
  unfolding traverse contains keeps
  keeps-other [] values k h d =
      let e : [] ≡ values = cc h in
      subst (λ v. keeps (cat_options v) record_by_upstream k ≡ record_by_upstream k) e refl
  keeps-other (x ∷ xs) values k h d =
      let (value, took, h₁) = >>=-eq-ok (step intake x) _ h in
      let (rest, there, h₂) = >>=-eq-ok (traverse (step intake) xs) _ h₁ in
      let e : value ∷ rest ≡ values = cc h₂ in
      subst (λ v. keeps (cat_options v) record_by_upstream k ≡ record_by_upstream k) e
        (keeps-skip x value rest k took (ground arith) ∙ keeps-other xs rest k there (ground arith))

  -- The head of a response whose values the store keeps.
  step-committed :
      (x : Item) (value : Option (PolledRecord Url)) (rest : List (Option (PolledRecord Url)))
      (records : List (PolledRecord Url))
      → step intake x ≡ ok value
      → keeps (cat_options rest) record_by_upstream (id_of x) ≡ record_by_upstream (id_of x)
      → keeps records record_by_upstream (id_of x)
        ≡ keeps (cat_options (value ∷ rest)) record_by_upstream (id_of x)
      → step (committed records intake) x ≡ ok none
  unfolding step committed keeps
  step-committed x none rest records took other kept = rw (kept, other) took
  step-committed x (some p) rest records took other kept =
      let (same, settled) = step-IsSettled x p took in
      let answer : keeps records record_by_upstream (id_of x) ≡ ok (some p.record_) =
        kept ∙ rw (same, ==_refl (id_of x)) refl in
      rw answer (take_in-again x p.record_ settled)

  steps-committed :
      (xs : List Item) (values : List (Option (PolledRecord Url)))
      (records : List (PolledRecord Url))
      → traverse (step intake) xs ≡ ok values
      → IsDistinct (map id_of xs)
      → ((k : Text)
          → contains (map id_of xs) k ≡ true
          → keeps records record_by_upstream k ≡ keeps (cat_options values) record_by_upstream k)
      → All (λ x. step (committed records intake) x ≡ ok none) xs
  unfolding traverse contains
  steps-committed [] values records h d agree = tt
  steps-committed (x ∷ xs) values records h d agree =
      let (value, took, h₁) = >>=-eq-ok (step intake x) _ h in
      let (rest, there, h₂) = >>=-eq-ok (traverse (step intake) xs) _ h₁ in
      let e : value ∷ rest ≡ values = cc h₂ in
      let agrees : (k : Text)
          → contains (map id_of (x ∷ xs)) k ≡ true
          → keeps records record_by_upstream k
            ≡ keeps (cat_options (value ∷ rest)) record_by_upstream k =
        subst
          (λ v.
            (k : Text)
            → contains (map id_of (x ∷ xs)) k ≡ true
            → keeps records record_by_upstream k ≡ keeps (cat_options v) record_by_upstream k)
          (sym e) agree in
      (
        step-committed x value rest records took (keeps-other xs rest (id_of x) there d.0)
            (agrees (id_of x) (rw (==_refl (id_of x)) refl)),
        steps-committed xs rest records there d.1 (λ k m.
            agrees k (ground arith)
            ∙ keeps-skip x value rest k took (contains-apart (map id_of xs) (id_of x) k d.0 m)),
      )

traverse-none :
    {E A B : Type 0} (f : A → Result E (Option B)) (xs : List A)
    → All (λ x. f x ≡ ok none) xs
    → traverse f xs ≡ ok (map (λ _. none) xs)
unfolding traverse
traverse-none f [] h = refl
traverse-none f (x ∷ xs) h = rw (h.0, traverse-none f xs h.1) refl

cat_options-none : {A B : Type 0} (xs : List A) → cat_options {A = B} (map (λ _. none) xs) ≡ []
cat_options-none [] = refl
cat_options-none (x ∷ xs) = cat_options-none xs

-- A response that was taken in leaves nothing to commit when it is received again.
pub batch-committed :
    {Url Item : Type 0} (intake : Intake Url Item)
    → IsReviser intake
    → (xs : List Item) {records : List (PolledRecord Url)} → batch intake [] xs ≡ ok records
    → batch (committed records intake) [] xs ≡ ok []
unfolding committed
batch-committed intake law xs {records = records} h =
    let b = (batch_iff intake xs records).0 h in
    let each =
      steps-committed intake law xs b.values records b.taken_in b.distinct
        (λ k _. ap (λ rs. keeps rs intake.record_by_upstream k) b.kept) in
    (batch_iff (committed records intake) xs []).1 (record {
      distinct = b.distinct;
      values = map (λ _. none) xs;
      taken_in = traverse-none (step (committed records intake)) xs each;
      kept = sym (cat_options-none xs);
    })
