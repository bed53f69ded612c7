-- ===== src/Ingest/Record/Dropbox.antt =====
-- What the listing of a Dropbox archive may change of a record.
use inoreader.Prelude.{
  ◌≡◌, refl, sym, subst, false, Option, none, some, Eq, nat_eq, list_eq, option_eq, ==_refl,
  OptionAll, ok, refuse_if-ok,
}
use inoreader.Core.Publication.{DateApi, PublicationDate, day, or_else}
use inoreader.Ingest.Record.{
  SourceRecord, RecordRevision, date_eq, revise_from_record, dropbox_publication_day_conflict,
  days_differ, listed, revise_from_dropbox_listing,
}
use inoreader.Ingest.Record.Revised.{again, revise_from_record-upstream_id, revise_from_record_self}

or_else_self : (a : Option PublicationDate) → or_else a a ≡ a
or_else_self none = refl
or_else_self (some d) = refl

days_differ_self : (dates : DateApi) (a : Option PublicationDate) → days_differ dates a a ≡ false
unfolding days_differ
days_differ_self dates none = refl
days_differ_self dates (some d) = rw (==_refl ⦃e = option_eq ⦃e = dates.day_eq⦄⦄ (day dates d)) refl

module _ {Url : Type 0} where
  -- What a listing may not change.
  pub record Retains (old a : SourceRecord Url) : Type 0 where
    pub description : a.key.description ≡ old.key.description
    pub description_media_type : a.description_media_type ≡ old.description_media_type
    pub feed_content_html : a.feed_content_html ≡ old.feed_content_html
    pub published_at : OptionAll (λ d. a.published_at ≡ some d) old.published_at

module _ {Url : Type 0} ⦃e : Eq Url⦄ (dates : DateApi) where
  pub revise_from_dropbox_listing-upstream_id :
      (old value : SourceRecord Url) {r : RecordRevision Url}
      → revise_from_dropbox_listing dates old value ≡ ok r
      → r.record_.upstream_id ≡ value.upstream_id
  unfolding revise_from_dropbox_listing listed
  revise_from_dropbox_listing-upstream_id old value h =
      let (_, p) =
        refuse_if-ok (days_differ dates old.published_at value.published_at)
          dropbox_publication_day_conflict _ h in
      revise_from_record-upstream_id old (listed old value) p

  listed_self : (a : SourceRecord Url) → listed a a ≡ a
  unfolding listed
  listed_self a = rw (or_else_self a.published_at) refl

  pub revise_from_dropbox_listing_self :
      (a : SourceRecord Url) → revise_from_dropbox_listing dates a a ≡ ok (again a)
  unfolding revise_from_dropbox_listing
  revise_from_dropbox_listing_self a = rw (days_differ_self dates a.published_at) (
      subst (λ v. revise_from_record a v ≡ ok (again a)) (sym (listed_self a))
        (revise_from_record_self a))
