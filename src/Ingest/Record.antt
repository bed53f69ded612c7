-- ===== src/Ingest/Record.antt =====
-- crates/reader-ingest/src/model/mod.rs: the records of a source and their revision, from what the
-- parsers of crates/reader-collectors/src/feed.rs return.
pub mod Revised
pub mod Dropbox
use inoreader.Prelude.{
  ℕ, Bool, true, false, not, ◌&&◌, ◌||◌, Option, none, some, List, Eq, ◌!=◌, ◌==◌, nat_eq, list_eq,
  option_eq, if◌then◌else◌, next_u64, Result, ok, err, ◌>>=◌, ◌>>◌, refuse_if, is_some, eq_of_==,
  ==_refl, refl, ◌≡◌, ◌↔◌, ap,
}
use inoreader.Prelude.Text.{Text, is_empty}
use inoreader.Prelude.Url.{UrlApi}
use inoreader.Core.Article.{ArticleLocation, DedupKey, url, source_record, key_beq}
use inoreader.Core.Publication.{DateApi, PublicationDate, same_text, day, or_else}

pub record ParsedRecord (Url : Type 0) : Type 0 where
  pub categories : Option (List Text)
  pub upstream_id : Text
  pub original_url : Text
  pub absolute_url : Option Url
  pub title : Text
  pub description : Option Text
  pub description_media_type : Option Text
  pub content_html : Option Text
  pub published_at : Option PublicationDate

pub record SourceRecord (Url : Type 0) : Type 0 where
  pub id : ℕ
  pub source_id : ℕ
  pub upstream_id : Text
  pub key : DedupKey Url
  pub categories : Option (List Text)
  pub description_media_type : Option Text
  pub feed_content_html : Option Text
  pub published_at : Option PublicationDate
  pub revision : ℕ  -- u64

pub data ModelError : Type 0 where
  dropbox_publication_day_conflict : ModelError
  invalid_source_url : ModelError
  empty_upstream_identity : ModelError
  upstream_identity_changed : ModelError
  zero_limit : Text → ModelError

pub data RecordRevisionEffect : Type 0 where
  unchanged : RecordRevisionEffect
  refresh_content : RecordRevisionEffect
  regroup_and_refresh : RecordRevisionEffect

pub record RecordRevision (Url : Type 0) : Type 0 where
  pub record_ : SourceRecord Url
  pub effect : RecordRevisionEffect

pub same_text_iff : (a b : PublicationDate) → (same_text a b ≡ true) ↔ (a ≡ b)
unfolding same_text
same_text_iff a b =
    (λ h. ap (λ t. record { raw = t }) (eq_of_== a.raw b.raw h), λ p. cc (p, ==_refl b.raw))

instance abbrev pub date_eq : Eq PublicationDate
date_eq = record { beq = same_text; beq_iff = same_text_iff }

-- The two comparisons of a revision, and what follows from them.
module _ {Url : Type 0} ⦃e : Eq Url⦄ where
  unfoldable pub needs_regrouping : SourceRecord Url → SourceRecord Url → Bool
  needs_regrouping next old =
      not (key_beq next.key old.key) || next.description_media_type != old.description_media_type

  unfoldable pub needs_refresh : SourceRecord Url → SourceRecord Url → Bool
  needs_refresh next old =
      next.feed_content_html != old.feed_content_html
      || next.published_at != old.published_at
      || next.categories != old.categories

  unfoldable pub effect_of : SourceRecord Url → SourceRecord Url → RecordRevisionEffect
  unfolding needs_regrouping needs_refresh
  effect_of next old =
      if needs_regrouping next old
      then regroup_and_refresh
      else (if needs_refresh next old then refresh_content else unchanged)

  unfoldable pub revise_from_record :
      SourceRecord Url → SourceRecord Url → Result ModelError (RecordRevision Url)
  unfolding effect_of
  revise_from_record old value = do
    refuse_if (value.upstream_id != old.upstream_id || value.source_id != old.source_id)
        upstream_identity_changed
    let next : SourceRecord Url = record value {
      id = old.id;
      source_id = old.source_id;
      upstream_id = old.upstream_id;
      revision = next_u64 old.revision;
    }
    ok (record { record_ = next; effect = effect_of next old })

-- `zip(..).is_some_and(|(old, new)| old.day() != new.day())`. The dates of records
-- are made by `PublicationDate::parse` and `try_from`, on which `day` returns.
module _ (dates : DateApi) where
  unfoldable pub days_differ : Option PublicationDate → Option PublicationDate → Bool
  days_differ (some old) (some new) =
      not ((option_eq ⦃e = dates.day_eq⦄).beq (day dates old) (day dates new))
  days_differ _ _ = false

module _ {Url : Type 0} where
  -- What a Dropbox listing says, with the fields that it cannot say taken from the record.
  unfoldable pub listed : SourceRecord Url → SourceRecord Url → SourceRecord Url
  listed old value = record value {
    key = record value.key { description = old.key.description };
    description_media_type = old.description_media_type;
    feed_content_html = old.feed_content_html;
    published_at = or_else old.published_at value.published_at;
  }

module _ {Url : Type 0} ⦃e : Eq Url⦄ (dates : DateApi) where
  unfoldable pub revise_from_dropbox_listing :
      SourceRecord Url → SourceRecord Url → Result ModelError (RecordRevision Url)
  unfolding days_differ revise_from_record listed
  revise_from_dropbox_listing old value = do
    refuse_if (days_differ dates old.published_at value.published_at)
        dropbox_publication_day_conflict
    revise_from_record old (listed old value)

-- `url::Url::has_host`
abbrev pub HasHost : UrlApi → Type 0
HasHost api = api.Url → Bool

module _ (api : UrlApi) (has_host : HasHost api) where
  open api use {Url, parse, as_str}

  -- The authored spelling where it is an absolute URL with a host, else that of the URL fetched.
  unfoldable pub exact_spelling : Text → Url → Text
  exact_spelling original fetch = spelled (parse original)
    where
      spelled : Option Url → Text
      spelled none = as_str fetch
      spelled (some u) = if has_host u then original else as_str fetch

  unfoldable pub article_location : ParsedRecord Url → ℕ → ArticleLocation Url
  unfolding exact_spelling
  article_location value source_id = located value.absolute_url
    where
      located : Option Url → ArticleLocation Url
      located (some fetch) = url (exact_spelling value.original_url fetch) fetch
      located none = source_record source_id value.upstream_id

  -- The record of the given identities that says what `value` does.
  unfoldable pub from_value : ParsedRecord Url → ℕ → ℕ → ℕ → SourceRecord Url
  unfolding article_location
  from_value value id source_id revision = record {
    id = id;
    source_id = source_id;
    upstream_id = value.upstream_id;
    key = record {
      location = article_location value source_id;
      title = value.title;
      description = value.description;
    };
    categories = value.categories;
    description_media_type = value.description_media_type;
    feed_content_html = value.content_html;
    published_at = value.published_at;
    revision = revision;
  }

  unfoldable pub from_parsed : ℕ → ℕ → ParsedRecord Url → Result ModelError (SourceRecord Url)
  unfolding from_value is_empty
  from_parsed id source_id value = do
    refuse_if (is_empty value.upstream_id) empty_upstream_identity
    ok (from_value value id source_id 0)

  unfoldable pub revise :
      ⦃e : Eq Url⦄ → SourceRecord Url → ParsedRecord Url → Result ModelError (RecordRevision Url)
  unfolding from_value effect_of
  revise old value = do
    refuse_if (value.upstream_id != old.upstream_id) upstream_identity_changed
    let next : SourceRecord Url = from_value value old.id old.source_id (next_u64 old.revision)
    ok (record { record_ = next; effect = effect_of next old })
