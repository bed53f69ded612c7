-- ===== src/Ingest/Source.antt =====
-- crates/reader-ingest/src/model/mod.rs: what a source is and how it may change, with the test of a
-- Zhihu author's address from zhihu/mod.rs, and the limits of ingestion.
pub mod Changes
use inoreader.Prelude.{
  ℕ, ◌+◌, ◌-◌, ◌^◌, min, Bool, true, false, not, ◌&&◌, ◌||◌, Option, none, some, List, [], ◌∷◌,
  ◌==◌, ◌!=◌, nat_eq, list_eq, option_eq, if◌then◌else◌, eqb, Result, ok, err, ◌>>=◌, ◌>>◌,
  refuse_if, is_some, all, u64_mod,
}
use inoreader.Prelude.Text.{Text, codes, is_empty, split, trim_matches, is_ascii_alphanumeric}
use inoreader.Prelude.Url.{UrlApi}
use inoreader.Core.WebFeed.{WebFeedRecipe}
use inoreader.Ingest.Record.{ModelError, invalid_source_url, zero_limit}

-- More of the `url` crate: the parts of a URL that a source's address is tested by.
pub record UrlParts (Url : Type 0) : Type 0 where
  pub port : Url → Option ℕ
  pub path : Url → Text
  pub query : Url → Option Text
  pub fragment : Url → Option Text

-- A `NonZeroUsize` is its number.
pub data BuiltInAdapter (Url : Type 0) : Type 0 where
  cloudera : Url → BuiltInAdapter Url
  digoal : Url → BuiltInAdapter Url
  mirrorship : BuiltInAdapter Url
  dropbox : BuiltInAdapter Url
  zhihu : ℕ → BuiltInAdapter Url
  telegram : ℕ → BuiltInAdapter Url
  pingkai : Url → BuiltInAdapter Url
  modb_news : BuiltInAdapter Url
  infoq_bigdata : BuiltInAdapter Url
  volcengine : BuiltInAdapter Url
  jd_cloud : ℕ → BuiltInAdapter Url
  highgo : ℕ → BuiltInAdapter Url

pub data SourceKind (Url : Type 0) : Type 0 where
  auto : SourceKind Url
  xml_feed : SourceKind Url
  rss_coalesce_identical : SourceKind Url
  json_feed : SourceKind Url
  web_page : WebFeedRecipe Url → SourceKind Url
  built_in : BuiltInAdapter Url → SourceKind Url

pub record SourceDefinition (Url : Type 0) : Type 0 where
  pub id : ℕ
  pub url : Url
  pub kind : SourceKind Url
  pub revision : ℕ  -- u64

unfoldable pub is_telegram : {Url : Type 0} → SourceKind Url → Bool
is_telegram (built_in (telegram n)) = true
is_telegram _ = false

unfoldable pub is_zhihu : {Url : Type 0} → SourceKind Url → Bool
is_zhihu (built_in (zhihu n)) = true
is_zhihu _ = false

-- The parts of the path of an author's page that `author` takes apart.
unfoldable pub is_author_name : Text → Bool
unfolding is_empty is_ascii_alphanumeric
is_author_name name =
    not (is_empty name) && all (λ c. is_ascii_alphanumeric c || c == b'-' || c == b'_') name

unfoldable pub author_of_parts : Text → Text → Option Text
unfolding is_author_name
author_of_parts section_ name =
    if (section_ == codes "people" || section_ == codes "org") && is_author_name name
    then some name
    else none

unfoldable pub author_of_path : List Text → Option Text
unfolding author_of_parts
author_of_path (root ∷ section_ ∷ name ∷ []) = author_of_parts section_ name
author_of_path (root ∷ section_ ∷ name ∷ last ∷ []) =
    if last == codes "posts" then author_of_parts section_ name else none
author_of_path _ = none

module _ (api : UrlApi) (parts : UrlParts api.Url) where
  open api use {Url, scheme, host_str, username, password}

  -- Neither a port, nor credentials, nor a query, nor a fragment.
  unfoldable pub is_plain : Url → Bool
  unfolding is_empty
  is_plain u =
      not (is_some (parts.query u))
      && not (is_some (parts.fragment u))
      && not (is_some (parts.port u))
      && is_empty (username u)
      && not (is_some (password u))

  -- `zhihu::author`
  unfoldable pub author : Url → Option Text
  unfolding is_plain author_of_path split
  author u =
      if scheme u == codes "https" && host_str u == some (codes "www.zhihu.com") && is_plain u
      then author_of_path (split b'/' (parts.path u))
      else none

  unfoldable pub is_channel_url : Url → Bool
  unfolding is_plain is_empty is_ascii_alphanumeric trim_matches
  is_channel_url u =
      let channel = trim_matches b'/' (parts.path u) in
      scheme u == codes "https"
      && host_str u == some (codes "t.me")
      && not (is_empty channel)
      && all (λ c. is_ascii_alphanumeric c || c == b'_') channel
      && is_plain u

  unfoldable pub new : ℕ → Url → SourceKind Url → Result ModelError (SourceDefinition Url)
  unfolding is_telegram is_zhihu is_channel_url author
  new id url kind = do
    refuse_if
        (not (scheme url == codes "http" || scheme url == codes "https")
          || not (is_some (host_str url)))
        invalid_source_url
    refuse_if (is_telegram kind && not (is_channel_url url)) invalid_source_url
    refuse_if (is_zhihu kind && not (is_some (author url))) invalid_source_url
    ok (record { id = id; url = url; kind = kind; revision = 0 })

  -- `TryFrom<SourceDefinitionDraft>`, whose draft has the same fields
  unfoldable pub try_from_draft : SourceDefinition Url → Result ModelError (SourceDefinition Url)
  unfolding new
  try_from_draft raw = do
    source ← new raw.id raw.url raw.kind
    ok (record source { revision = raw.revision })

  unfoldable pub with_url : SourceDefinition Url → Url → Result ModelError (SourceDefinition Url)
  unfolding new
  with_url s url = do value ← new s.id url s.kind; ok (record value { revision = s.revision })

  -- `saturating_add` on a u64
  unfoldable pub revise_kind :
      SourceDefinition Url → SourceKind Url → Result ModelError (SourceDefinition Url)
  unfolding new
  revise_kind s kind = do
    value ← new s.id s.url kind
    ok (record value { revision = min (s.revision + 1) (u64_mod - 1) })

pub record IngestLimits : Type 0 where
  pub initial_feed_items : ℕ
  pub fanout_batch : ℕ
  pub content_chunk_bytes : ℕ
  pub max_input_bytes : ℕ
  pub max_extracted_bytes : ℕ

-- `NonZeroUsize::new(value).ok_or(ModelError::ZeroLimit { field })`
abbrev pub non_zero : Text → ℕ → Result ModelError ℕ
non_zero field value = if eqb value 0 then err (zero_limit field) else ok value

unfoldable pub new_limits : ℕ → ℕ → ℕ → ℕ → ℕ → Result ModelError IngestLimits
new_limits initial_feed_items fanout_batch content_chunk_bytes max_input_bytes max_extracted_bytes =
    do
      a ← non_zero (codes "initial_feed_items") initial_feed_items
      b ← non_zero (codes "fanout_batch") fanout_batch
      c ← non_zero (codes "content_chunk_bytes") content_chunk_bytes
      d ← non_zero (codes "max_input_bytes") max_input_bytes
      e ← non_zero (codes "max_extracted_bytes") max_extracted_bytes
      ok (record {
        initial_feed_items = a;
        fanout_batch = b;
        content_chunk_bytes = c;
        max_input_bytes = d;
        max_extracted_bytes = e;
      })
