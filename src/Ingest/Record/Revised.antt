-- ===== src/Ingest/Record/Revised.antt =====
-- What a revision of a record keeps, when it asks for which work, and that the same content twice
-- asks for none.
use inoreader.Prelude.{
  ℕ, ◌≡◌, refl, sym, ap, ◌∙◌, subst, ◌↔◌, inl, inr, false, ◌||◌, arith, Eq, ◌!=◌, nat_eq, list_eq,
  option_eq, ==_refl, ne_iff, next_u64, ok, refuse_if-ok, Bool-cases,
}
use inoreader.Prelude.Text.{is_empty}
use inoreader.Prelude.Url.{UrlApi}
use inoreader.Core.Article.{key_beq_iff}
use inoreader.Ingest.Record.{
  SourceRecord, ParsedRecord, RecordRevision, unchanged, regroup_and_refresh, date_eq,
  needs_regrouping, needs_refresh, effect_of, revise_from_record, HasHost, from_value, from_parsed,
  revise, upstream_identity_changed, empty_upstream_identity,
}

module _ {Url : Type 0} where
  -- Two records of the same content, whatever their identities and revisions.
  pub record SameContent (a b : SourceRecord Url) : Type 0 where
    pub key : a.key ≡ b.key
    pub description_media_type : a.description_media_type ≡ b.description_media_type
    pub feed_content_html : a.feed_content_html ≡ b.feed_content_html
    pub published_at : a.published_at ≡ b.published_at
    pub categories : a.categories ≡ b.categories

  -- The revision that changes nothing but the number.
  abbrev pub again : SourceRecord Url → RecordRevision Url
  again a = record { record_ = record a { revision = next_u64 a.revision }; effect = unchanged }

module _ {Url : Type 0} ⦃e : Eq Url⦄ where
  needs_regrouping-same :
      (a b : SourceRecord Url)
      → (needs_regrouping a b ≡ false)
        ↔ ((a.key ≡ b.key) × (a.description_media_type ≡ b.description_media_type))
  unfolding needs_regrouping
  needs_regrouping-same a b = (
    λ h. (
      (key_beq_iff a.key b.key).0 (ground arith),
      (ne_iff a.description_media_type b.description_media_type).0 (ground arith),
    ),
    λ p.
        rw
          (
            (key_beq_iff a.key b.key).1 p.0,
            (ne_iff a.description_media_type b.description_media_type).1 p.1,
          )
          refl,
  )

  needs_refresh-same :
      (a b : SourceRecord Url)
      → (needs_refresh a b ≡ false) ↔ (
          (a.feed_content_html ≡ b.feed_content_html)
          × (a.published_at ≡ b.published_at)
          × (a.categories ≡ b.categories))
  unfolding needs_refresh
  needs_refresh-same a b = (
    λ h. (
      (ne_iff a.feed_content_html b.feed_content_html).0 (ground arith),
      (ne_iff a.published_at b.published_at).0 (ground arith),
      (ne_iff a.categories b.categories).0 (ground arith),
    ),
    λ p.
        rw
          (
            (ne_iff a.feed_content_html b.feed_content_html).1 p.0,
            (ne_iff a.published_at b.published_at).1 p.1,
            (ne_iff a.categories b.categories).1 p.2,
          )
          refl,
  )

  effect_of-unchanged : (a b : SourceRecord Url) → (effect_of a b ≡ unchanged) ↔ SameContent a b
  unfolding effect_of
  effect_of-unchanged a b = (
    λ h.
        let p = (needs_regrouping-same a b).0 (ground arith) in
        let q = (needs_refresh-same a b).0 (ground arith) in
        record {
          key = p.0;
          description_media_type = p.1;
          feed_content_html = q.0;
          published_at = q.1;
          categories = q.2;
        },
    λ s.
        rw
          (
            (needs_regrouping-same a b).1 (s.key, s.description_media_type),
            (needs_refresh-same a b).1 (s.feed_content_html, s.published_at, s.categories),
          )
          refl,
  )

  effect_of-regroup :
      (a b : SourceRecord Url)
      → (effect_of a b ≡ regroup_and_refresh)
        ↔ ((a.key ≡ b.key) × (a.description_media_type ≡ b.description_media_type) → ⊥)
  unfolding effect_of
  effect_of-regroup a b = (
    λ h p. absurd (ground (arith, (needs_regrouping-same a b).1 p)),
    λ n. elim (Bool-cases (needs_regrouping a b)) [
      | inl y ↦ rw y refl
      | inr y ↦ absurd (n ((needs_regrouping-same a b).0 y))
    ],
  )

  -- A revision of `old`: its identities, the next revision number, and the work asked for.
  pub record IsRevision (old : SourceRecord Url) (r : RecordRevision Url) : Type 0 where
    pub same_id : r.record_.id ≡ old.id
    pub same_source : r.record_.source_id ≡ old.source_id
    pub same_upstream : r.record_.upstream_id ≡ old.upstream_id
    pub next_revision : r.record_.revision ≡ next_u64 old.revision
    unchanged_iff : (r.effect ≡ unchanged) ↔ SameContent r.record_ old
    regroup_iff : (r.effect ≡ regroup_and_refresh) ↔ (
        (r.record_.key ≡ old.key) × (r.record_.description_media_type ≡ old.description_media_type)
        → ⊥)

  built-IsRevision :
      (old next : SourceRecord Url)
      → next.id ≡ old.id
      → next.source_id ≡ old.source_id
      → next.upstream_id ≡ old.upstream_id
      → next.revision ≡ next_u64 old.revision
      → IsRevision old (record { record_ = next; effect = effect_of next old })
  built-IsRevision old next i s u n = record {
    same_id = i;
    same_source = s;
    same_upstream = u;
    next_revision = n;
    unchanged_iff = effect_of-unchanged next old;
    regroup_iff = effect_of-regroup next old;
  }

  effect_of-same : (a b : SourceRecord Url) → SameContent a b → effect_of a b ≡ unchanged
  effect_of-same a b = (effect_of-unchanged a b).1

  -- A record revised by a record of its source keeps its identities and takes the content; the
  -- effect is as the two contents differ.
  pub revise_from_record-IsRevision :
      (old value : SourceRecord Url) {r : RecordRevision Url}
      → revise_from_record old value ≡ ok r
      → IsRevision old r × SameContent r.record_ value
  unfolding revise_from_record
  revise_from_record-IsRevision old value {r = r} h =
      let (_, p) =
        refuse_if-ok (value.upstream_id != old.upstream_id || value.source_id != old.source_id)
          upstream_identity_changed _ h in
      let q : _ ≡ r = cc p in
      subst (λ r. IsRevision old r × SameContent r.record_ value) q
        (
          built-IsRevision old _ refl refl refl refl,
          record {
            key = refl;
            description_media_type = refl;
            feed_content_html = refl;
            published_at = refl;
            categories = refl;
          },
        )

  SameContent_refl :
      (a b : SourceRecord Url)
      → a.key ≡ b.key
      → a.description_media_type ≡ b.description_media_type
      → a.feed_content_html ≡ b.feed_content_html
      → a.published_at ≡ b.published_at
      → a.categories ≡ b.categories
      → effect_of a b ≡ unchanged
  SameContent_refl a b k m f p c = effect_of-same a b (record {
    key = k;
    description_media_type = m;
    feed_content_html = f;
    published_at = p;
    categories = c;
  })

  -- Revising by the same record again changes nothing but the revision number, and says so.
  pub revise_from_record-again :
      (old value : SourceRecord Url) {r : RecordRevision Url}
      → revise_from_record old value ≡ ok r
      → revise_from_record r.record_ value ≡ ok (again r.record_)
  unfolding revise_from_record
  revise_from_record-again old value {r = r} h =
      let (g, p) =
        refuse_if-ok (value.upstream_id != old.upstream_id || value.source_id != old.source_id)
          upstream_identity_changed _ h in
      let n : SourceRecord Url = record value {
        id = old.id;
        source_id = old.source_id;
        upstream_id = old.upstream_id;
        revision = next_u64 old.revision;
      } in
      let m : SourceRecord Url = record n { revision = next_u64 n.revision } in
      let q : record { record_ = n; effect = effect_of n old } ≡ r = cc p in
      subst (λ r. revise_from_record r.record_ value ≡ ok (again r.record_)) q
        (rw (g, SameContent_refl m n refl refl refl refl refl) refl)

  pub revise_from_record-upstream_id :
      (old value : SourceRecord Url) {r : RecordRevision Url}
      → revise_from_record old value ≡ ok r
      → r.record_.upstream_id ≡ value.upstream_id
  unfolding revise_from_record
  revise_from_record-upstream_id old value {r = r} h =
      let (g, _) =
        refuse_if-ok (value.upstream_id != old.upstream_id || value.source_id != old.source_id)
          upstream_identity_changed _ h in
      (revise_from_record-IsRevision old value h).0.same_upstream
      ∙ sym ((ne_iff value.upstream_id old.upstream_id).0 (ground arith))

  -- A record changes itself in nothing but the revision number.
  pub revise_from_record_self : (a : SourceRecord Url) → revise_from_record a a ≡ ok (again a)
  unfolding revise_from_record
  revise_from_record_self a =
      let m : SourceRecord Url = record a { revision = next_u64 a.revision } in
      rw (==_refl a.upstream_id, ==_refl a.source_id, SameContent_refl m a refl refl refl refl refl)
        refl

module _ (api : UrlApi) (has_host : HasHost api) where
  open api use {Url, url_eq}

  -- What a parsed record says, as a record of the source.
  abbrev pub says : ParsedRecord Url → ℕ → SourceRecord Url
  says value source_id = from_value api has_host value 0 source_id 0

  -- A record revised by what a parser returned keeps its identities and takes the content; the
  -- effect is as the two contents differ.
  pub revise-IsRevision :
      (old : SourceRecord Url) (value : ParsedRecord Url) {r : RecordRevision Url}
      → revise api has_host ⦃e = url_eq⦄ old value ≡ ok r
      → IsRevision ⦃e = url_eq⦄ old r × SameContent r.record_ (says value old.source_id)
  unfolding revise from_value
  revise-IsRevision old value {r = r} h =
      let (g, p) =
        refuse_if-ok (value.upstream_id != old.upstream_id) upstream_identity_changed _ h in
      let q : _ ≡ r = cc p in
      let same : value.upstream_id ≡ old.upstream_id =
        (ne_iff value.upstream_id old.upstream_id).0 g in
      subst (λ r. IsRevision ⦃e = url_eq⦄ old r × SameContent r.record_ (says value old.source_id))
        q
        (
          built-IsRevision ⦃e = url_eq⦄ old _ refl refl same refl,
          record {
            key = refl;
            description_media_type = refl;
            feed_content_html = refl;
            published_at = refl;
            categories = refl;
          },
        )

  revise-from_value :
      (value : ParsedRecord Url) (id source_id revision : ℕ)
      → let a : SourceRecord Url = from_value api has_host value id source_id revision in
        revise api has_host ⦃e = url_eq⦄ a value ≡ ok (again a)
  unfolding revise from_value
  revise-from_value value id source_id revision =
      let a = from_value api has_host value id source_id revision in
      let m = from_value api has_host value id source_id (next_u64 revision) in
      rw (==_refl value.upstream_id, SameContent_refl ⦃e = url_eq⦄ m a refl refl refl refl refl)
        refl

  pub revise-again :
      (old : SourceRecord Url) (value : ParsedRecord Url) {r : RecordRevision Url}
      → revise api has_host ⦃e = url_eq⦄ old value ≡ ok r
      → revise api has_host ⦃e = url_eq⦄ r.record_ value ≡ ok (again r.record_)
  unfolding revise from_value
  revise-again old value {r = r} h =
      let (g, p) =
        refuse_if-ok (value.upstream_id != old.upstream_id) upstream_identity_changed _ h in
      let n = from_value api has_host value old.id old.source_id (next_u64 old.revision) in
      let q : record { record_ = n; effect = effect_of ⦃e = url_eq⦄ n old } ≡ r = cc p in
      subst (λ r. revise api has_host ⦃e = url_eq⦄ r.record_ value ≡ ok (again r.record_)) q
        (revise-from_value value old.id old.source_id (next_u64 old.revision))

  pub revise-upstream_id :
      (old : SourceRecord Url) (value : ParsedRecord Url) {r : RecordRevision Url}
      → revise api has_host ⦃e = url_eq⦄ old value ≡ ok r
      → r.record_.upstream_id ≡ value.upstream_id
  unfolding revise
  revise-upstream_id old value {r = r} h =
      let (g, _) =
        refuse_if-ok (value.upstream_id != old.upstream_id) upstream_identity_changed _ h in
      (revise-IsRevision old value h).0.same_upstream
      ∙ sym ((ne_iff value.upstream_id old.upstream_id).0 g)

  pub from_parsed-upstream_id :
      (id source_id : ℕ) (value : ParsedRecord Url) {a : SourceRecord Url}
      → from_parsed api has_host id source_id value ≡ ok a
      → a.upstream_id ≡ value.upstream_id
  unfolding from_parsed from_value
  from_parsed-upstream_id id source_id value {a = a} h =
      let (_, p) = refuse_if-ok (is_empty value.upstream_id) empty_upstream_identity _ h in
      let q : from_value api has_host value id source_id 0 ≡ a = cc p in
      ap (λ (b : SourceRecord Url). b.upstream_id) (sym q)

  -- The record made of what a parser returned is not changed by the same again.
  pub revise-from_parsed :
      (id source_id : ℕ) (value : ParsedRecord Url) {a : SourceRecord Url}
      → from_parsed api has_host id source_id value ≡ ok a
      → revise api has_host ⦃e = url_eq⦄ a value ≡ ok (again a)
  unfolding revise from_value from_parsed
  revise-from_parsed id source_id value {a = a} h =
      let (g, p) = refuse_if-ok (is_empty value.upstream_id) empty_upstream_identity _ h in
      let q : from_value api has_host value id source_id 0 ≡ a = cc p in
      subst (λ a. revise api has_host ⦃e = url_eq⦄ a value ≡ ok (again a)) q
        (revise-from_value value id source_id 0)
