-- ===== src/Ingest/Source/Changes.antt =====
-- Whatever is asked of a source, its address fits its kind.
use inoreader.Prelude.{
  ℕ, ◌+◌, ◌-◌, ◌≤◌, min, ◌≡◌, refl, subst, true, not, ◌&&◌, ◌||◌, List, [], ◌∷◌, ◌==◌, nat_eq,
  list_eq, arith, Result, ok, err, ◌>>=◌, >>=-eq-ok, refuse_if-ok, is_some, u64_mod,
}
use inoreader.Prelude.Text.{codes}
use inoreader.Prelude.Url.{UrlApi}
use inoreader.Ingest.Record.{ModelError, invalid_source_url}
use inoreader.Ingest.Source
use inoreader.Ingest.Source.{
  UrlParts, SourceKind, SourceDefinition, is_telegram, is_zhihu, is_channel_url, author, new,
}

-- What may be asked of a source.
pub data Call (Url : Type 0) : Type 0 where
  with_url : Url → Call Url
  revise_kind : SourceKind Url → Call Url

abbrev pub counted : {Url : Type 0} → Call Url → ℕ
counted (with_url url) = 0
counted (revise_kind kind) = 1

module _ (api : UrlApi) (parts : UrlParts api.Url) where
  open api use {Url, scheme, host_str}

  unfoldable pub call : SourceDefinition Url → Call Url → Result ModelError (SourceDefinition Url)
  unfolding Source.with_url Source.revise_kind
  call s (with_url url) = Source.with_url api parts s url
  call s (revise_kind kind) = Source.revise_kind api parts s kind

  -- The source after a call, and how many changes of its kind were granted by then.
  abbrev pub settle :
      SourceDefinition Url × ℕ
      → ℕ
      → Result ModelError (SourceDefinition Url)
      → SourceDefinition Url × ℕ
  settle (s, n) more (ok t) = (t, n + more)
  settle (s, n) more (err e) = (s, n)

  unfoldable pub run : SourceDefinition Url × ℕ → List (Call Url) → SourceDefinition Url × ℕ
  unfolding call
  run s [] = s
  run s (c ∷ cs) = run (settle s (counted c) (call s.0 c)) cs

  -- The address is one that the kind of the source is collected from.
  pub record IsAddressed (s : SourceDefinition Url) : Type 0 where
    pub is_http : (scheme s.url == codes "http" || scheme s.url == codes "https") ≡ true
    pub has_host : is_some (host_str s.url) ≡ true
    pub channel : (not (is_telegram s.kind) || is_channel_url api parts s.url) ≡ true
    pub author_ : (not (is_zhihu s.kind) || is_some (author api parts s.url)) ≡ true

  new-IsAddressed :
      (id : ℕ) (url : Url) (kind : SourceKind Url) {s : SourceDefinition Url}
      → new api parts id url kind ≡ ok s
      → (s ≡ record { id = id; url = url; kind = kind; revision = 0 }) × IsAddressed s
  unfolding new
  new-IsAddressed id url kind {s = s} h =
      let (a, h₁) =
        refuse_if-ok
          (not (scheme url == codes "http" || scheme url == codes "https")
            || not (is_some (host_str url)))
          invalid_source_url _ h in
      let (b, h₂) =
        refuse_if-ok (is_telegram kind && not (is_channel_url api parts url)) invalid_source_url _
          h₁ in
      let (c, h₃) =
        refuse_if-ok (is_zhihu kind && not (is_some (author api parts url))) invalid_source_url _
          h₂ in
      let e : record { id = id; url = url; kind = kind; revision = 0 } ≡ s = cc h₃ in
      subst (λ s. (s ≡ record { id = id; url = url; kind = kind; revision = 0 }) × IsAddressed s) e
        (
          refl,
          record {
            is_http = ground arith;
            has_host = ground arith;
            channel = ground arith;
            author_ = ground arith;
          },
        )

  -- What becomes of the source `first` after calls of which `n` changed its kind.
  pub record IsReached (first : SourceDefinition Url) (s : SourceDefinition Url) (n : ℕ)
      : Type 0 where
    pub same_id : s.id ≡ first.id
    pub counted_revision : s.revision ≡ min (first.revision + n) (u64_mod - 1)
    pub addressed : IsAddressed s

  with_revision-IsReached :
      (first s : SourceDefinition Url) (url : Url) (kind : SourceKind Url) (revision n : ℕ)
      {t : SourceDefinition Url}
      → s.id ≡ first.id
      → revision ≡ min (first.revision + n) (u64_mod - 1)
      → (new api parts s.id url kind >>= λ v. ok (record v { revision = revision })) ≡ ok t
      → IsReached first t n
  with_revision-IsReached first s url kind revision n {t = t} i r h =
      let (v, made, e) = >>=-eq-ok (new api parts s.id url kind) _ h in
      let (same, a) = new-IsAddressed s.id url kind made in
      let q : record v { revision = revision } ≡ t = cc e in
      subst (λ t. IsReached first t n) q
        (record {
          same_id = cc (same, i);
          counted_revision = r;
          addressed = record {
            is_http = a.is_http;
            has_host = a.has_host;
            channel = a.channel;
            author_ = a.author_;
          };
        })

  settle-IsReached :
      (first s : SourceDefinition Url) (n more : ℕ) (r : Result ModelError (SourceDefinition Url))
      → ((t : SourceDefinition Url) → r ≡ ok t → IsReached first t (n + more))
      → IsReached first s n
      → IsReached first (settle (s, n) more r).0 (settle (s, n) more r).1
  settle-IsReached first s n more (ok t) f h = f t refl
  settle-IsReached first s n more (err e) f h = h

  call-IsReached :
      (first s : SourceDefinition Url) (n : ℕ) (c : Call Url) (t : SourceDefinition Url)
      → IsReached first s n
      → call s c ≡ ok t
      → IsReached first t (n + counted c)
  unfolding call Source.with_url Source.revise_kind
  call-IsReached first s n (with_url url) t h e =
      with_revision-IsReached first s url s.kind s.revision (n + 0) h.same_id
        (omega (arith, h.counted_revision)) e
  call-IsReached first s n (revise_kind kind) t h e =
      with_revision-IsReached first s s.url kind (min (s.revision + 1) (u64_mod - 1)) (n + 1)
        h.same_id (omega (arith, h.counted_revision)) e

  run-IsReached_from :
      (first s : SourceDefinition Url) (n : ℕ) (cs : List (Call Url))
      → IsReached first s n
      → IsReached first (run (s, n) cs).0 (run (s, n) cs).1
  unfolding run
  run-IsReached_from first s n [] h = h
  run-IsReached_from first s n (c ∷ cs) h =
      let next = settle (s, n) (counted c) (call s c) in
      run-IsReached_from first next.0 next.1 cs (
        settle-IsReached first s n (counted c) (call s c) (λ t e. call-IsReached first s n c t h e)
          h)

  -- A source read from its stored form keeps its identity and an address that fits its kind
  -- through any sequence of `with_url` and `revise_kind` calls, refused ones included; its
  -- revision, a u64, counts the granted changes of kind and stops at its maximum.
  pub run-IsReached :
      (raw : SourceDefinition Url) (cs : List (Call Url)) {s : SourceDefinition Url}
      → Source.try_from_draft api parts raw ≡ ok s
      → raw.revision ≤ u64_mod - 1
      → IsReached raw (run (s, 0) cs).0 (run (s, 0) cs).1
  unfolding Source.try_from_draft
  run-IsReached raw cs {s = s} h bound =
      run-IsReached_from raw s 0 cs
        (with_revision-IsReached raw raw raw.url raw.kind raw.revision 0 refl (omega arith) h)
