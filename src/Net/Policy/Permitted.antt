-- ===== src/Net/Policy/Permitted.antt =====
-- Which URLs a policy lets through, and what narrowing it to one origin does.
use inoreader.Prelude.{
  is_some, ◌≡◌, refl, sym, ◌↔◌, ◌⊎◌, inl, inr, true, false, not, ◌||◌, Option, none, some, [], ◌∷◌,
  arith, ◌==◌, nat_eq, list_eq, option_eq, eq_of_==, ==_refl, list_beq, Result, ok, refuse_if,
  refuse_if-ok, >>=-eq-ok, Bool-cases, subst, ◌>>=◌,
}
use inoreader.Prelude.Text.{Text, codes, is_empty}
use inoreader.Prelude.Url.{UrlApi}
use inoreader.Net.Error.{origin_not_allowed, missing_host, url_credentials_forbidden, OutboundError}
use inoreader.Net.Address.{ip_eq}
use inoreader.Net.Policy.{
  OutboundPolicy, Origin, origin_eq, origin, is_other_origin, check_scheme, validate_url,
  restricted_to_origin, is_listed,
}

module _ (api : UrlApi) where
  open api use {Url, scheme, host_str, username, password}

  -- HTTPS, or HTTP where the policy allows it for every host or for this one.
  abbrev pub HasScheme : OutboundPolicy → Url → Type 0
  HasScheme p url =
      (scheme url ≡ codes "https")
      ⊎ ((scheme url ≡ codes "http")
          × ((p.allow_plain_http ≡ true)
              ⊎ (is_listed p.allowed_plain_http_hosts (host_str url) ≡ true)))

  abbrev pub HasOrigin : Option Origin → Url → Type 0
  HasOrigin none url = Unit
  HasOrigin (some allowed) url = origin api url ≡ allowed

  -- What a policy asks of a URL, test by test.
  pub record IsPermitted (p : OutboundPolicy) (url : Url) : Type 0 where
    pub same_origin : HasOrigin p.allowed_origin url
    pub has_scheme : HasScheme p url
    pub has_host : is_some (host_str url) ≡ true
    pub anonymous : (username url ≡ []) × (password url ≡ none)

http-ne-https : (codes "http" == codes "https") ≡ false
unfolding list_beq
http-ne-https = refl

is_empty-nil : (s : Text) → is_empty s ≡ true → s ≡ []
unfolding is_empty
is_empty-nil [] h = refl
is_empty-nil (c ∷ s) h = absurd (cc h)

module _ (api : UrlApi) where
  open api use {Url, scheme, host_str, username, password}

  origin_sound :
      (o : Option Origin) (url : Url)
      → is_other_origin o (origin api url) ≡ false
      → HasOrigin api o url
  origin_sound none url h = tt
  origin_sound (some allowed) url h = sym (eq_of_== allowed (origin api url) (ground arith))

  origin_complete :
      (o : Option Origin) (url : Url)
      → HasOrigin api o url
      → is_other_origin o (origin api url) ≡ false
  origin_complete none url h = refl
  origin_complete (some allowed) url h = rw h (rw (==_refl allowed))

  scheme_sound :
      (p : OutboundPolicy) (url : Url)
      → check_scheme p (scheme url) (host_str url) ≡ ok tt
      → HasScheme api p url
  unfolding check_scheme
  scheme_sound p url h = elim (Bool-cases (scheme url == codes "https")) [
    | inl secure ↦ inl (eq_of_== (scheme url) (codes "https") secure)
    | inr other ↦ elim (Bool-cases (scheme url == codes "http")) [
      | inl plain ↦ inr (eq_of_== (scheme url) (codes "http") plain, ground arith)
      | inr alien ↦ absurd (ground arith)
    ]
  ]

  scheme_complete :
      (p : OutboundPolicy) (url : Url)
      → HasScheme api p url
      → check_scheme p (scheme url) (host_str url) ≡ ok tt
  unfolding check_scheme
  scheme_complete p url (inl secure) = rw secure (rw (==_refl (codes "https")))
  scheme_complete p url (inr (plain, inl open_)) =
      rw plain (rw (http-ne-https, ==_refl (codes "http"), open_))
  scheme_complete p url (inr (plain, inr listed)) =
      rw plain (rw (http-ne-https, ==_refl (codes "http")) (ground arith))

  pub validate_url-IsPermitted :
      (p : OutboundPolicy) (url : Url) → validate_url api p url ≡ ok tt → IsPermitted api p url
  unfolding validate_url
  validate_url-IsPermitted p url h =
      let (same, h₁) =
        refuse_if-ok (is_other_origin p.allowed_origin (origin api url)) origin_not_allowed
          (λ _. check_scheme p (scheme url) (host_str url) >>= λ _. host_and_user) h in
      let (u, allowed, h₂) =
        >>=-eq-ok (check_scheme p (scheme url) (host_str url)) (λ _. host_and_user) h₁ in
      let (hosted, h₃) = refuse_if-ok (not (is_some (host_str url))) missing_host (λ _. user) h₂ in
      record {
        same_origin = origin_sound p.allowed_origin url same;
        has_scheme = scheme_sound p url allowed;
        has_host = ground arith;
        anonymous = (is_empty-nil (username url) (ground arith), ground arith);
      }
    where
      user : Result OutboundError (Unit {0})
      user =
          refuse_if (not (is_empty (username url)) || is_some (password url))
            url_credentials_forbidden

      host_and_user : Result OutboundError (Unit {0})
      host_and_user = refuse_if (not (is_some (host_str url))) missing_host >>= λ _. user

  IsPermitted-validate_url :
      (p : OutboundPolicy) (url : Url) → IsPermitted api p url → validate_url api p url ≡ ok tt
  unfolding validate_url is_empty
  IsPermitted-validate_url p url h = rw (
    origin_complete p.allowed_origin url h.same_origin,
    scheme_complete p url h.has_scheme,
    h.has_host,
    h.anonymous.0,
    h.anonymous.1,
  )

  -- A URL is accepted exactly if it has the one allowed origin, where there is one; its scheme is
  -- HTTPS, or HTTP allowed for every host or for its own; it has a host; and it has no credentials.
  pub validate_url_iff :
      (p : OutboundPolicy) (url : Url) → (validate_url api p url ≡ ok tt) ↔ IsPermitted api p url
  validate_url_iff p url = (validate_url-IsPermitted p url, IsPermitted-validate_url p url)

  narrowed :
      (p : OutboundPolicy) (o : Origin) (next : Url)
      → (validate_url api (record p { allowed_origin = some o }) next ≡ ok tt) ↔ (
          (validate_url api (record p { allowed_origin = none }) next ≡ ok tt)
          × (origin api next ≡ o))
  narrowed p o next = (
    λ h.
        let t = validate_url-IsPermitted (record p { allowed_origin = some o }) next h in
        (
          IsPermitted-validate_url (record p { allowed_origin = none }) next
              (record {
                same_origin = tt;
                has_scheme = t.has_scheme;
                has_host = t.has_host;
                anonymous = t.anonymous;
              }),
          t.same_origin,
        ),
    λ (h, same).
        let t = validate_url-IsPermitted (record p { allowed_origin = none }) next h in
        IsPermitted-validate_url (record p { allowed_origin = some o }) next
          (record {
            same_origin = same;
            has_scheme = t.has_scheme;
            has_host = t.has_host;
            anonymous = t.anonymous;
          }),
  )

  -- A policy narrowed to the origin of a URL accepts exactly the URLs of that origin that the
  -- policy itself, with no origin set, would accept; and the narrowing succeeds only for a URL that
  -- the policy accepts.
  pub restricted_to_origin_lem :
      (p : OutboundPolicy) (url : Url) {q : OutboundPolicy}
      → restricted_to_origin api p url ≡ ok q
      → (validate_url api p url ≡ ok tt)
        × ((next : Url)
            → (validate_url api q next ≡ ok tt) ↔ (
                (validate_url api (record p { allowed_origin = none }) next ≡ ok tt)
                × (origin api next ≡ origin api url)))
  unfolding restricted_to_origin
  restricted_to_origin_lem p url {q} h =
      let (u, accepted, built) =
        >>=-eq-ok (validate_url api p url)
          (λ _. ok (record p { allowed_origin = some (origin api url) })) h in
      let e : record p { allowed_origin = some (origin api url) } ≡ q = cc in
      (
        accepted,
        subst
            (λ (t : OutboundPolicy).
              (next : Url)
              → (validate_url api t next ≡ ok tt) ↔ (
                  (validate_url api (record p { allowed_origin = none }) next ≡ ok tt)
                  × (origin api next ≡ origin api url)))
            e (narrowed p (origin api url)),
      )
