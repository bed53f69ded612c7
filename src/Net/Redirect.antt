-- ===== src/Net/Redirect.antt =====
-- crates/reader-web-runtime/src/network.rs, `PreparedRequest` and `RedirectChain`: the request that follows a redirect, and
-- the chain of redirects of one request. `http::HeaderMap` is an interface.
pub mod Headers
pub mod Hops
use mathlib.Core.List.{Permᴰ}
use inoreader.Prelude.{
  ℕ, ◌+◌, ◌≡◌, Bool, true, false, not, ◌&&◌, ◌||◌, Option, none, some, List, [], ◌∷◌, ◌++◌, map,
  arith, Eq, ◌==◌, ◌!=◌, nat_eq, list_eq, option_eq, if◌then◌else◌, leb, contains, Result, ok, err,
  any,
}
use inoreader.Prelude.Text.{Text, codes}
use inoreader.Prelude.Url.{UrlApi}
use inoreader.Net.Error.{
  OutboundError, redirect_limit_exceeded, redirect_loop, invalid_redirect_location,
}
use inoreader.Net.Policy.{origin, origin_eq, to_ascii_lowercase}

pub record Header : Type 0 where
  pub name : Text
  pub value : Text
  pub is_sensitive : Bool  -- the mark of a `HeaderValue`

-- `http::HeaderMap`, by its entries in the order of iteration, which is arbitrary.
pub record HeaderApi : Type 1 where
  pub HeaderMap : Type 0
  pub entries : HeaderMap → List Header
  pub remove : HeaderMap → Text → HeaderMap

unfoldable pub filter {ℓ} : {A : Type ℓ} → (A → Bool) → List A → List A
filter p [] = []
filter p (x ∷ xs) = let rest = filter p xs in if p x then x ∷ rest else rest

-- Documented of the crate: `remove` takes out every entry of that name and no other. The order in which
-- the entries are iterated may change.
abbrev pub Removes : HeaderApi → Type 0
Removes http =
    (m : http.HeaderMap) (name : Text)
    → Permᴰ (http.entries (http.remove m name)) (filter (λ h. h.name != name) (http.entries m))

abbrev pub sensitive_names : List Text
sensitive_names =
    codes "authorization"
    ∷ codes "proxy-authorization"
    ∷ codes "cookie"
    ∷ codes "cookie2"
    ∷ codes "x-api-key"
    ∷ codes "x-auth-token"
    ∷ codes "x-csrf-token"
    ∷ []

unfoldable pub is_sensitive_header : Text → Bool
is_sensitive_header name = contains sensitive_names (to_ascii_lowercase name)

-- The filter of `for_redirect`.
unfoldable pub must_go : Header → Bool
must_go h = is_sensitive_header h.name || h.is_sensitive

module _ (api : UrlApi) (http : HeaderApi) where
  open api use {Url, join, as_str}
  open http use {HeaderMap, entries, remove}

  pub record PreparedRequest : Type 0 where
    pub method : Text
    pub url : Url
    pub headers : HeaderMap
    pub body : Option (List ℕ)

  -- `for name in sensitive_names { headers.remove(name); }`
  unfoldable pub remove_each : HeaderMap → List Text → HeaderMap
  remove_each m [] = m
  remove_each m (name ∷ names) = remove_each (remove m name) names

  unfoldable pub redirected_headers : Bool → HeaderMap → HeaderMap
  unfolding remove_each filter
  redirected_headers cross_origin headers =
      let kept = remove headers (codes "host") in
      if cross_origin
      then remove (remove_each kept (map (λ h. h.name) (filter must_go (entries kept))))
          (codes "referer")
      else kept

  unfoldable pub for_redirect : PreparedRequest → Url → PreparedRequest
  for_redirect r next =
      let cross_origin = origin api r.url != origin api next in
      record {
        method = r.method;
        url = next;
        headers = redirected_headers cross_origin r.headers;
        body = if cross_origin then none else r.body;
      }

-- The set of URLs seen is a list; `insert` says whether the URL is new.
pub record RedirectChain : Type 0 where
  pub seen : List Text
  pub hops : ℕ
  pub max_hops : ℕ

module _ (api : UrlApi) where
  open api use {Url, join, as_str}

  unfoldable pub new : Url → ℕ → RedirectChain
  new initial max_hops = record { seen = as_str initial ∷ []; hops = 0; max_hops = max_hops }

  -- The branches of `follow` behind `join`.
  abbrev pub take_hop : RedirectChain → Option Url → RedirectChain × Result OutboundError Url
  take_hop c none = (c, err invalid_redirect_location)
  take_hop c (some next) =
      if contains c.seen (as_str next)
      then (c, err redirect_loop)
      else (record c { seen = as_str next ∷ c.seen; hops = c.hops + 1 }, ok next)

  unfoldable pub follow : RedirectChain → Url → Text → RedirectChain × Result OutboundError Url
  follow c current location =
      if leb c.max_hops c.hops
      then (c, err redirect_limit_exceeded)
      else take_hop c (join current location)
