-- ===== src/Net/Policy.antt =====
-- crates/reader-web-runtime/src/network.rs, `OutboundPolicy`, `ResolvedTarget` and `ConnectionAuthorization`: which URLs the policy accepts,
-- and the chain of authorizations from a URL over its resolved addresses to the connected peer.
-- A set of hosts is a list of them; a tuple of the origin is a record.
pub mod Permitted
pub mod Peer
use inoreader.Prelude.{
  map_option, is_some, ℕ, ◌+◌, ◌≡◌, ◌↔◌, Bool, true, false, not, ◌&&◌, ◌||◌, Option, none, some,
  List, [], ◌∷◌, map, arith, Eq, ◌==◌, ◌!=◌, nat_eq, list_eq, option_eq, eq_of_==, ==_refl,
  if◌then◌else◌, leb, contains, Result, ok, err, ◌>>=◌, ◌>>◌, refuse_if, for_each,
}
use inoreader.Prelude.Text.{Text, codes, is_empty}
use inoreader.Prelude.Url.{UrlApi}
use inoreader.Net.Error.{
  IpAddr, OutboundError, origin_not_allowed, unsupported_scheme,
  plain_http_requires_explicit_policy, missing_host, url_credentials_forbidden, dns_no_addresses,
  connected_address_changed,
}
use inoreader.Net.Address.{validate_public_address, ip_eq}
use inoreader.Net.Limits.{OutboundLimits}

-- (scheme, host, port) of a URL
pub record Origin : Type 0 where
  pub scheme : Text
  pub host : Option Text
  pub port : Option ℕ

unfoldable pub origin_beq : Origin → Origin → Bool
origin_beq a b = a.scheme == b.scheme && a.host == b.host && a.port == b.port

pub origin_beq_iff : (a b : Origin) → (origin_beq a b ≡ true) ↔ (a ≡ b)
unfolding origin_beq
origin_beq_iff a b = (
  λ h. ground (arith, eq_of_== a.scheme b.scheme, eq_of_== a.host b.host, eq_of_== a.port b.port),
  λ p. ground (arith, ==_refl a.scheme, ==_refl a.host, ==_refl a.port),
)

instance abbrev pub origin_eq : Eq Origin
origin_eq = record { beq = origin_beq; beq_iff = origin_beq_iff }

-- `to_ascii_lowercase`
unfoldable pub to_ascii_lowercase : Text → Text
to_ascii_lowercase [] = []
to_ascii_lowercase (c ∷ s) = (if leb b'A' c && leb c b'Z' then c + 32 else c) ∷ to_ascii_lowercase s

pub record OutboundPolicy : Type 0 where
  pub allow_plain_http : Bool
  pub allowed_plain_http_hosts : List Text
  pub limits : OutboundLimits
  pub allowed_origin : Option Origin

unfoldable pub new : Bool → OutboundLimits → OutboundPolicy
new allow_plain_http limits = record {
  allow_plain_http = allow_plain_http;
  allowed_plain_http_hosts = [];
  limits = limits;
  allowed_origin = none;
}

unfoldable pub for_plain_http_hosts : List Text → OutboundLimits → OutboundPolicy
for_plain_http_hosts hosts limits = record {
  allow_plain_http = false;
  allowed_plain_http_hosts = hosts;
  limits = limits;
  allowed_origin = none;
}

-- `is_some_and(|allowed| *allowed != origin(url))`
abbrev pub is_other_origin : Option Origin → Origin → Bool
is_other_origin none o = false
is_other_origin (some allowed) o = allowed != o

-- `is_some_and(|host| self.allowed_plain_http_hosts.contains(host))`
abbrev pub is_listed : List Text → Option Text → Bool
is_listed hosts none = false
is_listed hosts (some host) = contains hosts host

-- The `match url.scheme()` of `validate_url`.
unfoldable pub check_scheme : OutboundPolicy → Text → Option Text → Result OutboundError (Unit {0})
check_scheme p scheme host =
    if scheme == codes "https"
    then ok tt
    else if scheme == codes "http"
    then (if p.allow_plain_http || is_listed p.allowed_plain_http_hosts host
        then ok tt
        else err plain_http_requires_explicit_policy)
    else err (unsupported_scheme scheme)

module _ (api : UrlApi) where
  open api use {Url, scheme, host_str, username, password, port_or_known_default}

  unfoldable pub origin : Url → Origin
  origin url = record {
    scheme = scheme url;
    host = map_option to_ascii_lowercase (host_str url);
    port = port_or_known_default url;
  }

  unfoldable pub validate_url : OutboundPolicy → Url → Result OutboundError (Unit {0})
  unfolding check_scheme
  validate_url p url = do
    refuse_if (is_other_origin p.allowed_origin (origin url)) origin_not_allowed
    check_scheme p (scheme url) (host_str url)
    refuse_if (not (is_some (host_str url))) missing_host
    refuse_if (not (is_empty (username url)) || is_some (password url)) url_credentials_forbidden

  unfoldable pub restricted_to_origin : OutboundPolicy → Url → Result OutboundError OutboundPolicy
  restricted_to_origin p url = do
    validate_url p url
    ok (record p { allowed_origin = some (origin url) })

-- `ResolvedTarget` and `ConnectionAuthorization`
pub record ResolvedTarget (Url : Type 0) : Type 0 where
  pub url : Url
  pub addresses : List IpAddr

pub record ConnectionAuthorization (Url : Type 0) : Type 0 where
  pub url : Url
  pub address : IpAddr

abbrev pub no_address : List IpAddr → Bool
no_address [] = true
no_address (x ∷ xs) = false

unfoldable pub authorize_resolution :
    (api : UrlApi)
    → OutboundPolicy
    → api.Url
    → List IpAddr
    → Result OutboundError (ResolvedTarget api.Url)
authorize_resolution api p url addresses = do
  validate_url api p url
  refuse_if (no_address addresses) dns_no_addresses
  for_each validate_public_address addresses
  ok (record { url = url; addresses = addresses })

module _ {Url : Type 0} where
  unfoldable pub connection :
      ResolvedTarget Url → IpAddr → Result OutboundError (ConnectionAuthorization Url)
  connection t address = do
    validate_public_address address
    refuse_if (not (contains t.addresses address)) (connected_address_changed address)
    ok (record { url = t.url; address = address })

  unfoldable pub verify_connected_peer :
      ConnectionAuthorization Url → IpAddr → Result OutboundError (Unit {0})
  verify_connected_peer c peer = do
    validate_public_address peer
    refuse_if (peer != c.address) (connected_address_changed peer)
