-- ===== src/Net/Error.antt =====
-- The errors of crates/reader-web-runtime/src/network.rs and the addresses that they name.
use inoreader.Prelude.{ℕ}
use inoreader.Prelude.Text.{Text}

-- `IpAddr`: the four octets of `Ipv4Addr`, or the eight 16-bit segments of `Ipv6Addr`.
pub record Ipv4Addr : Type 0 where
  pub a : ℕ
  pub b : ℕ
  pub c : ℕ
  pub d : ℕ

pub record Ipv6Addr : Type 0 where
  pub s0 : ℕ
  pub s1 : ℕ
  pub s2 : ℕ
  pub s3 : ℕ
  pub s4 : ℕ
  pub s5 : ℕ
  pub s6 : ℕ
  pub s7 : ℕ

pub data IpAddr : Type 0 where
  v4 : Ipv4Addr → IpAddr
  v6 : Ipv6Addr → IpAddr

pub data OutboundError : Type 0 where
  origin_not_allowed : OutboundError
  unsupported_scheme : Text → OutboundError
  plain_http_requires_explicit_policy : OutboundError
  missing_host : OutboundError
  url_credentials_forbidden : OutboundError
  dns_no_addresses : OutboundError
  forbidden_address : IpAddr → OutboundError
  connected_address_changed : IpAddr → OutboundError
  redirect_limit_exceeded : OutboundError
  redirect_loop : OutboundError
  invalid_redirect_location : OutboundError
  deadline_exceeded : OutboundError
  response_body_too_large : ℕ → OutboundError
  transport : Text → OutboundError
