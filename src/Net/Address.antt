-- ===== src/Net/Address.antt =====
-- crates/reader-web-runtime/src/network.rs, `validate_public_address` and what it calls: addresses that no request may reach.
pub mod Blocks
use Prim.Native.Nat.{bit_and}
use inoreader.Prelude.{
  ℕ, ◌*◌, ◌/◌, ◌%◌, ◌≡◌, ◌↔◌, refl, Bool, true, false, ◌&&◌, ◌||◌, Option, none, some, arith, Eq,
  ◌==◌, nat_eq, eqb_iff, leb, if◌then◌else◌, Result, ok, err, ap,
}
use inoreader.Net.Error.{IpAddr, Ipv4Addr, Ipv6Addr, v4, v6, OutboundError, forbidden_address}

unfoldable pub forbidden_v4 : Ipv4Addr → Bool
forbidden_v4 ip =
    a == 0
    || a == 10
    || a == 127
    || leb 224 a
    || (a == 100 && (leb 64 b && leb b 127))
    || (a == 169 && b == 254)
    || (a == 172 && (leb 16 b && leb b 31))
    || (a == 192 && b == 168)
    || (a == 192 && b == 0 && c == 0)
    || (a == 192 && b == 0 && c == 2)
    || (a == 198 && (b == 18 || b == 19))
    || (a == 198 && b == 51 && c == 100)
    || (a == 203 && b == 0 && c == 113)
    || (a == 255 && b == 255 && c == 255 && d == 255)
  where
    open ip use {a, b, c, d}

-- The two octets of each of two segments.
abbrev pub octets : ℕ → ℕ → Ipv4Addr
octets s t = record { a = s / 256; b = s % 256; c = t / 256; d = t % 256 }

-- `Ipv6Addr::to_ipv4_mapped`: `::ffff:a.b.c.d`
unfoldable pub to_ipv4_mapped : Ipv6Addr → Option Ipv4Addr
to_ipv4_mapped ip =
    if s0 == 0 && s1 == 0 && s2 == 0 && s3 == 0 && s4 == 0 && s5 == 0xffff
    then some (octets s6 s7)
    else none
  where
    open ip use {s0, s1, s2, s3, s4, s5, s6, s7}

-- `is_unspecified`, `is_loopback` and `is_multicast`
abbrev is_small : Ipv6Addr → ℕ → Bool
is_small ip last =
    s0 == 0 && s1 == 0 && s2 == 0 && s3 == 0 && s4 == 0 && s5 == 0 && s6 == 0 && s7 == last
  where
    open ip use {s0, s1, s2, s3, s4, s5, s6, s7}

-- The tests of `forbidden_v6` on an address that is no mapped one.
unfoldable pub forbidden_segments : Ipv6Addr → Bool
forbidden_segments ip =
    is_small ip 0
    || is_small ip 1
    || bit_and s0 0xff00 == 0xff00
    || bit_and s0 0xfe00 == 0xfc00
    || bit_and s0 0xffc0 == 0xfe80
    || (s0 == 0x2001 && s1 == 0x0db8)
    || (s0 == 0x0064 && s1 == 0xff9b && s2 == 0 && s3 == 0 && forbidden_v4 (octets s6 s7))
  where
    open ip use {s0, s1, s2, s3, s6, s7}

abbrev unless_mapped : Option Ipv4Addr → Ipv6Addr → Bool
unless_mapped (some mapped) ip = forbidden_v4 mapped
unless_mapped none ip = forbidden_segments ip

unfoldable pub forbidden_v6 : Ipv6Addr → Bool
forbidden_v6 ip = unless_mapped (to_ipv4_mapped ip) ip

unfoldable pub forbidden : IpAddr → Bool
forbidden (v4 ip) = forbidden_v4 ip
forbidden (v6 ip) = forbidden_v6 ip

unfoldable pub validate_public_address : IpAddr → Result OutboundError (Unit {0})
validate_public_address address =
    if forbidden address then err (forbidden_address address) else ok tt

-- `#[derive(PartialEq)]` of the addresses
unfoldable pub v4_beq : Ipv4Addr → Ipv4Addr → Bool
v4_beq x y = x.a == y.a && x.b == y.b && x.c == y.c && x.d == y.d

unfoldable pub v6_beq : Ipv6Addr → Ipv6Addr → Bool
v6_beq x y =
    (x.s0 == y.s0 && x.s1 == y.s1 && x.s2 == y.s2 && x.s3 == y.s3)
    && (x.s4 == y.s4 && x.s5 == y.s5 && x.s6 == y.s6 && x.s7 == y.s7)

unfoldable pub ip_beq : IpAddr → IpAddr → Bool
ip_beq (v4 x) (v4 y) = v4_beq x y
ip_beq (v6 x) (v6 y) = v6_beq x y
ip_beq _ _ = false

pub ip_beq_iff : (x y : IpAddr) → (ip_beq x y ≡ true) ↔ (x ≡ y)
unfolding ip_beq v4_beq v6_beq
ip_beq_iff (v4 x) (v4 y) = (λ h. ground arith, λ p. ground arith)
ip_beq_iff (v6 x) (v6 y) = (λ h. ground arith, λ p. ground arith)
ip_beq_iff (v4 x) (v6 y) = (λ h. cc, λ p. cc)
ip_beq_iff (v6 x) (v4 y) = (λ h. cc, λ p. cc)

instance abbrev pub ip_eq : Eq IpAddr
ip_eq = record { beq = ip_beq; beq_iff = ip_beq_iff }
