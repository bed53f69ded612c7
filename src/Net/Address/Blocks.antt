-- ===== src/Net/Address/Blocks.antt =====
-- The forbidden IPv4 addresses are those of a list of address blocks, and an IPv6 address that
-- carries an IPv4 address is judged by that one.
use mathlib.Core.Bool.{or_assoc, or-false}
use inoreader.Prelude.{
  ℕ, ◌+◌, ◌*◌, ◌/◌, ◌^◌, ◌-◌, ◌<◌, ◌≡◌, Bool, ◌&&◌, ◌||◌, List, [], ◌∷◌, arith, ◌==◌, nat_eq, leb,
  any,
}
use inoreader.Net.Error.{Ipv4Addr, Ipv6Addr, v6}
use inoreader.Net.Address.{
  forbidden_v4, forbidden_v6, to_ipv4_mapped, octets, forbidden_segments, forbidden,
}

pub record IsAddr (ip : Ipv4Addr) : Type 0 where
  pub a_lt : ip.a < 256
  pub b_lt : ip.b < 256
  pub c_lt : ip.c < 256
  pub d_lt : ip.d < 256

-- The address as one 32-bit number.
abbrev pub number : Ipv4Addr → ℕ
number ip = ((ip.a * 256 + ip.b) * 256 + ip.c) * 256 + ip.d

-- The block `a.b.c.d/len`, by the number of its low bits that are free, 32 - len.
pub record Block : Type 0 where
  pub base : ℕ
  pub free : ℕ

abbrev pub block : ℕ → ℕ → ℕ → ℕ → ℕ → Block
block a b c d len = record { base = ((a * 256 + b) * 256 + c) * 256 + d; free = 32 - len }

-- The number agrees with the base of the block in all bits but the free ones.
abbrev pub within : ℕ → Block → Bool
within n k = n / 2 ^ k.free == k.base / 2 ^ k.free

-- The blocks of RFC 6890 and its kin: this network, private use, loopback, multicast and reserved,
-- shared, link local, protocol assignments, documentation and benchmarking.
abbrev pub special_blocks : List Block
special_blocks =
    block 0 0 0 0 8
    ∷ block 10 0 0 0 8
    ∷ block 127 0 0 0 8
    ∷ block 224 0 0 0 3
    ∷ block 100 64 0 0 10
    ∷ block 169 254 0 0 16
    ∷ block 172 16 0 0 12
    ∷ block 192 168 0 0 16
    ∷ block 192 0 0 0 24
    ∷ block 192 0 2 0 24
    ∷ block 198 18 0 0 15
    ∷ block 198 51 100 0 24
    ∷ block 203 0 113 0 24
    ∷ block 255 255 255 255 32
    ∷ []

module _ (ip : Ipv4Addr) (r : IsAddr ip) where
  open ip use {a, b, c, d}

  block_8 : (x : ℕ) → (a == x) ≡ (number ip / 2 ^ 24 == x)
  block_8 x = ground arith

  block_16 : (x y : ℕ) → y < 256 → (a == x && b == y) ≡ (number ip / 2 ^ 16 == x * 256 + y)
  block_16 x y h = ground arith

  block_24 :
      (x y z : ℕ)
      → y < 256
      → z < 256
      → (a == x && b == y && c == z) ≡ (number ip / 2 ^ 8 == (x * 256 + y) * 256 + z)
  block_24 x y z h k = ground arith

  shared : (a == 100 && (leb 64 b && leb b 127)) ≡ (number ip / 2 ^ 22 == 401)
  shared = ground arith

  private_172 : (a == 172 && (leb 16 b && leb b 31)) ≡ (number ip / 2 ^ 20 == 2753)
  private_172 = ground arith

  benchmarking : (a == 198 && (b == 18 || b == 19)) ≡ (number ip / 2 ^ 17 == 25353)
  benchmarking = ground arith

  multicast : leb 224 a ≡ (number ip / 2 ^ 29 == 7)
  multicast = ground arith

  broadcast : (a == 255 && b == 255 && c == 255 && d == 255) ≡ (number ip / 2 ^ 0 == 4294967295)
  broadcast = ground arith

  -- An IPv4 address is forbidden exactly if it lies in one of the special blocks.
  pub forbidden_v4-any : forbidden_v4 ip ≡ any (within (number ip)) special_blocks
  unfolding forbidden_v4 any
  forbidden_v4-any =
      rw
        (
          multicast,
          shared,
          private_172,
          benchmarking,
          broadcast,
          block_24 192 0 0 (omega arith) (omega arith),
          block_24 192 0 2 (omega arith) (omega arith),
          block_24 198 51 100 (omega arith) (omega arith),
          block_24 203 0 113 (omega arith) (omega arith),
          block_16 169 254 (omega arith),
          block_16 192 168 (omega arith),
          block_8 0,
          block_8 10,
          block_8 127,
        )
        (simp (or_assoc, or-false))

-- The IPv6 address `::ffff:a.b.c.d` of an IPv4 address, and its address under `64:ff9b::/96`.
abbrev pub mapped : Ipv4Addr → Ipv6Addr
mapped ip = record {
  s0 = 0;
  s1 = 0;
  s2 = 0;
  s3 = 0;
  s4 = 0;
  s5 = 0xffff;
  s6 = ip.a * 256 + ip.b;
  s7 = ip.c * 256 + ip.d;
}

abbrev pub translated : Ipv4Addr → Ipv6Addr
translated ip = record {
  s0 = 0x64;
  s1 = 0xff9b;
  s2 = 0;
  s3 = 0;
  s4 = 0;
  s5 = 0;
  s6 = ip.a * 256 + ip.b;
  s7 = ip.c * 256 + ip.d;
}

octets-segments : (ip : Ipv4Addr) → IsAddr ip → octets (ip.a * 256 + ip.b) (ip.c * 256 + ip.d) ≡ ip
octets-segments ip r = ground arith

-- Neither way to carry an IPv4 address in an IPv6 address gets round the test: both are forbidden
-- exactly if the IPv4 address lies in a special block.
pub forbidden_carried :
    (ip : Ipv4Addr)
    → IsAddr ip
    → (forbidden (v6 (mapped ip)) ≡ any (within (number ip)) special_blocks)
      × (forbidden (v6 (translated ip)) ≡ any (within (number ip)) special_blocks)
unfolding forbidden forbidden_v6 to_ipv4_mapped forbidden_segments
forbidden_carried ip r = (
  rw (octets-segments ip r) (forbidden_v4-any ip r),
  rw (octets-segments ip r) (forbidden_v4-any ip r),
)
