-- ===== src/Netip.antt =====
-- What the source uses of the standard library's net/netip: addresses, prefixes, and the order in
-- which a scan visits a prefix. An address that may be invalid (netip.Addr{}) is an `Option Addr`.
pub mod Bounds
use headnet.Base.{
  ℕ, ◌+◌, ◌-◌, ◌*◌, ◌/◌, ◌^◌, min, Bool, true, false, ◌&&◌, Option, none, some, List, [], ◌∷◌, ◌||◌,
  ltb, ◌==◌, if◌then◌else◌,
}

pub data Family : Type 0 where
  ip4 ip6 : Family

pub record Addr : Type 0 where
  pub family : Family
  pub value : ℕ

pub record Prefix : Type 0 where
  pub addr : Addr
  pub bits : ℕ

abbrev pub is_ip4 : Family → Bool
is_ip4 ip4 = true
is_ip4 ip6 = false

-- Addr.Is4
abbrev pub is4 : Addr → Bool
is4 a = is_ip4 a.family

abbrev pub same_family : Family → Family → Bool
same_family ip4 f = is_ip4 f
same_family ip6 ip4 = false
same_family ip6 ip6 = true

-- a == b
abbrev pub addr_eq : Addr → Addr → Bool
addr_eq a b = same_family a.family b.family && a.value == b.value

-- Addr.BitLen
abbrev pub bit_len : Family → ℕ
bit_len ip4 = 32
bit_len ip6 = 128

abbrev pub host_bits : Prefix → ℕ
host_bits p = bit_len p.addr.family - p.bits

-- The number of addresses of a prefix.
abbrev pub pool_size : Prefix → ℕ
pool_size p = 2 ^ host_bits p

-- Prefix.Masked
abbrev pub masked : Prefix → Prefix
masked p = record p { addr = record p.addr { value = p.addr.value / pool_size p * pool_size p } }

-- Prefix.Contains
unfoldable pub contains : Prefix → Addr → Bool
contains p a =
    same_family p.addr.family a.family && p.addr.value / pool_size p == a.value / pool_size p

-- Prefix.Overlaps: the longer prefix, cut to the length of the shorter, is the shorter.
unfoldable pub overlaps : Prefix → Prefix → Bool
overlaps p q =
    let common = min p.bits q.bits in
    same_family p.addr.family q.addr.family
    && p.addr.value / 2 ^ (bit_len p.addr.family - common)
      == q.addr.value / 2 ^ (bit_len q.addr.family - common)

-- Addr.Next: the address after the last of its family is invalid.
unfoldable pub next : Addr → Option Addr
next a =
    if ltb (a.value + 1) (2 ^ bit_len a.family)
    then some (record a { value = a.value + 1 })
    else none

-- Membership of a set of addresses.
unfoldable pub has_addr : Addr → List Addr → Bool
has_addr a [] = false
has_addr a (b ∷ bs) = addr_eq a b || has_addr a bs
