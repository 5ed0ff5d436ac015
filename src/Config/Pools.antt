-- ===== src/Config/Pools.antt =====
-- internal/config: the address pools.
use headnet.Base.{
  ℕ, ◌*◌, ◌+◌, ◌^◌, ◌||◌, not, Option, none, some, List, [], ◌∷◌, ltb, ◌==◌, if◌then◌else◌,
}
use headnet.Text.{Text, eq, trim_space}
use headnet.Netip.{Prefix, Family, ip4, ip6, same_family, masked, overlaps}
use headnet.Config.Problems.{
  PoolProblem, pool_unset, pool_malformed, pool_wrong_family, pool_host_bits, pool_length,
  pool_reserved, Problem, pool_problem, pools_overlap, Parsers,
}

pub record NetworkConfig : Type 0 where
  pub ipv4_cidr : Text
  pub ipv6_cidr : Text

abbrev range4 : ℕ → ℕ → Prefix
range4 value bits = record { addr = record { family = ip4; value = value }; bits = bits }

abbrev range6 : ℕ → ℕ → Prefix
range6 value bits = record { addr = record { family = ip6; value = value }; bits = bits }

-- reservedIPv4
abbrev pub reserved_ip4 : List Prefix
reserved_ip4 =
    range4 0 8
    ∷ range4 (127 * 2 ^ 24) 8
    ∷ range4 (169 * 2 ^ 24 + 254 * 2 ^ 16) 16
    ∷ range4 (224 * 2 ^ 24) 4
    ∷ range4 (240 * 2 ^ 24) 4
    ∷ []

-- reservedIPv6
abbrev pub reserved_ip6 : List Prefix
reserved_ip6 =
    range6 0 128 ∷ range6 1 128 ∷ range6 (0xfe80 * 2 ^ 112) 10 ∷ range6 (0xff00 * 2 ^ 112) 8 ∷ []

-- What is asked of the pool of a family.
abbrev pub reserved_of : Family → List Prefix
reserved_of ip4 = reserved_ip4
reserved_of ip6 = reserved_ip6

abbrev pub min_bits : Family → ℕ
min_bits ip4 = 8
min_bits ip6 = 16

abbrev pub max_bits : Family → ℕ
max_bits ip4 = 30
max_bits ip6 = 120

-- parsePool returns a prefix or a problem.
pub data Pool : Type 0 where
  accepted : Prefix → Pool
  rejected : PoolProblem → Pool

-- The loop over the reserved ranges: the first that the pool overlaps.
unfoldable pub first_overlap : Prefix → List Prefix → Option Prefix
first_overlap p [] = none
first_overlap p (r ∷ rs) = if overlaps p r then some r else first_overlap p rs

abbrev pub check_length : Family → Prefix → Option Prefix → Pool
check_length f p (some r) = rejected (pool_reserved r)
check_length f p none =
    if ltb p.bits (min_bits f) || ltb (max_bits f) p.bits then rejected pool_length else accepted p

abbrev pub check_prefix : Family → Option Prefix → Pool
check_prefix f none = rejected pool_malformed
check_prefix f (some p) =
    if not (same_family p.addr.family f)
    then rejected pool_wrong_family
    else if not ((masked p).addr.value == p.addr.value)
    then rejected pool_host_bits
    else check_length f p (first_overlap p (reserved_of f))

-- parsePool, with the bounds and reserved ranges that NetworkConfig.Validate passes for the family.
unfoldable pub parse_pool : Parsers → Family → Text → Pool
unfolding first_overlap
parse_pool parsers f value =
    if eq (trim_space value) []
    then rejected pool_unset
    else check_prefix f (parsers.parse_prefix value)

-- No IPv6 pool, or what is made of the one that is set.
unfoldable pub parse_ip6 : Parsers → Text → Option Pool
parse_ip6 parsers value =
    if eq (trim_space value) [] then none else some (parse_pool parsers ip6 value)

abbrev pub problems_of : Family → Pool → List Problem
problems_of f (accepted p) = []
problems_of f (rejected why) = pool_problem f why ∷ []

abbrev pub pools_problems : Pool → Option Pool → List Problem
pools_problems v4 none = problems_of ip4 v4
pools_problems (rejected why) (some v6) = pool_problem ip4 why ∷ problems_of ip6 v6
pools_problems (accepted p) (some (rejected why)) = pool_problem ip6 why ∷ []
pools_problems (accepted p) (some (accepted q)) = if overlaps p q then pools_overlap ∷ [] else []

-- NetworkConfig.Validate
unfoldable pub validate_network : Parsers → NetworkConfig → List Problem
validate_network parsers n =
    pools_problems (parse_pool parsers ip4 n.ipv4_cidr) (parse_ip6 parsers n.ipv6_cidr)

-- NetworkConfig.IPv4Pool, where the text parses.
unfoldable pub ip4_pool : Parsers → NetworkConfig → Option Prefix
ip4_pool parsers n = parsers.parse_prefix n.ipv4_cidr

-- NetworkConfig.IPv6Pool
unfoldable pub ip6_pool : Parsers → NetworkConfig → Option Prefix
ip6_pool parsers n =
    if eq (trim_space n.ipv6_cidr) [] then none else parsers.parse_prefix n.ipv6_cidr
