-- ===== src/Config/Reserved.antt =====
-- An allocator built from a configuration never hands out an address of a reserved range.
use native.Mathlib.Nat.{pow-le-pow_right}
use headnet.Base.{
  ◌-◌, ◌^◌, ◌≤◌, ◌≡◌, refl, sym, ap, subst, ◌∙◌, ◌⊎◌, Bool, false, ◌||◌, Option, none, some, List,
  [], ◌∷◌, arith, Bool-cases, inl, inr, ltb, ◌==◌,
}
use headnet.Text.{Text, eq, trim_space}
use headnet.Netip.{
  Addr, Prefix, Family, ip4, ip6, same_family, contains, masked, pool_size, bit_len,
}
use headnet.Netip.Bounds.{same_family→≡}
use headnet.Network.{Allocator, new_allocator}
use headnet.Config.Problems.{Problem, Parsers}
use headnet.Config.Pools.{
  NetworkConfig, validate_network, ip4_pool, ip6_pool, pools_problems, Pool, accepted, rejected,
  first_overlap, check_length, check_prefix, parse_pool, parse_ip6, reserved_of, min_bits, max_bits,
}

-- The address lies in one of the ranges.
unfoldable pub in_any : List Prefix → Addr → Bool
in_any [] a = false
in_any (r ∷ rs) a = contains r a || in_any rs a

-- What parsePool has checked of a pool that it accepts.
pub record IsSound (f : Family) (p : Prefix) : Type 0 where
  pub family : p.addr.family ≡ f
  pub at_base : (masked p).addr.value ≡ p.addr.value
  pub clear : first_overlap p (reserved_of f) ≡ none
  pub long : min_bits f ≤ p.bits
  pub short : p.bits ≤ max_bits f

accepted-injective : {p q : Prefix} → accepted p ≡ accepted q → p ≡ q
accepted-injective h = cc

check_length-accepted :
    (f : Family) (q : Prefix) (o : Option Prefix) {p : Prefix}
    → check_length f q o ≡ accepted p
    → (q ≡ p) × (o ≡ none) × (min_bits f ≤ p.bits) × (p.bits ≤ max_bits f)
check_length-accepted f q (some r) h = cc
check_length-accepted f q none h =
    elim (Bool-cases (ltb q.bits (min_bits f) || ltb (max_bits f) q.bits)) [
      | inl out ↦ cc (rw out at h)
      | inr fits ↦
          let same : q ≡ _ = accepted-injective (rw fits at h) in
          rw (← same) (refl, refl, ground arith, ground arith)
    ]

check_prefix-IsSound :
    (f : Family) (o : Option Prefix) {p : Prefix}
    → check_prefix f o ≡ accepted p
    → (o ≡ some p) × IsSound f p
check_prefix-IsSound f none h = cc
check_prefix-IsSound f (some q) h = elim (Bool-cases (same_family q.addr.family f)) [
  | inr other ↦ cc (rw other at h)
  | inl same ↦ elim (Bool-cases ((masked q).addr.value == q.addr.value)) [
    | inr dirty ↦ cc (rw (same, dirty) at h)
    | inl clean ↦
        let (e, free, lo, hi) = check_length-accepted f q _ (rw (same, clean) at h) in
        rw (← e) (
          refl,
          record {
            family = same_family→≡ q.addr.family f same;
            at_base = ground arith;
            clear = free;
            long = rw e lo;
            short = rw e hi;
          },
        )
  ]
]

pub parse_pool-IsSound :
    (parsers : Parsers) (f : Family) (value : Text) {p : Prefix}
    → parse_pool parsers f value ≡ accepted p
    → (parsers.parse_prefix value ≡ some p) × IsSound f p
unfolding parse_pool
parse_pool-IsSound parsers f value h = elim (Bool-cases (eq (trim_space value) [])) [
  | inl blank ↦ cc (rw blank at h)
  | inr present ↦ check_prefix-IsSound f (parsers.parse_prefix value) (rw present at h)
]

abbrev pub pool_of : Allocator → Family → Option Prefix
pool_of al ip4 = some al.v4
pool_of al ip6 = al.v6

abbrev pub build_from : List Problem → Option Prefix → Option Prefix → Option Allocator
build_from (e ∷ es) v4 v6 = none
build_from [] none v6 = none
build_from [] (some v4) v6 = some (new_allocator v4 v6)

-- NewAllocator: `none` is the error of a configuration that does not pass.
unfoldable pub build_allocator : Parsers → NetworkConfig → Option Allocator
unfolding ip4_pool ip6_pool
build_allocator parsers n =
    build_from (validate_network parsers n) (ip4_pool parsers n) (ip6_pool parsers n)

some-injective : {A : Type 0} {a b : A} → some a ≡ some b → a ≡ b
some-injective h = cc

build_from-some :
    (es : List Problem) (v4 v6 : Option Prefix) {al : Allocator}
    → build_from es v4 v6 ≡ some al
    → (es ≡ []) × (v4 ≡ some al.v4) × (v6 ≡ al.v6)
unfolding new_allocator
build_from-some (e ∷ es) v4 v6 h = cc
build_from-some [] none v6 h = cc
build_from-some [] (some v4) v6 h =
    let same : new_allocator v4 v6 ≡ _ = some-injective h in
    (refl, ap (λ (a : Allocator). some a.v4) same, ap (λ (a : Allocator). a.v6) same)

pools_problems-none :
    (v4 : Pool) (v6 : Option Pool)
    → pools_problems v4 v6 ≡ []
    → ((p : Prefix) × (v4 ≡ accepted p)) × ((v6 ≡ none) ⊎ ((q : Prefix) × (v6 ≡ some (accepted q))))
pools_problems-none (rejected e) none h = cc
pools_problems-none (rejected e) (some v6) h = cc
pools_problems-none (accepted p) none h = ((p, refl), inl refl)
pools_problems-none (accepted p) (some (rejected e)) h = cc
pools_problems-none (accepted p) (some (accepted q)) h = ((p, refl), inr (q, refl))

module _ (parsers : Parsers) (n : NetworkConfig) where
  pool4-IsSound :
      {p v : Prefix}
      → parse_pool parsers ip4 n.ipv4_cidr ≡ accepted p
      → ip4_pool parsers n ≡ some v
      → IsSound ip4 v
  unfolding ip4_pool
  pool4-IsSound {p} {v} h e =
      let (parsed, sound) = parse_pool-IsSound parsers ip4 n.ipv4_cidr h in
      subst (IsSound ip4) (some-injective (sym parsed ∙ e)) sound

  pool6-IsSound :
      {v : Prefix}
      → (parse_ip6 parsers n.ipv6_cidr ≡ none)
        ⊎ ((q : Prefix) × (parse_ip6 parsers n.ipv6_cidr ≡ some (accepted q)))
      → ip6_pool parsers n ≡ some v
      → IsSound ip6 v
  unfolding ip6_pool parse_ip6
  pool6-IsSound {v} h e = elim (Bool-cases (eq (trim_space n.ipv6_cidr) [])) [
    | inl blank ↦ cc (rw blank at e)
    | inr present ↦ elim h [
      | inl missing ↦ cc (rw present at missing)
      | inr (q, found) ↦
          let (parsed, sound) =
            parse_pool-IsSound parsers ip6 n.ipv6_cidr (some-injective (rw present at found)) in
          subst (IsSound ip6) (some-injective (sym parsed ∙ (rw present at e))) sound
    ]
  ]

  build_allocator-IsSound :
      (f : Family) {al : Allocator} {pool : Prefix}
      → build_allocator parsers n ≡ some al
      → pool_of al f ≡ some pool
      → IsSound f pool
  unfolding build_allocator validate_network
  build_allocator-IsSound ip4 built found =
      let (clean, v4, v6) = build_from-some _ _ _ built in
      let ((p, h), _) = pools_problems-none _ _ clean in
      subst (IsSound ip4) (some-injective found) (pool4-IsSound h v4)
  build_allocator-IsSound ip6 built found =
      let (clean, v4, v6) = build_from-some _ _ _ built in
      let (_, h) = pools_problems-none _ _ clean in pool6-IsSound h (v6 ∙ found)

  -- The pools of an allocator that NewAllocator builds have between 4 and 2^24 addresses for IPv4
  -- and between 2^8 and 2^112 for IPv6, and start at their network address.
  pub build_allocator-pool_size :
      (f : Family) {al : Allocator} {pool : Prefix}
      → build_allocator parsers n ≡ some al
      → pool_of al f ≡ some pool
      → (2 ^ (bit_len f - max_bits f) ≤ pool_size pool)
        × (pool_size pool ≤ 2 ^ (bit_len f - min_bits f))
        × ((masked pool).addr ≡ pool.addr)
  build_allocator-pool_size f {pool = pool} built found =
      let s = build_allocator-IsSound f built found in
      (
        pow-le-pow_right (omega arith) (rw s.family (omega (arith, s.short))),
        pow-le-pow_right (omega arith) (rw s.family (omega (arith, s.long))),
        ground (arith, s.at_base),
      )
