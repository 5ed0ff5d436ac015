-- ===== src/Netip/Bounds.antt =====
-- A prefix is an interval of addresses of its family.
use native.Mathlib.Nat.{div-mul-le_self, lt-div-mul-add, div-eq_of_lt-le}
use headnet.Base.{ℕ, ◌+◌, ◌*◌, ◌/◌, ◌^◌, ◌≤◌, ◌<◌, ◌≡◌, ◌↔◌, true, arith, zero, suc, refl, sym}
use headnet.Netip.{Addr, Prefix, pool_size, contains, addr_eq, same_family, Family, ip4, ip6}

pub pow_pos : (k : ℕ) → 0 < 2 ^ k
pow_pos zero = omega arith
pow_pos (suc k) = omega (arith, pow_pos k)

pub same_family→≡ : (f g : Family) → same_family f g ≡ true → f ≡ g
same_family→≡ ip4 ip4 h = refl
same_family→≡ ip4 ip6 h = cc
same_family→≡ ip6 ip4 h = cc
same_family→≡ ip6 ip6 h = refl

pub same_family_refl : (f : Family) → same_family f f ≡ true
same_family_refl ip4 = refl
same_family_refl ip6 = refl

same_family_sym : (f g : Family) → same_family f g ≡ same_family g f
same_family_sym ip4 ip4 = refl
same_family_sym ip4 ip6 = refl
same_family_sym ip6 ip4 = refl
same_family_sym ip6 ip6 = refl

pub addr_eq_sym : (a b : Addr) → addr_eq a b ≡ addr_eq b a
addr_eq_sym a b = ground (arith, same_family_sym a.family b.family)

pub addr_eq→≡ : (a b : Addr) → addr_eq a b ≡ true → a ≡ b
addr_eq→≡ a b h = ground (arith, same_family→≡ a.family b.family)

pub addr_eq_refl : (a : Addr) → addr_eq a a ≡ true
addr_eq_refl a = ground (arith, same_family_refl a.family)

div_interval : (a b k : ℕ) → 0 < k → (a / k ≡ b / k) ↔ ((a / k * k ≤ b) × (b < a / k * k + k))
div_interval a b k h = (
  λ e. rw e (div-mul-le_self b k, lt-div-mul-add h),
  λ i. sym (div-eq_of_lt-le {k = a / k} k i.0 (omega (arith, i.1))),
)

-- The network address of a prefix, as a number.
abbrev pub base : Prefix → ℕ
base p = p.addr.value / pool_size p * pool_size p

module _ (p : Prefix) (a : Addr) where
  pub contains_bounds :
      contains p a ≡ true
      → (a.family ≡ p.addr.family) × (base p ≤ a.value) × (a.value < base p + pool_size p)
  unfolding contains
  contains_bounds h =
      let same : p.addr.family ≡ a.family = same_family→≡ p.addr.family a.family (ground arith) in
      let quotients : p.addr.value / pool_size p ≡ a.value / pool_size p = ground arith in
      let i = (div_interval p.addr.value a.value (pool_size p) (pow_pos _)).0 quotients in
      (sym same, i.0, i.1)

  pub contains_of_bounds :
      a.family ≡ p.addr.family
      → base p ≤ a.value
      → a.value < base p + pool_size p
      → contains p a ≡ true
  unfolding contains
  contains_of_bounds same low high = ground (
    arith,
    (div_interval p.addr.value a.value (pool_size p) (pow_pos _)).1 (low, high),
    same_family_refl p.addr.family,
  )
