-- ===== src/Network/Scan.antt =====
-- What Allocator.freeAddresses returns: usable addresses only, and the lowest of them first.
use native.Mathlib.Decide.{dec_lt}
use headnet.Base.{
  ℕ, zero, suc, ◌+◌, ◌≤◌, ◌<◌, ◌^◌, ◌≡◌, Bool, true, false, ◌&&◌, ◌||◌, Option, none, some, List,
  [], ◌∷◌, arith, ◌-◌, Bool-cases, inl, inr, ltb, lt→ltb, All, ap, sym, ◌∙◌, ◌==◌,
}
use headnet.Netip.{Addr, Prefix, is4, addr_eq, masked, pool_size, bit_len, contains, next, has_addr}
use headnet.Netip.Bounds.{base, contains_bounds, contains_of_bounds}
use headnet.Network.{Allocator, free_from, free_addresses}

abbrev pub is_skipped : Allocator → List Addr → Addr → Bool
is_skipped al taken a = (is4 a && addr_eq a al.v4_broadcast) || has_addr a taken

-- An address of the pool that may be given out: neither the network address nor the IPv4
-- broadcast address, and not taken.
pub record IsUsable (al : Allocator) (pool : Prefix) (taken : List Addr) (a : Addr) : Type 0 where
  pub inside : contains pool a ≡ true
  pub above : base pool < a.value
  pub unskipped : is_skipped al taken a ≡ false

addr_ext : (a b : Addr) → a.family ≡ b.family → a.value ≡ b.value → a ≡ b
addr_ext a b f v = ground arith

next_below :
    (a b : Addr)
    → a.family ≡ b.family
    → a.value < b.value
    → b.value < 2 ^ bit_len b.family
    → next a ≡ some (record a { value = a.value + 1 })
unfolding next
next_below a b f before valid =
    rw (lt→ltb (a.value + 1) (2 ^ bit_len a.family) (rw f (omega arith)))

module _ (al : Allocator) (pool : Prefix) (taken : List Addr) where
  abbrev Above : Option Addr → Type 0
  Above none = Unit {0}
  Above (some a) = base pool < a.value

  next-Above : (a : Addr) → base pool < a.value → Above (next a)
  unfolding next
  next-Above a h = elim (Bool-cases (ltb (a.value + 1) (2 ^ bit_len a.family))) [
    | inl e ↦ rw e (omega arith)
    | inr e ↦ rw e tt
  ]

  Above-base : Above (next (masked pool).addr)
  unfolding next
  Above-base = elim (Bool-cases (ltb (base pool + 1) (2 ^ bit_len pool.addr.family))) [
    | inl e ↦ rw e (omega arith)
    | inr e ↦ rw e tt
  ]

  free_from-IsUsable :
      (fuel room : ℕ) (cur : Option Addr)
      → Above cur
      → All (IsUsable al pool taken) (free_from al pool taken fuel room cur)
  unfolding free_from
  free_from-IsUsable zero room cur h = tt
  free_from-IsUsable (suc fuel) room none h = tt
  free_from-IsUsable (suc fuel) room (some a) h = elim (Bool-cases (contains pool a)) [
    | inr out ↦ rw out tt
    | inl inside ↦ rw inside (elim (Bool-cases (is_skipped al taken a)) [
      | inl skip ↦ rw skip (free_from-IsUsable fuel room (next a) (next-Above a h))
      | inr keep ↦ rw keep (
        record { inside = inside; above = h; unskipped = keep },
        elim (Bool-cases (room == 1)) [
          | inl last ↦ rw last tt
          | inr more ↦ rw more (free_from-IsUsable fuel (room - 1) (next a) (next-Above a h))
        ],
      )
    ])
  ]

  abbrev HeadLe : Addr → List Addr → Type 0
  HeadLe b [] = ⊥
  HeadLe b (x ∷ xs) = x.value ≤ b.value

  module _ (b : Addr) (u : IsUsable al pool taken b) (valid : b.value < 2 ^ bit_len b.family) where
    free_from-HeadLe :
        (fuel room : ℕ) (a : Addr)
        → a.family ≡ b.family
        → base pool ≤ a.value
        → a.value ≤ b.value
        → b.value < a.value + fuel
        → HeadLe b (free_from al pool taken fuel room (some a))
    unfolding free_from
    free_from-HeadLe zero room a f low le near = absurd (omega arith)
    free_from-HeadLe (suc fuel) room a f low le near =
        rw (contains_of_bounds pool a (f ∙ i.0) low (omega (arith, i)))
          (elim (Bool-cases (is_skipped al taken a)) [
            | inr keep ↦ rw keep le
            | inl skip ↦ rw skip (elim (dec_lt a.value b.value) [
              | yes before ↦ rw (next_below a b f before valid) (
                  free_from-HeadLe fuel room (record a { value = a.value + 1 }) f (omega arith)
                    (omega arith) (omega arith))
              | no here ↦
                  cc
                    (sym skip, ap (is_skipped al taken) (addr_ext a b f (omega arith)), u.unskipped)
            ])
          ])
      where
        i :
            (b.family ≡ pool.addr.family)
            × (base pool ≤ b.value)
            × (b.value < base pool + pool_size pool)
        i = contains_bounds pool b u.inside

-- Every address that a scan returns lies in the pool, is above its network address, is not the
-- IPv4 broadcast address and is not taken.
pub free_addresses-IsUsable :
    (al : Allocator) (pool : Prefix) (taken : List Addr) (limit : ℕ)
    → All (IsUsable al pool taken) (free_addresses al pool taken limit)
unfolding free_addresses next
free_addresses-IsUsable al pool taken limit =
    free_from-IsUsable al pool taken (pool_size pool) limit (next (masked pool).addr)
      (Above-base al pool taken)

free_addresses-HeadLe :
    (al : Allocator) (pool : Prefix) (taken : List Addr) (limit : ℕ) (b : Addr)
    → IsUsable al pool taken b
    → b.value < 2 ^ bit_len b.family
    → HeadLe al pool taken b (free_addresses al pool taken limit)
unfolding free_addresses
free_addresses-HeadLe al pool taken limit b u valid =
    rw (next_below (masked pool).addr b (sym i.0) u.above valid) (
      free_from-HeadLe al pool taken b u valid (pool_size pool) limit
        (record (masked pool).addr { value = base pool + 1 }) (sym i.0) (omega arith)
        (omega (arith, u.above)) (omega (arith, i)))
  where
    i :
        (b.family ≡ pool.addr.family)
        × (base pool ≤ b.value)
        × (b.value < base pool + pool_size pool)
    i = contains_bounds pool b u.inside

-- The addresses may all be given out, there is a first one, and it is not above `b`.
abbrev pub StartsBelow : Allocator → Prefix → List Addr → Addr → List Addr → Type 0
StartsBelow al pool taken b [] = ⊥
StartsBelow al pool taken b (x ∷ xs) = All (IsUsable al pool taken) (x ∷ xs) × (x.value ≤ b.value)

starts :
    (al : Allocator) (pool : Prefix) (taken : List Addr) (b : Addr) (xs : List Addr)
    → All (IsUsable al pool taken) xs
    → HeadLe al pool taken b xs
    → StartsBelow al pool taken b xs
starts al pool taken b [] usable le = le
starts al pool taken b (x ∷ xs) usable le = (usable, le)

-- Whenever the pool has an address `b` that may be given out (a number of its family), the scan
-- returns at least one address. Every address that it returns lies in the pool above its network
-- address, is not the IPv4 broadcast address and is not taken, and the first one is not above `b`:
-- it is the lowest of those that may be given out.
pub free_addresses-StartsBelow :
    (al : Allocator) (pool : Prefix) (taken : List Addr) (limit : ℕ) (b : Addr)
    → IsUsable al pool taken b
    → b.value < 2 ^ bit_len b.family
    → StartsBelow al pool taken b (free_addresses al pool taken limit)
free_addresses-StartsBelow al pool taken limit b u valid =
    starts al pool taken b (free_addresses al pool taken limit)
      (free_addresses-IsUsable al pool taken limit)
      (free_addresses-HeadLe al pool taken limit b u valid)
