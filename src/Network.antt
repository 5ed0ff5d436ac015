-- ===== src/Network.antt =====
-- internal/network/ipam.go: the allocator of overlay addresses. The random choice of a retry is
-- an argument: rand.IntN(n) is `choice % n` for a number that the caller gives.
pub mod Scan
pub mod LastAddr
pub mod Unique
pub mod Claim
pub mod Quiet
pub mod Tests
use Prim.Native.Nat.{bit_or}
use headnet.Base.{
  ℕ, zero, suc, ◌+◌, ◌-◌, ◌*◌, ◌/◌, ◌%◌, ◌^◌, min, Bool, true, false, ◌&&◌, ◌||◌, Option, none,
  some, List, [], ◌∷◌, ◌++◌, ltb, ◌==◌, if◌then◌else◌, length,
}
use headnet.Text.{Text, eq}
use headnet.Netip.{
  Addr, Prefix, Family, ip4, ip6, is4, same_family, addr_eq, masked, host_bits, pool_size, contains,
  next, has_addr,
}
use headnet.Schema.{AddressText, parsed, unparseable, Allocation, Database}
use headnet.Storage.{
  Error, Result, ok, err, M, Statement, statement, ◌>>=◌, ◌>>◌, pure, raise, lift, pool_exhausted,
  already_allocated, unparseable_address, too_many_attempts, invalid_argument,
}
use headnet.Storage.Table.{any_row, select_rows, delete_rows, count_rows}

abbrev pub max_allocation_attempts : ℕ
max_allocation_attempts = 32

abbrev pub scatter_window : ℕ
scatter_window = 256

pub record Assignment : Type 0 where
  pub ipv4 : Option Addr
  pub ipv6 : Option Addr

abbrev pub no_assignment : Assignment
no_assignment = record { ipv4 = none; ipv6 = none }

abbrev pub to_list : Option Addr → List Addr
to_list none = []
to_list (some a) = a ∷ []

-- Assignment.Addrs
unfoldable pub addrs : Assignment → List Addr
addrs a = to_list a.ipv4 ++ to_list a.ipv6

pub record Allocator : Type 0 where
  pub v4 : Prefix
  pub v6 : Option Prefix
  pub v4_broadcast : Addr

-- The bytes of an address, the least significant first: AsSlice has them in the other order, and
-- the loop of lastAddr runs over it from the end.
unfoldable pub to_bytes : ℕ → ℕ → List ℕ
to_bytes zero v = []
to_bytes (suc k) v = (v % 256) ∷ to_bytes k (v / 256)

-- AddrFromSlice
unfoldable pub from_bytes : List ℕ → ℕ
from_bytes [] = 0
from_bytes (b ∷ bs) = b + 256 * from_bytes bs

abbrev pub byte_len : Family → ℕ
byte_len ip4 = 4
byte_len ip6 = 16

-- The loop of lastAddr: set the low `host_bits` bits.
unfoldable pub set_host_bits : ℕ → List ℕ → List ℕ
set_host_bits host_bits [] = []
set_host_bits host_bits (b ∷ bs) =
    let n = min 8 host_bits in
    let set = bit_or b (255 / 2 ^ (8 - n)) ∷ set_host_bits (host_bits - n) bs in
    if ltb 0 host_bits then set else b ∷ bs

-- lastAddr
unfoldable pub last_addr : Prefix → Addr
unfolding to_bytes from_bytes set_host_bits
last_addr p = record p.addr {
  value =
      from_bytes
        (set_host_bits (host_bits p) (to_bytes (byte_len p.addr.family) (masked p).addr.value));
}

-- The fields that NewAllocator sets, once config.NetworkConfig.Validate has passed.
unfoldable pub new_allocator : Prefix → Option Prefix → Allocator
unfolding last_addr
new_allocator v4 v6 = record { v4 = v4; v6 = v6; v4_broadcast = last_addr v4 }

-- The loop of Allocator.freeAddresses from the address `cur` on; `room` is how many addresses may
-- still be appended. A pool has `pool_size` addresses, so that much fuel is enough.
unfoldable pub free_from : Allocator → Prefix → List Addr → ℕ → ℕ → Option Addr → List Addr
free_from al pool taken zero room cur = []
free_from al pool taken (suc fuel) room none = []
free_from al pool taken (suc fuel) room (some addr) =
    let skipped = free_from al pool taken fuel room (next addr) in
    let after = free_from al pool taken fuel (room - 1) (next addr) in
    if contains pool addr
    then if (is4 addr && addr_eq addr al.v4_broadcast) || has_addr addr taken
      then skipped
      else addr ∷ (if room == 1 then [] else after)
    else []

unfoldable pub free_addresses : Allocator → Prefix → List Addr → ℕ → List Addr
unfolding free_from
free_addresses al pool taken limit =
    free_from al pool taken (pool_size pool) limit (next (masked pool).addr)

-- free[i] of a list that is not empty.
unfoldable pub nth : {A : Type 0} → A → List A → ℕ → A
nth x xs zero = x
nth x [] (suc i) = x
nth x (y ∷ ys) (suc i) = nth y ys i

abbrev pub choose : List Addr → Bool → ℕ → Result Addr
choose [] scatter choice = err pool_exhausted
choose (x ∷ xs) scatter choice = ok (if scatter then nth x xs (choice % length (x ∷ xs)) else x)

unfoldable pub pick_candidate : Allocator → Prefix → List Addr → Bool → ℕ → Result Addr
unfolding nth
pick_candidate al pool taken scatter choice =
    choose (free_addresses al pool taken (if scatter then scatter_window else 1)) scatter choice

abbrev pub add_taken : Prefix → AddressText → Result (List Addr) → Result (List Addr)
add_taken pool unparseable rest = err unparseable_address
add_taken pool (parsed a) (err e) = err e
add_taken pool (parsed a) (ok taken) = ok (if contains pool a then a ∷ taken else taken)

-- The rows loop of Allocator.takenIn.
unfoldable pub collect_taken : Prefix → List Allocation → Result (List Addr)
collect_taken pool [] = ok []
collect_taken pool (row ∷ rows) = add_taken pool row.address (collect_taken pool rows)

-- Allocator.takenIn
unfoldable pub taken_in : Prefix → M (List Addr)
unfolding collect_taken
taken_in pool = statement λ d. (
  collect_taken pool (select_rows (λ row. same_family row.family pool.addr.family) d.allocations),
  d,
)

abbrev pub same_address : AddressText → AddressText → Bool
same_address (parsed a) (parsed b) = addr_eq a b
same_address _ _ = false

abbrev pub has_address : Addr → List Allocation → Bool
has_address a = any_row λ row. same_address (parsed a) row.address

abbrev pub new_allocation : Addr → Text → ℕ → Allocation
new_allocation a owner now = record {
  address = parsed a;
  family = a.family;
  owner_id = owner;
  allocated_at = now;
}

-- A row for the table, unless its primary key, the address, is held already.
abbrev pub keyed_rows : Addr → Allocation → List Allocation → Option (List Allocation)
keyed_rows a row rows = if has_address a rows then none else some (rows ++ row ∷ [])

-- ON CONFLICT (address) DO NOTHING, with the rows affected.
abbrev pub or_do_nothing : Database → Option (List Allocation) → Result ℕ × Database
or_do_nothing d none = (ok 0, d)
or_do_nothing d (some rows) = (ok 1, record d { allocations = rows })

-- INSERT INTO ip_allocations … ON CONFLICT (address) DO NOTHING
unfoldable pub insert_allocation : Addr → Text → ℕ → Statement ℕ
insert_allocation a owner now d =
    or_do_nothing d (keyed_rows a (new_allocation a owner now) d.allocations)

-- The retry loop of Allocator.allocateFrom, with `left` attempts left of the 32.
unfoldable pub attempts : Allocator → Prefix → Text → ℕ → (ℕ → ℕ) → ℕ → ℕ → List Addr → M Addr
attempts al pool owner now choices zero attempt taken = raise too_many_attempts
attempts al pool owner now choices (suc left) attempt taken = do
  candidate ← lift (pick_candidate al pool taken (ltb 0 attempt) (choices attempt))
  affected ← statement (insert_allocation candidate owner now)
  let retry = (do
    refreshed ← taken_in pool
    attempts al pool owner now choices left (suc attempt) (candidate ∷ refreshed))
  if affected == 1 then pure candidate else retry

unfoldable pub allocate_from : Allocator → Prefix → Text → ℕ → (ℕ → ℕ) → M Addr
allocate_from al pool owner now choices = do
  taken ← taken_in pool
  attempts al pool owner now choices max_allocation_attempts 0 taken

abbrev pub assign_one : AddressText → Assignment → Result Assignment
assign_one unparseable a = err unparseable_address
assign_one (parsed addr) a =
    ok (if is4 addr then record a { ipv4 = some addr } else record a { ipv6 = some addr })

abbrev pub and_then : {A B : Type 0} → Result A → (A → Result B) → Result B
and_then (ok a) f = f a
and_then (err e) f = err e

-- The rows loop of Allocator.addressesOf: a later row replaces an earlier one of its family.
unfoldable pub assign_rows : List Allocation → Assignment → Result Assignment
assign_rows [] a = ok a
assign_rows (row ∷ rows) a = and_then (assign_one row.address a) (assign_rows rows)

-- Allocator.addressesOf
unfoldable pub addresses_of : Text → M Assignment
unfolding assign_rows
addresses_of owner =
    statement
      λ d. (assign_rows (select_rows (λ row. eq row.owner_id owner) d.allocations) no_assignment, d)

abbrev pub allocate_ip6 : Allocator → Option Prefix → Text → ℕ → (ℕ → ℕ) → M (Option Addr)
allocate_ip6 al none owner now choices = pure none
allocate_ip6 al (some pool) owner now choices = do
  a ← allocate_from al pool owner now choices
  pure (some a)

-- Allocator.Allocate
unfoldable pub allocate : Allocator → Text → ℕ → (Family → ℕ → ℕ) → M Assignment
allocate al owner now choices = if eq owner [] then raise invalid_argument else do
  existing ← addresses_of owner
  if ltb 0 (length (addrs existing)) then raise already_allocated else do
    ipv4 ← allocate_from al al.v4 owner now (choices ip4)
    ipv6 ← allocate_ip6 al al.v6 owner now (choices ip6)
    pure (record { ipv4 = some ipv4; ipv6 = ipv6 })

unfoldable pub delete_allocations : Text → Statement ℕ
delete_allocations owner d = (
  ok (count_rows (λ row. eq row.owner_id owner) d.allocations),
  record d { allocations = delete_rows (λ row. eq row.owner_id owner) d.allocations },
)

-- Allocator.Release
unfoldable pub release : Text → M ℕ
release owner = statement (delete_allocations owner)
