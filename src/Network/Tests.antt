-- ===== src/Network/Tests.antt =====
-- Runs of the allocator on a pool of six usable addresses, 10.0.0.0/29.
use headnet.Base.{ℕ, ◌+◌, ◌≡◌, refl, ◌≤◌, true, false, none, some, List, [], ◌∷◌, arith}
use headnet.Text.{Text, codes, eq}
use headnet.Netip.{Addr, Prefix, ip4, contains, next, has_addr}
use headnet.Schema.{Allocation, Database, empty}
use headnet.Storage.{World, ok, statement, interfere, rollback, finish, in_tx}
use headnet.Storage.Table.{any_row, select_rows, count_rows, delete_rows}
use headnet.Storage.Bind.{quiet}
use headnet.Network.{
  Allocator, addrs, new_allocator, last_addr, to_bytes, from_bytes, set_host_bits, free_from,
  free_addresses, nth, pick_candidate, collect_taken, taken_in, new_allocation, insert_allocation,
  attempts, allocate_from, assign_rows, addresses_of, allocate, delete_allocations, release,
}
use headnet.Network.Scan.{IsUsable, StartsBelow, free_addresses-StartsBelow}
use headnet.Network.Claim.{holds, allocate_from-Claims}
use headnet.Network.Quiet.{allocate_from-quiet}
use headnet.Network.LastAddr.{last_addr-greatest}

program : Unit {0}
unfolding eq contains next has_addr statement interfere rollback finish in_tx any_row select_rows
    count_rows delete_rows addrs new_allocator last_addr to_bytes from_bytes set_host_bits free_from
    free_addresses nth pick_candidate collect_taken taken_in insert_allocation attempts
    allocate_from assign_rows addresses_of allocate delete_allocations release
program = tt

abbrev host : ℕ → Addr
host n = record { family = ip4; value = 167772160 + n }

abbrev pool : Prefix
pool = record { addr = host 0; bits = 29 }

abbrev al : Allocator
al = new_allocator pool none

abbrev owner : Text
owner = codes "dev_1"

abbrev row : ℕ → Allocation
row n = new_allocation (host n) owner 5

abbrev rows : List ℕ → List Allocation
rows [] = []
rows (n ∷ ns) = row n ∷ rows ns

abbrev used : List ℕ → Database
used ns = record empty { allocations = rows ns }

main :
    (al.v4_broadcast ≡ host 7)
    × (free_addresses al pool (host 1 ∷ host 3 ∷ []) 256 ≡ host 2 ∷ host 4 ∷ host 5 ∷ host 6 ∷ [])
    × ((allocate al owner 5 (λ f n. n) (quiet empty)).0
        ≡ ok (record { ipv4 = some (host 1); ipv6 = none }))
    × ((release owner (quiet (used (1 ∷ 2 ∷ [])))) ≡ (ok 2, quiet empty))
unfolding program
main = (refl, refl, refl, refl)

abbrev taken_13 : List Addr
taken_13 = host 1 ∷ host 3 ∷ []

-- Another connection takes 10.0.0.1 after it was read as free.
abbrev contended : World
contended = record {
  db = empty;
  events =
      record { others = λ d. d; fails = false }
      ∷ record { others = λ d. used (1 ∷ []); fails = false }
      ∷ [];
}

allocate_from-Claims_example :
    IsUsable al pool [] (host 2)
    × (holds (host 2) owner (allocate_from al pool owner 5 (λ n. 0) contended).1.db.allocations
        ≡ true)
unfolding program
allocate_from-Claims_example = allocate_from-Claims al pool owner 5 (λ n. 0) contended refl

free_addresses-StartsBelow_example :
    StartsBelow al pool taken_13 (host 4) (free_addresses al pool taken_13 1)
unfolding program
free_addresses-StartsBelow_example =
    free_addresses-StartsBelow al pool taken_13 1 (host 4)
      (record { inside = refl; above = omega arith; unskipped = refl }) (omega arith)

allocate_from-quiet_example :
    allocate_from al pool owner 5 (λ n. n) (quiet (used (1 ∷ 3 ∷ [])))
    ≡ (ok (host 2), quiet (used (1 ∷ 3 ∷ 2 ∷ [])))
unfolding program
allocate_from-quiet_example =
    allocate_from-quiet al pool owner 5 (λ n. n) (used (1 ∷ 3 ∷ [])) taken_13 (host 2) []
      (refl, (refl, tt)) refl refl

abbrev full : Database
full = used (1 ∷ 2 ∷ 3 ∷ 4 ∷ 5 ∷ 6 ∷ [])

abbrev all_taken : List Addr
all_taken = host 1 ∷ host 2 ∷ host 3 ∷ host 4 ∷ host 5 ∷ host 6 ∷ []

last_addr-greatest_example :
    (contains pool (last_addr pool) ≡ true) × ((host 3).value ≤ (last_addr pool).value)
unfolding program
last_addr-greatest_example = last_addr-greatest pool (omega arith) (host 3) refl
