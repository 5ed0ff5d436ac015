-- ===== src/Network/Quiet.antt =====
-- Allocation on a connection of its own: the first attempt succeeds, with the lowest address.
use headnet.Base.{
  ℕ, suc, ◌≡◌, refl, Bool, true, false, List, [], ◌∷◌, ◌++◌, arith, Bool-cases, inl, inr, All, ap,
  subst, ◌∙◌,
}
use headnet.Text.{Text}
use headnet.Netip.{Addr, Prefix, Family, addr_eq, same_family, contains, has_addr}
use headnet.Netip.Bounds.{addr_eq→≡, same_family_refl, contains_bounds}
use headnet.Schema.{AddressText, parsed, unparseable, Allocation, Database}
use headnet.Storage.{Result, ok, err, statement, pool_exhausted}
use headnet.Storage.Bind.{quiet, ok-injective}
use headnet.Storage.Table.{any_row, select_rows}
use headnet.Network.{
  Allocator, new_allocation, same_address, has_address, insert_allocation, attempts, allocate_from,
  taken_in, pick_candidate, free_addresses, collect_taken, add_taken,
}
use headnet.Network.Scan.{IsUsable, free_addresses-IsUsable}

-- The family column agrees with the address.
abbrev pub FamilyAgrees : AddressText → Family → Type 0
FamilyAgrees unparseable f = Unit {0}
FamilyAgrees (parsed a) f = f ≡ a.family

abbrev pub HasFamilies : List Allocation → Type 0
HasFamilies = All λ row. FamilyAgrees row.address row.family

module _ (pool : Prefix) (a : Addr) (inside : contains pool a ≡ true) where
  abbrev in_family : Allocation → Bool
  in_family row = same_family row.family pool.addr.family

  addr_eq-contains : (b : Addr) → contains pool b ≡ false → addr_eq a b ≡ false
  addr_eq-contains b out = elim (Bool-cases (addr_eq a b)) [
    | inr differs ↦ differs
    | inl same ↦ cc (ap (contains pool) (addr_eq→≡ a b same), inside, out)
  ]

  read_row :
      (t : AddressText) (r : Result (List Addr)) {taken : List Addr}
      → add_taken pool t r ≡ ok taken
      → has_addr a taken ≡ false
      → (rest : List Addr) × (same_address (parsed a) t ≡ false)
        × (r ≡ ok rest)
        × (has_addr a rest ≡ false)
  unfolding has_addr
  read_row unparseable r e h = cc
  read_row (parsed b) (err x) e h = cc
  read_row (parsed b) (ok rest) {taken} e h = elim (Bool-cases (contains pool b)) [
    | inl kept ↦
        let same : b ∷ rest ≡ taken = ok-injective (rw kept at e) in
        let apart : has_addr a (b ∷ rest) ≡ false = ap (has_addr a) same ∙ h in
        (rest, ground arith, refl, ground arith)
    | inr out ↦
        let same : rest ≡ taken = ok-injective (rw out at e) in
        (rest, addr_eq-contains b out, refl, ap (has_addr a) same ∙ h)
  ]

  unread_row :
      (t : AddressText) (g : Family)
      → FamilyAgrees t g
      → same_family g pool.addr.family ≡ false
      → same_address (parsed a) t ≡ false
  unread_row unparseable g f n = refl
  unread_row (parsed b) g f n = elim (Bool-cases (addr_eq a b)) [
    | inr differs ↦ differs
    | inl same ↦ cc (
      n,
      f,
      ap (λ (x : Addr). x.family) (addr_eq→≡ a b same),
      (contains_bounds pool a inside).0,
      same_family_refl pool.addr.family,
    )
  ]

  -- What the taken set leaves out is held by no row.
  collect_taken_complete :
      (rows : List Allocation) {taken : List Addr}
      → HasFamilies rows
      → collect_taken pool (select_rows in_family rows) ≡ ok taken
      → has_addr a taken ≡ false
      → has_address a rows ≡ false
  unfolding collect_taken select_rows any_row
  collect_taken_complete [] f e h = refl
  collect_taken_complete (row ∷ rows) f e h = elim (Bool-cases (in_family row)) [
    | inl read ↦
        let (rest, apart, gathered, free) = read_row row.address _ (rw read at e) h in
        rw apart (collect_taken_complete rows f.1 gathered free)
    | inr unread ↦
        rw (unread_row row.address row.family f.0 unread)
          (collect_taken_complete rows f.1 (rw unread at e) h)
  ]

-- The addresses that Allocator.takenIn reads.
abbrev pub taken_rows : Prefix → Database → Result (List Addr)
taken_rows pool d =
    collect_taken pool (select_rows (λ row. same_family row.family pool.addr.family) d.allocations)

module _ (al : Allocator) (pool : Prefix) (owner : Text) (now : ℕ) (choices : ℕ → ℕ)
    (d : Database) where
  abbrev claimed : Addr → Database
  claimed a = record d { allocations = d.allocations ++ new_allocation a owner now ∷ [] }

  pick_first :
      (taken : List Addr) (a : Addr) (rest : List Addr)
      → free_addresses al pool taken 1 ≡ a ∷ rest
      → pick_candidate al pool taken false (choices 0) ≡ ok a
  unfolding pick_candidate
  pick_first taken a rest free = rw free

  attempts-first :
      (left : ℕ) (taken : List Addr) (a : Addr) (rest : List Addr)
      → free_addresses al pool taken 1 ≡ a ∷ rest
      → has_address a d.allocations ≡ false
      → attempts al pool owner now choices (suc left) 0 taken (quiet d) ≡ (ok a, quiet (claimed a))
  unfolding attempts statement insert_allocation
  attempts-first left taken a rest free unheld = rw (pick_first taken a rest free) (rw unheld)

  head-IsUsable :
      (taken : List Addr) (a : Addr) (rest : List Addr)
      → free_addresses al pool taken 1 ≡ a ∷ rest
      → IsUsable al pool taken a
  head-IsUsable taken a rest free =
      (subst (All (IsUsable al pool taken)) free (free_addresses-IsUsable al pool taken 1)).0

  -- With no other connection in the way and no failure, when every row has the family of its
  -- address and the scan finds a free one, allocateFrom returns the first free address, and a row
  -- for it is the only change.
  pub allocate_from-quiet :
      (taken : List Addr) (a : Addr) (rest : List Addr)
      → HasFamilies d.allocations
      → taken_rows pool d ≡ ok taken
      → free_addresses al pool taken 1 ≡ a ∷ rest
      → allocate_from al pool owner now choices (quiet d) ≡ (
        ok a,
        quiet (record d { allocations = d.allocations ++ new_allocation a owner now ∷ [] }),
      )
  unfolding allocate_from taken_in statement
  allocate_from-quiet taken a rest f e free =
      let u = head-IsUsable taken a rest free in
      rw e (
        attempts-first 31 taken a rest free
          (collect_taken_complete pool a u.inside d.allocations f e (ground (arith, u.unskipped))))

  attempts-none :
      (left : ℕ) (taken : List Addr)
      → free_addresses al pool taken 1 ≡ []
      → attempts al pool owner now choices (suc left) 0 taken (quiet d)
        ≡ (err pool_exhausted, quiet d)
  unfolding attempts pick_candidate
  attempts-none left taken none_free = rw none_free

  -- With no other connection in the way and no failure, when the scan finds no free address,
  -- allocateFrom reports that the pool is exhausted and changes nothing.
  allocate_from-exhausted :
      (taken : List Addr)
      → taken_rows pool d ≡ ok taken
      → free_addresses al pool taken 1 ≡ []
      → allocate_from al pool owner now choices (quiet d) ≡ (err pool_exhausted, quiet d)
  unfolding allocate_from taken_in statement
  allocate_from-exhausted taken e none_free = rw e (attempts-none 31 taken none_free)
