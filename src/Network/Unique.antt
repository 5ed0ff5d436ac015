-- ===== src/Network/Unique.antt =====
-- No address is held twice, whatever other connections do and whichever statements fail.
use headnet.Base.{
  ℕ, zero, suc, ◌≡◌, refl, Bool, false, Option, none, some, List, [], ◌∷◌, ◌++◌, arith, Bool-cases,
  inl, inr,
}
use headnet.Text.{Text, eq}
use headnet.Netip.{Addr, Prefix, Family}
use headnet.Netip.Bounds.{addr_eq_sym}
use headnet.Schema.{AddressText, parsed, unparseable, Allocation, Database}
use headnet.Storage.{M, statement}
use headnet.Storage.Table.{any_row, delete_rows, any_row-append}
use headnet.Storage.Keeps.{Keeps, Keeps-statement, keeps_rules}
use headnet.Network.{
  Allocator, same_address, has_address, insert_allocation, attempts, allocate_from, allocate_ip6,
  allocate, release, delete_allocations, taken_in, addresses_of,
}

-- The primary key of ip_allocations.
abbrev pub IsUnique : List Allocation → Type 0
IsUnique [] = Unit {0}
IsUnique (row ∷ rows) =
    (any_row (λ r. same_address row.address r.address) rows ≡ false) × IsUnique rows

abbrev pub HasUniqueAddresses : Database → Type 0
HasUniqueAddresses d = IsUnique d.allocations

same_address_sym :
    (a : Addr) (t : AddressText) → same_address t (parsed a) ≡ same_address (parsed a) t
same_address_sym a unparseable = refl
same_address_sym a (parsed b) = addr_eq_sym b a

IsUnique-append :
    (a : Addr) (row : Allocation) (rows : List Allocation)
    → row.address ≡ parsed a
    → has_address a rows ≡ false
    → IsUnique rows
    → IsUnique (rows ++ row ∷ [])
unfolding any_row
IsUnique-append a row [] e h u = (refl, tt)
IsUnique-append a row (r ∷ rows) e h u = (
  rw (any_row-append (λ x. same_address r.address x.address) rows (row ∷ []), u.0, e)
      (ground (arith, same_address_sym a r.address)),
  IsUnique-append a row rows e (ground arith) u.1,
)

any_row-delete_rows-false :
    {A : Type 0} (p q : A → Bool) (xs : List A)
    → any_row p xs ≡ false
    → any_row p (delete_rows q xs) ≡ false
unfolding any_row delete_rows
any_row-delete_rows-false p q [] h = refl
any_row-delete_rows-false p q (x ∷ xs) h = ground (arith, any_row-delete_rows-false p q xs)

IsUnique-delete_rows :
    (q : Allocation → Bool) (rows : List Allocation) → IsUnique rows → IsUnique (delete_rows q rows)
unfolding delete_rows
IsUnique-delete_rows q [] u = tt
IsUnique-delete_rows q (r ∷ rows) u = ground (
  arith,
  IsUnique-delete_rows q rows u.1,
  any_row-delete_rows-false (λ x. same_address r.address x.address) q rows u.0,
)

pub insert_allocation-IsUnique :
    (a : Addr) (owner : Text) (now : ℕ) (d : Database)
    → HasUniqueAddresses d
    → HasUniqueAddresses (insert_allocation a owner now d).1
unfolding insert_allocation
insert_allocation-IsUnique a owner now d u = elim (Bool-cases (has_address a d.allocations)) [
  | inl held ↦ rw held u
  | inr free ↦ rw free (IsUnique-append a _ d.allocations refl free u)
]

pub delete_allocations-IsUnique :
    (owner : Text) (d : Database)
    → HasUniqueAddresses d
    → HasUniqueAddresses (delete_allocations owner d).1
unfolding delete_allocations
delete_allocations-IsUnique owner d u =
    IsUnique-delete_rows (λ row. eq row.owner_id owner) d.allocations u

abbrev KeepsUnique : {A : Type 0} → M A → Type 0
KeepsUnique = Keeps HasUniqueAddresses

insert-KeepsUnique :
    (a : Addr) (owner : Text) (now : ℕ) → KeepsUnique (statement (insert_allocation a owner now))
insert-KeepsUnique a owner now = Keeps-statement _ (insert_allocation-IsUnique a owner now)

taken_in-KeepsUnique : (pool : Prefix) → KeepsUnique (taken_in pool)
unfolding taken_in
taken_in-KeepsUnique pool = Keeps-statement _ (λ d u. u)

addresses_of-KeepsUnique : (owner : Text) → KeepsUnique (addresses_of owner)
unfolding addresses_of
addresses_of-KeepsUnique owner = Keeps-statement _ (λ d u. u)

ruleset unique_rules =
    (keeps_rules, insert-KeepsUnique, taken_in-KeepsUnique, addresses_of-KeepsUnique)

module _ (al : Allocator) (owner : Text) (now : ℕ) where
  attempts-KeepsUnique :
      (pool : Prefix) (choices : ℕ → ℕ) (left attempt : ℕ) (taken : List Addr)
      → KeepsUnique (attempts al pool owner now choices left attempt taken)
  unfolding attempts
  attempts-KeepsUnique pool choices zero attempt taken = search unique_rules
  attempts-KeepsUnique pool choices (suc left) attempt taken =
      let retry = λ (candidate : Addr) (refreshed : List Addr).
        attempts-KeepsUnique pool choices left (suc attempt) (candidate ∷ refreshed) in
      search (unique_rules, retry) depth 9

  allocate_from-KeepsUnique :
      (pool : Prefix) (choices : ℕ → ℕ) → KeepsUnique (allocate_from al pool owner now choices)
  unfolding allocate_from
  allocate_from-KeepsUnique pool choices = search (unique_rules, attempts-KeepsUnique)

  allocate_ip6-KeepsUnique :
      (pool : Option Prefix) (choices : ℕ → ℕ)
      → KeepsUnique (allocate_ip6 al pool owner now choices)
  allocate_ip6-KeepsUnique none choices = search unique_rules
  allocate_ip6-KeepsUnique (some pool) choices = search (unique_rules, allocate_from-KeepsUnique)

  -- Allocation never leaves two rows with one address, whichever statements fail, whatever the
  -- random choices are and whatever other connections commit in between, if they keep that too.
  pub allocate-KeepsUnique :
      (choices : Family → ℕ → ℕ) → Keeps HasUniqueAddresses (allocate al owner now choices)
  unfolding allocate
  allocate-KeepsUnique choices =
      search (unique_rules, allocate_from-KeepsUnique, allocate_ip6-KeepsUnique) depth 9

pub release-KeepsUnique : (owner : Text) → Keeps HasUniqueAddresses (release owner)
unfolding release
release-KeepsUnique owner = Keeps-statement _ (delete_allocations-IsUnique owner)
