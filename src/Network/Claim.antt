-- ===== src/Network/Claim.antt =====
-- What an allocation claims: an address that may be given out, recorded for its owner.
use headnet.Base.{
  ℕ, zero, suc, ◌≡◌, Bool, true, false, ◌&&◌, List, [], ◌∷◌, ◌++◌, arith, ltb, ◌==◌, Bool-cases,
  inl, inr, All, ap, subst,
}
use headnet.Text.{Text, eq, eq_refl}
use headnet.Netip.{Addr, Prefix, has_addr}
use headnet.Netip.Bounds.{addr_eq_refl}
use headnet.Schema.{parsed, Allocation, Database}
use headnet.Storage.{World, Result, ok}
use headnet.Storage.Bind.{ok-injective}
use headnet.Storage.Ensures.{
  Ensures, Ensures-statement, Ensures-pure, Ensures-raise, Ensures-if, Ensures-bind,
  Ensures-bind-lift,
}
use headnet.Storage.Table.{any_row, any_row-append}
use headnet.Network.{
  Allocator, new_allocation, same_address, has_address, insert_allocation, attempts, allocate_from,
  max_allocation_attempts, taken_in, pick_candidate, choose, nth,
}
use headnet.Network.Scan.{IsUsable, free_addresses-IsUsable}

-- The table records that the owner holds the address.
abbrev pub holds : Addr → Text → List Allocation → Bool
holds a owner = any_row λ row. same_address (parsed a) row.address && eq row.owner_id owner

All-nth :
    {A : Type 0} (P : A → Type 0) (x : A) (xs : List A) (i : ℕ) → P x → All P xs → P (nth x xs i)
unfolding nth
All-nth P x xs zero h hs = h
All-nth P x [] (suc i) h hs = h
All-nth P x (y ∷ ys) (suc i) h hs = All-nth P y ys i hs.0 hs.1

choose-ok :
    (P : Addr → Type 0) (xs : List Addr) (scatter : Bool) (choice : ℕ) {a : Addr}
    → choose xs scatter choice ≡ ok a
    → All P xs
    → P a
choose-ok P [] scatter choice h ps = cc
choose-ok P (x ∷ xs) true choice h ps = subst P (ok-injective h) (All-nth P x xs _ ps.0 ps.1)
choose-ok P (x ∷ xs) false choice h ps = subst P (ok-injective h) ps.0

module _ (al : Allocator) (pool : Prefix) (owner : Text) (now : ℕ) where
  pick_candidate-IsUsable :
      (taken : List Addr) (scatter : Bool) (choice : ℕ) {a : Addr}
      → pick_candidate al pool taken scatter choice ≡ ok a
      → IsUsable al pool [] a
  unfolding pick_candidate has_addr
  pick_candidate-IsUsable taken scatter choice h =
      let u =
        choose-ok (IsUsable al pool taken) _ scatter choice h
          (free_addresses-IsUsable al pool taken _) in
      record { inside = u.inside; above = u.above; unskipped = ground (arith, u.unskipped) }

  insert-holds :
      (a : Addr) (d d' : Database)
      → insert_allocation a owner now d ≡ (ok 1, d')
      → holds a owner d'.allocations ≡ true
  unfolding insert_allocation any_row
  insert-holds a d d' h = elim (Bool-cases (has_address a d.allocations)) [
    | inl held ↦
        let e : ◌≡◌ {A = Result ℕ × Database} (ok 0, d) (ok 1, d') = rw held at h in
        absurd (omega (arith, ok-injective (ap (λ (x : Result ℕ × Database). x.0) e)))
    | inr free ↦
        let e : ◌≡◌ {A = Result ℕ × Database}
            (ok 1, record d { allocations = d.allocations ++ new_allocation a owner now ∷ [] })
            (ok 1, d') =
          rw free at h in
        rw
          (
            ← ap (λ (x : Result ℕ × Database). x.1.allocations) e,
            any_row-append
                (λ (row : Allocation). same_address (parsed a) row.address && eq row.owner_id owner)
                d.allocations (new_allocation a owner now ∷ []),
          )
          (ground (arith, addr_eq_refl a, eq_refl owner))
  ]

  abbrev pub Claims : Addr → World → Type 0
  Claims a w = IsUsable al pool [] a × (holds a owner w.db.allocations ≡ true)

  attempts-Claims :
      (choices : ℕ → ℕ) (left attempt : ℕ) (taken : List Addr) {P : World → Type 0}
      → Ensures P (attempts al pool owner now choices left attempt taken) Claims
  unfolding attempts
  attempts-Claims choices zero attempt taken = Ensures-raise _
  attempts-Claims choices (suc left) attempt taken {P} =
      Ensures-bind-lift (pick_candidate al pool taken (ltb 0 attempt) (choices attempt)) _
        λ candidate picked.
          Ensures-bind (λ affected w. affected ≡ 1 → holds candidate owner w.db.allocations ≡ true)
            _ _
            (Ensures-statement _ (λ d n w ran one. insert-holds candidate d w.db (rw one at ran)))
            λ affected.
              Ensures-if (affected == 1) _ _
                (λ one.
                  Ensures-pure candidate
                    (λ w held. (pick_candidate-IsUsable taken _ _ picked, held (ground arith))))
                (λ _.
                  Ensures-bind (λ _ _. Unit {0}) _ _ (record { at = λ w p h. tt })
                    (λ refreshed.
                      attempts-Claims choices left (suc attempt) (candidate ∷ refreshed)))

  pub allocate_from-Ensures :
      (choices : ℕ → ℕ) {P : World → Type 0}
      → Ensures P (allocate_from al pool owner now choices) Claims
  unfolding allocate_from
  allocate_from-Ensures choices =
      Ensures-bind (λ _ _. Unit {0}) (taken_in pool) _ (record { at = λ w p h. tt })
        (λ taken. attempts-Claims choices max_allocation_attempts 0 taken)

  -- Whatever other connections do, an address that is returned lies in the pool, is neither its
  -- network address nor the IPv4 broadcast address, and is recorded for the owner.
  pub allocate_from-Claims :
      (choices : ℕ → ℕ) (w : World) {a : Addr} {w' : World}
      → allocate_from al pool owner now choices w ≡ (ok a, w')
      → IsUsable al pool [] a × (holds a owner w'.db.allocations ≡ true)
  allocate_from-Claims choices w h = (allocate_from-Ensures choices {P = λ _. Unit}).at w tt h
