-- ===== src/Storage/Rollback.antt =====
-- DB.InTx under failures and interference: nothing of a failed transaction is left behind.
use headnet.Base.{
  ℕ, suc, ◌-◌, ◌≤◌, ◌≡◌, arith, ap, sym, length, [], ◌∷◌, List, Bool, true, false, Bool-cases, inl,
  inr, if◌then◌else◌,
}
use headnet.Schema.{Database}
use headnet.Storage.{
  Error, Result, ok, err, World, Event, M, in_tx, interfere, finish, statement, run_statement,
  continue, ◌>>=◌, raise, pure, lift,
}
use headnet.Storage.Bind.{ok-ne-err, err-injective}

-- The database holds nothing of a computation from `w` to `w'`: it is what the other connections
-- made of it.
abbrev pub Untouched : World → World → Type 0
Untouched w w' = (n : ℕ) × (n ≤ length w.events) × (w'.db ≡ interfere n w.events w.db)

pub Untouched-refl :
    (w : World) {A : Type 0} {e e' : Error} {w' : World}
    → ◌≡◌ {A = Result A × World} (err e, w) (err e', w')
    → Untouched w w'
unfolding interfere
Untouched-refl w {A} h = (0, omega arith, ap (λ (x : Result A × World). x.1.db) (sym h))

module _ {A : Type 0} where
  finish-err :
      (start : World) (p : Result A × World) {e : Error} {w : World}
      → finish start p ≡ (err e, w)
      → (n : ℕ) × (n ≤ length start.events) × (w.db ≡ interfere n start.events start.db)
  unfolding finish
  finish-err start (ok a, w') h = cc
  finish-err start (err e', w') h = (
    length start.events - length w'.events,
    omega arith,
    ap (λ (q : Result A × World). q.1.db) (sym h),
  )

  -- After an error the database is what it was before the transaction, but for what the other
  -- connections did meanwhile: no write of the body is left, wherever it failed.
  in_tx-err :
      (body : M A) (start : World) {e : Error} {w : World}
      → in_tx body start ≡ (err e, w)
      → (n : ℕ) × (n ≤ length start.events) × (w.db ≡ interfere n start.events start.db)
  unfolding in_tx
  in_tx-err body start h = finish-err start _ h

-- A computation that leaves nothing behind when it fails.
pub record IsAtomic {A : Type 0} (m : M A) : Type 0 where
  pub at : (w : World) {e : Error} {w' : World} → m w ≡ (err e, w') → Untouched w w'

later :
    (o : Event) (es : List Event) (d : Database) (w' : World)
    → Untouched (record { db = o.others d; events = es }) w'
    → Untouched (record { db = d; events = o ∷ es }) w'
unfolding interfere
later o es d w' (n, bound, e) = (suc n, omega arith, e)

module _ {A : Type 0} where
  pub IsAtomic-in_tx : (body : M A) → IsAtomic (in_tx body)
  IsAtomic-in_tx body = record { at = λ w h. in_tx-err body w h }

  pub IsAtomic-raise : (e : Error) → IsAtomic (raise {A = A} e)
  IsAtomic-raise e = record { at = λ w h. Untouched-refl w h }

  pub IsAtomic-pure : (a : A) → IsAtomic (pure a)
  IsAtomic-pure a = record { at = λ w {e} {w'} h. ok-ne-err (ap (λ (x : Result A × World). x.0) h) }

  pub IsAtomic-if : (b : Bool) (m n : M A) → IsAtomic m → IsAtomic n → IsAtomic (if b then m else n)
  IsAtomic-if true m n am an = am
  IsAtomic-if false m n am an = an

module _ {A B : Type 0} where
  pub IsAtomic-lift :
      (r : Result A) (k : A → M B) → ((a : A) → IsAtomic (k a)) → IsAtomic (lift r >>= k)
  IsAtomic-lift (ok a) k ak = ak a
  IsAtomic-lift (err e) k ak = IsAtomic-raise e

  then_pure :
      (r : Result A) (f : A → B) (w : World) {e : Error} {w' : World}
      → continue r (λ a. pure (f a)) w ≡ (err e, w')
      → (r ≡ err e) × (w ≡ w')
  then_pure (ok a) f w h = ok-ne-err (ap (λ (x : Result B × World). x.0) h)
  then_pure (err x) f w h = (
    ap err (err-injective (ap (λ (y : Result B × World). y.0) h)),
    ap (λ (y : Result B × World). y.1) h,
  )

  pub IsAtomic-then_pure : (m : M A) (f : A → B) → IsAtomic m → IsAtomic (m >>= λ a. pure (f a))
  IsAtomic-then_pure m f am = record {
    at = λ w h.
        let (failed, same) = then_pure (m w).0 f (m w).1 h in am.at w (λ i. (failed i, same i));
  }

  -- A query in front of a computation that leaves nothing behind.
  module _ (read : Database → Result A) (k : A → M B) (ak : (a : A) → IsAtomic (k a)) where
    run_read-err :
        (es : List Event) (d : Database) {e : Error} {w' : World}
        → (let (r, w) = run_statement (λ x. (read x, x)) es d in continue r k w) ≡ (err e, w')
        → Untouched (record { db = d; events = es }) w'
    run_read-err [] d h = (IsAtomic-lift (read d) k ak).at _ h
    run_read-err (o ∷ es) d {e} {w'} h = later o es d w' (elim (Bool-cases o.fails) [
      | inl fails ↦ Untouched-refl _ (rw fails at h)
      | inr runs ↦ (IsAtomic-lift (read (o.others d)) k ak).at _ (rw runs at h)
    ])

    pub IsAtomic-read : IsAtomic (statement (λ x. (read x, x)) >>= k)
    unfolding statement
    IsAtomic-read = record { at = λ w h. run_read-err w.events w.db h }

pub ruleset atomic_rules =
    (IsAtomic-in_tx, IsAtomic-raise, IsAtomic-pure, IsAtomic-if, IsAtomic-lift, IsAtomic-then_pure)
