-- ===== src/Storage/Bind.antt =====
-- What a computation that returned has done.
use headnet.Base.{◌≡◌, refl, Bool-cases, inl, inr, ap, sym, List, [], ◌∷◌}
use headnet.Schema.{Database}
use headnet.Storage.{
  Error, Result, ok, err, World, Event, M, Statement, statement, run_statement, ◌>>=◌, continue,
}

-- A world in which no other connection interferes and no statement fails.
abbrev pub quiet : Database → World
quiet d = record { db = d; events = [] }

pub ok-injective : {A : Type 0} {a b : A} → ok a ≡ ok b → a ≡ b
ok-injective h = cc

pub err-injective : {A : Type 0} {e e' : Error} → ◌≡◌ {A = Result A} (err e) (err e') → e ≡ e'
err-injective h = cc

pub ok-ne-err : {A C : Type 0} {a : A} {e : Error} → ok a ≡ err e → C
ok-ne-err h = cc

module _ {A B : Type 0} where
  continue-ok :
      (r : Result A) (f : A → M B) (w : World) {b : B} {w' : World}
      → continue r f w ≡ (ok b, w')
      → (a : A) × (r ≡ ok a) × (f a w ≡ (ok b, w'))
  continue-ok (ok a) f w h = (a, refl, h)
  continue-ok (err e) f w h = cc

  -- A block that returned has returned from its first computation, and then from the rest.
  pub bind-ok :
      (m : M A) (f : A → M B) (w : World) {b : B} {w' : World}
      → (m >>= f) w ≡ (ok b, w')
      → (a : A) × (w₁ : World) × (m w ≡ (ok a, w₁)) × (f a w₁ ≡ (ok b, w'))
  bind-ok m f w h =
      let c = continue-ok (m w).0 f (m w).1 h in (c.0, (m w).1, λ i. (c.1 i, (m w).1), c.2)

module _ {A : Type 0} where
  -- A statement that returned has run on some state of the database.
  pub statement-ok :
      (s : Statement A) (w : World) {a : A} {w' : World}
      → statement s w ≡ (ok a, w')
      → (d : Database) × (s d ≡ (ok a, w'.db))
  unfolding statement
  statement-ok s w h = run_statement-ok s w.events w.db h
    where
      run_statement-ok :
          (s : Statement A) (es : List Event) (d : Database) {a : A} {w' : World}
          → run_statement s es d ≡ (ok a, w')
          → (d' : Database) × (s d' ≡ (ok a, w'.db))
      run_statement-ok s [] d h = (d, λ i. ((h i).0, (h i).1.db))
      run_statement-ok s (e ∷ es) d {a} {w'} h = elim (Bool-cases e.fails) [
        | inl fails ↦ ok-ne-err (sym (ap (λ (p : Result A × World). p.0) (rw fails at h)))
        | inr runs ↦
            let k : ((s (e.others d)).0, record { db = (s (e.others d)).1; events = es })
                ≡ (ok a, w') =
              rw runs at h in
            (e.others d, λ i. ((k i).0, (k i).1.db))
      ]
