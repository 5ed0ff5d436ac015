-- ===== src/Storage/Ensures.antt =====
-- Postconditions of computations that return, one rule for each way to build a computation.
use headnet.Base.{
  ◌≡◌, refl, Bool, true, false, if◌then◌else◌, ap, sym, subst, List, [], ◌∷◌, Bool-cases, inl, inr,
}
use headnet.Schema.{Database}
use headnet.Storage.{
  Error, Result, ok, err, World, Event, M, Statement, statement, run_statement, ◌>>=◌, pure, raise,
  lift,
}
use headnet.Storage.Keeps.{Keeps, Stable}
use headnet.Storage.Bind.{bind-ok, statement-ok, ok-injective, ok-ne-err}

-- From a world where `P` holds, a computation that returns `a` ends in a world where `Q a` holds.
pub record Ensures {A : Type 0} (P : World → Type 0) (m : M A) (Q : A → World → Type 0)
    : Type 0 where
  pub at : (w : World) {a : A} {w' : World} → P w → m w ≡ (ok a, w') → Q a w'

module _ {A : Type 0} {P : World → Type 0} {Q : A → World → Type 0} where
  pub Ensures-statement :
      (s : Statement A)
      → ((d : Database) (a : A) (w : World) → s d ≡ (ok a, w.db) → Q a w)
      → Ensures P (statement s) Q
  Ensures-statement s post = record {
    at = λ w {a} {w'} p h. let (d, ran) = statement-ok s w h in post d a w' ran;
  }

  pub Ensures-pure : (a : A) → ((w : World) → P w → Q a w) → Ensures P (pure a) Q
  Ensures-pure a post = record {
    at = λ w {a = b} {w'} p h.
        let same : (ok a, w) ≡ (ok b, w') = h in
        let q : Q b w =
          subst (λ x. Q x w) (ok-injective (ap (λ (x : Result A × World). x.0) same)) (post w p) in
        subst (Q b) (ap (λ (x : Result A × World). x.1) same) q;
  }

  pub Ensures-raise : (e : Error) → Ensures P (raise e) Q
  Ensures-raise e = record {
    at = λ w {a} {w'} p h. ok-ne-err (sym (ap (λ (x : Result A × World). x.0) h));
  }

  pub Ensures-if :
      (b : Bool) (m n : M A)
      → (b ≡ true → Ensures P m Q)
      → (b ≡ false → Ensures P n Q)
      → Ensures P (if b then m else n) Q
  Ensures-if true m n em en = em refl
  Ensures-if false m n em en = en refl

module _ {A B : Type 0} {P : World → Type 0} {Q : B → World → Type 0} where
  pub Ensures-bind :
      (R : A → World → Type 0) (m : M A) (f : A → M B)
      → Ensures P m R
      → ((a : A) → Ensures (R a) (f a) Q)
      → Ensures P (m >>= f) Q
  Ensures-bind R m f em ef = record {
    at = λ w p h. let (a, w₁, first, rest) = bind-ok m f w h in (ef a).at w₁ (em.at w p first) rest;
  }

  pub Ensures-bind-lift :
      (r : Result A) (f : A → M B)
      → ((a : A) → r ≡ ok a → Ensures P (f a) Q)
      → Ensures P (lift r >>= f) Q
  Ensures-bind-lift (ok a) f ef = ef a refl
  Ensures-bind-lift (err e) f ef = Ensures-raise e

-- Rules for a property that the other connections keep.
module _ (P : Database → Type 0) where
  abbrev pub IsStable : World → Type 0
  IsStable w = Stable P w.events

  abbrev pub Holds : World → Type 0
  Holds w = Stable P w.events × P w.db

  module _ {A : Type 0} where
    pub Ensures-Keeps : (m : M A) → Keeps P m → Ensures Holds m (λ _. Holds)
    Ensures-Keeps m km = record {
      at = λ w {a} {w'} p h. subst Holds (ap (λ (x : Result A × World). x.1) h) (km.at w p.0 p.1);
    }

    pub statement-Stable :
        (s : Statement A) (es : List Event) (d : Database)
        → Stable P es
        → Stable P (run_statement s es d).1.events
    statement-Stable s [] d st = tt
    statement-Stable s (e ∷ es) d st = elim (Bool-cases e.fails) [
      | inl fails ↦ rw fails st.1
      | inr runs ↦ rw runs st.1
    ]

    -- A statement that makes `P` true, or a property of its answer.
    pub Ensures-establish :
        (Q : A → Database → Type 0) (s : Statement A)
        → ((d : Database) (a : A) (d' : Database) → s d ≡ (ok a, d') → Q a d')
        → Ensures IsStable (statement s) (λ a w. IsStable w × Q a w.db)
    unfolding statement
    Ensures-establish Q s post = record {
      at = λ w {a} {w'} st h.
          let (d, ran) = statement-ok s w h in
          (
            subst IsStable (ap (λ (x : Result A × World). x.1) h)
                (statement-Stable s w.events w.db st),
            post d a w'.db ran,
          );
    }

    run_statement-under :
        (Q : A → Database → Type 0) (s : Statement A)
        → ((d : Database) (a : A) (d' : Database) → P d → s d ≡ (ok a, d') → Q a d')
        → (es : List Event) (d : Database) {a : A} {w' : World} → Stable P es
        → P d
        → run_statement s es d ≡ (ok a, w')
        → Q a w'.db
    run_statement-under Q s post [] d st h e = post d _ _ h (λ i. ((e i).0, (e i).1.db))
    run_statement-under Q s post (o ∷ es) d {a} {w'} st h e = elim (Bool-cases o.fails) [
      | inl fails ↦ ok-ne-err (sym (ap (λ (x : Result A × World). x.0) (rw fails at e)))
      | inr runs ↦
          let e' : ((s (o.others d)).0, record { db = (s (o.others d)).1; events = es })
              ≡ (ok a, w') =
            rw runs at e in
          post (o.others d) a w'.db (st.0 d h) (λ i. ((e' i).0, (e' i).1.db))
    ]

    -- A statement that runs on a state with `P`.
    pub Ensures-under :
        (Q : A → Database → Type 0) (s : Statement A)
        → ((d : Database) (a : A) (d' : Database) → P d → s d ≡ (ok a, d') → Q a d')
        → Ensures Holds (statement s) (λ a w. Q a w.db)
    unfolding statement
    Ensures-under Q s post = record {
      at = λ w p h. run_statement-under Q s post w.events w.db p.0 p.1 h;
    }

    -- A statement leaves what the others do as it is.
    pub Ensures-awaits : (s : Statement A) → Ensures IsStable (statement s) (λ _. IsStable)
    Ensures-awaits s = record {
      at = λ w p h. ((Ensures-establish (λ _ _. Unit {0}) s (λ d a d' e. tt)).at w p h).0;
    }
