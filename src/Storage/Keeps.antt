-- ===== src/Storage/Keeps.antt =====
-- Invariants of computations that run among others: one rule for each way to build a computation.
use headnet.Base.{
  ℕ, suc, zero, ◌-◌, Bool, true, false, if◌then◌else◌, List, [], ◌∷◌, length, Bool-cases, inl, inr,
}
use headnet.Schema.{Database}
use headnet.Storage.{
  Error, Result, ok, err, World, Event, M, Statement, in_tx, interfere, finish, statement,
  no_change, ◌>>=◌, pure, raise, lift, classified, run_statement,
}

-- What the other connections do keeps `P`.
abbrev pub Stable : (Database → Type 0) → List Event → Type 0
Stable P [] = Unit {0}
Stable P (e ∷ es) = ((d : Database) → P d → P (e.others d)) × Stable P es

-- Among others that keep `P`, the computation keeps `P`, whether it returns or fails.
pub record Keeps {A : Type 0} (P : Database → Type 0) (m : M A) : Type 0 where
  pub at : (w : World) → Stable P w.events → P w.db → Stable P (m w).1.events × P (m w).1.db

interfere-Stable :
    (P : Database → Type 0) (n : ℕ) (es : List Event) (d : Database)
    → Stable P es
    → P d
    → P (interfere n es d)
unfolding interfere
interfere-Stable P zero es d s h = h
interfere-Stable P (suc n) [] d s h = h
interfere-Stable P (suc n) (e ∷ es) d s h = interfere-Stable P n es (e.others d) s.1 (s.0 d h)

module _ {A : Type 0} {P : Database → Type 0} where
  run_statement-Keeps :
      (s : Statement A)
      → ((d : Database) → P d → P (s d).1)
      → (es : List Event) (d : Database) → Stable P es
      → P d
      → Stable P (run_statement s es d).1.events × P (run_statement s es d).1.db
  run_statement-Keeps s k [] d st h = (tt, k d h)
  run_statement-Keeps s k (e ∷ es) d st h = elim (Bool-cases e.fails) [
    | inl fails ↦ rw fails (st.1, st.0 d h)
    | inr runs ↦ rw runs (st.1, k _ (st.0 d h))
  ]

  pub Keeps-statement :
      (s : Statement A) → ((d : Database) → P d → P (s d).1) → Keeps P (statement s)
  unfolding statement
  Keeps-statement s k = record { at = λ w st h. run_statement-Keeps s k w.events w.db st h }

  pub Keeps-pure : (a : A) → Keeps P (pure a)
  Keeps-pure a = record { at = λ w st h. (st, h) }

  pub Keeps-raise : (e : Error) → Keeps P (raise {A = A} e)
  Keeps-raise e = record { at = λ w st h. (st, h) }

  pub Keeps-lift : (r : Result A) → Keeps P (lift r)
  Keeps-lift r = record { at = λ w st h. (st, h) }

  pub Keeps-classified : (f : Error → Error) (m : M A) → Keeps P m → Keeps P (classified f m)
  Keeps-classified f m km = record { at = km.at }

  pub Keeps-if : (b : Bool) (m n : M A) → Keeps P m → Keeps P n → Keeps P (if b then m else n)
  Keeps-if true m n km kn = km
  Keeps-if false m n km kn = kn

module _ {A B : Type 0} {P : Database → Type 0} where
  Keeps-continue : (r : Result A) (f : A → M B) → ((a : A) → Keeps P (f a)) → Keeps P (lift r >>= f)
  Keeps-continue (ok a) f kf = kf a
  Keeps-continue (err e) f kf = Keeps-raise e

  pub Keeps-known : (a : A) (f : A → M B) → Keeps P (f a) → Keeps P (lift (ok a) >>= f)
  Keeps-known a f kf = record { at = kf.at }

  pub Keeps-bind :
      (m : M A) (f : A → M B) → Keeps P m → ((a : A) → Keeps P (f a)) → Keeps P (m >>= f)
  Keeps-bind m f km kf = record {
    at =
        λ w st h. let kept = km.at w st h in (Keeps-continue (m w).0 f kf).at (m w).1 kept.0 kept.1;
  }

module _ {A : Type 0} where
  finish-Keeps :
      (P : Database → Type 0) (start : World) (p : Result A × World)
      → Stable P start.events
      → P start.db
      → Stable P p.1.events × P p.1.db
      → Stable P (finish start p).1.events × P (finish start p).1.db
  unfolding finish
  finish-Keeps P start (ok a, w) st h kept = kept
  finish-Keeps P start (err e, w) st h kept = (
    kept.0,
    interfere-Stable P (length start.events - length w.events) start.events start.db st h,
  )

module _ {A : Type 0} {P : Database → Type 0} where
  pub Keeps-in_tx : (body : M A) → Keeps P body → Keeps P (in_tx body)
  unfolding in_tx
  Keeps-in_tx body kb = record { at = λ w st h. finish-Keeps P w _ st h (inner.at w st h) }
    where
      nothing : Keeps P (statement no_change)
      nothing = Keeps-statement no_change (λ d h. h)

      inner :
          Keeps P (statement no_change >>= λ _. body >>= λ a. statement no_change >>= λ _. pure a)
      inner =
          Keeps-bind _ _ nothing
            (λ _. Keeps-bind _ _ kb (λ a. Keeps-bind _ _ nothing (λ _. Keeps-pure a)))

pub ruleset keeps_rules =
    (Keeps-pure, Keeps-raise, Keeps-lift, Keeps-classified, Keeps-if, Keeps-in_tx, Keeps-bind)
