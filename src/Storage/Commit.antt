-- ===== src/Storage/Commit.antt =====
-- What a transaction that returned has done.
use headnet.Schema.{Database}
use headnet.Storage.{Result, ok, err, World, M, statement, in_tx, finish, no_change, ◌>>=◌, pure}
use headnet.Base.{◌≡◌, ap, sym}
use headnet.Storage.Keeps.{Keeps-statement}
use headnet.Storage.Bind.{ok-ne-err}
use headnet.Storage.Ensures.{
  Ensures, Ensures-bind, Ensures-pure, Ensures-Keeps, Ensures-awaits, IsStable, Holds,
}

module _ {A : Type 0} where
  finish-ok :
      (start : World) (r : Result A × World) {a : A} {w : World}
      → finish start r ≡ (ok a, w)
      → r ≡ (ok a, w)
  unfolding finish
  finish-ok start (ok b, w') h = h
  finish-ok start (err e, w') h = ok-ne-err (sym (ap (λ (x : Result A × World). x.0) h))

module _ (P : Database → Type 0) where
  pub Ensures-in_tx :
      {A : Type 0} (body : M A)
      → Ensures (IsStable P) body (λ _. Holds P)
      → Ensures (IsStable P) (in_tx body) (λ _. Holds P)
  unfolding in_tx
  Ensures-in_tx {A} body eb = record { at = λ w p h. inner.at w p (finish-ok w _ h) }
    where
      commit : (a : A) → Ensures (Holds P) (statement no_change >>= λ _. pure a) (λ _. Holds P)
      commit a =
          Ensures-bind (λ _. Holds P) (statement no_change) _
            (Ensures-Keeps P _ (Keeps-statement no_change (λ d h. h)))
            (λ _. Ensures-pure a (λ w p. p))

      inner :
          Ensures
            (IsStable P)
            (statement no_change >>= λ _. body >>= λ a. statement no_change >>= λ _. pure a)
            (λ _. Holds P)
      inner =
          Ensures-bind (λ _. IsStable P) (statement no_change) _ (Ensures-awaits P no_change)
            (λ _. Ensures-bind (λ _. Holds P) body _ eb commit)

  -- What every result of the body satisfies, every result of the transaction does.
  pub Ensures-in_tx-result :
      {A : Type 0} (Q : A → Type 0) (body : M A)
      → Ensures (Holds P) body (λ a _. Q a)
      → Ensures (Holds P) (in_tx body) (λ a _. Q a)
  unfolding in_tx
  Ensures-in_tx-result {A} Q body eb = record { at = λ w p h. inner.at w p (finish-ok w _ h) }
    where
      commit : (a : A) → Ensures (λ _. Q a) (statement no_change >>= λ _. pure a) (λ b _. Q b)
      commit a =
          Ensures-bind (λ _ _. Q a) (statement no_change) _ (record { at = λ w p h. p })
            (λ _. Ensures-pure a (λ w p. p))

      inner :
          Ensures
            (Holds P)
            (statement no_change >>= λ _. body >>= λ a. statement no_change >>= λ _. pure a)
            (λ a _. Q a)
      inner =
          Ensures-bind (λ _. Holds P) (statement no_change) _
            (Ensures-Keeps P _ (Keeps-statement no_change (λ d h. h)))
            (λ _. Ensures-bind (λ a _. Q a) body _ eb commit)

  pub Ensures-in_tx-awaits :
      {A : Type 0} (body : M A)
      → Ensures (IsStable P) body (λ _. IsStable P)
      → Ensures (IsStable P) (in_tx body) (λ _. IsStable P)
  unfolding in_tx
  Ensures-in_tx-awaits {A} body eb = record { at = λ w p h. inner.at w p (finish-ok w _ h) }
    where
      inner :
          Ensures
            (IsStable P)
            (statement no_change >>= λ _. body >>= λ a. statement no_change >>= λ _. pure a)
            (λ _. IsStable P)
      inner =
          Ensures-bind (λ _. IsStable P) (statement no_change) _ (Ensures-awaits P no_change)
            (λ _.
              Ensures-bind (λ _. IsStable P) body _ eb
                (λ a.
                  Ensures-bind (λ _. IsStable P) (statement no_change) _
                    (Ensures-awaits P no_change) (λ _. Ensures-pure a (λ w p. p))))
