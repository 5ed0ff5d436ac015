-- ===== src/Storage/Identity.antt =====
-- Servers that start on one database agree on its identity.
use headnet.Base.{ℕ, ◌≡◌, refl, sym, ap, subst, ◌∙◌, inl, inr, List, [], ◌∷◌, ◌++◌, Bool-cases}
use headnet.Text.{Text, eq}
use headnet.Schema.{Metadata, Database}
use headnet.Storage.{Result, ok, err, World, M, statement}
use headnet.Storage.Bind.{ok-injective}
use headnet.Storage.Table.{any_row, find_row}
use headnet.Storage.Keeps.{Keeps, Keeps-statement, Stable, keeps_rules}
use headnet.Storage.Ensures.{
  Ensures, Ensures-if, Ensures-bind, Ensures-pure, Ensures-raise, Ensures-establish, Ensures-under,
  Ensures-Keeps, Ensures-awaits, IsStable, Holds, statement-Stable,
}
use headnet.Storage.Commit.{Ensures-in_tx-awaits}
use headnet.Storage.Metadata.{or_unset, get_metadata, insert_missing, new_row}
use headnet.Storage.Instance.{
  key_instance_id, is_unset, attempt, initialise, id_or_initialise, instance_id,
}

-- The row of the key has the value.
abbrev pub Reads : Text → Text → Database → Type 0
Reads key value d = or_unset (find_row (λ r. eq r.key key) d.metadata) ≡ ok value

module _ (id : Text) where
  abbrev IsInstance : Database → Type 0
  IsInstance = Reads key_instance_id id

  find_row-append_other :
      (key : Text) (rows : List Metadata) (row : Metadata)
      → or_unset (find_row (λ r. eq r.key key) rows) ≡ ok id
      → or_unset (find_row (λ r. eq r.key key) (rows ++ row ∷ [])) ≡ ok id
  unfolding find_row
  find_row-append_other key [] row h = cc
  find_row-append_other key (x ∷ rows) row h = elim (Bool-cases (eq x.key key)) [
    | inl here ↦ rw here (rw here at h)
    | inr there ↦ rw there (find_row-append_other key rows row (rw there at h))
  ]

  insert_missing-keeps :
      (key value : Text) (now : ℕ) (d : Database)
      → IsInstance d
      → IsInstance (insert_missing key value now d).1
  unfolding insert_missing
  insert_missing-keeps key value now d h =
      elim (Bool-cases (any_row (λ r. eq r.key key) d.metadata)) [
        | inl held ↦ rw held h
        | inr free ↦
            rw free (find_row-append_other key_instance_id d.metadata (new_row key value now) h)
      ]

  inserts-Keeps :
      (key value : Text) (now : ℕ) → Keeps IsInstance (statement (insert_missing key value now))
  inserts-Keeps key value now = Keeps-statement _ (insert_missing-keeps key value now)

  get-Keeps : (key : Text) → Keeps IsInstance (get_metadata key)
  unfolding get_metadata
  get-Keeps key = Keeps-statement _ (λ d h. h)

  initialise-Keeps :
      (candidate stamp : Text) (now : ℕ) → Keeps IsInstance (initialise candidate stamp now)
  unfolding initialise
  initialise-Keeps candidate stamp now = search (keeps_rules, inserts-Keeps)

  -- What InstanceID reads is there.
  reads :
      Ensures
        (IsStable IsInstance)
        (get_metadata key_instance_id)
        (λ a w. IsStable IsInstance w × (a ≡ id → IsInstance w.db))
  unfolding get_metadata
  reads =
      Ensures-establish IsInstance (λ a d. a ≡ id → IsInstance d) _
        (λ d a d' e same.
          subst IsInstance (ap (λ (x : Result Text × Database). x.1) e)
            (ap (λ (x : Result Text × Database). x.0) e ∙ ap ok same))

  -- What is there is what InstanceID reads.
  finds : Ensures (Holds IsInstance) (get_metadata key_instance_id) (λ a _. a ≡ id)
  unfolding get_metadata
  finds =
      Ensures-under IsInstance (λ a _. a ≡ id) _
        (λ d a d' h e. ok-injective (sym (ap (λ (x : Result Text × Database). x.0) e) ∙ h))

  initialise-awaits :
      (candidate stamp : Text) (now : ℕ)
      → Ensures (IsStable IsInstance) (initialise candidate stamp now) (λ _. IsStable IsInstance)
  unfolding initialise
  initialise-awaits candidate stamp now = Ensures-in_tx-awaits IsInstance _ (
      Ensures-bind (λ _. IsStable IsInstance) (statement _) _ (Ensures-awaits IsInstance _)
        (λ _.
          Ensures-bind (λ _. IsStable IsInstance) (statement _) _ (Ensures-awaits IsInstance _)
            (λ _. Ensures-pure tt (λ w p. p))))

  Ensures-attempt :
      {A B : Type 0} {P : World → Type 0} {Q : B → World → Type 0} (R : Result A → World → Type 0)
      (m : M A) (k : Result A → M B)
      → ((w : World) → P w → R (m w).0 (m w).1)
      → ((r : Result A) → Ensures (R r) (k r) Q)
      → Ensures P (attempt m k) Q
  Ensures-attempt R m k first later = record {
    at = λ w p h. (later (m w).0).at (m w).1 (first w p) h;
  }

  get-awaits :
      (w : World) → IsStable IsInstance w → IsStable IsInstance (get_metadata key_instance_id w).1
  unfolding get_metadata statement
  get-awaits w st = statement-Stable IsInstance _ w.events w.db st

  module _ (candidate stamp : Text) (now : ℕ) where
    -- What is known after the first read.
    abbrev Tried : Result Text → World → Type 0
    Tried r w = IsStable IsInstance w × (r ≡ ok id → IsInstance w.db)

    abbrev Settles : Text → World → Type 0
    Settles a w = a ≡ id → Holds IsInstance w

    reads_again : Ensures (IsStable IsInstance) (get_metadata key_instance_id) Settles
    reads_again = record { at = λ w p h same. let q = reads.at w p h in (q.0, q.1 same) }

    id_or_initialise-Settles :
        (r : Result Text) → Ensures (Tried r) (id_or_initialise candidate stamp now r) Settles
    id_or_initialise-Settles (ok a) = Ensures-pure a (λ w p same. (p.0, p.1 (ap ok same)))
    id_or_initialise-Settles (err e) =
        Ensures-if (is_unset e) _ _
          (λ unset.
            Ensures-bind (λ _. IsStable IsInstance) (initialise candidate stamp now) _
              (record { at = λ w p h. (initialise-awaits candidate stamp now).at w p.0 h })
              (λ _. reads_again))
          (λ other. Ensures-raise e)

    -- The identity that InstanceID returned stands in the table.
    instance_id-Settles : Ensures (IsStable IsInstance) (instance_id candidate stamp now) Settles
    unfolding instance_id
    instance_id-Settles =
        Ensures-attempt Tried (get_metadata key_instance_id) _
          (λ w st. (
            get-awaits w st,
            λ e.
                (reads.at w {a = id} {w' = (get_metadata key_instance_id w).1} st
                    (λ i. (e i, (get_metadata key_instance_id w).1))).1
                  refl,
          ))
          id_or_initialise-Settles

    abbrev Known : Result Text → World → Type 0
    Known r w = Holds IsInstance w × ((a : Text) → r ≡ ok a → a ≡ id)

    id_or_initialise-Known :
        (r : Result Text)
        → Ensures (Known r) (id_or_initialise candidate stamp now r) (λ a _. a ≡ id)
    id_or_initialise-Known (ok a) = Ensures-pure a (λ w p. p.1 a refl)
    id_or_initialise-Known (err e) =
        Ensures-if (is_unset e) _ _
          (λ unset.
            Ensures-bind (λ _. Holds IsInstance) (initialise candidate stamp now) _
              (record {
                at = λ w p h.
                    (Ensures-Keeps IsInstance _ (initialise-Keeps candidate stamp now)).at w p.0 h;
              })
              (λ _. finds))
          (λ other. Ensures-raise e)

    -- An identity that stands in the table is the one that InstanceID returns.
    instance_id-known : Ensures (Holds IsInstance) (instance_id candidate stamp now) (λ a _. a ≡ id)
    unfolding instance_id
    instance_id-known =
        Ensures-attempt Known (get_metadata key_instance_id) _
          (λ w p. (
            (get-Keeps key_instance_id).at w p.0 p.1,
            λ a e.
                finds.at w {a = a} {w' = (get_metadata key_instance_id w).1} p
                  (λ i. (e i, (get_metadata key_instance_id w).1)),
          ))
          id_or_initialise-Known

-- Once InstanceID has returned an identity, every later InstanceID that returns gives the same,
-- whatever identifier it drew itself and whichever statements fail, as long as no other connection
-- changes the identity that stands in the table.
pub instance_id-agrees :
    (candidate candidate' stamp stamp' : Text) (now now' : ℕ) (w : World) {id id' : Text}
    {w₁ w₂ : World}
    → Stable (Reads key_instance_id id) w.events
    → instance_id candidate stamp now w ≡ (ok id, w₁)
    → instance_id candidate' stamp' now' w₁ ≡ (ok id', w₂)
    → id' ≡ id
instance_id-agrees candidate candidate' stamp stamp' now now' w {id} {id'} {w₁} {w₂} st first
      second =
    (instance_id-known id candidate' stamp' now').at w₁ {a = id'} {w' = w₂}
      ((instance_id-Settles id candidate stamp now).at w {a = id} {w' = w₁} st first refl) second
