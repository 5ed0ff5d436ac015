-- ===== src/Storage/Exact.antt =====
-- The schema version after Migrate is the last one of the build.
use headnet.Base.{
  ℕ, suc, ◌≤◌, ◌≡◌, refl, sym, ap, subst, ◌∙◌, inl, inr, true, none, some, List, [], ◌∷◌, ◌++◌,
  arith, ◌==◌, if◌then◌else◌, Bool-cases, Option-cases, All,
}
use headnet.Text.{Text, eq}
use headnet.Schema.{AppliedMigration, Database}
use headnet.Storage.{
  checksum_mismatch, database_ahead, Result, ok, err, World, Statement, statement, no_change,
}
use headnet.Storage.Table.{any_row}
use headnet.Storage.Bind.{ok-injective}
use headnet.Storage.Keeps.{
  Keeps, Keeps-statement, Keeps-in_tx, Keeps-bind, Keeps-pure, Keeps-if, Stable,
}
use headnet.Storage.Ensures.{
  Ensures-awaits, Ensures-under, Ensures, Ensures-bind, Ensures-pure, Ensures-bind-lift,
  Ensures-Keeps, Ensures-establish, IsStable, Holds,
}
use headnet.Storage.Ledger.{IsRecorded, has_version-sort_applied, migrate-records}
use headnet.Storage.SchemaVersion.{schema_version-highest}
use headnet.Storage.Loading.{IsAscending}
use headnet.Storage.Migrations.{
  Migration, has_migration, has_version, sort_applied, applied_migrations, record_migration,
  apply_one, apply_missing, migrate, verify_ledger, by_version, highest, schema_version,
  last_version,
}

-- Every version in the ledger is one of the build.
abbrev pub IsKnown : List Migration → List AppliedMigration → Type 0
IsKnown available rows =
    All (λ (a : AppliedMigration). has_migration a.version available ≡ true) rows

abbrev pub HasKnownLedger : List Migration → Database → Type 0
HasKnownLedger available d = IsKnown available d.schema_migrations

IsKnown-at :
    (available : List Migration) (rows : List AppliedMigration) (v : ℕ)
    → IsKnown available rows
    → has_version v rows ≡ true
    → has_migration v available ≡ true
unfolding any_row
IsKnown-at available [] v known there = cc
IsKnown-at available (a ∷ rows) v (this, known) there = elim (Bool-cases (a.version == v)) [
  | inl same ↦
      let is_v : a.version ≡ v = ground arith in
      subst (λ (x : ℕ). has_migration x available ≡ true) is_v this
  | inr other ↦ IsKnown-at available rows v known (rw other at there)
]

IsKnown-of :
    (available : List Migration) (rows : List AppliedMigration)
    → ((v : ℕ) → has_version v rows ≡ true → has_migration v available ≡ true)
    → IsKnown available rows
unfolding any_row
IsKnown-of available [] h = tt
IsKnown-of available (a ∷ rows) h =
    (h a.version (ground arith), IsKnown-of available rows (λ v there. h v (ground arith)))

by_version-has_migration :
    (v : ℕ) (ms : List Migration) (m : Migration)
    → by_version v ms ≡ some m
    → has_migration v ms ≡ true
unfolding by_version any_row
by_version-has_migration v [] m h = cc
by_version-has_migration v (x ∷ xs) m h = elim (Option-cases (by_version v xs)) [
  | inl missing ↦ elim (Bool-cases (x.version == v)) [
    | inl same ↦ rw same refl
    | inr other ↦ (let never : none ≡ some m = rw (missing, other) at h in absurd cc)
  ]
  | inr (later, is) ↦
      let there : has_migration v xs ≡ true = by_version-has_migration v xs later is in ground arith
]

verify_ledger-IsKnown :
    (available : List Migration) (applied : List AppliedMigration) (u : Unit {0})
    → verify_ledger available applied ≡ ok u
    → IsKnown available applied
unfolding verify_ledger
verify_ledger-IsKnown available [] u h = tt
verify_ledger-IsKnown available (a ∷ applied) u h =
    elim (Option-cases (by_version a.version available)) [
      | inl missing ↦ (let never : err database_ahead ≡ ok u = rw missing at h in absurd cc)
      | inr (m, is) ↦
          let checked : (if eq m.checksum a.checksum
                then verify_ledger available applied
                else err checksum_mismatch)
              ≡ ok u =
            rw is at h in
          elim (Bool-cases (eq m.checksum a.checksum)) [
            | inl same ↦ (
              by_version-has_migration a.version available m is,
              verify_ledger-IsKnown available applied u (rw same at checked),
            )
            | inr changed ↦
                (let never : err checksum_mismatch ≡ ok u = rw changed at checked in absurd cc)
          ]
    ]

All-append : {A : Type 0} (P : A → Type 0) (xs ys : List A) → All P xs → All P ys → All P (xs ++ ys)
All-append P [] ys hx hy = hy
All-append P (x ∷ xs) ys hx hy = (hx.0, All-append P xs ys hx.1 hy)

highest-le :
    (top : ℕ) (rows : List AppliedMigration)
    → ((v : ℕ) → has_version v rows ≡ true → v ≤ top)
    → highest rows ≤ top
unfolding highest any_row
highest-le top [] h = omega arith
highest-le top (a ∷ rows) h =
    let here : a.version ≤ top = h a.version (ground arith) in
    let rest : highest rows ≤ top = highest-le top rows (λ v there. h v (ground arith)) in
    omega arith

module _ (execute : Text → Statement (Unit {0})) (now : ℕ) (available : List Migration)
    (leaves : (sql : Text) (d : Database)
      → (execute sql d).1.schema_migrations ≡ d.schema_migrations) where
  abbrev Known : Database → Type 0
  Known = HasKnownLedger available

  executes-Keeps : (sql : Text) → Keeps Known (statement (execute sql))
  executes-Keeps sql = Keeps-statement (execute sql) (λ d known. rw (leaves sql d) known)

  records-Keeps :
      (m : Migration)
      → has_migration m.version available ≡ true
      → Keeps Known (statement (record_migration m now))
  unfolding record_migration any_row
  records-Keeps m there = Keeps-statement _ (λ d known.
      elim (Bool-cases (has_version m.version d.schema_migrations)) [
        | inl held ↦ rw held known
        | inr free ↦ rw free (All-append _ d.schema_migrations _ known (there, tt))
      ])

  apply_one-Keeps :
      (m : Migration)
      → has_migration m.version available ≡ true
      → Keeps Known (apply_one execute now m)
  unfolding apply_one
  apply_one-Keeps m there =
      Keeps-in_tx _ (Keeps-bind _ _ (executes-Keeps m.sql) (λ _. records-Keeps m there))

  -- The migrations that are left are migrations of the build.
  apply_missing-Keeps :
      (applied : List AppliedMigration) (ms : List Migration) (n : ℕ)
      → ((v : ℕ) → has_migration v ms ≡ true → has_migration v available ≡ true)
      → Keeps Known (apply_missing execute now applied ms n)
  unfolding apply_missing any_row
  apply_missing-Keeps applied [] n among = Keeps-pure n
  apply_missing-Keeps applied (m ∷ ms) n among =
      let rest : (k : ℕ) → Keeps Known (apply_missing execute now applied ms k) =
        λ k. apply_missing-Keeps applied ms k (λ v there. among v (ground arith)) in
      Keeps-if (has_version m.version applied) _ _ (rest n)
        (Keeps-bind _ _ (apply_one-Keeps m (among m.version (ground arith))) (λ _. rest (suc n)))

  -- What is known once the ledger is read: if what was read is known, so is the ledger.
  abbrev SeenKnown : List AppliedMigration → Database → Type 0
  SeenKnown applied d = (v : ℕ) → has_version v d.schema_migrations ≡ has_version v applied

  ledger_read :
      Ensures
        (IsStable Known)
        applied_migrations
        (λ applied w. IsStable Known w × SeenKnown applied w.db)
  unfolding applied_migrations
  ledger_read = Ensures-establish Known SeenKnown _ (λ d applied d' e.
      subst (SeenKnown applied) (ap (λ (x : Result (List AppliedMigration) × Database). x.1) e) (
        subst (λ (rows : List AppliedMigration). SeenKnown rows d)
          (ok-injective (ap (λ (x : Result (List AppliedMigration) × Database). x.0) e))
          (λ v. sym (has_version-sort_applied v d.schema_migrations))))

  loop :
      (applied : List AppliedMigration) (ms : List Migration) (u : Unit {0})
      → available ≡ ms
      → verify_ledger ms applied ≡ ok u
      → Ensures
          (λ w. IsStable Known w × SeenKnown applied w.db)
          (apply_missing execute now applied ms 0)
          (λ _. Holds Known)
  loop applied ms u same verified = record {
    at = λ w {a} {w'} p h.
        let read : IsKnown available applied =
          subst (λ (x : List Migration). IsKnown x applied) (sym same)
            (verify_ledger-IsKnown ms applied u verified) in
        let known : Known w.db =
          IsKnown-of available w.db.schema_migrations
            (λ v there. IsKnown-at available applied v read (sym (p.1 v) ∙ there)) in
        (Ensures-Keeps Known _ (
            apply_missing-Keeps applied ms 0 (λ v there.
              subst (λ (x : List Migration). has_migration v x ≡ true) (sym same) there))).at
          w {a = a} {w' = w'} (p.0, known) h;
  }

  -- Migrate returns only when every version in the ledger is one of the build.
  migrate-IsKnown : Ensures (IsStable Known) (migrate execute (ok available) now) (λ _. Holds Known)
  unfolding migrate
  migrate-IsKnown = Ensures-bind-lift (ok available) _ (λ ms e.
      Ensures-bind (λ _. IsStable Known) (statement no_change) _ (Ensures-awaits Known no_change)
        (λ _.
          Ensures-bind (λ applied w. IsStable Known w × SeenKnown applied w.db) applied_migrations _
            ledger_read
            (λ applied.
              Ensures-bind-lift (verify_ledger ms applied) _
                (λ u verified. loop applied ms u (ok-injective e) verified))))

-- A list that rises strictly has no version above its last.
last_version-greatest :
    (m : Migration) (ms : List Migration) (v : ℕ)
    → IsAscending (m ∷ ms)
    → has_migration v (m ∷ ms) ≡ true
    → v ≤ last_version m ms
unfolding last_version any_row
last_version-greatest m [] v h there = ground arith
last_version-greatest m (next ∷ rest) v ((rises, _), ascending) there =
    let top : next.version ≤ last_version next rest =
      last_version-greatest next rest next.version ascending (ground arith) in
    elim (Bool-cases (m.version == v)) [
      | inl same ↦ ground arith
      | inr other ↦ last_version-greatest next rest v ascending (rw other at there)
    ]

last_version-has_migration :
    (m : Migration) (ms : List Migration) → has_migration (last_version m ms) (m ∷ ms) ≡ true
unfolding last_version any_row
last_version-has_migration m [] = ground arith
last_version-has_migration m (next ∷ rest) =
    let later : has_migration (last_version next rest) (next ∷ rest) ≡ true =
      last_version-has_migration next rest in
    ground arith

module _ (m : Migration) (ms : List Migration) (ascending : IsAscending (m ∷ ms)) where
  -- SchemaVersion of a ledger that has only versions of the build.
  schema_version-le :
      Ensures (Holds (HasKnownLedger (m ∷ ms))) schema_version (λ top _. top ≤ last_version m ms)
  unfolding schema_version applied_migrations
  schema_version-le =
      Ensures-bind (λ applied _. IsKnown (m ∷ ms) applied) applied_migrations _
        (Ensures-under (HasKnownLedger (m ∷ ms)) (λ applied _. IsKnown (m ∷ ms) applied) _
          (λ d applied d' known e.
            subst (IsKnown (m ∷ ms))
              (ok-injective (ap (λ (x : Result (List AppliedMigration) × Database). x.0) e))
              (IsKnown-of (m ∷ ms) (sort_applied d.schema_migrations) (λ v there.
                IsKnown-at (m ∷ ms) d.schema_migrations v known
                  (sym (has_version-sort_applied v d.schema_migrations) ∙ there)))))
        (λ applied. Ensures-pure _ (λ w known. highest-le (last_version m ms) applied (λ v there.
          last_version-greatest m ms v ascending (IsKnown-at (m ∷ ms) applied v known there))))

  -- The ledger has the last version of the build, and no version that is not of the build.
  abbrev pub IsMigrated : World → Type 0
  IsMigrated w = Holds (HasKnownLedger (m ∷ ms)) w × Holds (IsRecorded (last_version m ms)) w

  pub migrate-IsMigrated :
      (execute : Text → Statement (Unit {0})) (now : ℕ)
      → ((sql : Text) (d : Database) → (execute sql d).1.schema_migrations ≡ d.schema_migrations)
      → (w : World) {n : ℕ} {w₁ : World} → Stable (HasKnownLedger (m ∷ ms)) w.events
      → Stable (IsRecorded (last_version m ms)) w.events
      → migrate execute (ok (m ∷ ms)) now w ≡ (ok n, w₁)
      → IsMigrated w₁
  migrate-IsMigrated execute now leaves w {n} {w₁} known_kept recorded_kept h = (
    (migrate-IsKnown execute now (m ∷ ms) leaves).at w {a = n} {w' = w₁} known_kept h,
    (migrate-records execute now (last_version m ms) (λ sql d recorded. rw (leaves sql d) recorded)
          (m ∷ ms) (last_version-has_migration m ms)).at
        w {a = n} {w' = w₁} recorded_kept h,
  )

  pub schema_version-exact :
      (w : World) {top : ℕ} {w₁ : World}
      → IsMigrated w
      → schema_version w ≡ (ok top, w₁)
      → top ≡ last_version m ms
  schema_version-exact w {top} {w₁} (known, recorded) h =
      let low = schema_version-le.at w {a = top} {w' = w₁} known h in
      let high = (schema_version-highest (last_version m ms)).at w {a = top} {w' = w₁} recorded h in
      omega arith
