-- ===== src/Storage/Ledger.antt =====
-- What Migrate leaves in the ledger.
use headnet.Base.{
  ℕ, suc, ◌≡◌, refl, sym, ap, subst, ◌∙◌, ◌⊎◌, inl, inr, true, false, ◌||◌, List, [], ◌∷◌, ◌==◌,
  arith, Bool-cases,
}
use headnet.Text.{Text}
use headnet.Schema.{AppliedMigration, Database}
use headnet.Storage.{Result, ok, World, Statement, statement, no_change}
use headnet.Storage.Table.{any_row, any_row-append}
use headnet.Storage.Bind.{ok-injective}
use headnet.Storage.Keeps.{Keeps, Keeps-statement, keeps_rules}
use headnet.Storage.Commit.{Ensures-in_tx, Ensures-in_tx-awaits}
use headnet.Storage.Ensures.{
  Ensures-awaits, Ensures, Ensures-bind, Ensures-bind-lift, Ensures-if, Ensures-Keeps,
  Ensures-establish, IsStable, Holds,
}
use headnet.Storage.Migrations.{
  Migration, has_migration, has_version, in_order, sort_applied, applied_migrations,
  record_migration, apply_one, apply_missing, migrate, verify_ledger,
}

-- The ledger has the version.
abbrev pub IsRecorded : ℕ → Database → Type 0
IsRecorded v d = has_version v d.schema_migrations ≡ true

has_version-in_order :
    (v : ℕ) (a : AppliedMigration) (rows : List AppliedMigration)
    → has_version v (in_order a rows) ≡ (a.version == v) || has_version v rows
unfolding in_order any_row
has_version-in_order v a [] = refl
has_version-in_order v a (x ∷ xs) = ground (arith, has_version-in_order v a xs)

pub has_version-sort_applied :
    (v : ℕ) (rows : List AppliedMigration) → has_version v (sort_applied rows) ≡ has_version v rows
unfolding sort_applied any_row
has_version-sort_applied v [] = refl
has_version-sort_applied v (a ∷ rows) =
    has_version-in_order v a (sort_applied rows)
    ∙ ap (λ b. (a.version == v) || b) (has_version-sort_applied v rows)

record_migration_keeps :
    (v : ℕ) (m : Migration) (now : ℕ) (d : Database)
    → IsRecorded v d
    → IsRecorded v (record_migration m now d).1
unfolding record_migration
record_migration_keeps v m now d h = ground (
  arith,
  any_row-append (λ (a : AppliedMigration). a.version == v) d.schema_migrations
      (record { version = m.version; name = m.name; checksum = m.checksum; applied_at = now } ∷ []),
)

record_migration_records :
    (m : Migration) (now : ℕ) (d : Database) → IsRecorded m.version (record_migration m now d).1
unfolding record_migration any_row
record_migration_records m now d = ground (
  arith,
  any_row-append (λ (a : AppliedMigration). a.version == m.version) d.schema_migrations
      (record { version = m.version; name = m.name; checksum = m.checksum; applied_at = now } ∷ []),
)

module _ (execute : Text → Statement (Unit {0})) (now : ℕ) (v : ℕ)
    (keeps : (sql : Text) (d : Database) → IsRecorded v d → IsRecorded v (execute sql d).1) where
  abbrev Awaits : World → Type 0
  Awaits = IsStable (IsRecorded v)

  abbrev Done : World → Type 0
  Done = Holds (IsRecorded v)

  executes-Keeps : (sql : Text) → Keeps (IsRecorded v) (statement (execute sql))
  executes-Keeps sql = Keeps-statement (execute sql) (keeps sql)

  records-Keeps : (m : Migration) → Keeps (IsRecorded v) (statement (record_migration m now))
  records-Keeps m = Keeps-statement _ (record_migration_keeps v m now)

  apply_one-Keeps : (m : Migration) → Keeps (IsRecorded v) (apply_one execute now m)
  unfolding apply_one
  apply_one-Keeps m = search (keeps_rules, executes-Keeps, records-Keeps)

  apply_missing-Keeps :
      (applied : List AppliedMigration) (ms : List Migration) (n : ℕ)
      → Keeps (IsRecorded v) (apply_missing execute now applied ms n)
  unfolding apply_missing
  apply_missing-Keeps applied [] n = search keeps_rules
  apply_missing-Keeps applied (m ∷ ms) n =
      let rest = λ (k : ℕ). apply_missing-Keeps applied ms k in
      search (keeps_rules, apply_one-Keeps, rest)

  -- A migration of the version that is applied is recorded.
  apply_one-records :
      (m : Migration) → m.version ≡ v → Ensures Awaits (apply_one execute now m) (λ _. Done)
  unfolding apply_one
  apply_one-records m same = Ensures-in_tx (IsRecorded v) _ (
      Ensures-bind (λ _. Awaits) (statement (execute m.sql)) _
        (Ensures-awaits (IsRecorded v) (execute m.sql))
        (λ _.
          Ensures-establish (IsRecorded v) (λ _. IsRecorded v) (record_migration m now)
            (λ d a d' e. subst (IsRecorded v) (ap (λ (x : Result (Unit {0}) × Database). x.1) e) (
              subst (λ (u : ℕ). IsRecorded u (record_migration m now d).1) same
                (record_migration_records m now d)))))

  apply_one-Awaits : (m : Migration) → Ensures Awaits (apply_one execute now m) (λ _. Awaits)
  unfolding apply_one
  apply_one-Awaits m = Ensures-in_tx-awaits (IsRecorded v) _ (
      Ensures-bind (λ _. Awaits) (statement (execute m.sql)) _
        (Ensures-awaits (IsRecorded v) (execute m.sql))
        (λ _. Ensures-awaits (IsRecorded v) (record_migration m now)))

  absent :
      (applied : List AppliedMigration) (m : Migration)
      → has_version v applied ≡ false
      → m.version ≡ v
      → has_version m.version applied ≡ true
      → true ≡ false
  absent applied m missing same there =
      sym there ∙ ap (λ (u : ℕ). has_version u applied) same ∙ missing

  -- The loop records a version that was missing.
  apply_missing-records :
      (applied : List AppliedMigration) (ms : List Migration) (n : ℕ)
      → has_version v applied ≡ false
      → has_migration v ms ≡ true
      → Ensures Awaits (apply_missing execute now applied ms n) (λ _. Done)
  unfolding apply_missing any_row
  apply_missing-records applied [] n missing there = cc
  apply_missing-records applied (m ∷ ms) n missing there = elim (Bool-cases (m.version == v)) [
    | inl same ↦
        Ensures-if (has_version m.version applied) _ _
          (λ held.
            let never : true ≡ false = absent applied m missing (ground arith) held in
            record { at = λ w p h. cc })
          (λ free.
            Ensures-bind (λ _. Done) (apply_one execute now m) _
              (apply_one-records m (ground arith))
              (λ _. Ensures-Keeps (IsRecorded v) _ (apply_missing-Keeps applied ms (suc n))))
    | inr other ↦
        let later : has_migration v ms ≡ true = ground arith in
        Ensures-if (has_version m.version applied) _ _
          (λ held. apply_missing-records applied ms n missing later)
          (λ free.
            Ensures-bind (λ _. Awaits) (apply_one execute now m) _ (apply_one-Awaits m)
              (λ _. apply_missing-records applied ms (suc n) missing later))
  ]

  -- What is known once the ledger is read.
  abbrev Seen : List AppliedMigration → Database → Type 0
  Seen applied d = (has_version v applied ≡ false) ⊎ IsRecorded v d

  Seen-sort_applied : (d : Database) → Seen (sort_applied d.schema_migrations) d
  Seen-sort_applied d = elim (Bool-cases (has_version v d.schema_migrations)) [
    | inl held ↦ inr held
    | inr missing ↦ inl (has_version-sort_applied v d.schema_migrations ∙ missing)
  ]

  reads_ledger : Ensures Awaits applied_migrations (λ applied w. Awaits w × Seen applied w.db)
  unfolding applied_migrations
  reads_ledger = Ensures-establish (IsRecorded v) Seen _ (λ d applied d' e.
      subst (Seen applied) (ap (λ (x : Result (List AppliedMigration) × Database). x.1) e) (
        subst (λ (rows : List AppliedMigration). Seen rows d)
          (ok-injective (ap (λ (x : Result (List AppliedMigration) × Database). x.0) e))
          (Seen-sort_applied d)))

  loop-records :
      (applied : List AppliedMigration) (ms : List Migration)
      → has_migration v ms ≡ true
      → Ensures
          (λ w. Awaits w × Seen applied w.db)
          (apply_missing execute now applied ms 0)
          (λ _. Done)
  loop-records applied ms there = record {
    at = λ w {a} {w'} p h. elim p.1 [
      | inl missing ↦
          (apply_missing-records applied ms 0 missing there).at w {a = a} {w' = w'} p.0 h
      | inr held ↦
          (Ensures-Keeps (IsRecorded v) _ (apply_missing-Keeps applied ms 0)).at w {a = a} {w' = w'}
            (p.0, held) h
    ];
  }

  pub migrate-records :
      (available : List Migration)
      → has_migration v available ≡ true
      → Ensures Awaits (migrate execute (ok available) now) (λ _. Done)
  unfolding migrate
  migrate-records available there = Ensures-bind-lift (ok available) _ (λ ms e.
      Ensures-bind (λ _. Awaits) (statement no_change) _ (Ensures-awaits (IsRecorded v) no_change)
        (λ _.
          Ensures-bind (λ applied w. Awaits w × Seen applied w.db) applied_migrations _ reads_ledger
            (λ applied. Ensures-bind-lift (verify_ledger ms applied) _ (λ u verified.
              loop-records applied ms (
                subst (λ (x : List Migration). has_migration v x ≡ true) (ok-injective e) there)))))
