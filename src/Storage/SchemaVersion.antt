-- ===== src/Storage/SchemaVersion.antt =====
-- SchemaVersion after Migrate.
use headnet.Base.{ℕ, ◌≡◌, ◌≤◌, ap, subst, ◌∙◌, true, List, [], ◌∷◌, arith}
use headnet.Text.{Text}
use headnet.Schema.{AppliedMigration, Database}
use headnet.Storage.{Result, ok, World, Statement}
use headnet.Storage.Table.{any_row}
use headnet.Storage.Bind.{ok-injective}
use headnet.Storage.Keeps.{Stable}
use headnet.Storage.Ensures.{Ensures-under, Ensures, Ensures-bind, Holds, Ensures-pure}
use headnet.Storage.Migrations.{
  Migration, has_migration, has_version, applied_migrations, migrate, highest, schema_version,
}
use headnet.Storage.Ledger.{IsRecorded, has_version-sort_applied, migrate-records}

has_version-highest :
    (v : ℕ) (rows : List AppliedMigration) → has_version v rows ≡ true → v ≤ highest rows
unfolding highest any_row
has_version-highest v [] h = cc
has_version-highest v (a ∷ rows) h = ground (arith, has_version-highest v rows)

pub schema_version-highest :
    (v : ℕ) → Ensures (Holds (IsRecorded v)) schema_version (λ top _. v ≤ top)
unfolding schema_version applied_migrations
schema_version-highest v =
    Ensures-bind (λ applied _. has_version v applied ≡ true) applied_migrations _
      (Ensures-under (IsRecorded v) (λ applied _. has_version v applied ≡ true) _
        (λ d applied d' held e.
          subst (λ (rows : List AppliedMigration). has_version v rows ≡ true)
            (ok-injective (ap (λ (x : Result (List AppliedMigration) × Database). x.0) e))
            (has_version-sort_applied v d.schema_migrations ∙ held)))
      (λ applied. Ensures-pure _ (λ w there. has_version-highest v applied there))

-- Once Migrate has returned, SchemaVersion is at least the version of every migration of the build,
-- whichever of them were applied before and whatever other connections do, as long as neither they
-- nor the text of a migration remove the version from the ledger.
migrate-schema_version :
    (execute : Text → Statement (Unit {0})) (available : List Migration) (now v : ℕ) (w : World)
    {n top : ℕ} {w₁ w₂ : World}
    → has_migration v available ≡ true
    → ((sql : Text) (d : Database) → IsRecorded v d → IsRecorded v (execute sql d).1)
    → Stable (IsRecorded v) w.events
    → migrate execute (ok available) now w ≡ (ok n, w₁)
    → schema_version w₁ ≡ (ok top, w₂)
    → v ≤ top
migrate-schema_version execute available now v w {w₁} there keeps st migrated read =
    (schema_version-highest v).at w₁
      ((migrate-records execute now v keeps available there).at w st migrated) read
