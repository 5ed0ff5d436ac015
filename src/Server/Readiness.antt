-- ===== src/Server/Readiness.antt =====
-- What a probe says of a database that Migrate brought up to date.
use headnet.Base.{==_refl, ℕ, ◌≡◌, refl, ap, ◌∙◌, ◌⊎◌, inl, inr, List, [], ◌∷◌}
use headnet.Text.{Text}
use headnet.Schema.{Database}
use headnet.Storage.{Result, ok, err, World, Statement, statement, no_change}
use headnet.Storage.Keeps.{Keeps-statement, Stable}
use headnet.Storage.Ledger.{IsRecorded}
use headnet.Storage.Loading.{IsAscending, load_migrations-IsAscending}
use headnet.Storage.Exact.{HasKnownLedger, IsMigrated, migrate-IsMigrated, schema_version-exact}
use headnet.Storage.Migrations.{Migration, load_migrations, schema_version, last_version, migrate}
use headnet.Api.Health.{HealthStatus, status_ok, status_down, Check, worse, severity}
use headnet.Server.{Response}
use headnet.Server.Probes.{
  Process, Readings, check_database, check_reachable, check_version, compare_versions, unreachable,
  unreadable, probe, overall, handle_ready, probe_status, database_check,
}

-- The check found nothing wrong and the answer is 200, or a statement of the check failed and the
-- answer is 503.
abbrev pub IsReady : Check → Response → Type 0
IsReady check response =
    ((check.status ≡ status_ok) × (response.status ≡ 200))
    ⊎ ((check.status ≡ status_down)
        × ((check.detail ≡ unreachable) ⊎ (check.detail ≡ unreadable))
        × (response.status ≡ 503))

-- The check found nothing wrong, or a statement of it failed.
abbrev IsUpToDate : Check → Type 0
IsUpToDate check =
    (check.status ≡ status_ok)
    ⊎ ((check.status ≡ status_down) × ((check.detail ≡ unreachable) ⊎ (check.detail ≡ unreadable)))

module _ (p : Process) (t : Readings) (m : Migration) (ms : List Migration)
    (loaded : load_migrations p.platform p.embedded ≡ ok (m ∷ ms)) where
  compared :
      (applied : ℕ)
      → applied ≡ last_version m ms
      → compare_versions t applied (load_migrations p.platform p.embedded)
        ≡ database_check t status_ok []
  unfolding compare_versions
  compared applied same = rw (loaded, same, ==_refl (last_version m ms)) refl

  checked :
      (answer : Result ℕ) (w : World)
      → ((top : ℕ) → answer ≡ ok top → top ≡ last_version m ms)
      → IsUpToDate (check_version p t answer w).0
  unfolding check_version
  checked (err e) w exact = inr (refl, inr refl)
  checked (ok top) w exact = rw (compared top (exact top refl)) (inl refl)

  reached :
      (ascending : IsAscending (m ∷ ms)) (answer : Result (Unit {0})) (w : World)
      → IsMigrated m ms ascending w
      → IsUpToDate (check_reachable p t answer w).0
  unfolding check_reachable
  reached ascending (err e) w migrated = inr (refl, inl refl)
  reached ascending (ok u) w migrated = checked (schema_version w).0 (schema_version w).1 (λ top is.
      schema_version-exact m ms ascending w {top = top} {w₁ = (schema_version w).1} migrated
        (λ i. (is i, (schema_version w).1)))

  check_database-IsUpToDate :
      (ascending : IsAscending (m ∷ ms)) (w : World)
      → IsMigrated m ms ascending w
      → IsUpToDate (check_database p t w).0
  unfolding check_database
  check_database-IsUpToDate ascending w ((known_kept, known), (recorded_kept, recorded)) =
      reached ascending (statement no_change w).0 (statement no_change w).1 (
        (Keeps-statement no_change (λ d h. h)).at w known_kept known,
        (Keeps-statement no_change (λ d h. h)).at w recorded_kept recorded,
      )

ready_status :
    (p : Process) (t : Readings) (w : World)
    → (handle_ready p t w).0.status ≡ probe_status (worse status_ok (check_database p t w).0.status)
unfolding handle_ready probe overall
ready_status p t w = refl

IsUpToDate-IsReady :
    (p : Process) (t : Readings) (w : World)
    → IsUpToDate (check_database p t w).0
    → IsReady (check_database p t w).0 (handle_ready p t w).0
unfolding worse severity
IsUpToDate-IsReady p t w (inl fine) =
    inl
      (fine, ready_status p t w ∙ ap (λ (s : HealthStatus). probe_status (worse status_ok s)) fine)
IsUpToDate-IsReady p t w (inr (down, why)) = inr (
  down,
  why,
  ready_status p t w ∙ ap (λ (s : HealthStatus). probe_status (worse status_ok s)) down,
)

-- After Migrate of the embedded migrations has returned, handleReady answers 200 with a database
-- that is up to date, or 503 because a statement of its own failed; it never reports that the
-- schema is not at the version of the build, whatever other connections do, as long as neither
-- they nor the text of a migration add versions that are not of the build to the ledger or remove
-- the last one, and the build has a migration.
pub handle_ready-migrate :
    (p : Process) (t : Readings) (execute : Text → Statement (Unit {0})) (now : ℕ) (m : Migration)
    (ms : List Migration) (w : World) {n : ℕ} {w₁ : World}
    → load_migrations p.platform p.embedded ≡ ok (m ∷ ms)
    → ((sql : Text) (d : Database) → (execute sql d).1.schema_migrations ≡ d.schema_migrations)
    → Stable (HasKnownLedger (m ∷ ms)) w.events
    → Stable (IsRecorded (last_version m ms)) w.events
    → migrate execute (load_migrations p.platform p.embedded) now w ≡ (ok n, w₁)
    → IsReady (check_database p t w₁).0 (handle_ready p t w₁).0
handle_ready-migrate p t execute now m ms w {n} {w₁} loaded leaves known_kept recorded_kept h =
    let ascending : IsAscending (m ∷ ms) =
      (load_migrations-IsAscending p.platform p.embedded {ms = m ∷ ms} loaded).0 in
    let migrated =
      migrate-IsMigrated m ms ascending execute now leaves w {n = n} {w₁ = w₁} known_kept
        recorded_kept (rw loaded at h) in
    IsUpToDate-IsReady p t w₁ (check_database-IsUpToDate p t m ms loaded ascending w₁ migrated)
