-- ===== src/Server/ProbeTests.antt =====
-- Runs of the probes.
use headnet.Base.{◌≡◌, refl, false, none, some, List, [], ◌∷◌}
use headnet.Base.Int.{ℤ, pos}
use headnet.Text.{
  Text, codes, eq, cut_prefix, hex, trim_space, trim_left, is_space, text_leb, decimal, digits_from,
}
use headnet.Platform.{Platform, hash_token}
use headnet.Storage.{interfere, rollback, finish, in_tx, World, statement, no_change}
use headnet.Storage.Bind.{quiet}
use headnet.Storage.Migrations.{
  Migration, Entry, last_version, parse_migration_name, load_migrations, add_entry, add_entries,
  insert_sorted, sort_migrations, by_version, verify_ledger, in_order, sort_applied,
  applied_migrations, record_migration, apply_one, apply_missing, migrate, highest, schema_version,
}
use headnet.Schema.{empty}
use headnet.Shared.{cut}
use headnet.Storage.Table.{any_row}
use headnet.Base.Sorting.{insert_by, sort_by}
use headnet.RateLimit.{elapsed}
use headnet.Protocol.{
  has, put, collect, new_set, collect_names, parse_capabilities, keep_common, intersect, valid,
  negotiate, sorted_names, refusal_text,
}
use headnet.Api.{http_status}
use headnet.Api.Health.{status_ok, status_degraded, severity, worse, NegotiateRequest}
use headnet.Server.{decoded}
use headnet.Server.Negotiating.{handle_negotiate-expected_status}
use headnet.Server.Probes.{
  Process, Readings, check_database, check_reachable, check_version, compare_versions, overall,
  probe, handle_ready, handle_health, handle_live, handle_metrics, handle_version, handle_negotiate,
}
use headnet.Server.Readiness.{IsReady, handle_ready-migrate}

program : Unit {0}
unfolding eq cut cut_prefix hex trim_space trim_left is_space hash_token text_leb digits_from
    decimal insert_by sort_by interfere rollback finish in_tx parse_migration_name load_migrations
    add_entry add_entries insert_sorted sort_migrations by_version verify_ledger in_order
    sort_applied applied_migrations record_migration apply_one apply_missing migrate highest
    schema_version last_version statement any_row elapsed has put collect new_set collect_names
    parse_capabilities keep_common intersect valid negotiate sorted_names refusal_text http_status
    severity worse compare_versions check_version check_reachable check_database overall probe
    handle_ready handle_health handle_live handle_metrics handle_version handle_negotiate
program = tt

abbrev plain : Platform
plain = record {
  sha256 = λ t. t;
  decode_base64 = λ t. none;
  decode_raw_url = λ t. none;
  to_lower = λ c. c;
}

abbrev file : Text → Text → Entry
file name body = record { name = name; is_dir = false; body = some body }

abbrev files : List Entry
files =
    file (codes "0002_b.sql") (codes "B")
    ∷ file (codes "README") (codes "")
    ∷ file (codes "0001_a.sql") (codes "A")
    ∷ []

abbrev loaded : List Migration
loaded =
    record { version = 1; name = codes "a"; sql = codes "A"; checksum = codes "41" }
    ∷ record { version = 2; name = codes "b"; sql = codes "B"; checksum = codes "42" }
    ∷ []

abbrev process : Process
process = record {
  platform = plain;
  build = record { version = codes "0.1.0"; commit = codes "c"; build_date = codes "d" };
  started_at = 0;
  metrics_enabled = false;
  embedded = files;
  whole_seconds = λ d. d;
}

abbrev readings : Readings
readings = record { before = 1; after = 2; now = 3 }

abbrev migrated : World
migrated = (migrate (λ sql. no_change) (load_migrations plain files) 5 (quiet empty)).1

abbrev request : ℤ → ℤ → NegotiateRequest
request version oldest = record {
  protocol_version = version;
  min_protocol_version = oldest;
  capabilities = codes "protocol.negotiation" ∷ codes "other" ∷ [];
  client_version = [];
}

main :
    ((handle_ready process readings (quiet empty)).0.status ≡ 200)
    × ((check_database process readings (quiet empty)).0.status ≡ status_degraded)
    × ((check_database process readings migrated).0.status ≡ status_ok)
    × ((handle_ready (record process { embedded = [] }) readings migrated).0.status ≡ 503)
    × ((handle_metrics process).status ≡ 404)
    × ((handle_negotiate process (decoded (request (pos 2) (pos 2)))).status ≡ 426)
unfolding program
main = (refl, refl, refl, refl, refl, refl)

handle_ready-migrate_example :
    IsReady (check_database process readings migrated).0 (handle_ready process readings migrated).0
unfolding program
handle_ready-migrate_example =
    handle_ready-migrate process readings (λ sql. no_change) 5 _ _ (quiet empty) refl
      (λ sql d. refl) tt tt refl

handle_negotiate-expected_status_example :
    (handle_negotiate process (decoded (request (pos 3) (pos 1)))).status ≡ 200
unfolding program
handle_negotiate-expected_status_example =
    handle_negotiate-expected_status process (request (pos 3) (pos 1))
