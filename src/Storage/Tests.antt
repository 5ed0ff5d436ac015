-- ===== src/Storage/Tests.antt =====
-- Runs of the claim of an installation and of Migrate.
use headnet.Base.{◌≡◌, refl, true, false, none, some, List, [], ◌∷◌, All}
use headnet.Storage.Loading.{IsAscending, IsSound}
use headnet.Storage.Complete.{is_loaded, load_migrations-is_loaded}
use headnet.Text.{codes, eq}
use headnet.Schema.{Database, empty}
use headnet.Storage.{
  ok, err, statement, no_change, interfere, rollback, finish, in_tx, checksum_mismatch,
}
use headnet.Storage.Bind.{quiet}
use headnet.Storage.Table.{any_row, find_row, update_rows}
use headnet.Storage.Metadata.{insert_missing, claim_bootstrap, get_metadata, upsert, set_metadata}
use headnet.Shared.{cut}
use headnet.Text.{Text, cut_prefix, hex, trim_space, trim_left, is_space}
use headnet.Platform.{Platform, hash_token}
use headnet.Storage.Migrations.{
  Migration, Entry, parse_migration_name, load_migrations, add_entry, add_entries, insert_sorted,
  sort_migrations, by_version, verify_ledger, in_order, sort_applied, applied_migrations,
  record_migration, apply_one, apply_missing, migrate, highest, schema_version,
}
use headnet.Storage.Instance.{initialise, instance_id, bootstrap_claimed}
use headnet.Storage.Identity.{instance_id-agrees}

program : Unit {0}
unfolding cut cut_prefix hex trim_space trim_left is_space hash_token interfere rollback finish
    in_tx parse_migration_name load_migrations add_entry add_entries insert_sorted sort_migrations
    by_version verify_ledger in_order sort_applied applied_migrations record_migration apply_one
    apply_missing migrate highest schema_version initialise instance_id bootstrap_claimed eq
    statement any_row find_row update_rows insert_missing claim_bootstrap get_metadata upsert
    set_metadata
program = tt

main :
    ((claim_bootstrap (codes "t") 5 (quiet empty)).0 ≡ ok true)
    × ((get_metadata (codes "k") (set_metadata (codes "k") (codes "v") 5 (quiet empty)).1).0
        ≡ ok (codes "v"))
unfolding program
main = (refl, refl)

-- Another server that starts later, and finds the identity of the first.
instance_id-agrees_example : codes "net_a" ≡ codes "net_a"
unfolding program
instance_id-agrees_example =
    instance_id-agrees (codes "net_a") (codes "net_b") (codes "t") (codes "u") 5 6 (quiet empty) tt
      refl refl

abbrev first : Migration
first = record { version = 1; name = codes "init"; sql = codes "a"; checksum = codes "x" }

abbrev second : Migration
second = record { version = 2; name = codes "users"; sql = codes "b"; checksum = codes "y" }

abbrev first_applied : Database
first_applied = record empty {
  schema_migrations =
      record { version = 1; name = codes "init"; checksum = codes "x"; applied_at = 3 } ∷ [];
}

abbrev plain : Platform
plain = record {
  sha256 = λ t. t;
  decode_base64 = λ t. none;
  decode_raw_url = λ t. none;
  to_lower = λ c. c;
}

abbrev file : Text → Text → Entry
file name body = record { name = name; is_dir = false; body = some body }

abbrev files : List Entry
files =
    file (codes "0002_b.sql") (codes "B")
    ∷ file (codes "README") (codes "")
    ∷ file (codes "0001_a.sql") (codes "A")
    ∷ []

abbrev loaded : List Migration
loaded =
    record { version = 1; name = codes "a"; sql = codes "A"; checksum = codes "41" }
    ∷ record { version = 2; name = codes "b"; sql = codes "B"; checksum = codes "42" }
    ∷ []

migrations_run :
    ((migrate (λ sql. no_change) (ok (first ∷ second ∷ [])) 5 (quiet first_applied)).0 ≡ ok 1)
    × ((migrate
          (λ sql. no_change)
          (ok (record first { checksum = codes "z" } ∷ []))
          5
          (quiet first_applied)).0
        ≡ err checksum_mismatch)
    × (parse_migration_name (codes "0012_add_keys.sql") ≡ ok (12, codes "add_keys"))
    × (load_migrations plain files ≡ ok loaded)
unfolding program
migrations_run = (refl, refl, refl, refl)

load_migrations-is_loaded_example :
    All (λ entry. is_loaded loaded entry ≡ true) files
    × IsAscending loaded
    × All (IsSound plain) loaded
unfolding program
load_migrations-is_loaded_example = load_migrations-is_loaded plain files refl
