-- ===== src/Storage/Migrations.antt =====
-- internal/storage/migrate.go: the migrations that a build embeds, the ledger of those that were
-- applied, and Migrate. The embedded directory and what a database makes of the SQL text of a
-- migration are arguments. Before the ledger is created it is empty.
use headnet.Base.{
  ℕ, suc, ◌+◌, ◌*◌, ◌-◌, ◌^◌, max, Bool, true, false, ◌||◌, ◌&&◌, not, Option, none, some, List, [],
  ◌∷◌, ◌++◌, ltb, leb, ◌==◌, if◌then◌else◌,
}
use mathlib.Core.List.{reverse}
use headnet.Text.{Text, codes, eq, trim_space, cut_prefix}
use headnet.Platform.{Platform, hash_token}
use headnet.Shared.{cut}
use headnet.Schema.{AppliedMigration}
use headnet.Storage.{
  Result, ok, err, M, Statement, statement, no_change, in_tx, ◌>>=◌, ◌>>◌, pure, lift,
  bad_migration, checksum_mismatch, database_ahead, unique_violation,
}
use headnet.Storage.Table.{any_row}

pub record Migration : Type 0 where
  pub version : ℕ
  pub name : Text
  pub sql : Text
  pub checksum : Text

-- An entry of the directory, with what reading it gives.
pub record Entry : Type 0 where
  pub name : Text
  pub is_dir : Bool
  pub body : Option Text

-- strings.TrimSuffix
abbrev pub cut_suffix : Text → Text → Option Text
cut_suffix suffix s = cut_prefix (reverse suffix) (reverse s)

abbrev pub or_whole : Text → Option Text → Text
or_whole s none = s
or_whole s (some rest) = reverse rest

-- strconv.Atoi of decimal digits, which fails past the largest int.
abbrev pub read_digits : ℕ → Text → Option ℕ
read_digits n [] = if ltb n (2 ^ 63) then some n else none
read_digits n (c ∷ s) =
    let rest = read_digits (n * 10 + (c - b'0')) s in
    if leb b'0' c && leb c b'9' then rest else none

abbrev pub read_number : Text → Option ℕ
read_number [] = none
read_number (d ∷ t) = read_digits 0 (d ∷ t)

abbrev pub positive : Option ℕ → Option ℕ
positive none = none
positive (some n) = if n == 0 then none else some n

-- strconv.Atoi where the result is positive; `none` otherwise.
abbrev pub read_positive : Text → Option ℕ
read_positive [] = none
read_positive (c ∷ s) = positive (if c == b'+' then read_number s else read_number (c ∷ s))

abbrev pub versioned : Option ℕ → Text → Result (ℕ × Text)
versioned none name = err bad_migration
versioned (some version) name = ok (version, name)

abbrev pub named : Option (Text × Text) → Result (ℕ × Text)
named none = err bad_migration
named (some (prefix, name)) =
    if eq name [] then err bad_migration else versioned (read_positive prefix) name

-- parseMigrationName
unfoldable pub parse_migration_name : Text → Result (ℕ × Text)
parse_migration_name filename =
    named (cut b'_' (or_whole filename (cut_suffix (codes ".sql") filename)))

abbrev pub has_migration : ℕ → List Migration → Bool
has_migration v = any_row λ m. m.version == v

abbrev pub is_some_text : Option Text → Bool
is_some_text none = false
is_some_text (some s) = true

-- strings.HasSuffix(entry.Name(), ".sql")
abbrev pub is_sql : Entry → Bool
is_sql entry = is_some_text (cut_suffix (codes ".sql") entry.name)

-- What LoadMigrations appends for a file, given what reading it gave.
abbrev pub add_migration :
    Platform → List Migration → Option Text → Result (ℕ × Text) → Result (List Migration)
add_migration p out body (err e) = err e
add_migration p out none (ok (version, name)) = err bad_migration
add_migration p out (some body) (ok (version, name)) =
    if has_migration version out || eq (trim_space body) []
    then err bad_migration
    else ok (
        out
        ++ record { version = version; name = name; sql = body; checksum = hash_token p body } ∷ [])

-- One turn of the loop of LoadMigrations.
unfoldable pub add_entry : Platform → Entry → List Migration → Result (List Migration)
unfolding parse_migration_name
add_entry p entry out =
    if entry.is_dir || not (is_sql entry)
    then ok out
    else add_migration p out entry.body (parse_migration_name entry.name)

abbrev pub and_then : {A B : Type 0} → Result A → (A → Result B) → Result B
and_then (ok a) f = f a
and_then (err e) f = err e

unfoldable pub add_entries : Platform → List Entry → List Migration → Result (List Migration)
unfolding add_entry
add_entries p [] out = ok out
add_entries p (entry ∷ entries) out = and_then (add_entry p entry out) (add_entries p entries)

-- slices.SortFunc by version.
unfoldable pub insert_sorted : Migration → List Migration → List Migration
insert_sorted m [] = m ∷ []
insert_sorted m (x ∷ xs) =
    let rest = insert_sorted m xs in if leb m.version x.version then m ∷ x ∷ xs else x ∷ rest

unfoldable pub sort_migrations : List Migration → List Migration
unfolding insert_sorted
sort_migrations [] = []
sort_migrations (m ∷ ms) = insert_sorted m (sort_migrations ms)

-- LoadMigrations
unfoldable pub load_migrations : Platform → List Entry → Result (List Migration)
unfolding add_entries sort_migrations
load_migrations p entries = and_then (add_entries p entries []) (λ out. ok (sort_migrations out))

-- The row of a version that a map filled in order holds, which is the last.
unfoldable pub by_version : ℕ → List Migration → Option Migration
by_version v [] = none
by_version v (m ∷ ms) = or_this m (by_version v ms)
  where
    or_this : Migration → Option Migration → Option Migration
    or_this m (some later) = some later
    or_this m none = if m.version == v then some m else none

abbrev pub check_applied :
    AppliedMigration → Option Migration → Result (Unit {0}) → Result (Unit {0})
check_applied a none rest = err database_ahead
check_applied a (some m) rest = if eq m.checksum a.checksum then rest else err checksum_mismatch

-- verifyLedger
unfoldable pub verify_ledger : List Migration → List AppliedMigration → Result (Unit {0})
unfolding by_version
verify_ledger available [] = ok tt
verify_ledger available (a ∷ applied) =
    let rest = verify_ledger available applied in
    check_applied a (by_version a.version available) rest

abbrev pub has_version : ℕ → List AppliedMigration → Bool
has_version v = any_row λ a. a.version == v

-- ORDER BY version
unfoldable pub in_order : AppliedMigration → List AppliedMigration → List AppliedMigration
in_order a [] = a ∷ []
in_order a (x ∷ xs) =
    let rest = in_order a xs in if leb a.version x.version then a ∷ x ∷ xs else x ∷ rest

unfoldable pub sort_applied : List AppliedMigration → List AppliedMigration
unfolding in_order
sort_applied [] = []
sort_applied (a ∷ rest) = in_order a (sort_applied rest)

-- AppliedMigrations
unfoldable pub applied_migrations : M (List AppliedMigration)
unfolding sort_applied
applied_migrations = statement λ d. (ok (sort_applied d.schema_migrations), d)

unfoldable pub record_migration : Migration → ℕ → Statement (Unit {0})
record_migration m now d =
    if has_version m.version d.schema_migrations then (err unique_violation, d) else (
      ok tt,
      record d {
        schema_migrations =
            d.schema_migrations
            ++ record {
              version = m.version;
              name = m.name;
              checksum = m.checksum;
              applied_at = now;
            }
              ∷ [];
      },
    )

-- applyOne; `execute` is what the database makes of the text of a migration.
unfoldable pub apply_one : (Text → Statement (Unit {0})) → ℕ → Migration → M (Unit {0})
apply_one execute now m = in_tx do statement (execute m.sql); statement (record_migration m now)

-- The loop of Migrate, over the migrations that are left.
unfoldable pub apply_missing :
    (Text → Statement (Unit {0})) → ℕ → List AppliedMigration → List Migration → ℕ → M ℕ
unfolding apply_one
apply_missing execute now applied [] n = pure n
apply_missing execute now applied (m ∷ ms) n =
    let rest = apply_missing execute now applied ms in
    if has_version m.version applied then rest n else apply_one execute now m >> rest (suc n)

-- Migrate, with what LoadMigrations returned; ensureLedger leaves the ledger as it is.
unfoldable pub migrate : (Text → Statement (Unit {0})) → Result (List Migration) → ℕ → M ℕ
unfolding apply_missing
migrate execute loaded now = do
  available ← lift loaded
  statement no_change
  applied ← applied_migrations
  lift (verify_ledger available applied)
  apply_missing execute now applied available 0

unfoldable pub highest : List AppliedMigration → ℕ
highest [] = 0
highest (a ∷ rest) = max a.version (highest rest)

-- SchemaVersion
unfoldable pub schema_version : M ℕ
unfolding highest
schema_version = applied_migrations >>= λ applied. pure (highest applied)

-- The version of the last migration.
unfoldable pub last_version : Migration → List Migration → ℕ
last_version m [] = m.version
last_version m (next ∷ rest) = last_version next rest
