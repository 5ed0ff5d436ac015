-- ===== src/Storage/Complete.antt =====
-- LoadMigrations leaves no file out.
use headnet.Base.{
  ℕ, ◌≡◌, refl, sym, ap, subst, ◌∙◌, inl, inr, Bool, true, false, ◌&&◌, ◌||◌, not, Option, none,
  some, List, [], ◌∷◌, ◌==◌, arith, Bool-cases, All,
}
use headnet.Text.{Text, eq, eq_refl, trim_space}
use headnet.Platform.{Platform}
use headnet.Storage.{Result, ok, err}
use headnet.Storage.Bind.{ok-injective, ok-ne-err}
use headnet.Storage.Table.{any_row, any_row-append}
use headnet.Storage.Migrations.{
  Migration, Entry, has_migration, parse_migration_name, is_sql, add_migration, add_entry,
  add_entries, insert_sorted, sort_migrations, load_migrations,
}
use headnet.Storage.Loading.{IsAscending, IsSound, and_then-ok, load_migrations-IsAscending}

abbrev is_migration : ℕ → Text → Text → Migration → Bool
is_migration version name body m = m.version == version && eq m.name name && eq m.sql body

-- The name of the file is one of a migration, its text could be read, and both are in the list.
abbrev pub has_file : Option Text → Result (ℕ × Text) → List Migration → Bool
has_file (some body) (ok (version, name)) ms = any_row (is_migration version name body) ms
has_file _ _ ms = false

-- What is not a directory and ends in .sql is in the list.
abbrev pub is_loaded : List Migration → Entry → Bool
is_loaded ms entry =
    (entry.is_dir || not (is_sql entry)) || has_file entry.body (parse_migration_name entry.name) ms

any_row-insert_sorted :
    (q : Migration → Bool) (m : Migration) (ms : List Migration)
    → any_row q (insert_sorted m ms) ≡ q m || any_row q ms
unfolding insert_sorted any_row
any_row-insert_sorted q m [] = refl
any_row-insert_sorted q m (x ∷ xs) = ground (arith, any_row-insert_sorted q m xs)

any_row-sort_migrations :
    (q : Migration → Bool) (ms : List Migration) → any_row q (sort_migrations ms) ≡ any_row q ms
unfolding sort_migrations any_row
any_row-sort_migrations q [] = refl
any_row-sort_migrations q (m ∷ ms) =
    any_row-insert_sorted q m (sort_migrations ms)
    ∙ ap (λ b. q m || b) (any_row-sort_migrations q ms)

-- What one list has, the other has too.
abbrev Includes : List Migration → List Migration → Type 0
Includes ms ms' = (q : Migration → Bool) → any_row q ms ≡ true → any_row q ms' ≡ true

has_file-Includes :
    (body : Option Text) (parsed : Result (ℕ × Text)) (ms ms' : List Migration)
    → Includes ms ms'
    → has_file body parsed ms ≡ true
    → has_file body parsed ms' ≡ true
has_file-Includes none parsed ms ms' more h = cc
has_file-Includes (some body) (err e) ms ms' more h = cc
has_file-Includes (some body) (ok (version, name)) ms ms' more h = more _ h

is_loaded-Includes :
    (entry : Entry) (ms ms' : List Migration)
    → Includes ms ms'
    → is_loaded ms entry ≡ true
    → is_loaded ms' entry ≡ true
is_loaded-Includes entry ms ms' more h = elim (Bool-cases (entry.is_dir || not (is_sql entry))) [
  | inl skipped ↦ rw skipped refl
  | inr read ↦
      rw read
        (has_file-Includes entry.body (parse_migration_name entry.name) ms ms' more (rw read at h))
]

module _ (p : Platform) where
  add_migration-has_file :
      (out : List Migration) (body : Option Text) (parsed : Result (ℕ × Text))
      {out' : List Migration}
      → add_migration p out body parsed ≡ ok out'
      → Includes out out' × (has_file body parsed out' ≡ true)
  unfolding any_row
  add_migration-has_file out body (err e) h = cc
  add_migration-has_file out none (ok (version, name)) h = cc
  add_migration-has_file out (some body) (ok (version, name)) {out'} h =
      elim (Bool-cases (has_migration version out || eq (trim_space body) [])) [
        | inl bad ↦ ok-ne-err (sym (rw bad at h))
        | inr good ↦
            subst
              (λ (x : List Migration).
                Includes out x × (any_row (is_migration version name body) x ≡ true))
              (ok-injective (rw good at h))
              (
                λ q there. any_row-append q out _ ∙ rw there refl,
                any_row-append (is_migration version name body) out _
                    ∙ ground (arith, eq_refl name, eq_refl body),
              )
      ]

  add_entry-is_loaded :
      (entry : Entry) (out : List Migration) {out' : List Migration}
      → add_entry p entry out ≡ ok out'
      → Includes out out' × (is_loaded out' entry ≡ true)
  unfolding add_entry
  add_entry-is_loaded entry out {out'} h = elim (Bool-cases (entry.is_dir || not (is_sql entry))) [
    | inl skipped ↦
        let same : ok out ≡ ok out' = rw skipped at h in
        (
          λ q there. subst (λ (x : List Migration). any_row q x ≡ true) (ok-injective same) there,
          rw skipped refl,
        )
    | inr read ↦
        let (more, has) =
          add_migration-has_file out entry.body (parse_migration_name entry.name) (rw read at h) in
        (more, rw read has)
  ]

  add_entries-is_loaded :
      (entries : List Entry) (out : List Migration) {out' : List Migration}
      → add_entries p entries out ≡ ok out'
      → Includes out out' × All (λ entry. is_loaded out' entry ≡ true) entries
  unfolding add_entries
  add_entries-is_loaded [] out h =
      (λ q there. subst (λ (x : List Migration). any_row q x ≡ true) (ok-injective h) there, tt)
  add_entries-is_loaded (entry ∷ entries) out {out'} h =
      let (next, e, k) = and_then-ok (add_entry p entry out) (add_entries p entries) h in
      let (more, has) = add_entry-is_loaded entry out e in
      let (rest, all) = add_entries-is_loaded entries next k in
      (λ q there. rest q (more q there), (is_loaded-Includes entry next out' rest has, all))

  All-is_loaded :
      (entries : List Entry) (ms ms' : List Migration)
      → Includes ms ms'
      → All (λ entry. is_loaded ms entry ≡ true) entries
      → All (λ entry. is_loaded ms' entry ≡ true) entries
  All-is_loaded [] ms ms' more hs = tt
  All-is_loaded (entry ∷ entries) ms ms' more hs =
      (is_loaded-Includes entry ms ms' more hs.0, All-is_loaded entries ms ms' more hs.1)

  -- When LoadMigrations returns, every file that ends in .sql, directories aside, has a name with a
  -- version and a text that could be read, and the list has a migration with that version, name and
  -- text. The versions of the migrations are positive and rise strictly, so that no two are the same,
  -- and the checksum of each is the one of its text.
  pub load_migrations-is_loaded :
      (entries : List Entry) {ms : List Migration}
      → load_migrations p entries ≡ ok ms
      → All (λ entry. is_loaded ms entry ≡ true) entries × IsAscending ms × All (IsSound p) ms
  unfolding load_migrations
  load_migrations-is_loaded entries {ms} h =
      let (out, e, k) =
        and_then-ok (add_entries p entries []) (λ out. ok (sort_migrations out)) h in
      let sorted =
        subst (λ (x : List Migration). Includes out x) (ok-injective k)
          (λ q there. any_row-sort_migrations q out ∙ there) in
      let (ascending, sound) = load_migrations-IsAscending p entries h in
      (All-is_loaded entries out ms sorted (add_entries-is_loaded entries [] e).1, ascending, sound)
