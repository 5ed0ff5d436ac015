-- ===== src/Storage/Loading.antt =====
-- The migrations that LoadMigrations returns are in order, and named and summed as they should be.
use headnet.Base.{
  ℕ, ◌≡◌, ◌≤◌, ◌<◌, refl, sym, ap, subst, ◌∙◌, inl, inr, false, ◌||◌, not, Option, none, some, List,
  [], ◌∷◌, ◌++◌, ◌==◌, leb, arith, Bool-cases, if◌then◌else◌, All,
}
use headnet.Text.{Text, eq, trim_space}
use headnet.Platform.{Platform, hash_token}
use headnet.Storage.{Result, ok, err}
use headnet.Storage.Bind.{ok-injective, ok-ne-err}
use headnet.Storage.Table.{any_row, any_row-append}
use headnet.Storage.Migrations.{
  Migration, Entry, has_migration, read_number, read_positive, positive, versioned, named,
  parse_migration_name, is_sql, add_migration, add_entry, and_then, add_entries, insert_sorted,
  sort_migrations, load_migrations,
}

-- The versions rise strictly.
abbrev pub IsAscending : List Migration → Type 0
IsAscending [] = Unit {0}
IsAscending (m ∷ ms) = All (λ x. m.version < x.version) ms × IsAscending ms

-- The version is positive and the checksum is the one of the text.
abbrev pub IsSound : Platform → Migration → Type 0
IsSound p m = (1 ≤ m.version) × (m.checksum ≡ hash_token p m.sql)

abbrev HasDistinctVersions : List Migration → Type 0
HasDistinctVersions [] = Unit {0}
HasDistinctVersions (m ∷ ms) = (has_migration m.version ms ≡ false) × HasDistinctVersions ms

has_migration-insert_sorted :
    (v : ℕ) (m : Migration) (ms : List Migration)
    → has_migration v (insert_sorted m ms) ≡ (m.version == v) || has_migration v ms
unfolding insert_sorted any_row
has_migration-insert_sorted v m [] = refl
has_migration-insert_sorted v m (x ∷ xs) = ground (arith, has_migration-insert_sorted v m xs)

has_migration-sort_migrations :
    (v : ℕ) (ms : List Migration) → has_migration v (sort_migrations ms) ≡ has_migration v ms
unfolding sort_migrations any_row
has_migration-sort_migrations v [] = refl
has_migration-sort_migrations v (m ∷ ms) =
    has_migration-insert_sorted v m (sort_migrations ms)
    ∙ ap (λ b. (m.version == v) || b) (has_migration-sort_migrations v ms)

module _ (P : Migration → Type 0) where
  All-insert_sorted :
      (m : Migration) (ms : List Migration) → P m → All P ms → All P (insert_sorted m ms)
  unfolding insert_sorted
  All-insert_sorted m [] h hs = (h, tt)
  All-insert_sorted m (x ∷ xs) h hs = elim (Bool-cases (leb m.version x.version)) [
    | inl low ↦ rw low (h, hs)
    | inr high ↦ rw high (hs.0, All-insert_sorted m xs h hs.1)
  ]

  All-sort_migrations : (ms : List Migration) → All P ms → All P (sort_migrations ms)
  unfolding sort_migrations
  All-sort_migrations [] hs = tt
  All-sort_migrations (m ∷ ms) hs =
      All-insert_sorted m (sort_migrations ms) hs.0 (All-sort_migrations ms hs.1)

  All-append_one : (ms : List Migration) (m : Migration) → All P ms → P m → All P (ms ++ m ∷ [])
  All-append_one [] m hs h = (h, tt)
  All-append_one (x ∷ xs) m hs h = (hs.0, All-append_one xs m hs.1 h)

above :
    (u v : ℕ) (ms : List Migration)
    → u ≤ v
    → All (λ x. v < x.version) ms
    → All (λ x. u < x.version) ms
above u v [] le hs = tt
above u v (x ∷ xs) le hs = (omega (arith, hs.0), above u v xs le hs.1)

insert_sorted-IsAscending :
    (m : Migration) (ms : List Migration)
    → has_migration m.version ms ≡ false
    → IsAscending ms
    → IsAscending (insert_sorted m ms)
unfolding insert_sorted any_row
insert_sorted-IsAscending m [] free h = (tt, tt)
insert_sorted-IsAscending m (x ∷ xs) free h = elim (Bool-cases (leb m.version x.version)) [
  | inl low ↦
      let under : m.version < x.version = ground arith in
      rw low ((under, above m.version x.version xs (omega (arith, under)) h.0), h)
  | inr high ↦
      let over : x.version < m.version = ground arith in
      let rest : has_migration m.version xs ≡ false = ground arith in
      rw high (
        All-insert_sorted (λ y. x.version < y.version) m xs over h.0,
        insert_sorted-IsAscending m xs rest h.1,
      )
]

sort_migrations-IsAscending :
    (ms : List Migration) → HasDistinctVersions ms → IsAscending (sort_migrations ms)
unfolding sort_migrations
sort_migrations-IsAscending [] d = tt
sort_migrations-IsAscending (m ∷ ms) d =
    insert_sorted-IsAscending m (sort_migrations ms)
      (has_migration-sort_migrations m.version ms ∙ d.0) (sort_migrations-IsAscending ms d.1)

HasDistinctVersions-append :
    (ms : List Migration) (m : Migration)
    → has_migration m.version ms ≡ false
    → HasDistinctVersions ms
    → HasDistinctVersions (ms ++ m ∷ [])
unfolding any_row
HasDistinctVersions-append [] m free d = (refl, tt)
HasDistinctVersions-append (x ∷ xs) m free d = (
  rw (any_row-append (λ (y : Migration). y.version == x.version) xs (m ∷ []), d.0) (ground arith),
  HasDistinctVersions-append xs m (ground arith) d.1,
)

positive-ge : (o : Option ℕ) {n : ℕ} → positive o ≡ some n → 1 ≤ n
positive-ge none h = cc
positive-ge (some k) {n} h = elim (Bool-cases (k == 0)) [
  | inl zero_k ↦ (let never : none ≡ some n = rw zero_k at h in cc)
  | inr more ↦
      let same : some k ≡ some n = rw more at h in
      let equal : k ≡ n = cc in subst (λ x. 1 ≤ x) equal (ground arith)
]

read_positive-ge : (s : Text) {n : ℕ} → read_positive s ≡ some n → 1 ≤ n
read_positive-ge [] h = cc
read_positive-ge (c ∷ s) h =
    positive-ge (if c == b'+' then read_number s else read_number (c ∷ s)) h

versioned-ge :
    (o : Option ℕ) (given : Text) {v : ℕ} {name : Text}
    → ((n : ℕ) → o ≡ some n → 1 ≤ n)
    → versioned o given ≡ ok (v, name)
    → 1 ≤ v
versioned-ge none given ge h = cc
versioned-ge (some n) given {v} ge h =
    subst (λ x. 1 ≤ x) (ap (λ (r : ℕ × Text). r.0) (ok-injective h)) (ge n refl)

named-ge : (o : Option (Text × Text)) {v : ℕ} {name : Text} → named o ≡ ok (v, name) → 1 ≤ v
named-ge none h = cc
named-ge (some (prefix, given)) {v} {name} h = elim (Bool-cases (eq given [])) [
  | inl blank ↦ ok-ne-err (sym (rw blank at h))
  | inr present ↦
      versioned-ge (read_positive prefix) given {v = v} {name = name}
        (λ n e. read_positive-ge prefix e) (rw present at h)
]

pub and_then-ok :
    {A B : Type 0} (r : Result A) (f : A → Result B) {b : B}
    → and_then r f ≡ ok b
    → (a : A) × (r ≡ ok a) × (f a ≡ ok b)
and_then-ok (ok a) f h = (a, refl, h)
and_then-ok (err e) f h = cc

module _ (p : Platform) where
  abbrev IsLoaded : List Migration → Type 0
  IsLoaded out = HasDistinctVersions out × All (IsSound p) out

  add_migration-IsLoaded :
      (out : List Migration) (body : Option Text) (parsed : Result (ℕ × Text))
      {out' : List Migration}
      → ((v : ℕ) (name : Text) → parsed ≡ ok (v, name) → 1 ≤ v)
      → IsLoaded out
      → add_migration p out body parsed ≡ ok out'
      → IsLoaded out'
  add_migration-IsLoaded out body (err e) ge l h = cc
  add_migration-IsLoaded out none (ok (version, name)) ge l h = cc
  add_migration-IsLoaded out (some body) (ok (version, name)) {out'} ge l h =
      elim (Bool-cases (has_migration version out || eq (trim_space body) [])) [
        | inl bad ↦ ok-ne-err (sym (rw bad at h))
        | inr good ↦
            let free : has_migration version out ≡ false = ground arith in
            subst IsLoaded (ok-injective (rw good at h)) (
              HasDistinctVersions-append out _ free l.0,
              All-append_one (IsSound p) out _ l.1 (ge version name refl, refl),
            )
      ]

  add_entry-IsLoaded :
      (entry : Entry) (out : List Migration) {out' : List Migration}
      → IsLoaded out
      → add_entry p entry out ≡ ok out'
      → IsLoaded out'
  unfolding add_entry parse_migration_name
  add_entry-IsLoaded entry out l h = elim (Bool-cases (entry.is_dir || not (is_sql entry))) [
    | inl skipped ↦ subst IsLoaded (ok-injective (rw skipped at h)) l
    | inr read ↦
        add_migration-IsLoaded out entry.body (parse_migration_name entry.name)
          (λ v name e. named-ge _ {v = v} {name = name} e) l (rw read at h)
  ]

  add_entries-IsLoaded :
      (entries : List Entry) (out : List Migration) {out' : List Migration}
      → IsLoaded out
      → add_entries p entries out ≡ ok out'
      → IsLoaded out'
  unfolding add_entries
  add_entries-IsLoaded [] out l h = subst IsLoaded (ok-injective h) l
  add_entries-IsLoaded (entry ∷ entries) out l h =
      let (next, e, k) = and_then-ok (add_entry p entry out) (add_entries p entries) h in
      add_entries-IsLoaded entries next (add_entry-IsLoaded entry out l e) k

  -- When LoadMigrations returns, the versions of its migrations are positive and rise strictly, so
  -- that no two are the same, and the checksum of each is the one of its text.
  pub load_migrations-IsAscending :
      (entries : List Entry) {ms : List Migration}
      → load_migrations p entries ≡ ok ms
      → IsAscending ms × All (IsSound p) ms
  unfolding load_migrations
  load_migrations-IsAscending entries h =
      let (out, e, k) =
        and_then-ok (add_entries p entries []) (λ out. ok (sort_migrations out)) h in
      let loaded = add_entries-IsLoaded entries [] (tt, tt) e in
      subst (λ (x : List Migration). IsAscending x × All (IsSound p) x) (ok-injective k)
        (sort_migrations-IsAscending out loaded.0, All-sort_migrations (IsSound p) out loaded.1)
