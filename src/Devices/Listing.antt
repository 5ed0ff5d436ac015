-- ===== src/Devices/Listing.antt =====
-- internal/devices: Store.List of device.go and Store.ListSetupKeys of setupkey.go. Identifiers are
-- ordered by their bytes.
use headnet.Base.{
  ℕ, ◌≡◌, refl, ap, subst, inl, inr, Bool, true, false, ◌&&◌, ◌||◌, List, [], ◌∷◌, arith, ltb, ◌==◌,
  Bool-cases, All,
}
use mathlib.Core.List.{Perm}
use headnet.Base.Sorting.{sort_by, IsSorted, sort_by-IsSorted, sort_by-Perm, sort_by-All}
use headnet.Text.{Text, text_leb, text_leb_total, text_leb_trans}
use headnet.Schema.{Device, SetupKey, Database}
use headnet.Storage.{Result, ok, M, World, statement}
use headnet.Storage.Bind.{quiet, statement-ok, ok-injective}
use headnet.Storage.Table.{select_rows}
use headnet.Devices.Inventory.{Scope, in_scope}

-- ORDER BY created_at DESC, id DESC
abbrev pub newer : ℕ → Text → ℕ → Text → Bool
newer created id other_created other_id =
    ltb other_created created || (other_created == created && text_leb other_id id)

abbrev pub newer_device : Device → Device → Bool
newer_device a b = newer a.created_at a.id b.created_at b.id

abbrev pub newer_key : SetupKey → SetupKey → Bool
newer_key a b = newer a.created_at a.id b.created_at b.id

-- Store.List
unfoldable pub list : Scope → M (List Device)
unfolding sort_by
list scope = statement λ d. (ok (sort_by newer_device (select_rows (in_scope scope) d.devices)), d)

-- Store.ListSetupKeys
unfoldable pub list_setup_keys : M (List SetupKey)
unfolding sort_by
list_setup_keys = statement λ d. (ok (sort_by newer_key d.setup_keys), d)

newer_total : (c c' : ℕ) (i i' : Text) → newer c i c' i' ≡ false → newer c' i' c i ≡ true
newer_total c c' i i' h = ground (arith, text_leb_total i' i)

newer_trans :
    (a b c : ℕ) (i j k : Text) → newer a i b j ≡ true → newer b j c k ≡ true → newer a i c k ≡ true
newer_trans a b c i j k h g = ground (arith, text_leb_trans k j i)

-- With no other connection in the way and no failure, List returns the devices of the scope, each
-- as often as it is stored, newest first, and changes nothing.
list-IsSorted :
    (scope : Scope) (d : Database)
    → (found : List Device) × (list scope (quiet d) ≡ (ok found, quiet d))
      × Perm found (select_rows (in_scope scope) d.devices)
      × IsSorted newer_device found
unfolding list statement
list-IsSorted scope d = (
  sort_by newer_device (select_rows (in_scope scope) d.devices),
  refl,
  sort_by-Perm newer_device _,
  sort_by-IsSorted newer_device (λ a b. newer_total a.created_at b.created_at a.id b.id)
      (λ a b c. newer_trans a.created_at b.created_at c.created_at a.id b.id c.id)
      (select_rows (in_scope scope) d.devices),
)

pub select_rows-All :
    (scope : Scope) (rows : List Device)
    → All (λ (x : Device). in_scope scope x ≡ true) (select_rows (in_scope scope) rows)
unfolding select_rows
select_rows-All scope [] = tt
select_rows-All scope (x ∷ rows) = elim (Bool-cases (in_scope scope x)) [
  | inl held ↦ rw held (held, select_rows-All scope rows)
  | inr other ↦ rw other (select_rows-All scope rows)
]

-- What List returns, among any other connections, is in its scope.
pub list-All :
    (scope : Scope) (w : World) {found : List Device} {w' : World}
    → list scope w ≡ (ok found, w')
    → All (λ (x : Device). in_scope scope x ≡ true) found
unfolding list
list-All scope w {found} {w'} h =
    let (d, ran) = statement-ok _ w h in
    subst (All (λ (x : Device). in_scope scope x ≡ true))
      (ok-injective (ap (λ (x : Result (List Device) × Database). x.0) ran))
      (sort_by-All newer_device _ (select_rows (in_scope scope) d.devices)
        (select_rows-All scope d.devices))
