-- ===== src/Storage/Distinct.antt =====
-- The UNIQUE constraints of the tables: no two rows have one text in a column.
use headnet.Base.{◌||◌, ◌≡◌, refl, inl, inr, Bool, false, List, [], ◌∷◌, ◌++◌, arith, Bool-cases}
use headnet.Text.{Text, eq, eq_iff}
use headnet.Storage.Table.{update_rows, any_row, any_row-append}

pub eq_sym : (s t : Text) → eq s t ≡ eq t s
eq_sym s t = ground (arith, eq_iff s t, eq_iff t s)

module _ {A : Type 0} (column : A → Text) where
  -- No two rows have the same text in the column.
  abbrev pub IsDistinct : List A → Type 0
  IsDistinct [] = Unit {0}
  IsDistinct (x ∷ xs) = (any_row (λ y. eq (column x) (column y)) xs ≡ false) × IsDistinct xs

  pub IsDistinct-append :
      (y : A) (xs : List A)
      → any_row (λ x. eq (column x) (column y)) xs ≡ false
      → IsDistinct xs
      → IsDistinct (xs ++ y ∷ [])
  unfolding any_row
  IsDistinct-append y [] free h = (refl, tt)
  IsDistinct-append y (x ∷ xs) free h = (
    rw (any_row-append (λ z. eq (column x) (column z)) xs (y ∷ []), h.0) (ground arith),
    IsDistinct-append y xs (ground arith) h.1,
  )

  module _ (p : A → Bool) (f : A → A) (same : (x : A) → column (f x) ≡ column x) where
    any_row-update_rows :
        (key : Text) (xs : List A)
        → any_row (λ y. eq key (column y)) (update_rows p f xs)
          ≡ any_row (λ y. eq key (column y)) xs
    unfolding any_row update_rows
    any_row-update_rows key [] = refl
    any_row-update_rows key (x ∷ xs) = elim (Bool-cases (p x)) [
      | inl hit ↦ rw (hit, same x, any_row-update_rows key xs)
      | inr miss ↦ rw (miss, any_row-update_rows key xs)
    ]

    pub IsDistinct-update_rows : (xs : List A) → IsDistinct xs → IsDistinct (update_rows p f xs)
    unfolding update_rows
    IsDistinct-update_rows [] h = tt
    IsDistinct-update_rows (x ∷ xs) h = elim (Bool-cases (p x)) [
      | inl hit ↦
          rw (hit, same x, any_row-update_rows (column x) xs) (h.0, IsDistinct-update_rows xs h.1)
      | inr miss ↦ rw (miss, any_row-update_rows (column x) xs) (h.0, IsDistinct-update_rows xs h.1)
    ]

-- A row that is apart from all others in either column is apart in each.
module _ {A : Type 0} (p q : A → Bool) where
  pub any_row-either :
      (xs : List A)
      → any_row (λ x. p x || q x) xs ≡ false
      → (any_row p xs ≡ false) × (any_row q xs ≡ false)
  unfolding any_row
  any_row-either [] h = (refl, refl)
  any_row-either (x ∷ xs) h = ground (arith, any_row-either xs)
