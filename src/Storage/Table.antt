-- ===== src/Storage/Table.antt =====
-- The SQL statements of the source on a table: SELECT, UPDATE, DELETE and COUNT with a WHERE clause.
use headnet.Base.{
  ℕ, suc, ◌+◌, ◌≡◌, refl, Bool, true, false, ◌||◌, Option, none, some, List, [], ◌∷◌, ◌++◌, arith,
  if◌then◌else◌, ap, length,
}

module _ {ℓ} {A : Type ℓ} where
  unfoldable pub any_row : (A → Bool) → List A → Bool
  any_row p [] = false
  any_row p (x ∷ xs) = p x || any_row p xs

  -- The first row of the answer.
  unfoldable pub find_row : (A → Bool) → List A → Option A
  find_row p [] = none
  find_row p (x ∷ xs) = if p x then some x else find_row p xs

  unfoldable pub select_rows : (A → Bool) → List A → List A
  select_rows p [] = []
  select_rows p (x ∷ xs) = let rest = select_rows p xs in if p x then x ∷ rest else rest

  unfoldable pub count_rows : (A → Bool) → List A → ℕ
  count_rows p [] = 0
  count_rows p (x ∷ xs) = let n = count_rows p xs in if p x then suc n else n

  unfoldable pub delete_rows : (A → Bool) → List A → List A
  delete_rows p [] = []
  delete_rows p (x ∷ xs) = let rest = delete_rows p xs in if p x then rest else x ∷ rest

  unfoldable pub update_rows : (A → Bool) → (A → A) → List A → List A
  update_rows p f [] = []
  update_rows p f (x ∷ xs) = (if p x then f x else x) ∷ update_rows p f xs

  pub any_row-append :
      (p : A → Bool) (xs ys : List A) → any_row p (xs ++ ys) ≡ any_row p xs || any_row p ys
  unfolding any_row
  any_row-append p [] ys = refl
  any_row-append p (x ∷ xs) ys = ground (arith, any_row-append p xs ys)

  pub find_row-any_row : (p : A → Bool) (xs : List A) → any_row p xs ≡ false → find_row p xs ≡ none
  unfolding any_row find_row
  find_row-any_row p [] h = refl
  find_row-any_row p (x ∷ xs) h = ground (arith, find_row-any_row p xs)

  pub any_row-find_row :
      (p : A → Bool) (xs : List A) {x : A} → find_row p xs ≡ some x → any_row p xs ≡ true
  unfolding any_row find_row
  any_row-find_row p [] h = cc
  any_row-find_row p (y ∷ xs) {x} h = ground (arith, any_row-find_row p xs {x = x})

  -- The row that is found satisfies the clause.
  pub find_row_sound : (p : A → Bool) (xs : List A) {x : A} → find_row p xs ≡ some x → p x ≡ true
  unfolding find_row
  find_row_sound p [] h = cc
  find_row_sound p (y ∷ xs) {x} h = ground (arith, find_row_sound p xs {x = x}, ap p)

  pub any_row-delete_rows : (p : A → Bool) (xs : List A) → any_row p (delete_rows p xs) ≡ false
  unfolding any_row delete_rows
  any_row-delete_rows p [] = refl
  any_row-delete_rows p (x ∷ xs) = ground (arith, any_row-delete_rows p xs)

  pub length-delete_rows :
      (p : A → Bool) (xs : List A) → length (delete_rows p xs) + count_rows p xs ≡ length xs
  unfolding count_rows delete_rows
  length-delete_rows p [] = omega arith
  length-delete_rows p (x ∷ xs) = ground (arith, length-delete_rows p xs)

  -- What no row satisfies, the row that is found does not satisfy.
  pub find_row-none_of :
      (p q : A → Bool) (xs : List A) {x : A}
      → any_row q xs ≡ false
      → find_row p xs ≡ some x
      → q x ≡ false
  unfolding any_row find_row
  find_row-none_of p q [] h e = cc
  find_row-none_of p q (y ∷ xs) {x} h e = ground (arith, find_row-none_of p q xs {x = x}, ap q)

  -- A row that no other satisfies the clause before is the one that is found.
  pub find_row-append :
      (p : A → Bool) (xs : List A) (y : A)
      → any_row p xs ≡ false
      → p y ≡ true
      → find_row p (xs ++ y ∷ []) ≡ some y
  unfolding any_row find_row
  find_row-append p [] y h e = rw e
  find_row-append p (x ∷ xs) y h e = ground (arith, find_row-append p xs y)
