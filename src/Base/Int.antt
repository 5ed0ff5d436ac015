-- ===== src/Base/Int.antt =====
-- Signed integers, and their order.
use Prim.Native.Nat.{ℕ}
use mathlib.Core.Bool.{Bool, true, false}
use mathlib.Core.Path.{◌≡◌, refl, ap}
use native.Mathlib.Omega.{arith}
use headnet.Base.Tests.{leb, if◌then◌else◌}

-- `negsuc n` is -(n + 1).
pub data ℤ : Type 0 where
  pos : ℕ → ℤ
  negsuc : ℕ → ℤ

-- x < 0
abbrev pub is_negative : ℤ → Bool
is_negative (pos n) = false
is_negative (negsuc n) = true

-- The value of an integer that is not negative.
abbrev pub pos_part : ℤ → ℕ
pos_part (pos n) = n
pos_part (negsuc n) = 0

abbrev pub int_leb : ℤ → ℤ → Bool
int_leb (pos m) (pos n) = leb m n
int_leb (pos m) (negsuc n) = false
int_leb (negsuc m) (pos n) = true
int_leb (negsuc m) (negsuc n) = leb n m

abbrev pub int_min : ℤ → ℤ → ℤ
int_min a b = if int_leb a b then a else b

abbrev pub int_max : ℤ → ℤ → ℤ
int_max a b = if int_leb a b then b else a

pub int_leb_refl : (a : ℤ) → int_leb a a ≡ true
int_leb_refl (pos m) = ground arith
int_leb_refl (negsuc m) = ground arith

pub int_leb_trans : (a b c : ℤ) → int_leb a b ≡ true → int_leb b c ≡ true → int_leb a c ≡ true
int_leb_trans (pos a) (pos b) (pos c) h k = ground arith
int_leb_trans (pos a) (pos b) (negsuc c) h k = ground arith
int_leb_trans (pos a) (negsuc b) c h k = ground arith
int_leb_trans (negsuc a) (pos b) (pos c) h k = ground arith
int_leb_trans (negsuc a) (pos b) (negsuc c) h k = ground arith
int_leb_trans (negsuc a) (negsuc b) (pos c) h k = ground arith
int_leb_trans (negsuc a) (negsuc b) (negsuc c) h k = ground arith

pub int_leb_total : (a b : ℤ) → int_leb a b ≡ false → int_leb b a ≡ true
int_leb_total (pos a) (pos b) h = ground arith
int_leb_total (pos a) (negsuc b) h = refl
int_leb_total (negsuc a) (pos b) h = ground arith
int_leb_total (negsuc a) (negsuc b) h = ground arith

pub int_leb_antisym : (a b : ℤ) → int_leb a b ≡ true → int_leb b a ≡ true → a ≡ b
int_leb_antisym (pos a) (pos b) h k = ap pos (ground arith)
int_leb_antisym (pos a) (negsuc b) h k = ground arith
int_leb_antisym (negsuc a) (pos b) h k = ground arith
int_leb_antisym (negsuc a) (negsuc b) h k = ap negsuc (ground arith)

module _ (a b : ℤ) where
  pub int_min-left : int_leb (int_min a b) a ≡ true
  int_min-left = ground (arith, int_leb_refl a, int_leb_total a b)

  pub int_min-right : int_leb (int_min a b) b ≡ true
  int_min-right = ground (arith, int_leb_refl b)

  pub int_min-greatest :
      (u : ℤ) → int_leb u a ≡ true → int_leb u b ≡ true → int_leb u (int_min a b) ≡ true
  int_min-greatest u h k = ground arith

  pub int_max-left : int_leb a (int_max a b) ≡ true
  int_max-left = ground (arith, int_leb_refl a)

  pub int_max-right : int_leb b (int_max a b) ≡ true
  int_max-right = ground (arith, int_leb_refl b, int_leb_total a b)

  pub int_max-least :
      (u : ℤ) → int_leb a u ≡ true → int_leb b u ≡ true → int_leb (int_max a b) u ≡ true
  int_max-least u h k = ground arith

  pub int_min_comm : int_min a b ≡ int_min b a
  int_min_comm = ground (arith, int_leb_antisym a b, int_leb_total a b, int_leb_total b a)

  pub int_max_comm : int_max a b ≡ int_max b a
  int_max_comm = ground (arith, int_leb_antisym a b, int_leb_total a b, int_leb_total b a)
