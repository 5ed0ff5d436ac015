-- ===== src/Base/Table.antt =====
-- Facts about all numbers up to a bound, by evaluation.
use native.Mathlib.Decide.{dec_le}
use Prim.Native.Nat.{ℕ, zero, suc, ◌≤◌}
use mathlib.Core.Path.{◌≡◌}
use mathlib.Core.Bool.{Bool, true, ◌&&◌}
use native.Mathlib.Omega.{arith}

-- A test that holds of every number up to a bound, by evaluation.
unfoldable pub passes : (ℕ → Bool) → ℕ → Bool
passes test zero = test zero
passes test (suc bound) = passes test bound && test (suc bound)

pub passes-at :
    (test : ℕ → Bool) (bound : ℕ) {i : ℕ} → passes test bound ≡ true → i ≤ bound → test i ≡ true
unfolding passes
passes-at test zero {i} all le = let z : i ≡ 0 = omega arith in rw z all
passes-at test (suc bound) {i} all le = elim (dec_le i bound) [
  | yes below ↦ passes-at test bound (ground arith) below
  | no above ↦ let top : i ≡ suc bound = omega arith in rw top (ground arith)
]
