-- ===== src/Network/LastAddr.antt =====
-- lastAddr computes the highest address of a prefix.
use Prim.Native.Nat.{bit_or}
use native.Mathlib.Numerals.{towards_suc}
use native.Mathlib.Decide.{dec_le}
use native.Mathlib.Nat.{pow-suc, mul-mod_left, div-mul-le_self}
use headnet.Netip.{Addr, Prefix, Family, ip4, ip6, bit_len, host_bits, pool_size, contains}
use headnet.Netip.Bounds.{pow_pos, base, contains_bounds, contains_of_bounds}
use headnet.Base.Table.{passes, passes-at}
use headnet.Base.{
  ℕ, zero, suc, ◌+◌, ◌-◌, ◌*◌, ◌/◌, ◌%◌, ◌^◌, ◌≤◌, ◌<◌, min, ◌≡◌, refl, sym, Bool, true, List, [],
  ◌∷◌, arith, ◌==◌, ==_iff, if◌then◌else◌, ap, lt→ltb, ◌∙◌,
}
use headnet.Network.{to_bytes, from_bytes, set_host_bits, last_addr, byte_len}

abbrev sets_low_bits : ℕ → ℕ → Bool
sets_low_bits n b = if b % 2 ^ n == 0 then bit_or b (255 / 2 ^ (8 - n)) + 1 == b + 2 ^ n else true

low_bits_table : passes (λ n. passes (sets_low_bits n) 255) 8 ≡ true
unfolding passes
low_bits_table = refl

set_byte :
    (n b : ℕ) → n < 9 → b < 256 → b % 2 ^ n ≡ 0 → bit_or b (255 / 2 ^ (8 - n)) + 1 ≡ b + 2 ^ n
set_byte n b hn hb e =
    let aligned : (b % 2 ^ n == 0) ≡ true = ground arith in
    let row =
      passes-at (λ n. passes (sets_low_bits n) 255) 8 {i = n} low_bits_table (omega arith) in
    let checked = passes-at (sets_low_bits n) 255 {i = b} row (omega arith) in
    (==_iff _ _).0 (rw aligned at checked)

mod_low : (n v : ℕ) → n < 9 → v % 256 % 2 ^ n ≡ v % 2 ^ n
mod_low zero v h = omega arith
mod_low (suc zero) v h = omega arith
mod_low (suc (suc zero)) v h = omega arith
mod_low (suc (suc (suc zero))) v h = omega arith
mod_low (suc (suc (suc (suc zero)))) v h = omega arith
mod_low (suc (suc (suc (suc (suc zero))))) v h = omega arith
mod_low (suc (suc (suc (suc (suc (suc zero)))))) v h = omega arith
mod_low (suc (suc (suc (suc (suc (suc (suc zero))))))) v h = omega arith
mod_low (suc (suc (suc (suc (suc (suc (suc (suc zero)))))))) v h = omega arith
mod_low (suc (suc (suc (suc (suc (suc (suc (suc (suc n))))))))) v h = absurd (omega arith)

pow_byte : (k : ℕ) → 2 ^ (k + 8) ≡ 256 * 2 ^ k
pow_byte k = simp towards_suc (omega arith)

tail_small : (k v : ℕ) → v < 256 ^ suc k → v / 256 < 256 ^ k
tail_small k v h = omega (arith, pow-suc 256 k)

from_bytes-to_bytes : (k v : ℕ) → v < 256 ^ k → from_bytes (to_bytes k v) ≡ v
unfolding from_bytes to_bytes
from_bytes-to_bytes zero v h = omega arith
from_bytes-to_bytes (suc k) v h = omega (arith, from_bytes-to_bytes k (v / 256) (tail_small k v h))

set_host_bits-zero : (bs : List ℕ) → set_host_bits 0 bs ≡ bs
unfolding set_host_bits
set_host_bits-zero [] = refl
set_host_bits-zero (b ∷ bs) = refl

set_host_bits-cons :
    (h b : ℕ) (bs : List ℕ)
    → 0 < h
    → set_host_bits h (b ∷ bs) ≡ bit_or b (255 / 2 ^ (8 - min 8 h)) ∷ set_host_bits (h - min 8 h) bs
unfolding set_host_bits
set_host_bits-cons h b bs pos = rw (lt→ltb 0 h pos)

set_host_bits_lem :
    (k h q v : ℕ)
    → v < 256 ^ k
    → h ≤ 8 * k
    → v ≡ q * 2 ^ h
    → from_bytes (set_host_bits h (to_bytes k v)) + 1 ≡ v + 2 ^ h
unfolding from_bytes to_bytes
set_host_bits_lem zero h q v small room e =
    let z : h ≡ 0 = omega arith in rw (z, set_host_bits-zero []) (omega arith)
set_host_bits_lem (suc k) zero q v small room e =
    rw (set_host_bits-zero (to_bytes (suc k) v))
      (omega (arith, from_bytes-to_bytes k (v / 256) (tail_small k v small)))
set_host_bits_lem (suc k) (suc h) q v small room e =
    rw (set_host_bits-cons (suc h) (v % 256) (to_bytes k (v / 256)) (omega arith))
      (elim (dec_le (suc h) 8) [
        | yes last ↦
            let n : min 8 (suc h) ≡ suc h = omega arith in
            let none_left : suc h - suc h ≡ 0 = omega arith in
            rw (n, none_left, set_host_bits-zero (to_bytes k (v / 256)))
              (omega (
                arith,
                set_byte (suc h) (v % 256) (omega arith) (omega arith)
                    (mod_low (suc h) v (omega arith) ∙ rw e (mul-mod_left q (2 ^ suc h))),
                from_bytes-to_bytes k (v / 256) (tail_small k v small),
              ))
        | no more ↦
            let n : min 8 (suc h) ≡ 8 = omega arith in
            let split : suc h - 8 + 8 ≡ suc h = omega arith in
            let power : 2 ^ suc h ≡ 256 * 2 ^ (suc h - 8) =
              ap (◌^◌ 2) (sym split) ∙ pow_byte (suc h - 8) in
            let shifted : v ≡ 256 * (q * 2 ^ (suc h - 8)) = omega (arith, ap (◌*◌ q) power) in
            rw n (
              omega (
                arith,
                power,
                shifted,
                set_byte 8 (v % 256) (omega arith) (omega arith) (omega arith),
                set_host_bits_lem k (suc h - 8) q (v / 256) (tail_small k v small) (omega arith)
                    (omega arith),
              ))
      ])

bytes_hold : (f : Family) (v : ℕ) → v < 2 ^ bit_len f → v < 256 ^ byte_len f
bytes_hold ip4 v h = omega arith
bytes_hold ip6 v h = omega arith

bits_fit : (f : Family) (bits : ℕ) → bit_len f - bits ≤ 8 * byte_len f
bits_fit ip4 bits = omega arith
bits_fit ip6 bits = omega arith

module _ (p : Prefix) (valid : p.addr.value < 2 ^ bit_len p.addr.family) where
  last_addr-value : (last_addr p).value + 1 ≡ base p + pool_size p
  unfolding last_addr
  last_addr-value =
      set_host_bits_lem (byte_len p.addr.family) (host_bits p) (p.addr.value / pool_size p) (base p)
        (bytes_hold p.addr.family (base p)
          (omega (arith, div-mul-le_self p.addr.value (pool_size p))))
        (bits_fit p.addr.family p.bits) refl

  last_addr-family : (last_addr p).family ≡ p.addr.family
  unfolding last_addr
  last_addr-family = refl

  -- For a valid prefix, lastAddr returns an address of the prefix, and no address of the prefix
  -- is above it.
  pub last_addr-greatest :
      (a : Addr)
      → contains p a ≡ true
      → (contains p (last_addr p) ≡ true) × (a.value ≤ (last_addr p).value)
  last_addr-greatest a inside = (
    contains_of_bounds p (last_addr p) last_addr-family
        (omega (arith, last_addr-value, pow_pos (host_bits p))) (omega (arith, last_addr-value)),
    omega (arith, last_addr-value, contains_bounds p a inside),
  )
