-- ===== src/WireGuard/Tests.antt =====
-- A run of a key through its text, with an encoding that shifts the bytes past every space.
use mathlib.Core.List.{reverse, reverse-cons, reverse-reverse}
use headnet.Base.{
  ℕ, zero, suc, ◌+◌, ◌-◌, ◌≡◌, ◌<◌, refl, ap, Bool, true, false, ◌&&◌, not, some, List, [], ◌∷◌,
  ◌++◌, map, arith, length, All,
}
use headnet.Text.{Text, eq, trim_space, trim_left, is_space}
use headnet.WireGuard.{
  KeyLibraries, ok, clamp, is_clamped, generate_key, parse_private_key, private_key_base64,
}
use headnet.WireGuard.Clamping.{parse_private_key-generate_key}

abbrev has_no_space : Text → Bool
has_no_space [] = true
has_no_space (c ∷ s) = not (is_space c) && has_no_space s

has_no_space-append : (s t : Text) → has_no_space (s ++ t) ≡ has_no_space s && has_no_space t
has_no_space-append [] t = refl
has_no_space-append (c ∷ s) t = ground (arith, has_no_space-append s t)

has_no_space-reverse : (s : Text) → has_no_space s ≡ true → has_no_space (reverse s) ≡ true
has_no_space-reverse [] h = refl
has_no_space-reverse (c ∷ s) h =
    rw (reverse-cons, has_no_space-append (reverse s) (c ∷ []))
      (ground (arith, has_no_space-reverse s))

trim_left-has_no_space : (s : Text) → has_no_space s ≡ true → trim_left s ≡ s
unfolding trim_left
trim_left-has_no_space [] h = refl
trim_left-has_no_space (c ∷ s) h = ground arith

trim_space-has_no_space : (s : Text) → has_no_space s ≡ true → trim_space s ≡ s
unfolding trim_space
trim_space-has_no_space s h = rw (
  trim_left-has_no_space s h,
  trim_left-has_no_space (reverse s) (has_no_space-reverse s h),
  reverse-reverse s,
)

abbrev shifted : List ℕ → Text
shifted = map (λ b. b + 0x4000)

shifted-has_no_space : (bytes : List ℕ) → has_no_space (shifted bytes) ≡ true
unfolding is_space
shifted-has_no_space [] = refl
shifted-has_no_space (b ∷ bytes) = ground (arith, shifted-has_no_space bytes)

abbrev toy : KeyLibraries
toy = record { encode = shifted; decode = λ s. some (map (λ c. c - 0x4000) s); base_mult = λ s. s }

toy_base64 : (bytes : List ℕ) → toy.decode (toy.encode bytes) ≡ some bytes
toy_base64 bytes = ap some (back bytes)
  where
    back : (bs : List ℕ) → map (λ c. c - 0x4000) (map (λ b. b + 0x4000) bs) ≡ bs
    back [] = refl
    back (b ∷ bs) = grind (arith, back bs)

toy_present : (bytes : List ℕ) → length bytes ≡ 32 → eq (toy.encode bytes) [] ≡ false
unfolding eq
toy_present [] h = absurd (omega arith)
toy_present (b ∷ bs) h = refl

abbrev ones : ℕ → List ℕ
ones zero = []
ones (suc n) = 255 ∷ ones n

ones-small : (n : ℕ) → All (λ b. b < 256) (ones n)
ones-small zero = tt
ones-small (suc n) = (omega arith, ones-small n)

parse_private_key-generate_key_example :
    (is_clamped (some (clamp (ones 32))) ≡ true)
    × (parse_private_key toy (private_key_base64 toy (some (clamp (ones 32))))
        ≡ ok (some (clamp (ones 32))))
unfolding generate_key
parse_private_key-generate_key_example =
    parse_private_key-generate_key (ones 32) refl (ones-small 32) toy toy_base64
      (λ bytes. trim_space-has_no_space (shifted bytes) (shifted-has_no_space bytes)) toy_present
      refl
