-- ===== src/WireGuard/Clamping.antt =====
-- A generated key is one that is accepted when it is read back.
use Prim.Native.Nat.{bit_and, bit_or}
use headnet.Base.{
  ℕ, zero, suc, ◌≡◌, ◌<◌, refl, sym, ap, subst, ◌∙◌, inl, inr, Bool, true, false, ◌&&◌, some, List,
  [], ◌∷◌, ◌==◌, Bool-cases, arith, length, All,
}
use headnet.Base.Table.{passes, passes-at}
use headnet.Text.{eq, trim_space}
use headnet.WireGuard.{
  KeyLibraries, PrivateKey, ok, byte_at, set_byte_at, clamp, is_clamped, all_zero, is_zero,
  generate_key, parse_key_bytes, parse_private_key, private_key_base64,
}

length-set_byte_at : (i : ℕ) (f : ℕ → ℕ) (s : List ℕ) → length (set_byte_at i f s) ≡ length s
unfolding set_byte_at
length-set_byte_at zero f [] = refl
length-set_byte_at (suc i) f [] = refl
length-set_byte_at zero f (b ∷ bs) = refl
length-set_byte_at (suc i) f (b ∷ bs) = ap suc (length-set_byte_at i f bs)

byte_at-set_byte_at :
    (i : ℕ) (f : ℕ → ℕ) (s : List ℕ)
    → i < length s
    → byte_at i (set_byte_at i f s) ≡ f (byte_at i s)
unfolding set_byte_at byte_at
byte_at-set_byte_at zero f [] h = absurd (omega arith)
byte_at-set_byte_at (suc i) f [] h = absurd (omega arith)
byte_at-set_byte_at zero f (b ∷ bs) h = refl
byte_at-set_byte_at (suc i) f (b ∷ bs) h = byte_at-set_byte_at i f bs (omega arith)

first-set_byte_at :
    (i : ℕ) (f : ℕ → ℕ) (s : List ℕ) → byte_at 0 (set_byte_at (suc i) f s) ≡ byte_at 0 s
unfolding set_byte_at byte_at
first-set_byte_at i f [] = refl
first-set_byte_at i f (b ∷ bs) = refl

later-set_byte_at :
    (i : ℕ) (f : ℕ → ℕ) (s : List ℕ) → byte_at (suc i) (set_byte_at 0 f s) ≡ byte_at (suc i) s
unfolding set_byte_at byte_at
later-set_byte_at i f [] = refl
later-set_byte_at i f (b ∷ bs) = refl

byte_at-lt : (i : ℕ) (s : List ℕ) → All (λ b. b < 256) s → byte_at i s < 256
unfolding byte_at
byte_at-lt zero [] h = omega arith
byte_at-lt (suc i) [] h = omega arith
byte_at-lt zero (b ∷ bs) h = h.0
byte_at-lt (suc i) (b ∷ bs) h = byte_at-lt i bs h.1

all_zero-byte_at : (i : ℕ) (s : List ℕ) → all_zero s ≡ true → byte_at i s ≡ 0
unfolding all_zero byte_at
all_zero-byte_at zero [] h = refl
all_zero-byte_at (suc i) [] h = refl
all_zero-byte_at zero (b ∷ bs) h = ground arith
all_zero-byte_at (suc i) (b ∷ bs) h = all_zero-byte_at i bs (ground arith)

abbrev low_clear : ℕ → Bool
low_clear b = bit_and (bit_and b 248) 7 == 0

abbrev high_set : ℕ → Bool
high_set b =
    bit_and (bit_or (bit_and b 127) 64) 128 == 0 && bit_and (bit_or (bit_and b 127) 64) 64 == 64

low_table : passes low_clear 255 ≡ true
unfolding passes
low_table = refl

high_table : passes high_set 255 ≡ true
unfolding passes
high_table = refl

module _ (raw : List ℕ) (full : length raw ≡ 32) (bytes : All (λ b. b < 256) raw) where
  abbrev cleared : List ℕ
  cleared = set_byte_at 0 (λ b. bit_and b 248) raw

  abbrev halved : List ℕ
  halved = set_byte_at 31 (λ b. bit_and b 127) cleared

  length-cleared : length cleared ≡ 32
  length-cleared = length-set_byte_at 0 (λ b. bit_and b 248) raw ∙ full

  length-halved : length halved ≡ 32
  length-halved = length-set_byte_at 31 (λ b. bit_and b 127) cleared ∙ length-cleared

  length-clamp : length (clamp raw) ≡ 32
  unfolding clamp
  length-clamp = length-set_byte_at 31 (λ b. bit_or b 64) halved ∙ length-halved

  first-clamp : byte_at 0 (clamp raw) ≡ bit_and (byte_at 0 raw) 248
  unfolding clamp
  first-clamp =
      first-set_byte_at 30 (λ b. bit_or b 64) halved
      ∙ first-set_byte_at 30 (λ b. bit_and b 127) cleared
      ∙ byte_at-set_byte_at 0 (λ b. bit_and b 248) raw (omega (arith, full))

  last-clamp : byte_at 31 (clamp raw) ≡ bit_or (bit_and (byte_at 31 raw) 127) 64
  unfolding clamp
  last-clamp =
      byte_at-set_byte_at 31 (λ b. bit_or b 64) halved (omega (arith, length-halved))
      ∙ ap (λ b. bit_or b 64)
          (byte_at-set_byte_at 31 (λ b. bit_and b 127) cleared (omega (arith, length-cleared)))
      ∙ ap (λ b. bit_or (bit_and b 127) 64) (later-set_byte_at 30 (λ b. bit_and b 248) raw)

  low_checked : low_clear (byte_at 0 raw) ≡ true
  low_checked =
      let small = byte_at-lt 0 raw bytes in
      passes-at low_clear 255 {i = byte_at 0 raw} low_table (omega (arith, small))

  high_checked : high_set (byte_at 31 raw) ≡ true
  high_checked =
      let small = byte_at-lt 31 raw bytes in
      passes-at high_set 255 {i = byte_at 31 raw} high_table (omega (arith, small))

  is_clamped-clamp : is_clamped (some (clamp raw)) ≡ true
  unfolding is_clamped
  is_clamped-clamp = rw (first-clamp, last-clamp) (ground (arith, low_checked, high_checked))

  is_zero-clamp : is_zero (some (clamp raw)) ≡ false
  unfolding is_zero
  is_zero-clamp = elim (Bool-cases (all_zero (clamp raw))) [
    | inl zeroed ↦
        let last : bit_or (bit_and (byte_at 31 raw) 127) 64 ≡ 0 =
          sym last-clamp ∙ all_zero-byte_at 31 (clamp raw) zeroed in
        let never : high_set (byte_at 31 raw) ≡ false = rw last in
        (let clash : true ≡ false = sym high_checked ∙ never in cc)
    | inr other ↦ other
  ]

  parse_private_key-clamp :
      (lib : KeyLibraries)
      → ((given : List ℕ) → lib.decode (lib.encode given) ≡ some given)
      → ((given : List ℕ) → trim_space (lib.encode given) ≡ lib.encode given)
      → ((given : List ℕ) → length given ≡ 32 → eq (lib.encode given) [] ≡ false)
      → parse_private_key lib (private_key_base64 lib (some (clamp raw))) ≡ ok (some (clamp raw))
  unfolding parse_private_key parse_key_bytes private_key_base64
  parse_private_key-clamp lib base64 tight present = rw (
    tight (clamp raw),
    present (clamp raw) length-clamp,
    base64 (clamp raw),
    length-clamp,
    is_zero-clamp,
    is_clamped-clamp,
  )

  -- A key that GenerateKey makes of 32 random bytes is clamped, and ParsePrivateKey reads it back from
  -- the text of privateKeyBase64. The conditions: base64 decodes what it encodes, and the encoding
  -- of 32 bytes is not empty and has no space around it.
  pub parse_private_key-generate_key :
      (lib : KeyLibraries) {key : PrivateKey}
      → ((given : List ℕ) → lib.decode (lib.encode given) ≡ some given)
      → ((given : List ℕ) → trim_space (lib.encode given) ≡ lib.encode given)
      → ((given : List ℕ) → length given ≡ 32 → eq (lib.encode given) [] ≡ false)
      → generate_key (some raw) ≡ ok key
      → (is_clamped key ≡ true) × (parse_private_key lib (private_key_base64 lib key) ≡ ok key)
  unfolding generate_key
  parse_private_key-generate_key lib {key} base64 tight present h =
      subst
        (λ (k : PrivateKey).
          (is_clamped k ≡ true) × (parse_private_key lib (private_key_base64 lib k) ≡ ok k))
        (generated h) (is_clamped-clamp, parse_private_key-clamp lib base64 tight present)
    where
      generated : {k : PrivateKey} → ok (some (clamp raw)) ≡ ok k → some (clamp raw) ≡ k
      generated e = cc
