-- ===== src/WireGuard.antt =====
-- internal/wireguard/key.go: WireGuard keys as lists of 32 bytes. The zero PrivateKey has no bytes.
-- Curve25519, base64 and the random bytes are arguments.
pub mod Clamping
pub mod Tests
use Prim.Native.Nat.{bit_and, bit_or}
use headnet.Base.{
  ℕ, zero, suc, Bool, true, false, ◌&&◌, not, Option, none, some, List, [], ◌∷◌, ◌==◌,
  if◌then◌else◌, length,
}
use headnet.Text.{Text, eq, trim_space}

pub record KeyLibraries : Type 0 where
  -- base64.StdEncoding
  pub encode : List ℕ → Text
  pub decode : Text → Option (List ℕ)
  -- curve25519.ScalarBaseMult
  pub base_mult : List ℕ → List ℕ

abbrev pub key_length : ℕ
key_length = 32

pub data KeyError : Type 0 where
  entropy_failed invalid_key : KeyError

pub data KeyResult (A : Type 0) : Type 0 where
  ok : A → KeyResult A
  err : KeyError → KeyResult A

abbrev pub PrivateKey : Type 0
PrivateKey = Option (List ℕ)

-- The byte at an index of the array.
unfoldable pub byte_at : ℕ → List ℕ → ℕ
byte_at i [] = 0
byte_at zero (b ∷ bs) = b
byte_at (suc i) (b ∷ bs) = byte_at i bs

-- An assignment to the byte at an index.
unfoldable pub set_byte_at : ℕ → (ℕ → ℕ) → List ℕ → List ℕ
set_byte_at i f [] = []
set_byte_at zero f (b ∷ bs) = f b ∷ bs
set_byte_at (suc i) f (b ∷ bs) = b ∷ set_byte_at i f bs

-- clamp
unfoldable pub clamp : List ℕ → List ℕ
unfolding set_byte_at
clamp scalar =
    set_byte_at 31 (λ b. bit_or b 64)
      (set_byte_at 31 (λ b. bit_and b 127) (set_byte_at 0 (λ b. bit_and b 248) scalar))

-- clamped
unfoldable pub is_clamped : PrivateKey → Bool
unfolding byte_at
is_clamped none = false
is_clamped (some scalar) =
    bit_and (byte_at 0 scalar) 7 == 0
    && bit_and (byte_at 31 scalar) 128 == 0
    && bit_and (byte_at 31 scalar) 64 == 64

unfoldable pub all_zero : List ℕ → Bool
all_zero [] = true
all_zero (b ∷ bs) = b == 0 && all_zero bs

-- PrivateKey.IsZero
unfoldable pub is_zero : PrivateKey → Bool
unfolding all_zero
is_zero none = true
is_zero (some scalar) = all_zero scalar

-- GenerateKey
unfoldable pub generate_key : Option (List ℕ) → KeyResult PrivateKey
unfolding clamp
generate_key none = err entropy_failed
generate_key (some scalar) = ok (some (clamp scalar))

-- PrivateKey.Public
unfoldable pub public_key : KeyLibraries → PrivateKey → List ℕ
public_key lib none = zeroes key_length
  where
    zeroes : ℕ → List ℕ
    zeroes zero = []
    zeroes (suc n) = 0 ∷ zeroes n
public_key lib (some scalar) = lib.base_mult scalar

abbrev pub check_raw : Option (List ℕ) → KeyResult (List ℕ)
check_raw none = err invalid_key
check_raw (some raw) = if not (length raw == key_length) then err invalid_key else ok raw

-- parseKeyBytes
unfoldable pub parse_key_bytes : KeyLibraries → Text → KeyResult (List ℕ)
parse_key_bytes lib s =
    let trimmed = trim_space s in
    if eq trimmed [] then err invalid_key else check_raw (lib.decode trimmed)

-- ParsePublicKey
unfoldable pub parse_public_key : KeyLibraries → Text → KeyResult (List ℕ)
unfolding parse_key_bytes
parse_public_key lib s = parse_key_bytes lib s

abbrev pub check_private : KeyResult (List ℕ) → KeyResult PrivateKey
check_private (err e) = err e
check_private (ok raw) =
    if is_zero (some raw)
    then err invalid_key
    else if not (is_clamped (some raw))
    then err invalid_key
    else ok (some raw)

-- ParsePrivateKey
unfoldable pub parse_private_key : KeyLibraries → Text → KeyResult PrivateKey
unfolding parse_key_bytes is_zero is_clamped
parse_private_key lib s = check_private (parse_key_bytes lib s)

-- privateKeyBase64
unfoldable pub private_key_base64 : KeyLibraries → PrivateKey → Text
private_key_base64 lib none = []
private_key_base64 lib (some scalar) = lib.encode scalar

-- PrivateKey.Equal
unfoldable pub equal : PrivateKey → PrivateKey → Bool
equal none none = true
equal none (some theirs) = false
equal (some mine) none = false
equal (some mine) (some theirs) = eq mine theirs
