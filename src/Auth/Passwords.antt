-- ===== src/Auth/Passwords.antt =====
-- internal/auth/password.go: Argon2id hashes in PHC string format. Argon2, base64, fmt.Sscanf and
-- net/mail are libraries, and so fields of a record.
use headnet.Base.{
  ℕ, ◌*◌, Bool, true, false, ◌&&◌, ◌||◌, not, Option, none, some, List, [], ◌∷◌, ◌++◌, ltb, leb,
  ◌==◌, max, if◌then◌else◌, length,
}
use headnet.Base.Int.{ℤ, pos, negsuc, pos_part}
use headnet.Text.{Text, codes, eq, split, decimal}
use headnet.Platform.{Platform}
use headnet.Storage.{
  Result, ok, err, invalid_argument, entropy_failed, password_too_short, password_too_long,
  invalid_hash, incompatible_version,
}

pub record Libraries : Type 0 where
  -- argon2.IDKey: the password, the salt, the iterations, the memory, the lanes and the length
  pub id_key : Text → List ℕ → ℕ → ℕ → ℕ → ℕ → List ℕ
  -- base64.RawStdEncoding
  pub encode_raw : List ℕ → Text
  pub decode_raw : Text → Option (List ℕ)
  -- fmt.Sscanf with "v=%d" into an int
  pub scan_version : Text → Option ℤ
  -- fmt.Sscanf with "m=%d,t=%d,p=%d" into a uint32, a uint32 and a uint8
  pub scan_costs : Text → Option (ℕ × ℕ × ℕ)
  -- The address that mail.ParseAddress finds.
  pub parse_address : Text → Option Text
  -- SHA-256, base64 and the case tables
  pub platform : Platform

abbrev pub argon2_version : ℕ
argon2_version = 19

abbrev pub min_password_length : ℕ
min_password_length = 12

abbrev pub max_password_length : ℕ
max_password_length = 1024

pub record Params : Type 0 where
  pub memory : ℕ
  pub iterations : ℕ
  pub parallelism : ℕ
  pub salt_length : ℕ
  pub key_length : ℕ

-- DefaultParams
abbrev pub default_params : Params
default_params = record {
  memory = 19 * 1024;
  iterations = 2;
  parallelism = 1;
  salt_length = 16;
  key_length = 32;
}

-- p == (Params{})
abbrev pub is_unset : Params → Bool
is_unset p =
    p.memory == 0
    && p.iterations == 0
    && p.parallelism == 0
    && p.salt_length == 0
    && p.key_length == 0

-- Params.valid
unfoldable pub is_valid : Params → Bool
is_valid p =
    ltb 0 p.memory
    && ltb 0 p.iterations
    && ltb 0 p.parallelism
    && leb 8 p.salt_length
    && leb 16 p.key_length

-- Params.weakerThan
unfoldable pub weaker_than : Params → Params → Bool
weaker_than p other =
    ltb p.memory other.memory
    || ltb p.iterations other.iterations
    || ltb p.key_length other.key_length

-- CheckPasswordLength
unfoldable pub check_password_length : Text → ℤ → Result (Unit {0})
check_password_length password minimum =
    if ltb (length password) (max min_password_length (pos_part minimum))
    then err password_too_short
    else if ltb max_password_length (length password)
    then err password_too_long
    else ok tt

-- "m=%d,t=%d,p=%d"
abbrev pub print_costs : Params → Text
print_costs p =
    codes "m="
    ++ decimal p.memory
    ++ codes ",t="
    ++ decimal p.iterations
    ++ codes ",p="
    ++ decimal p.parallelism

-- "$argon2id$v=%d$m=%d,t=%d,p=%d$%s$%s"
unfoldable pub print_hash : Libraries → Params → List ℕ → List ℕ → Text
print_hash lib p salt key =
    b'$'
    ∷ (codes "argon2id"
        ++ b'$'
          ∷ (codes "v=19"
              ++ b'$'
                ∷ (print_costs p ++ b'$' ∷ (lib.encode_raw salt ++ b'$' ∷ lib.encode_raw key))))

abbrev pub derive : Libraries → Text → List ℕ → Params → List ℕ
derive lib password salt p =
    lib.id_key password salt p.iterations p.memory p.parallelism p.key_length

abbrev pub with_salt : Libraries → Text → Params → Option (List ℕ) → Result Text
with_salt lib password p none = err entropy_failed
with_salt lib password p (some salt) = ok (print_hash lib p salt (derive lib password salt p))

abbrev pub after_check : Result (Unit {0}) → Result Text → Result Text
after_check (ok u) r = r
after_check (err e) r = err e

-- The parameters that HashPassword goes by.
abbrev pub chosen_params : Params → Params
chosen_params given = if is_unset given then default_params else given

-- HashPassword; `random n` is what rand.Read makes of n bytes.
unfoldable pub hash_password : Libraries → Text → Params → (ℕ → Option (List ℕ)) → Result Text
unfolding check_password_length print_hash
hash_password lib password given random =
    let p = chosen_params given in
    if not (is_valid p)
    then err invalid_argument
    else after_check (check_password_length password (pos min_password_length))
        (with_salt lib password p (random p.salt_length))

pub record Decoded : Type 0 where
  pub params : Params
  pub salt : List ℕ
  pub key : List ℕ

abbrev pub check_decoded : Option (ℕ × ℕ × ℕ) → Option (List ℕ) → Option (List ℕ) → Result Decoded
check_decoded none salt key = err invalid_hash
check_decoded (some costs) none key = err invalid_hash
check_decoded (some costs) (some salt) none = err invalid_hash
check_decoded (some (m, t, p)) (some salt) (some key) =
    let params : Params = record {
      memory = m;
      iterations = t;
      parallelism = p;
      salt_length = length salt;
      key_length = length key;
    } in
    if is_valid params
    then ok (record { params = params; salt = salt; key = key })
    else err invalid_hash

abbrev pub check_version : Option ℤ → Result Decoded → Result Decoded
check_version none r = err invalid_hash
check_version (some (negsuc v)) r = err incompatible_version
check_version (some (pos v)) r = if v == argon2_version then r else err incompatible_version

abbrev pub decode_parts : Libraries → List Text → Result Decoded
decode_parts lib (first ∷ algorithm ∷ version ∷ costs ∷ salt ∷ key ∷ []) =
    if not (eq first [])
    then err invalid_hash
    else if not (eq algorithm (codes "argon2id"))
    then err invalid_hash
    else check_version (lib.scan_version version)
        (check_decoded (lib.scan_costs costs) (lib.decode_raw salt) (lib.decode_raw key))
decode_parts lib _ = err invalid_hash

-- decodeHash; the lengths of the salt and the key are far below 2^32.
unfoldable pub decode_hash : Libraries → Text → Result Decoded
decode_hash lib encoded = decode_parts lib (split b'$' encoded)

abbrev pub compare_key : Libraries → Text → Result Decoded → Result (Bool × Bool)
compare_key lib password (err e) = err e
compare_key lib password (ok d) =
    if eq (derive lib password d.salt d.params) d.key
    then ok (true, weaker_than d.params default_params)
    else ok (false, false)

-- VerifyPassword: whether the password matches, and whether the hash wants to be made again.
unfoldable pub verify_password : Libraries → Text → Text → Result (Bool × Bool)
unfolding decode_hash
verify_password lib password encoded = compare_key lib password (decode_hash lib encoded)

abbrev pub hash_filler : Libraries → (ℕ → Option (List ℕ)) → Option (List ℕ) → Result Text
hash_filler lib random none = err entropy_failed
hash_filler lib random (some filler) =
    hash_password lib (lib.encode_raw filler) default_params random

-- DummyHash; `filler` is what rand.Read makes of 32 bytes.
unfoldable pub dummy_hash : Libraries → Option (List ℕ) → (ℕ → Option (List ℕ)) → Result Text
unfolding hash_password
dummy_hash lib filler random = hash_filler lib random filler
