-- ===== src/Auth/Verification.antt =====
-- A hash that HashPassword makes verifies the password it was made of, and no other but one with
-- the same key.
use headnet.Base.{
  ◌/◌, ℕ, zero, suc, ◌≡◌, refl, sym, ap, subst, ◌∙◌, Bool, true, false, ◌||◌, Option, none, some,
  List, [], ◌∷◌, arith, Bool-cases, inl, inr, ◌==◌, if◌then◌else◌, length,
}
use mathlib.Core.List.{reverse, reverse-cons}
use headnet.Base.Int.{pos}
use headnet.Text.{
  Text, codes, eq, eq_refl, split, decimal, digits_from, has_char, has_char-append, split-append,
  split-word,
}
use headnet.Storage.{Result, ok, err}
use headnet.Storage.Bind.{ok-injective, ok-ne-err}
use headnet.Auth.Passwords.{
  Libraries, Params, default_params, is_valid, weaker_than, print_costs, print_hash, derive,
  with_salt, after_check, hash_password, chosen_params, decode_hash, verify_password,
  argon2_version,
}

digits-plain : (digits n : ℕ) → has_char b'$' (digits_from digits n) ≡ false
unfolding digits_from has_char
digits-plain zero n = refl
digits-plain (suc digits) n = ground (arith, digits-plain digits (n / 10))

has_char-reverse : (sep : ℕ) (s : Text) → has_char sep (reverse s) ≡ has_char sep s
unfolding has_char
has_char-reverse sep [] = refl
has_char-reverse sep (c ∷ s) =
    rw (reverse-cons, has_char-append sep (reverse s) (c ∷ []), has_char-reverse sep s)
      (or-swap (has_char sep s) (c == sep))
  where
    or-swap : (a b : Bool) → a || (b || false) ≡ b || a
    or-swap false false = refl
    or-swap false true = refl
    or-swap true false = refl
    or-swap true true = refl

-- Text that `split` at '$' leaves whole.
abbrev Plain : Text → Type 0
Plain s = has_char b'$' s ≡ false

decimal-Plain : (n : ℕ) → Plain (decimal n)
unfolding decimal
decimal-Plain n = has_char-reverse b'$' (digits_from 20 n) ∙ digits-plain 20 n

costs-Plain : (p : Params) → Plain (print_costs p)
unfolding has_char
costs-Plain p = simp (
  has_char-append,
  decimal-Plain p.memory,
  decimal-Plain p.iterations,
  decimal-Plain p.parallelism,
)

split-print_hash :
    (lib : Libraries) (p : Params) (salt key : List ℕ)
    → ((bytes : List ℕ) → Plain (lib.encode_raw bytes))
    → split b'$' (print_hash lib p salt key)
      ≡ []
        ∷ codes "argon2id"
        ∷ codes "v=19"
        ∷ print_costs p
        ∷ lib.encode_raw salt
        ∷ lib.encode_raw key
        ∷ []
unfolding print_hash has_char
split-print_hash lib p salt key plain = rw (
  split-append b'$' [] _ refl,
  split-append b'$' (codes "argon2id") _ refl,
  split-append b'$' (codes "v=19") _ refl,
  split-append b'$' (print_costs p) _ (costs-Plain p),
  split-append b'$' (lib.encode_raw salt) _ (plain salt),
  split-word b'$' (lib.encode_raw key) (plain key),
)

-- The answer that comparing the derived keys gives for an attempt.
abbrev pub outcome : Libraries → Params → List ℕ → Text → Text → Bool × Bool
outcome lib p salt password attempt =
    if eq (derive lib attempt salt p) (derive lib password salt p)
    then (true, weaker_than p default_params)
    else (false, false)

module _ (lib : Libraries) (p : Params) (salt : List ℕ) (password : Text)
    (base64 : (bytes : List ℕ) → lib.decode_raw (lib.encode_raw bytes) ≡ some bytes)
    (plain : (bytes : List ℕ) → Plain (lib.encode_raw bytes))
    (version : lib.scan_version (codes "v=19") ≡ some (pos argon2_version))
    (costs : lib.scan_costs (print_costs p) ≡ some (p.memory, p.iterations, p.parallelism))
    (salt_len : length salt ≡ p.salt_length)
    (key_len : length (derive lib password salt p) ≡ p.key_length)
    (usable : is_valid p ≡ true) where
  abbrev encoded : Text
  encoded = print_hash lib p salt (derive lib password salt p)

  -- What HashPassword prints, decodeHash reads.
  decode_hash-print_hash :
      decode_hash lib encoded
      ≡ ok (record { params = p; salt = salt; key = derive lib password salt p })
  unfolding decode_hash eq
  decode_hash-print_hash = rw (
    split-print_hash lib p salt (derive lib password salt p) plain,
    version,
    costs,
    base64 salt,
    base64 (derive lib password salt p),
    salt_len,
    key_len,
    usable,
  )

  verify_password-print_hash :
      (attempt : Text)
      → verify_password lib attempt encoded ≡ ok (outcome lib p salt password attempt)
  unfolding verify_password
  verify_password-print_hash attempt =
      rw decode_hash-print_hash
        (elim (Bool-cases (eq (derive lib attempt salt p) (derive lib password salt p))) [
          | inl same ↦ rw same
          | inr differs ↦ rw differs
        ])

outcome-same :
    (lib : Libraries) (p : Params) (salt : List ℕ) (password : Text)
    → outcome lib p salt password password ≡ (true, weaker_than p default_params)
outcome-same lib p salt password = rw (eq_refl (derive lib password salt p))

after_check-ok :
    (r : Result (Unit {0})) (r' : Result Text) {text : Text}
    → after_check r r' ≡ ok text
    → r' ≡ ok text
after_check-ok (ok u) r' h = h
after_check-ok (err e) r' h = cc

with_salt-ok :
    (lib : Libraries) (password : Text) (p : Params) (r : Option (List ℕ)) {text : Text}
    → with_salt lib password p r ≡ ok text
    → (salt : List ℕ) × (r ≡ some salt)
      × (print_hash lib p salt (derive lib password salt p) ≡ text)
with_salt-ok lib password p none h = cc
with_salt-ok lib password p (some salt) h = (salt, refl, ok-injective h)

-- A hash is made only with usable parameters, a password of a permitted length and a salt.
hash_password-ok :
    (lib : Libraries) (password : Text) (given : Params) (random : ℕ → Option (List ℕ))
    {text : Text}
    → hash_password lib password given random ≡ ok text
    → (is_valid (chosen_params given) ≡ true)
      × (salt : List ℕ) × (random (chosen_params given).salt_length ≡ some salt)
      × (print_hash lib (chosen_params given) salt (derive lib password salt (chosen_params given))
          ≡ text)
unfolding hash_password
hash_password-ok lib password given random h = elim (Bool-cases (is_valid (chosen_params given))) [
  | inl usable ↦
      let made = rw usable at h in
      let (salt, drawn, printed) =
        with_salt-ok lib password (chosen_params given) _ (after_check-ok _ _ made) in
      (usable, salt, drawn, printed)
  | inr unusable ↦ ok-ne-err (sym (rw unusable at h))
]

-- When HashPassword returned a hash, VerifyPassword of that hash accepts the password that was
-- hashed, and it answers for any password by comparing the derived keys: a match, with the advice to
-- hash again when the parameters are weaker than the default ones, or no match, and never an error.
-- The conditions: base64 decodes what it encodes and its alphabet has no '$', Sscanf reads the
-- version and the costs that Sprintf printed, rand.Read fills the salt, and Argon2 returns a key of the
-- length it was asked for.
pub verify_password-hash_password :
    (lib : Libraries) (password attempt : Text) (given : Params) (random : ℕ → Option (List ℕ))
    {text : Text}
    → ((bytes : List ℕ) → lib.decode_raw (lib.encode_raw bytes) ≡ some bytes)
    → ((bytes : List ℕ) → has_char b'$' (lib.encode_raw bytes) ≡ false)
    → lib.scan_version (codes "v=19") ≡ some (pos argon2_version)
    → lib.scan_costs (print_costs (chosen_params given))
      ≡ some (
        (chosen_params given).memory,
        (chosen_params given).iterations,
        (chosen_params given).parallelism,
      )
    → ((n : ℕ) (bytes : List ℕ) → random n ≡ some bytes → length bytes ≡ n)
    → ((secret : Text) (salt : List ℕ) (t m lanes n : ℕ)
        → length (lib.id_key secret salt t m lanes n) ≡ n)
    → hash_password lib password given random ≡ ok text
    → (salt : List ℕ) × (random (chosen_params given).salt_length ≡ some salt)
      × (verify_password lib password text
          ≡ ok (true, weaker_than (chosen_params given) default_params))
      × (verify_password lib attempt text
          ≡ ok (outcome lib (chosen_params given) salt password attempt))
verify_password-hash_password lib password attempt given random {text} base64 plain version costs
      fills keys h =
    let (usable, salt, drawn, printed) = hash_password-ok lib password given random h in
    let answer : (guess : Text)
        → verify_password lib guess text
          ≡ ok (outcome lib (chosen_params given) salt password guess) =
      λ guess.
        subst
          (λ t.
            verify_password lib guess t
            ≡ ok (outcome lib (chosen_params given) salt password guess))
          printed
          (verify_password-print_hash lib (chosen_params given) salt password base64 plain version
            costs (fills _ salt drawn) (keys password salt _ _ _ _) usable guess) in
    (
      salt,
      drawn,
      answer password ∙ ap ok (outcome-same lib (chosen_params given) salt password),
      answer attempt,
    )
