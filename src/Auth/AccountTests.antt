-- ===== src/Auth/AccountTests.antt =====
-- Runs of the account store, with a toy hash: a key is the sum of the password repeated, and the
-- encoding of bytes shifts them past the separator.
use headnet.Base.{
  ℕ, zero, suc, ◌+◌, ◌-◌, ◌≡◌, refl, ap, subst, true, false, Option, none, some, List, [], ◌∷◌,
  arith, length, map, foldr,
}
use headnet.Base.Int.{pos}
use headnet.Text.{
  Text, codes, eq, split, decimal, digits_from, has_char, byte_length, trim_space, trim_left,
  is_space,
}
use headnet.Schema.{User, member, local, Database, empty}
use headnet.Storage.{ok, statement}
use headnet.Storage.Table.{any_row, find_row, count_rows, update_rows}
use headnet.Auth.Passwords.{
  Libraries, Params, is_valid, weaker_than, check_password_length, print_hash, derive,
  hash_password, verify_password,
}
use headnet.Auth.Verification.{outcome, verify_password-hash_password}
use headnet.Auth.Users.{
  UserStore, NewUser, create, insert_user, new_account, by_email, normalize_email, validate_email,
  role_of,
}
use headnet.Auth.Accounts.{serve}

program : Unit {0}
unfolding eq byte_length trim_space trim_left is_space statement any_row find_row count_rows
    update_rows is_valid weaker_than check_password_length print_hash hash_password split has_char
    decimal digits_from normalize_email validate_email role_of create insert_user new_account
    by_email serve
program = tt

abbrev pub fill : ℕ → ℕ → List ℕ
fill zero c = []
fill (suc n) c = c ∷ fill n c

abbrev pub cheap : Params
cheap = record { memory = 8; iterations = 1; parallelism = 1; salt_length = 8; key_length = 16 }

abbrev pub toy : Libraries
toy = record {
  id_key = λ secret salt t m lanes n. fill n (foldr ◌+◌ 0 secret);
  encode_raw = map (λ b. b + 64);
  decode_raw = λ s. some (map (λ c. c - 64) s);
  scan_version = λ s. some (pos 19);
  scan_costs = λ s. some (8, 1, 1);
  parse_address = λ s. some s;
  platform = record {
    sha256 = λ t. t;
    decode_base64 = λ t. none;
    decode_raw_url = λ t. none;
    to_lower = λ c. c;
  };
}

abbrev pub random : ℕ → Option (List ℕ)
random n = some (fill n 7)

length-fill : (n c : ℕ) → length (fill n c) ≡ n
length-fill zero c = refl
length-fill (suc n) c = ap suc (length-fill n c)

toy_base64 : (bytes : List ℕ) → toy.decode_raw (toy.encode_raw bytes) ≡ some bytes
toy_base64 bytes = ap some (shifted bytes)
  where
    shifted : (bs : List ℕ) → map (λ c. c - 64) (map (λ b. b + 64) bs) ≡ bs
    shifted [] = refl
    shifted (b ∷ bs) = grind (arith, shifted bs)

toy_plain : (bytes : List ℕ) → has_char b'$' (toy.encode_raw bytes) ≡ false
unfolding has_char
toy_plain [] = refl
toy_plain (b ∷ bs) = ground (arith, toy_plain bs)

random-length : (n : ℕ) (bytes : List ℕ) → random n ≡ some bytes → length bytes ≡ n
random-length n bytes h = subst (λ b. length b ≡ n) (some_injective h) (length-fill n 7)
  where
    some_injective : {x y : List ℕ} → some x ≡ some y → x ≡ y
    some_injective e = cc

abbrev pub secret : Text
secret = codes "correct horse"

verify_password-hash_password_example :
    (salt : List ℕ) × (random 8 ≡ some salt)
    × (verify_password toy secret
          (print_hash toy cheap (fill 8 7) (derive toy secret (fill 8 7) cheap))
        ≡ ok (true, true))
    × (verify_password toy
          (codes "wrong")
          (print_hash toy cheap (fill 8 7) (derive toy secret (fill 8 7) cheap))
        ≡ ok (outcome toy cheap salt secret (codes "wrong")))
unfolding hash_password is_valid weaker_than check_password_length
verify_password-hash_password_example =
    verify_password-hash_password toy secret (codes "wrong") cheap random toy_base64 toy_plain refl
      refl random-length (λ s salt t m lanes n. length-fill n (foldr ◌+◌ 0 s)) refl

abbrev account : Text → Text → User
account id address = record {
  id = id;
  email = address;
  email_norm = address;
  display_name = [];
  role = member;
  provider = local;
  created_at = 0;
  updated_at = 0;
  last_login_at = none;
  password_hash = [];
}

abbrev one : Database
one = record empty { users = account (codes "u1") (codes "ada") ∷ [] }

abbrev pub store : UserStore
store = record { params = cheap; min_password_length = pos 12 }

abbrev grace : NewUser
grace = record {
  email = codes " grace ";
  password = secret;
  display_name = codes "Grace";
  role = [];
}

abbrev pub stored : Text
stored = print_hash toy cheap (fill 8 7) (derive toy secret (fill 8 7) cheap)

abbrev made : User
made = new_account grace (codes "u2") (codes "grace") member stored 5
