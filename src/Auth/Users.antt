-- ===== src/Auth/Users.antt =====
-- internal/auth/user.go: UserStore and the accounts it keeps in the table `users`. A password hash
-- that is NULL in the table is the empty text, as in the struct that is scanned from it.
use headnet.Base.{
  List, ℕ, Bool, true, false, ◌||◌, not, Option, none, some, [], ◌∷◌, ◌++◌, ltb, if◌then◌else◌,
  ◌==◌,
}
use headnet.Base.Int.{ℤ, pos}
use headnet.Text.{Text, codes, eq, trim_space, byte_length}
use headnet.Schema.{User, Role, admin, member, local}
use headnet.Platform.{lower}
use headnet.Storage.{
  Error, Result, ok, err, M, Statement, statement, classified, ◌>>=◌, ◌>>◌, pure, raise, lift,
  invalid_argument, unique_violation, email_taken, invalid_email, user_not_found, no_password,
}
use headnet.Storage.Table.{any_row, find_row, count_rows, update_rows}
use headnet.Auth.Passwords.{
  Libraries, Params, chosen_params, hash_password, check_password_length, verify_password,
  min_password_length,
}

-- User.IsAdmin
unfoldable pub is_admin : User → Bool
is_admin user = elim user.role [ admin ↦ true | member ↦ false ]

-- User.HasPassword
unfoldable pub has_password : User → Bool
has_password user = not (eq user.password_hash [])

-- User.VerifyPassword
unfoldable pub verify : Libraries → User → Text → Result (Bool × Bool)
unfolding has_password
verify lib user password =
    if not (has_password user)
    then err no_password
    else verify_password lib password user.password_hash

-- NormalizeEmail
unfoldable pub normalize_email : Libraries → Text → Text
normalize_email lib email = lower lib.platform (trim_space email)

-- What ValidateEmail does with the address that the parser found.
abbrev pub accept_address : Libraries → Text → Option Text → Result Text
accept_address lib trimmed none = err invalid_email
accept_address lib trimmed (some address) =
    if eq address trimmed then ok (normalize_email lib address) else err invalid_email

-- ValidateEmail
unfoldable pub validate_email : Libraries → Text → Result Text
validate_email lib email =
    let trimmed = trim_space email in
    if eq trimmed []
    then err invalid_email
    else if ltb 320 (byte_length trimmed)
    then err invalid_email
    else accept_address lib trimmed (lib.parse_address trimmed)

pub record NewUser : Type 0 where
  pub email : Text
  pub password : Text
  pub display_name : Text
  pub role : Text

pub record StoreOptions : Type 0 where
  pub params : Params
  pub min_password_length : ℤ

pub record UserStore : Type 0 where
  pub params : Params
  pub min_password_length : ℤ

-- The least password length that a store accepts.
abbrev pub raised_minimum : ℤ → ℤ
raised_minimum (pos n) = if ltb n min_password_length then pos min_password_length else pos n
raised_minimum negative = pos min_password_length

-- NewUserStore
unfoldable pub new_user_store : StoreOptions → UserStore
new_user_store opts = record {
  params = chosen_params opts.params;
  min_password_length = raised_minimum opts.min_password_length;
}

-- The role of a NewUser: a member when it is empty, and otherwise one that Role.Valid accepts.
unfoldable pub role_of : Text → Result Role
role_of role =
    if eq role [] || eq role (codes "member")
    then ok member
    else if eq role (codes "admin")
    then ok admin
    else err invalid_argument

unfoldable pub insert_user : User → Statement (Unit {0})
insert_user user d =
    if any_row (λ u. eq u.id user.id || eq u.email_norm user.email_norm) d.users
    then (err unique_violation, d)
    else (ok tt, record d { users = d.users ++ user ∷ [] })

-- What UserStore.Create returns for a unique violation.
abbrev pub email_error : Error → Error
email_error unique_violation = email_taken
email_error e = e

-- The account that UserStore.Create makes.
unfoldable pub new_account : NewUser → Text → Text → Role → Text → ℕ → User
new_account input id normalized role hash now = record {
  id = id;
  email = trim_space input.email;
  email_norm = normalized;
  display_name = trim_space input.display_name;
  role = role;
  provider = local;
  created_at = now;
  updated_at = now;
  last_login_at = none;
  password_hash = hash;
}

-- UserStore.Create; `id` is what NewID returns.
unfoldable pub create : Libraries → UserStore → NewUser → ℕ → Text → (ℕ → Option (List ℕ)) → M User
create lib store input now id random = do
  normalized ← lift (validate_email lib input.email)
  lift (check_password_length input.password store.min_password_length)
  role ← lift (role_of input.role)
  hash ← lift (hash_password lib input.password store.params random)
  classified email_error (statement (insert_user (new_account input id normalized role hash now)))
  pure (new_account input id normalized role hash now)

abbrev pub or_no_user : Option User → Result User
or_no_user none = err user_not_found
or_no_user (some user) = ok user

-- UserStore.ByEmail
unfoldable pub by_email : Libraries → Text → M User
by_email lib email =
    let normalized = normalize_email lib email in
    statement λ d. (or_no_user (find_row (λ u. eq u.email_norm normalized) d.users), d)

-- UserStore.ByID
unfoldable pub by_id : Text → M User
by_id id = statement λ d. (or_no_user (find_row (λ u. eq u.id id) d.users), d)

-- UserStore.Count
unfoldable pub count : M ℕ
count = statement λ d. (ok (count_rows (λ u. true) d.users), d)

-- The UPDATE of UserStore.setPasswordHash, which answers how many rows it changed.
unfoldable pub store_password : Text → Text → ℕ → Statement ℕ
store_password id hash now d = (
  ok (count_rows (λ u. eq u.id id) d.users),
  record d {
    users =
        update_rows (λ u. eq u.id id) (λ u. record u { password_hash = hash; updated_at = now })
          d.users;
  },
)

-- UserStore.setPasswordHash
unfoldable pub set_password_hash : Text → Text → ℕ → M (Unit {0})
set_password_hash id hash now = do
  affected ← statement (store_password id hash now)
  if affected == 0 then raise user_not_found else pure tt

-- UserStore.UpdatePassword
unfoldable pub update_password :
    Libraries → UserStore → Text → Text → ℕ → (ℕ → Option (List ℕ)) → M (Unit {0})
update_password lib store id password now random = do
  lift (check_password_length password store.min_password_length)
  hash ← lift (hash_password lib password store.params random)
  set_password_hash id hash now

-- UserStore.RehashPassword
unfoldable pub rehash_password :
    Libraries → UserStore → Text → Text → ℕ → (ℕ → Option (List ℕ)) → M (Unit {0})
rehash_password lib store id password now random = do
  hash ← lift (hash_password lib password store.params random)
  set_password_hash id hash now

unfoldable pub stamp_login : Text → ℕ → Statement (Unit {0})
stamp_login id now d = (
  ok tt,
  record d {
    users = update_rows (λ u. eq u.id id) (λ u. record u { last_login_at = some now }) d.users;
  },
)

-- UserStore.RecordLogin
unfoldable pub record_login : Text → ℕ → M (Unit {0})
record_login id now = statement (stamp_login id now)
