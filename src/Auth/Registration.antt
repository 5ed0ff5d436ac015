-- ===== src/Auth/Registration.antt =====
-- An account that Create made is the one that ByEmail finds.
use headnet.Base.{ℕ, ◌≡◌, false, true, ◌||◌, Option, List, [], ◌∷◌, ◌++◌}
use headnet.Text.{Text, eq, eq_refl}
use headnet.Schema.{User, Role, Database}
use headnet.Storage.{ok, err, statement, email_taken}
use headnet.Storage.Bind.{quiet}
use headnet.Storage.Table.{any_row, find_row-append}
use headnet.Storage.Distinct.{any_row-either}
use headnet.Auth.Passwords.{Libraries, check_password_length, hash_password}
use headnet.Auth.Users.{
  UserStore, NewUser, create, insert_user, new_account, by_email, normalize_email, validate_email,
  role_of,
}

module _ (lib : Libraries) (store : UserStore) (input : NewUser) (now : ℕ) (id : Text)
    (random : ℕ → Option (List ℕ)) (d : Database) {normalized hash : Text} {role : Role}
    (valid : validate_email lib input.email ≡ ok normalized)
    (long : check_password_length input.password store.min_password_length ≡ ok tt)
    (known : role_of input.role ≡ ok role)
    (hashed : hash_password lib input.password store.params random ≡ ok hash) where
  abbrev account : User
  account = new_account input id normalized role hash now

  abbrev registered : Database
  registered = record d { users = d.users ++ account ∷ [] }

  create-quiet :
      any_row (λ u. eq u.id id || eq u.email_norm normalized) d.users ≡ false
      → create lib store input now id random (quiet d) ≡ (ok account, quiet registered)
  unfolding create statement insert_user new_account
  create-quiet free = rw (valid, long, known, hashed, free)

  -- With no other connection in the way and no failure, an account whose address, password and role
  -- are acceptable, with an identifier and a normalised address that no account has, is created,
  -- and ByEmail then finds it by every spelling of its address.
  create-by_email :
      (spelled : Text)
      → any_row (λ u. eq u.id id || eq u.email_norm normalized) d.users ≡ false
      → normalize_email lib spelled ≡ normalized
      → (create lib store input now id random (quiet d) ≡ (ok account, quiet registered))
        × (by_email lib spelled (quiet registered) ≡ (ok account, quiet registered))
  unfolding by_email statement new_account
  create-by_email spelled free same = (
    create-quiet free,
    rw (
      same,
      find_row-append (λ u. eq u.email_norm normalized) d.users account
          (any_row-either (λ u. eq u.id id) (λ u. eq u.email_norm normalized) d.users free).1
          (eq_refl normalized),
    ),
  )

  -- With no other connection in the way and no failure, an account whose identifier or normalised
  -- address is taken is refused as such, and the database is as it was.
  create-email_taken :
      any_row (λ u. eq u.id id || eq u.email_norm normalized) d.users ≡ true
      → create lib store input now id random (quiet d) ≡ (err email_taken, quiet d)
  unfolding create statement insert_user new_account
  create-email_taken taken = rw (valid, long, known, hashed, taken)
