-- ===== src/Auth/Accounts.antt =====
-- The operations of UserStore that write, as requests, and what they leave true of the table.
use headnet.Base.{ℕ, inl, inr, refl, Bool-cases, ◌||◌, Option, List, [], ◌∷◌}
use headnet.Text.{Text, eq}
use headnet.Schema.{User, Database}
use headnet.Storage.{World, M, statement}
use headnet.Storage.Table.{any_row}
use headnet.Storage.Keeps.{Keeps, Stable, Keeps-statement, keeps_rules}
use headnet.Storage.Distinct.{IsDistinct, IsDistinct-append, IsDistinct-update_rows, any_row-either}
use headnet.Auth.Passwords.{Libraries}
use headnet.Auth.Users.{
  UserStore, NewUser, create, insert_user, set_password_hash, store_password, stamp_login,
  update_password, rehash_password, record_login,
}

pub data UserRequest : Type 0 where
  creates : NewUser → ℕ → Text → (ℕ → Option (List ℕ)) → UserRequest
  updates_password : Text → Text → ℕ → (ℕ → Option (List ℕ)) → UserRequest
  rehashes : Text → Text → ℕ → (ℕ → Option (List ℕ)) → UserRequest
  signs_in : Text → ℕ → UserRequest

-- The world that a request leaves, whether it succeeds or fails.
unfoldable pub perform : Libraries → UserStore → UserRequest → World → World
perform lib store (creates input now id random) w = (create lib store input now id random w).1
perform lib store (updates_password id password now random) w =
    (update_password lib store id password now random w).1
perform lib store (rehashes id password now random) w =
    (rehash_password lib store id password now random w).1
perform lib store (signs_in id now) w = (record_login id now w).1

unfoldable pub serve : Libraries → UserStore → List UserRequest → World → World
unfolding perform
serve lib store [] w = w
serve lib store (r ∷ rs) w = serve lib store rs (perform lib store r w)

abbrev id_of : User → Text
id_of u = u.id

abbrev address_of : User → Text
address_of u = u.email_norm

-- No two accounts have one identifier, nor one normalised address.
abbrev pub HasUniqueAccounts : Database → Type 0
HasUniqueAccounts d = IsDistinct id_of d.users × IsDistinct address_of d.users

insert_user_unique :
    (user : User) (d : Database) → HasUniqueAccounts d → HasUniqueAccounts (insert_user user d).1
unfolding insert_user
insert_user_unique user d h =
    elim (Bool-cases (any_row (λ u. eq u.id user.id || eq u.email_norm user.email_norm) d.users)) [
      | inl taken ↦ rw taken h
      | inr free ↦
          let apart = any_row-either _ _ d.users free in
          rw free (
            IsDistinct-append id_of user d.users apart.0 h.0,
            IsDistinct-append address_of user d.users apart.1 h.1,
          )
    ]

abbrev KeepsAccounts : {A : Type 0} → M A → Type 0
KeepsAccounts = Keeps HasUniqueAccounts

insert-KeepsAccounts : (user : User) → KeepsAccounts (statement (insert_user user))
insert-KeepsAccounts user = Keeps-statement _ (insert_user_unique user)

store-KeepsAccounts :
    (id hash : Text) (now : ℕ) → KeepsAccounts (statement (store_password id hash now))
unfolding store_password
store-KeepsAccounts id hash now = Keeps-statement _ λ d h. (
  IsDistinct-update_rows id_of _ _ (λ u. refl) d.users h.0,
  IsDistinct-update_rows address_of _ _ (λ u. refl) d.users h.1,
)

stamp-KeepsAccounts : (id : Text) (now : ℕ) → KeepsAccounts (statement (stamp_login id now))
unfolding stamp_login
stamp-KeepsAccounts id now = Keeps-statement _ λ d h. (
  IsDistinct-update_rows id_of _ _ (λ u. refl) d.users h.0,
  IsDistinct-update_rows address_of _ _ (λ u. refl) d.users h.1,
)

ruleset account_rules =
    (keeps_rules, insert-KeepsAccounts, store-KeepsAccounts, stamp-KeepsAccounts)

module _ (lib : Libraries) (store : UserStore) where
  set_password_hash-Keeps :
      (id hash : Text) (now : ℕ) → KeepsAccounts (set_password_hash id hash now)
  unfolding set_password_hash
  set_password_hash-Keeps id hash now = search account_rules

  perform-KeepsAccounts :
      (r : UserRequest) (w : World)
      → Stable HasUniqueAccounts w.events × HasUniqueAccounts w.db
      → Stable HasUniqueAccounts (perform lib store r w).events
        × HasUniqueAccounts (perform lib store r w).db
  unfolding perform create update_password rehash_password record_login
  perform-KeepsAccounts (creates input now id random) w h =
      let kept : KeepsAccounts (create lib store input now id random) =
        search account_rules depth 12 in
      kept.at w h.0 h.1
  perform-KeepsAccounts (updates_password id password now random) w h =
      let kept : KeepsAccounts (update_password lib store id password now random) =
        search (account_rules, set_password_hash-Keeps) in
      kept.at w h.0 h.1
  perform-KeepsAccounts (rehashes id password now random) w h =
      let kept : KeepsAccounts (rehash_password lib store id password now random) =
        search (account_rules, set_password_hash-Keeps) in
      kept.at w h.0 h.1
  perform-KeepsAccounts (signs_in id now) w h = (stamp-KeepsAccounts id now).at w h.0 h.1

  serve-Holds :
      (rs : List UserRequest) (w : World)
      → Stable HasUniqueAccounts w.events × HasUniqueAccounts w.db
      → Stable HasUniqueAccounts (serve lib store rs w).events
        × HasUniqueAccounts (serve lib store rs w).db
  unfolding serve
  serve-Holds [] w h = h
  serve-Holds (r ∷ rs) w h = serve-Holds rs (perform lib store r w) (perform-KeepsAccounts r w h)

  -- Whatever accounts are created, passwords changed and sign-ins recorded, and whichever
  -- statements fail, no two accounts have one identifier or one normalised address, if none have at
  -- first and the other connections keep that.
  serve-HasUniqueAccounts :
      (rs : List UserRequest) (w : World)
      → Stable HasUniqueAccounts w.events
      → HasUniqueAccounts w.db
      → HasUniqueAccounts (serve lib store rs w).db
  serve-HasUniqueAccounts rs w st h = (serve-Holds rs w (st, h)).1
