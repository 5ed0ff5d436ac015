-- ===== src/Server/SignIn.antt =====
-- Only who knows the password signs in, and whoever does not learns nothing else.
use headnet.Base.{
  ◌≡◌, refl, ap, subst, inl, inr, Bool, true, false, Option, none, some, Bool-cases, if◌then◌else◌,
  arith,
}
use headnet.Text.{Text, eq}
use headnet.Schema.{User, Database}
use headnet.Storage.{Result, ok, err, World, statement, pure}
use headnet.Storage.Table.{find_row}
use headnet.Storage.Bind.{quiet, ok-injective, statement-ok}
use headnet.Api.{http_status}
use headnet.Auth.Users.{
  by_email, normalize_email, has_password, verify, rehash_password, or_no_user, record_login,
}
use headnet.Auth.Sessions.{Issued}
use headnet.Server.{
  Server, Request, Response, decoded, json, add_cookies, session_cookies, session_response,
}
use headnet.Server.Access.{is_no_user}
use headnet.Server.Accounts.{
  LoginRequest, Draws, issue_for, matched_or_not, verify_credentials, signed_in_reply,
  check_credentials, login_with, handle_login, invalid_credentials,
}

-- The row that the address of a sign-in selects.
abbrev pub selects : Server → LoginRequest → User → Bool
selects s login u = eq u.email_norm (normalize_email s.libraries login.email)

-- What is left of the state once RehashPassword has run, where the hash is out of date; it may fail.
abbrev pub after_rehash : Server → Request → Draws → User → Text → Bool → World → World
after_rehash s r draws user password rehash w =
    ((if rehash
        then rehash_password s.libraries s.users user.id password r.now draws.random
        else pure tt)
      w).1

-- The run from `w` to `out`, one call after the other: ByEmail found the account of the address,
-- the account has a password, which is the one presented, Issue returned a session of the account,
-- and the answer carries that session.
abbrev pub SignedIn : Server → Request → Draws → LoginRequest → World → Response × World → Type 0
SignedIn s r draws login w out =
    (user : User) × (rehash : Bool) × (issued : Issued) × (w₁ : World) × (w₂ : World) × (by_email
        s.libraries login.email w
      ≡ (ok user, w₁))
    × (find_row (selects s login) w₁.db.users ≡ some user)
    × (has_password user ≡ true)
    × (verify s.libraries user login.password ≡ ok (true, rehash))
    × (issue_for s r draws user (after_rehash s r draws user login.password rehash w₁)
        ≡ (ok issued, w₂))
    × (out ≡ (
      add_cookies (session_cookies s issued draws.remaining)
          (json 200 (session_response user issued.csrf_token (some issued.session.expires_at))),
      (record_login user.id r.now w₂).1,
    ))

matched-ok :
    (answer : Result (Bool × Bool))
    → (matched_or_not answer).0 ≡ true
    → answer ≡ ok (true, (matched_or_not answer).1)
matched-ok (ok (matched, rehash)) h = ap (λ (b : Bool). ok (b, rehash)) h
matched-ok (err e) h = cc

or_no_user-ok : (o : Option User) {u : User} → or_no_user o ≡ ok u → o ≡ some u
or_no_user-ok none h = cc
or_no_user-ok (some v) h = ap some (ok-injective h)

module _ (s : Server) where
  verify_credentials-verify :
      (user : User) (password : Text)
      → (verify_credentials s (some user) password).0 ≡ true
      → (has_password user ≡ true)
        × (verify s.libraries user password
            ≡ ok (true, (verify_credentials s (some user) password).1))
  unfolding verify_credentials
  verify_credentials-verify user password h = elim (Bool-cases (has_password user)) [
    | inl has ↦
        let matched : (matched_or_not (verify s.libraries user password)).0 ≡ true = rw has at h in
        (has, rw has (matched-ok (verify s.libraries user password) matched))
    | inr lacks ↦ (let never : false ≡ true = rw lacks at h in cc)
  ]

  module _ (r : Request) (draws : Draws) (login : LoginRequest) (w : World) where
    abbrev Verdict : Response × World → Type 0
    Verdict out = out.0.status ≡ 200 → SignedIn s r draws login w out

    module _ (user : User) (w₁ : World) (read : by_email s.libraries login.email w ≡ (ok user, w₁))
        (found : find_row (selects s login) w₁.db.users ≡ some user) where
      issued-Verdict :
          (rehash : Bool)
          → has_password user ≡ true
          → verify s.libraries user login.password ≡ ok (true, rehash)
          → (answer : Result Issued) (w₂ : World)
          → issue_for s r draws user (after_rehash s r draws user login.password rehash w₁)
            ≡ (answer, w₂)
          → Verdict (signed_in_reply s r draws user answer w₂)
      unfolding http_status
      issued-Verdict rehash has verified (err e) w₂ called h = absurd (omega (arith, h))
      issued-Verdict rehash has verified (ok issued) w₂ called h =
          (user, rehash, issued, w₁, w₂, read, found, has, verified, called, refl)

      account-Verdict :
          (answer : Bool × Bool)
          → (answer.0 ≡ true
              → (has_password user ≡ true)
                × (verify s.libraries user login.password ≡ ok (true, answer.1)))
          → Verdict (check_credentials s r draws login.password (some user) answer w₁)
      unfolding http_status
      account-Verdict (true, rehash) verified h =
          let (has, matches) = verified refl in
          let w₂ = after_rehash s r draws user login.password rehash w₁ in
          issued-Verdict rehash has matches (issue_for s r draws user w₂).0
            (issue_for s r draws user w₂).1 refl h
      account-Verdict (false, rehash) verified h = absurd (omega (arith, h))

    by_email-row :
        {user : User} {w₁ : World}
        → by_email s.libraries login.email w ≡ (ok user, w₁)
        → find_row (selects s login) w₁.db.users ≡ some user
    unfolding by_email
    by_email-row {user} {w₁} read =
        let (d, ran) = statement-ok _ w read in
        subst (λ (d' : Database). find_row (selects s login) d'.users ≡ some user)
          (ap (λ (x : Result User × Database). x.1) ran)
          (or_no_user-ok _ (ap (λ (x : Result User × Database). x.0) ran))

    login-Verdict :
        (answer : Result User) (w₁ : World)
        → by_email s.libraries login.email w ≡ (answer, w₁)
        → Verdict (login_with s r draws login.password answer w₁)
    unfolding http_status
    login-Verdict (ok user) w₁ read h =
        account-Verdict user w₁ read (by_email-row read)
          (verify_credentials s (some user) login.password)
          (verify_credentials-verify user login.password) h
    login-Verdict (err e) w₁ read h = elim (Bool-cases (is_no_user e)) [
      | inl missing ↦ (let status : 401 ≡ 200 = rw missing at h in absurd (omega (arith, status)))
      | inr failed ↦ (let status : 500 ≡ 200 = rw failed at h in absurd (omega (arith, status)))
    ]

    -- A sign-in is answered with success only when, in this very run, ByEmail finds the row that the
    -- address selects, its account has a password and the one presented verifies against it, and
    -- then Issue, in the state that the optional rehash leaves, returns a session of that account.
    -- The answer carries the cookies of that session and the state is the one that RecordLogin
    -- leaves, whatever other connections do and whichever statements fail.
    pub handle_login-SignedIn :
        (handle_login s r draws (decoded login) w).0.status ≡ 200
        → SignedIn s r draws login w (handle_login s r draws (decoded login) w)
    unfolding handle_login
    handle_login-SignedIn =
        let account = by_email s.libraries login.email w in login-Verdict account.0 account.1 refl

  module _ (r : Request) (draws : Draws) (login : LoginRequest) where
    -- With no other connection in the way and no failure, every sign-in whose credentials do not
    -- verify gets one and the same answer and changes nothing: that there is no such account, that
    -- it has no password, that its hash cannot be read and that the password is wrong all look alike.
    pub handle_login-refused :
        (d : Database)
        → (verify_credentials s (find_row (selects s login) d.users) login.password).0 ≡ false
        → handle_login s r draws (decoded login) (quiet d) ≡ (invalid_credentials, quiet d)
    unfolding handle_login by_email statement
    handle_login-refused d h = refused_with (find_row (selects s login) d.users) h
      where
        refused_with :
            (account : Option User)
            → (verify_credentials s account login.password).0 ≡ false
            → login_with s r draws login.password (or_no_user account) (quiet d)
              ≡ (invalid_credentials, quiet d)
        refused_with none h = refl
        refused_with (some user) h = rw h
