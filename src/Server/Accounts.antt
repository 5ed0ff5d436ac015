-- ===== src/Server/Accounts.antt =====
-- internal/server/auth.go: signing in and out, and the claim of a fresh installation. What is drawn
-- at random during a request, and the seconds until the new session expires, are arguments.
use headnet.Base.{ℕ, Bool, true, false, not, ◌==◌, Option, none, some, List, [], if◌then◌else◌}
use headnet.Base.Int.{ℤ}
use headnet.Text.{Text, codes, eq}
use headnet.Schema.{User, Session}
use headnet.Storage.{
  Error, Result, ok, err, World, M, ◌>>=◌, pure, raise, in_tx, already_claimed, invalid_email,
  password_too_short, password_too_long, email_taken,
}
use headnet.Storage.Metadata.{claim_bootstrap}
use headnet.Api.{unauthorized, conflict, bad_request, unavailable}
use headnet.Auth.Passwords.{verify_password}
use headnet.Auth.Users.{
  create, by_email, has_password, verify, rehash_password, record_login, count,
}
use headnet.Auth.Sessions.{Issued, issue, revoke}
use headnet.Server.{
  Server, Handler, Request, Response, Input, refused, decoded, settle, error_reply, json,
  with_details, error_text, nothing, auth_status, add_cookies, session_cookies, cleared_cookies,
  session_response,
}
use headnet.Server.Access.{internal_error, not_signed_in, is_no_user}

-- api.BootstrapRequest and api.LoginRequest
pub record BootstrapRequest : Type 0 where
  pub email : Text
  pub password : Text
  pub display_name : Text

pub record LoginRequest : Type 0 where
  pub email : Text
  pub password : Text

pub record Draws : Type 0 where
  -- rand.Read of so many bytes
  pub random : ℕ → Option (List ℕ)
  -- the identifiers that NewID returns
  pub user_id : Text
  pub session_id : Text
  -- what the two calls of NewToken return
  pub token : Option Text
  pub csrf_token : Option Text
  -- the seconds from time.Until
  pub remaining : ℤ

abbrev pub status_reply : Server → Result ℕ → World → Response × World
status_reply s (err e) w =
    (error_reply unavailable (codes "the server is not able to answer right now"), w)
status_reply s (ok n) w = (json 200 (auth_status (n == 0) s.providers), w)

-- handleAuthStatus
unfoldable pub handle_auth_status : Server → Handler
handle_auth_status s context r = settle count (status_reply s)

abbrev pub invalid_credentials : Response
invalid_credentials = error_reply unauthorized (codes "the email address or password is incorrect")

abbrev pub issue_for : Server → Request → Draws → User → M Issued
issue_for s r draws user =
    issue s.libraries.platform s.sessions user.id (record { ip = r.ip; user_agent = r.user_agent })
      r.now draws.session_id draws.token draws.csrf_token

-- What verifyCredentials makes of the answer of User.VerifyPassword.
abbrev pub matched_or_not : Result (Bool × Bool) → Bool × Bool
matched_or_not (ok answer) = answer
matched_or_not (err e) = (false, false)

-- verifyCredentials; what the dummy hash verifies to is only logged.
unfoldable pub verify_credentials : Server → Option User → Text → Bool × Bool
verify_credentials s none password =
    let burned = verify_password s.libraries password s.dummy_hash in (false, false)
verify_credentials s (some user) password =
    if not (has_password user)
    then (let burned = verify_password s.libraries password s.dummy_hash in (false, false))
    else matched_or_not (verify s.libraries user password)

-- The end of handleLogin: RecordLogin may fail.
abbrev pub signed_in_reply :
    Server → Request → Draws → User → Result Issued → World → Response × World
signed_in_reply s r draws user (err e) w = (internal_error, w)
signed_in_reply s r draws user (ok issued) w =
    settle (record_login user.id r.now)
      (λ recorded w'. (
        add_cookies (session_cookies s issued draws.remaining)
            (json 200 (session_response user issued.csrf_token (some issued.session.expires_at))),
        w',
      ))
      w

-- handleLogin with the user that is signed in: RehashPassword may fail.
abbrev pub sign_in : Server → Request → Draws → User → Text → Bool → World → Response × World
sign_in s r draws user password needs_rehash =
    settle
      (if needs_rehash
        then rehash_password s.libraries s.users user.id password r.now draws.random
        else pure tt)
      (λ rehashed. settle (issue_for s r draws user) (signed_in_reply s r draws user))

abbrev pub check_credentials :
    Server → Request → Draws → Text → Option User → Bool × Bool → World → Response × World
check_credentials s r draws password none answer w = (invalid_credentials, w)
check_credentials s r draws password (some user) (authenticated, needs_rehash) w =
    if not authenticated
    then (invalid_credentials, w)
    else sign_in s r draws user password needs_rehash w

-- handleLogin with what ByEmail returned.
abbrev pub login_with : Server → Request → Draws → Text → Result User → World → Response × World
login_with s r draws password (ok user) w =
    check_credentials s r draws password (some user) (verify_credentials s (some user) password) w
login_with s r draws password (err e) w =
    if is_no_user e
    then check_credentials s r draws password none (verify_credentials s none password) w
    else (internal_error, w)

-- handleLogin
unfoldable pub handle_login :
    Server → Request → Draws → Input LoginRequest → World → Response × World
unfolding verify_credentials
handle_login s r draws (refused reply) w = (reply, w)
handle_login s r draws (decoded login) w =
    settle (by_email s.libraries login.email) (login_with s r draws login.password) w

-- The transaction of handleBootstrap; `stamp` is the text of the time.
unfoldable pub claim_and_create : Server → Request → Draws → Text → BootstrapRequest → M User
claim_and_create s r draws stamp input = in_tx do
  claimed ← claim_bootstrap stamp r.now
  if claimed
      then create s.libraries s.users
          (record {
            email = input.email;
            password = input.password;
            display_name = input.display_name;
            role = codes "admin";
          })
          r.now draws.user_id draws.random
      else raise already_claimed

abbrev pub issued_or_not : Server → Draws → User → Result Issued → World → Response × World
issued_or_not s draws user (err e) w = (json 201 (session_response user [] none), w)
issued_or_not s draws user (ok issued) w = (
  add_cookies (session_cookies s issued draws.remaining)
      (json 201 (session_response user issued.csrf_token (some issued.session.expires_at))),
  w,
)

-- errors.Is(err, errAlreadyClaimed)
abbrev pub is_claimed : Error → Bool
is_claimed already_claimed = true
is_claimed _ = false

-- The errors that the caller can correct.
abbrev pub is_correctable : Error → Bool
is_correctable invalid_email = true
is_correctable password_too_short = true
is_correctable password_too_long = true
is_correctable email_taken = true
is_correctable _ = false

-- The reply of handleBootstrap to an error.
abbrev pub bootstrap_error : Error → Response
bootstrap_error e =
    if is_claimed e
    then error_reply conflict (codes "this server already has an administrator; sign in instead")
    else if is_correctable e
    then with_details bad_request (error_text e) []
    else internal_error

abbrev pub bootstrapped : Server → Request → Draws → Result User → World → Response × World
bootstrapped s r draws (err e) w = (bootstrap_error e, w)
bootstrapped s r draws (ok user) w =
    settle (issue_for s r draws user) (issued_or_not s draws user) w

-- handleBootstrap
unfoldable pub handle_bootstrap :
    Server → Request → Draws → Text → Input BootstrapRequest → World → Response × World
handle_bootstrap s r draws stamp (refused reply) w = (reply, w)
handle_bootstrap s r draws stamp (decoded input) w =
    settle (claim_and_create s r draws stamp input) (bootstrapped s r draws) w

abbrev pub logged_out : Server → Result (Unit {0}) → World → Response × World
logged_out s (err e) w = (add_cookies (cleared_cookies s) internal_error, w)
logged_out s (ok u) w = (add_cookies (cleared_cookies s) (json 204 nothing), w)

abbrev pub present_cookie : Option Text → Text
present_cookie none = []
present_cookie (some value) = value

-- handleLogout
unfoldable pub handle_logout : Server → Handler
handle_logout s context r =
    settle
      (if eq (present_cookie r.session_cookie) []
        then pure tt
        else revoke s.libraries.platform (present_cookie r.session_cookie))
      (logged_out s)

abbrev pub expiry_of : Option Session → Option ℕ
expiry_of none = none
expiry_of (some session) = some session.expires_at

abbrev pub session_reply : Option User → Option Session → Response
session_reply none session = not_signed_in
session_reply (some user) session = json 200 (session_response user [] (expiry_of session))

-- handleSession
unfoldable pub handle_session : Server → Handler
handle_session s context r w = (session_reply context.user context.session, w)
