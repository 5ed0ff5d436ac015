-- ===== src/Server/Access.antt =====
-- internal/server/middleware.go: who may reach a handler.
use headnet.Base.{Bool, true, false, not, Option, none, some, [], ◌∷◌, if◌then◌else◌}
use headnet.Text.{Text, codes, eq}
use headnet.Schema.{User, Session}
use headnet.Storage.{
  Error, Result, ok, err, World, session_not_found, session_expired, user_not_found,
}
use headnet.Api.{unauthorized, forbidden, internal}
use headnet.Auth.Users.{by_id, is_admin}
use headnet.Auth.Sessions.{lookup, verify_csrf}
use headnet.Server.{
  Server, Handler, Context, Request, Response, Method, get, head, options, settle, error_reply,
  with_details, says, add_cookies, cleared_cookies,
}

abbrev pub internal_error : Response
internal_error = error_reply internal (codes "internal error")

abbrev pub not_signed_in : Response
not_signed_in = error_reply unauthorized (codes "you are not signed in")

abbrev pub session_ended : Response
session_ended = error_reply unauthorized (codes "your session has ended; sign in again")

-- errors.Is(err, auth.ErrUserNotFound)
abbrev pub is_no_user : Error → Bool
is_no_user user_not_found = true
is_no_user _ = false

-- errors.Is(err, auth.ErrSessionNotFound) || errors.Is(err, auth.ErrSessionExpired)
abbrev pub is_ended : Error → Bool
is_ended session_not_found = true
is_ended session_expired = true
is_ended _ = false

-- What requireSession does with the user of the session.
abbrev pub enter : Server → Handler → Request → Session → Result User → World → Response × World
enter s next r session (ok user) w = next (record { session = some session; user = some user }) r w
enter s next r session (err e) w =
    if is_no_user e then (add_cookies (cleared_cookies s) session_ended, w) else (internal_error, w)

-- What requireSession does with the session of the cookie.
abbrev pub identify : Server → Handler → Request → Result Session → World → Response × World
identify s next r (ok session) w = settle (by_id session.user_id) (enter s next r session) w
identify s next r (err e) w =
    if is_ended e then (add_cookies (cleared_cookies s) session_ended, w) else (internal_error, w)

abbrev pub with_cookie : Server → Handler → Request → Option Text → World → Response × World
with_cookie s next r none w = (add_cookies (cleared_cookies s) not_signed_in, w)
with_cookie s next r (some token) w =
    if eq token []
    then (add_cookies (cleared_cookies s) not_signed_in, w)
    else settle (lookup s.libraries.platform s.sessions token r.now) (identify s next r) w

-- requireSession
unfoldable pub require_session : Server → Handler → Handler
require_session s next context r w = with_cookie s next r r.session_cookie w

abbrev pub is_safe : Method → Bool
is_safe get = true
is_safe head = true
is_safe options = true
is_safe _ = false

abbrev pub csrf_missing : Response
csrf_missing =
    with_details forbidden (says (codes "this request is missing a valid CSRF token"))
      ((codes "header", codes "X-CSRF-Token") ∷ [])

abbrev pub check_csrf :
    Server → Handler → Context → Request → Option Session → World → Response × World
check_csrf s next context r none w = (internal_error, w)
check_csrf s next context r (some session) w =
    if not (verify_csrf s.libraries.platform session r.csrf_header)
    then (csrf_missing, w)
    else next context r w

-- requireCSRF
unfoldable pub require_csrf : Server → Handler → Handler
require_csrf s next context r w =
    if is_safe r.method then next context r w else check_csrf s next context r context.session w

abbrev pub needs_admin : Response
needs_admin = error_reply forbidden (codes "this action requires an administrator account")

abbrev pub check_admin : Handler → Context → Request → Option User → World → Response × World
check_admin next context r none w = (internal_error, w)
check_admin next context r (some user) w =
    if not (is_admin user) then (needs_admin, w) else next context r w

-- requireAdmin
unfoldable pub require_admin : Handler → Handler
require_admin next context r w = check_admin next context r context.user w

-- Server.authenticated
unfoldable pub authenticated : Server → Handler → Bool → Handler
unfolding require_session require_csrf require_admin
authenticated s h admin_only =
    require_session s (require_csrf s (if admin_only then require_admin h else h))
