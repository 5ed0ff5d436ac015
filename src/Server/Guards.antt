-- ===== src/Server/Guards.antt =====
-- Nobody reaches a guarded handler without a live session, a CSRF token and the rights it asks for.
use headnet.Base.{
  ◌≡◌, refl, sym, subst, ◌∙◌, ◌⊎◌, inl, inr, Bool, true, false, ◌||◌, not, Option, none, some, [],
  Bool-cases, if◌then◌else◌,
}
use headnet.Text.{Text, eq}
use headnet.Schema.{User, Session}
use headnet.Storage.{Result, ok, err, World}
use headnet.Api.{ErrorCode, unauthorized, forbidden, internal}
use headnet.Auth.Users.{by_id, is_admin}
use headnet.Auth.Sessions.{lookup, verify_csrf}
use headnet.Server.{
  Server, Handler, Context, Request, Response, Body, error_body, add_cookies, cleared_cookies,
}
use headnet.Server.Access.{
  enter, identify, is_ended, is_no_user, internal_error, session_ended, with_cookie,
  require_session, is_safe, require_csrf, require_admin, authenticated,
}

abbrev denies : ErrorCode → Bool
denies unauthorized = true
denies forbidden = true
denies internal = true
denies _ = false

-- The answer is an error of one of the guards' codes.
abbrev pub is_denial : Body → Bool
is_denial (error_body code message details) = denies code
is_denial _ = false

-- The request changes nothing, or it echoes the CSRF token of the session.
abbrev pub is_intended : Server → Request → Session → Bool
is_intended s r session = is_safe r.method || verify_csrf s.libraries.platform session r.csrf_header

abbrev pub is_permitted : Bool → User → Bool
is_permitted admin_only user = not admin_only || is_admin user

abbrev signed_in : Session → User → Context
signed_in session user = record { session = some session; user = some user }

module _ (s : Server) (h : Handler) (r : Request) where
  admin_gate :
      (admin_only : Bool) (session : Session) (user : User) (w : World)
      → ((is_permitted admin_only user ≡ true)
          × ((if admin_only then require_admin h else h) (signed_in session user) r w
              ≡ h (signed_in session user) r w))
        ⊎ (is_denial
              ((if admin_only then require_admin h else h) (signed_in session user) r w).0.body
            ≡ true)
  unfolding require_admin
  admin_gate false session user w = inl (refl, refl)
  admin_gate true session user w = elim (Bool-cases (is_admin user)) [
    | inl admin ↦ inl (admin, rw admin)
    | inr other ↦ inr (rw other)
  ]

  csrf_gate :
      (session : Session) (user : User) (w : World)
      → ((is_intended s r session ≡ true)
          × (require_csrf s h (signed_in session user) r w ≡ h (signed_in session user) r w))
        ⊎ (is_denial (require_csrf s h (signed_in session user) r w).0.body ≡ true)
  unfolding require_csrf
  csrf_gate session user w = elim (Bool-cases (is_safe r.method)) [
    | inl safe ↦ inl (rw safe, rw safe)
    | inr unsafe ↦ elim (Bool-cases (verify_csrf s.libraries.platform session r.csrf_header)) [
      | inl echoed ↦ inl (rw (unsafe, echoed), rw (unsafe, echoed))
      | inr missing ↦ inr (rw (unsafe, missing))
    ]
  ]

-- The request carries the token of a live session whose user is known, with the CSRF token where the
-- method asks for one and the rights where the handler asks for them, and the outcome is what the
-- handler makes of it.
abbrev pub Reaches : Server → Handler → Bool → Request → World → Response × World → Type 0
Reaches s h admin_only r w out =
    (token : Text) × (session : Session) × (user : User) × (w₁ : World) × (w₂ : World)
    × (r.session_cookie ≡ some token)
    × (lookup s.libraries.platform s.sessions token r.now w ≡ (ok session, w₁))
    × (by_id session.user_id w₁ ≡ (ok user, w₂))
    × (is_intended s r session ≡ true)
    × (is_permitted admin_only user ≡ true)
    × (out ≡ h (signed_in session user) r w₂)

either_denied :
    (b : Bool) (x y : Response) (w : World)
    → is_denial x.body ≡ true
    → is_denial y.body ≡ true
    → is_denial (if◌then◌else◌ {A = Response × World} b (x, w) (y, w)).0.body ≡ true
either_denied true x y w dx dy = dx
either_denied false x y w dx dy = dy

module _ (s : Server) (h : Handler) (admin_only : Bool) (r : Request) (w : World) where
  abbrev inner : Handler
  inner = require_csrf s (if admin_only then require_admin h else h)

  abbrev Verdict : Response × World → Type 0
  Verdict out = Reaches s h admin_only r w out ⊎ (is_denial out.0.body ≡ true)

  module _ (token : Text) (sent : r.session_cookie ≡ some token) where
    entered :
        (session : Session) (w₁ : World)
        → lookup s.libraries.platform s.sessions token r.now w ≡ (ok session, w₁)
        → (user : User) (w₂ : World) → by_id session.user_id w₁ ≡ (ok user, w₂)
        → Verdict (inner (signed_in session user) r w₂)
    entered session w₁ live user w₂ known =
        elim (csrf_gate s (if admin_only then require_admin h else h) r session user w₂) [
          | inl (intended, past) ↦ elim (admin_gate s h r admin_only session user w₂) [
            | inl (permitted, reached) ↦ inl (
              token,
              session,
              user,
              w₁,
              w₂,
              sent,
              live,
              known,
              intended,
              permitted,
              past ∙ reached,
            )
            | inr denied ↦
                inr (
                  subst (λ (out : Response × World). is_denial out.0.body ≡ true) (sym past) denied)
          ]
          | inr denied ↦ inr denied
        ]

    user_found :
        (session : Session) (w₁ : World)
        → lookup s.libraries.platform s.sessions token r.now w ≡ (ok session, w₁)
        → (found : Result User) (w₂ : World) → by_id session.user_id w₁ ≡ (found, w₂)
        → Verdict (enter s inner r session found w₂)
    user_found session w₁ live (ok user) w₂ known = entered session w₁ live user w₂ known
    user_found session w₁ live (err e) w₂ known = inr (
        either_denied (is_no_user e) (add_cookies (cleared_cookies s) session_ended) internal_error
          w₂ refl refl)

    session_found :
        (found : Result Session) (w₁ : World)
        → lookup s.libraries.platform s.sessions token r.now w ≡ (found, w₁)
        → Verdict (identify s inner r found w₁)
    session_found (ok session) w₁ live =
        user_found session w₁ live (by_id session.user_id w₁).0 (by_id session.user_id w₁).1 refl
    session_found (err e) w₁ live = inr (
        either_denied (is_ended e) (add_cookies (cleared_cookies s) session_ended) internal_error w₁
          refl refl)

  cookie_found :
      (cookie : Option Text) → r.session_cookie ≡ cookie → Verdict (with_cookie s inner r cookie w)
  cookie_found none sent = inr refl
  cookie_found (some token) sent = elim (Bool-cases (eq token [])) [
    | inl blank ↦ rw blank (inr refl)
    | inr present ↦ rw present (
        session_found token sent (lookup s.libraries.platform s.sessions token r.now w).0
          (lookup s.libraries.platform s.sessions token r.now w).1 refl)
  ]

  -- Whatever other connections do and whichever statements fail, a guarded handler answers only when
  -- the request carries the token of a session that Lookup accepts at that time and whose user
  -- exists, the session's CSRF token unless the method is safe, and an administrator's account if it
  -- asks for one; in every other case the answer is an error: unauthorized, forbidden or internal.
  pub authenticated-Reaches :
      (context : Context)
      → Reaches s h admin_only r w (authenticated s h admin_only context r w)
        ⊎ (is_denial (authenticated s h admin_only context r w).0.body ≡ true)
  unfolding authenticated require_session
  authenticated-Reaches context = cookie_found r.session_cookie refl
