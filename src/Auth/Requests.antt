-- ===== src/Auth/Requests.antt =====
-- The operations of SessionStore that write, as requests, and an invariant that their statements
-- keep.
use headnet.Base.{ℕ, Option, none, some, List, [], ◌∷◌, All}
use headnet.Text.{Text, eq}
use headnet.Platform.{Platform}
use headnet.Schema.{Database}
use headnet.Storage.{lift, ◌>>=◌, World, Statement, invalid_argument}
use headnet.Storage.Keeps.{
  Keeps, Stable, Keeps-statement, Keeps-if, Keeps-raise, Keeps-known, keeps_rules,
}
use headnet.Auth.Tokens.{from_entropy}
use headnet.Auth.Sessions.{
  SessionStore, Meta, insert_session, delete_by_id, touch, delete_by_token, delete_by_user,
  delete_past, new_session, store_session, issue, read_session, admit, lookup, revoke,
  revoke_all_for_user, delete_expired,
}

pub data SessionRequest : Type 0 where
  issues : Text → Meta → ℕ → Text → Option Text → Option Text → SessionRequest
  looks_up : Text → ℕ → SessionRequest
  logs_out : Text → SessionRequest
  logs_out_user : Text → SessionRequest
  sweeps : ℕ → SessionRequest

-- The world that a request leaves, whether it succeeds or fails.
unfoldable pub perform : Platform → SessionStore → SessionRequest → World → World
perform p store (issues user meta now id entropy csrf) w =
    (issue p store user meta now id entropy csrf w).1
perform p store (looks_up token now) w = (lookup p store token now w).1
perform p store (logs_out token) w = (revoke p token w).1
perform p store (logs_out_user user) w = (revoke_all_for_user user w).1
perform p store (sweeps now) w = (delete_expired now w).1

unfoldable pub serve : Platform → SessionStore → List SessionRequest → World → World
unfolding perform
serve p store [] w = w
serve p store (r ∷ rs) w = serve p store rs (perform p store r w)

abbrev pub Preserves : {A : Type 0} → (Database → Type 0) → Statement A → Type 0
Preserves P s = (d : Database) → P d → P (s d).1

-- A condition on the user and the token that a request issues a session for.
abbrev pub OnIssue : (Text → Text → Type 0) → SessionRequest → Type 0
OnIssue Good (issues user meta now id (some token) csrf) = Good user token
OnIssue Good _ = Unit {0}

-- Every statement that writes keeps `P`, given that new sessions are good.
pub record Respects (p : Platform) (store : SessionStore) (P : Database → Type 0)
    (Good : Text → Text → Type 0) : Type 0 where
  pub inserts :
      (user : Text) (meta : Meta) (now : ℕ) (id token csrf : Text)
      → Good user token
      → Preserves P (insert_session (new_session p store user meta now id token csrf))
  pub touches : (id : Text) (now : ℕ) → Preserves P (touch id now)
  pub deletes_id : (id : Text) → Preserves P (delete_by_id id)
  pub deletes_token : (hash : Text) → Preserves P (delete_by_token hash)
  pub deletes_user : (user : Text) → Preserves P (delete_by_user user)
  pub deletes_past : (now : ℕ) → Preserves P (delete_past now)

module _ {p : Platform} {store : SessionStore} {P : Database → Type 0} {Good : Text → Text → Type 0}
    (v : Respects p store P Good) where
  store_session-Keeps :
      (user : Text) (meta : Meta) (now : ℕ) (id token csrf : Text)
      → Good user token
      → Keeps P (store_session (new_session p store user meta now id token csrf) token csrf)
  unfolding store_session
  store_session-Keeps user meta now id token csrf good =
      let inserts =
        Keeps-statement (insert_session (new_session p store user meta now id token csrf))
          (v.inserts user meta now id token csrf good) in
      search (keeps_rules, inserts)

  issue-Keeps :
      (user : Text) (meta : Meta) (now : ℕ) (id : Text) (entropy csrf : Option Text)
      → OnIssue Good (issues user meta now id entropy csrf)
      → Keeps P (issue p store user meta now id entropy csrf)
  unfolding issue
  issue-Keeps user meta now id none csrf good = search keeps_rules
  issue-Keeps user meta now id (some token) csrf good =
      let stores = λ (c : Text). store_session-Keeps user meta now id token c good in
      Keeps-if (eq user []) _ _ (Keeps-raise invalid_argument) (
        Keeps-known token
          (λ t. lift (from_entropy csrf) >>= λ c.
            store_session (new_session p store user meta now id t c) t c)
          (search (keeps_rules, stores)))

  read_session-Keeps : (hash : Text) → Keeps P (read_session hash)
  unfolding read_session
  read_session-Keeps hash = Keeps-statement _ (λ d h. h)

  lookup-Keeps : (token : Text) (now : ℕ) → Keeps P (lookup p store token now)
  unfolding lookup admit
  lookup-Keeps token now =
      let touches = λ (id : Text). Keeps-statement (touch id now) (v.touches id now) in
      let deletes = λ (id : Text). Keeps-statement (delete_by_id id) (v.deletes_id id) in
      search (keeps_rules, read_session-Keeps, touches, deletes) depth 9

  revoke-Keeps : (token : Text) → Keeps P (revoke p token)
  unfolding revoke
  revoke-Keeps token =
      let deletes =
        λ (hash : Text). Keeps-statement (delete_by_token hash) (v.deletes_token hash) in
      search (keeps_rules, deletes)

  perform-Keeps :
      (r : SessionRequest) (w : World)
      → OnIssue Good r
      → Stable P w.events × P w.db
      → Stable P (perform p store r w).events × P (perform p store r w).db
  unfolding perform revoke_all_for_user delete_expired
  perform-Keeps (issues user meta now id entropy csrf) w g h =
      (issue-Keeps user meta now id entropy csrf g).at w h.0 h.1
  perform-Keeps (looks_up token now) w g h = (lookup-Keeps token now).at w h.0 h.1
  perform-Keeps (logs_out token) w g h = (revoke-Keeps token).at w h.0 h.1
  perform-Keeps (logs_out_user user) w g h =
      (Keeps-statement (delete_by_user user) (v.deletes_user user)).at w h.0 h.1
  perform-Keeps (sweeps now) w g h =
      (Keeps-statement (delete_past now) (v.deletes_past now)).at w h.0 h.1

  pub serve-Holds :
      (rs : List SessionRequest) (w : World)
      → All (OnIssue Good) rs
      → Stable P w.events × P w.db
      → Stable P (serve p store rs w).events × P (serve p store rs w).db
  unfolding serve
  serve-Holds [] w g h = h
  serve-Holds (r ∷ rs) w g h = serve-Holds rs (perform p store r w) g.1 (perform-Keeps r w g.0 h)
