-- ===== src/Auth/Sessions.antt =====
-- internal/auth/session.go: SessionStore. The user agent is held as its bytes, which is how the
-- source measures and cuts it.
use headnet.Base.{
  ℕ, ◌+◌, ◌-◌, ◌*◌, Bool, false, ◌&&◌, ◌||◌, not, Option, none, some, List, [], ◌∷◌, ◌++◌, ltb, leb,
  ◌==◌, if◌then◌else◌, length, take,
}
use headnet.Base.Int.{ℤ, pos_part}
use headnet.Text.{Text, eq}
use headnet.Platform.{Platform, hash_token}
use headnet.Schema.{Session}
use headnet.Storage.{
  Result, ok, err, M, Statement, statement, ◌>>=◌, ◌>>◌, pure, raise, lift, invalid_argument,
  unique_violation, foreign_key_violation, session_not_found, session_expired,
}
use headnet.Storage.Table.{any_row, find_row, count_rows, delete_rows, update_rows}
use headnet.Auth.Tokens.{from_entropy}

pub record Issued : Type 0 where
  pub session : Session
  pub token : Text
  pub csrf_token : Text

pub record Meta : Type 0 where
  pub ip : Text
  pub user_agent : List ℕ

pub record SessionOptions : Type 0 where
  pub lifetime : ℤ
  pub idle_timeout : ℤ

-- The durations of a SessionStore.
pub record SessionStore : Type 0 where
  pub lifetime : ℕ
  pub idle_timeout : ℕ

-- sessionTouchInterval, a minute in nanoseconds.
abbrev pub session_touch_interval : ℕ
session_touch_interval = 60 * 1_000_000_000

abbrev pub max_user_agent_length : ℕ
max_user_agent_length = 256

-- DefaultSessionLifetime, thirty days in nanoseconds.
abbrev pub default_session_lifetime : ℕ
default_session_lifetime = 30 * 24 * 3600 * 1_000_000_000

-- NewSessionStore
unfoldable pub new_session_store : SessionOptions → SessionStore
new_session_store opts = record {
  lifetime =
      if pos_part opts.lifetime == 0 then default_session_lifetime else pos_part opts.lifetime;
  idle_timeout = pos_part opts.idle_timeout;
}

-- Session.VerifyCSRF
unfoldable pub verify_csrf : Platform → Session → Text → Bool
verify_csrf p s token =
    if eq token [] || eq s.csrf_hash [] then false else eq (hash_token p token) s.csrf_hash

unfoldable pub insert_session : Session → Statement (Unit {0})
insert_session s d =
    if any_row (λ x. eq x.id s.id || eq x.token_hash s.token_hash) d.sessions
    then (err unique_violation, d)
    else if any_row (λ u. eq u.id s.user_id) d.users
    then (ok tt, record d { sessions = d.sessions ++ s ∷ [] })
    else (err foreign_key_violation, d)

abbrev pub cut_user_agent : List ℕ → List ℕ
cut_user_agent ua =
    if ltb max_user_agent_length (length ua) then take max_user_agent_length ua else ua

-- The session that SessionStore.Issue creates.
unfoldable pub new_session :
    Platform → SessionStore → Text → Meta → ℕ → Text → Text → Text → Session
new_session p store user_id meta now id token csrf_token = record {
  id = id;
  user_id = user_id;
  created_at = now;
  last_used_at = now;
  expires_at = now + store.lifetime;
  ip = meta.ip;
  user_agent = cut_user_agent meta.user_agent;
  csrf_hash = hash_token p csrf_token;
  token_hash = hash_token p token;
}

-- The end of SessionStore.Issue.
unfoldable pub store_session : Session → Text → Text → M Issued
store_session session token csrf_token = do
  statement (insert_session session)
  pure (record { session = session; token = token; csrf_token = csrf_token })

-- SessionStore.Issue; `id` is what NewID returns, the other two what the calls of NewToken do.
unfoldable pub issue :
    Platform → SessionStore → Text → Meta → ℕ → Text → Option Text → Option Text → M Issued
issue p store user_id meta now id entropy csrf_entropy =
    if eq user_id [] then raise invalid_argument else do
      token ← lift (from_entropy entropy)
      csrf_token ← lift (from_entropy csrf_entropy)
      store_session (new_session p store user_id meta now id token csrf_token) token csrf_token

-- SessionStore.isExpired
unfoldable pub is_expired : SessionStore → Session → ℕ → Bool
is_expired store s now =
    not (ltb now s.expires_at)
    || (ltb 0 store.idle_timeout && leb store.idle_timeout (now - s.last_used_at))

-- SessionStore.deleteByID
unfoldable pub delete_by_id : Text → Statement (Unit {0})
delete_by_id id d = (ok tt, record d { sessions = delete_rows (λ s. eq s.id id) d.sessions })

unfoldable pub touch : Text → ℕ → Statement (Unit {0})
touch id now d = (
  ok tt,
  record d {
    sessions = update_rows (λ s. eq s.id id) (λ s. record s { last_used_at = now }) d.sessions;
  },
)

abbrev pub or_no_session : Option Session → Result Session
or_no_session none = err session_not_found
or_no_session (some s) = ok s

unfoldable pub read_session : Text → M Session
read_session hash =
    statement λ d. (or_no_session (find_row (λ s. eq s.token_hash hash) d.sessions), d)

-- What SessionStore.Lookup does with the session that it read.
unfoldable pub admit : SessionStore → ℕ → Session → M Session
admit store now s =
    if is_expired store s now
    then (do statement (delete_by_id s.id); raise session_expired)
    else if ltb session_touch_interval (now - s.last_used_at)
    then (do statement (touch s.id now); pure (record s { last_used_at = now }))
    else pure s

-- SessionStore.Lookup
unfoldable pub lookup : Platform → SessionStore → Text → ℕ → M Session
lookup p store token now =
    if eq token []
    then raise session_not_found
    else do s ← read_session (hash_token p token); admit store now s

unfoldable pub delete_by_token : Text → Statement (Unit {0})
delete_by_token hash d =
    (ok tt, record d { sessions = delete_rows (λ s. eq s.token_hash hash) d.sessions })

-- SessionStore.Revoke
unfoldable pub revoke : Platform → Text → M (Unit {0})
revoke p token = if eq token [] then pure tt else statement (delete_by_token (hash_token p token))

unfoldable pub delete_by_user : Text → Statement ℕ
delete_by_user user_id d = (
  ok (count_rows (λ s. eq s.user_id user_id) d.sessions),
  record d { sessions = delete_rows (λ s. eq s.user_id user_id) d.sessions },
)

-- SessionStore.RevokeAllForUser
unfoldable pub revoke_all_for_user : Text → M ℕ
revoke_all_for_user user_id = statement (delete_by_user user_id)

unfoldable pub delete_past : ℕ → Statement ℕ
delete_past now d = (
  ok (count_rows (λ s. leb s.expires_at now) d.sessions),
  record d { sessions = delete_rows (λ s. leb s.expires_at now) d.sessions },
)

-- SessionStore.DeleteExpired
unfoldable pub delete_expired : ℕ → M ℕ
delete_expired now = statement (delete_past now)

-- SessionStore.CountForUser
unfoldable pub count_for_user : Text → M ℕ
count_for_user user_id = statement λ d. (ok (count_rows (λ s. eq s.user_id user_id) d.sessions), d)
