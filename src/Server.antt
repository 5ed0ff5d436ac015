-- ===== src/Server.antt =====
-- internal/server and internal/httpapi: what a request brings, what a handler answers, and the
-- parts of a server. The body of a request is given decoded, or with the reply that DecodeJSON
-- refused it with. Log records, the path and the SameSite mode of a cookie and the Cache-Control
-- and WWW-Authenticate headers, which are constants, are left out.
pub mod Access
pub mod Guards
pub mod Accounts
pub mod SignIn
pub mod Bootstrap
pub mod Devices
pub mod SetupKeys
pub mod Listing
pub mod Enrolment
pub mod Removal
pub mod Expiry
pub mod Probes
pub mod Middleware
pub mod Layers
pub mod LayerTests
pub mod Recorder
pub mod Readiness
pub mod Negotiating
pub mod ProbeTests
pub mod Tests
pub mod DeviceTests
use headnet.Base.{ℕ, Bool, true, false, Option, none, some, List, [], ◌∷◌}
use headnet.Base.Int.{ℤ, pos, negsuc}
use headnet.Text.{Text, codes}
use headnet.Netip.{Addr}
use headnet.Schema.{User, Role, admin, member, Provider, local, oidc, Session, Device, SetupKey}
use headnet.Storage.{Error, Result, World, M}
use headnet.Network.{Allocator}
use headnet.Auth.Passwords.{Libraries}
use headnet.Auth.Users.{UserStore}
use headnet.Auth.Sessions.{SessionStore, Issued}
use headnet.Api.{ErrorCode, http_status}
use headnet.Api.Health.{HealthResponse, VersionResponse, NegotiateResponse}

pub record Cookie : Type 0 where
  pub name : Text
  pub value : Text
  pub http_only : Bool
  pub secure : Bool
  pub max_age : ℤ

-- api.User
pub record UserView : Type 0 where
  pub id : Text
  pub email : Text
  pub display_name : Text
  pub role : Text
  pub provider : Text
  pub created_at : ℕ
  pub last_login_at : Option ℕ

-- What an error says: a text of the handler, or the text of an error of a store.
pub data Message : Type 0 where
  says : Text → Message
  error_text : Error → Message

pub data Body : Type 0 where
  nothing : Body
  error_body : ErrorCode → Message → List (Text × Text) → Body
  auth_status : Bool → List Text → Body
  session_body : UserView → Text → Option ℕ → Body
  device_body : Device → Body
  enrolled_body : Device → Text → Text → Body
  setup_key_body : SetupKey → List Text → Bool → Text → Body
  network_config_body : Text → Text → List Addr → Body
  health_body : HealthResponse → Body
  version_body : VersionResponse → Body
  negotiated_body : NegotiateResponse → Body
  device_list : List Device → Body
  -- Each key with its tags and whether it can be redeemed now.
  setup_key_list : List (SetupKey × List Text × Bool) → Body

pub record Response : Type 0 where
  pub status : ℕ
  pub cookies : List Cookie
  pub body : Body

pub data Method : Type 0 where
  get head options post put patch delete : Method

pub record Request : Type 0 where
  pub method : Method
  -- The value of the session cookie, if it is sent.
  pub session_cookie : Option Text
  pub csrf_header : Text
  pub authorization : List Text
  pub content_length : ℤ
  pub transfer_encoding : List Text
  pub ip : Text
  pub user_agent : List ℕ
  -- r.PathValue("id")
  pub path_id : Text
  -- s.clock.Now()
  pub now : ℕ

-- The values of the request context.
pub record Context : Type 0 where
  pub session : Option Session
  pub user : Option User

abbrev pub Handler : Type 0
Handler = Context → Request → World → Response × World

pub data Input (A : Type 0) : Type 0 where
  refused : Response → Input A
  decoded : A → Input A

pub record Server : Type 0 where
  pub libraries : Libraries
  pub users : UserStore
  pub sessions : SessionStore
  pub allocator : Allocator
  pub dummy_hash : Text
  pub secure_cookies : Bool
  pub instance_id : Text
  pub providers : List Text

-- A call of a store, and what is done with its result.
abbrev pub settle :
    {A : Type 0} → M A → (Result A → World → Response × World) → World → Response × World
settle m k w = let (r, w') = m w in k r w'

-- httpapi.WriteErrorDetail
abbrev pub with_details : ErrorCode → Message → List (Text × Text) → Response
with_details code message details = record {
  status = http_status code;
  cookies = [];
  body = error_body code message details;
}

-- httpapi.WriteError
abbrev pub error_reply : ErrorCode → Text → Response
error_reply code message = with_details code (says message) []

-- httpapi.WriteJSON
abbrev pub json : ℕ → Body → Response
json status body = record { status = status; cookies = []; body = body }

abbrev pub add_cookies : List Cookie → Response → Response
add_cookies cookies response = record response { cookies = cookies }

abbrev pub session_cookie_name : Text
session_cookie_name = codes "headnet_session"

abbrev pub csrf_cookie_name : Text
csrf_cookie_name = codes "headnet_csrf"

abbrev pub not_below_zero : ℤ → ℤ
not_below_zero (pos n) = pos n
not_below_zero (negsuc n) = pos 0

-- setSessionCookies; `remaining` is the whole seconds until the session expires.
unfoldable pub session_cookies : Server → Issued → ℤ → List Cookie
session_cookies s issued remaining =
    record {
      name = session_cookie_name;
      value = issued.token;
      http_only = true;
      secure = s.secure_cookies;
      max_age = not_below_zero remaining;
    }
    ∷ record {
      name = csrf_cookie_name;
      value = issued.csrf_token;
      http_only = false;
      secure = s.secure_cookies;
      max_age = not_below_zero remaining;
    }
    ∷ []

-- clearSessionCookies
unfoldable pub cleared_cookies : Server → List Cookie
cleared_cookies s =
    record {
      name = session_cookie_name;
      value = [];
      http_only = true;
      secure = s.secure_cookies;
      max_age = negsuc 0;
    }
    ∷ record {
      name = csrf_cookie_name;
      value = [];
      http_only = false;
      secure = s.secure_cookies;
      max_age = negsuc 0;
    }
    ∷ []

abbrev pub role_name : Role → Text
role_name admin = codes "admin"
role_name member = codes "member"

abbrev pub provider_name : Provider → Text
provider_name local = codes "local"
provider_name oidc = codes "oidc"

-- userResponse
unfoldable pub user_response : User → UserView
user_response user = record {
  id = user.id;
  email = user.email;
  display_name = user.display_name;
  role = role_name user.role;
  provider = provider_name user.provider;
  created_at = user.created_at;
  last_login_at = user.last_login_at;
}

-- sessionResponse; the zero time is `none`.
unfoldable pub session_response : User → Text → Option ℕ → Body
unfolding user_response
session_response user csrf_token expires_at =
    session_body (user_response user) csrf_token expires_at
