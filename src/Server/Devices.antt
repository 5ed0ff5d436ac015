-- ===== src/Server/Devices.antt =====
-- internal/server/devices.go and device_auth.go: the devices of the signed-in user, enrolment, and
-- what a device asks for with its own token.
use headnet.Base.{
  ℕ, Bool, true, false, ◌||◌, not, Option, none, some, List, [], ◌∷◌, ◌++◌, ◌==◌, leb, ◌+◌, ◌&&◌,
  map, if◌then◌else◌,
}
use headnet.Base.Int.{ℤ, pos, negsuc}
use headnet.Text.{Text, codes, eq}
use headnet.Netip.{Addr, Family}
use headnet.Schema.{User, Device}
use headnet.Storage.{
  Error, Result, ok, err, World, device_not_found, public_key_taken, invalid_public_key,
  invalid_name, device_revoked, pool_exhausted, device_token_invalid, key_not_found, key_revoked,
  key_expired, key_exhausted,
}
use headnet.Shared.{cut}
use headnet.Api.{not_found, conflict, bad_request, unavailable, unauthorized}
use headnet.Auth.Users.{is_admin}
use headnet.Devices.Inventory.{NewDevice, Scope, by_id, register, enroll, revoke}
use headnet.Devices.Tokens.{authenticate, heartbeat}
use headnet.Server.{
  Server, Handler, Request, Response, Input, refused, decoded, settle, error_reply, json,
  with_details, says, error_text, nothing, device_body, enrolled_body, network_config_body,
}
use headnet.Server.Access.{internal_error, not_signed_in}

-- scopeFor
abbrev pub scope_for : User → Scope
scope_for user = record { user_id = user.id; all = is_admin user }

-- isSetupKeyRejection
unfoldable pub is_setup_key_rejection : Error → Bool
is_setup_key_rejection key_not_found = true
is_setup_key_rejection key_revoked = true
is_setup_key_rejection key_expired = true
is_setup_key_rejection key_exhausted = true
is_setup_key_rejection _ = false

-- writeDeviceError
unfoldable pub device_error : Error → Response
device_error device_not_found = error_reply not_found (codes "no such device")
device_error public_key_taken =
    with_details conflict (says (codes "that public key is already registered to a device"))
      ((codes "field", codes "public_key") ∷ [])
device_error invalid_public_key =
    with_details bad_request (error_text invalid_public_key)
      ((codes "field", codes "public_key") ∷ [])
device_error invalid_name =
    with_details bad_request (error_text invalid_name) ((codes "field", codes "name") ∷ [])
device_error device_revoked = error_reply conflict (codes "that device has already been revoked")
device_error pool_exhausted =
    error_reply unavailable
      (codes "there are no addresses left in this network's pool; an administrator must widen it")
device_error e = internal_error

abbrev pub for_user : Option User → (User → World → Response × World) → World → Response × World
for_user none k w = (not_signed_in, w)
for_user (some user) k w = k user w

abbrev pub device_reply : ℕ → Result Device → World → Response × World
device_reply status (ok device) w = (json status (device_body device), w)
device_reply status (err e) w = (device_error e, w)

-- handleGetDevice
unfoldable pub handle_get_device : Server → Handler
handle_get_device s context r =
    for_user context.user λ user. settle (by_id r.path_id (scope_for user)) (device_reply 200)

abbrev pub register_for :
    Server → Request → Text → (Family → ℕ → ℕ) → User → Input NewDevice → World → Response × World
register_for s r id choices user (refused reply) w = (reply, w)
register_for s r id choices user (decoded new) w =
    settle (register s.libraries.platform s.allocator user.id new r.now id choices)
      (device_reply 201) w

-- handleRegisterDevice; `id` is what NewID returns.
unfoldable pub handle_register_device : Server → Text → (Family → ℕ → ℕ) → Input NewDevice → Handler
handle_register_device s id choices input context r =
    for_user context.user λ user. register_for s r id choices user input

abbrev pub revoke_reply : Result (Unit {0}) → World → Response × World
revoke_reply (ok u) w = (json 204 nothing, w)
revoke_reply (err e) w = (device_error e, w)

-- handleRevokeDevice
unfoldable pub handle_revoke_device : Server → Handler
handle_revoke_device s context r =
    for_user context.user λ user. settle (revoke r.path_id (scope_for user) r.now) revoke_reply

-- api.EnrollDeviceRequest
pub record EnrollRequest : Type 0 where
  pub setup_key : Text
  pub device : NewDevice

abbrev pub key_rejected : Response
key_rejected = error_reply unauthorized (codes "that setup key is not valid")

abbrev pub enrolled : Server → Result (Device × Text) → World → Response × World
enrolled s (ok (device, token)) w = (json 201 (enrolled_body device token s.instance_id), w)
enrolled s (err e) w = if is_setup_key_rejection e then (key_rejected, w) else (device_error e, w)

-- handleEnrollDevice; `entropy` is what NewToken returns, `id` what NewID does.
unfoldable pub handle_enroll_device :
    Server
    → Option Text
    → Text
    → (Family → ℕ → ℕ)
    → Input EnrollRequest
    → Request
    → World
    → Response × World
handle_enroll_device s entropy id choices (refused reply) r w = (reply, w)
handle_enroll_device s entropy id choices (decoded input) r w =
    settle
      (enroll s.libraries.platform s.allocator input.setup_key input.device r.now entropy id
        choices)
      (enrolled s) w

-- unicode.ToLower of a letter of ASCII
abbrev pub fold_letter : ℕ → ℕ
fold_letter c = if leb b'A' c && leb c b'Z' then c + 32 else c

abbrev pub bearer_of : Option (Text × Text) → Text
bearer_of none = []
bearer_of (some (scheme, token)) =
    if eq (map fold_letter scheme) (codes "bearer") then token else []

-- bearerToken; no other character folds to a letter of "Bearer".
unfoldable pub bearer_token : Request → Text
bearer_token r = from_values r.authorization
  where
    from_values : List Text → Text
    from_values (value ∷ []) = bearer_of (cut b' ' value)
    from_values _ = []

-- writeDeviceAuthError
abbrev pub device_auth_error : Error → Response
device_auth_error device_token_invalid =
    error_reply unauthorized
      (codes "a valid device bearer token is required; enrol the device with a setup key")
device_auth_error e = internal_error

abbrev pub DeviceHandler : Type 0
DeviceHandler = Request → Device → World → Response × World

abbrev pub admit_device : DeviceHandler → Request → Result Device → World → Response × World
admit_device next r (ok device) w = next r device w
admit_device next r (err e) w = (device_auth_error e, w)

-- requireDevice
unfoldable pub require_device : Server → DeviceHandler → Request → World → Response × World
unfolding bearer_token
require_device s next r =
    settle (authenticate s.libraries.platform (bearer_token r)) (admit_device next r)

-- handleDeviceMe
unfoldable pub handle_device_me : DeviceHandler
handle_device_me r device w = (json 200 (device_body device), w)

abbrev pub beat_reply : Result (Unit {0}) → World → Response × World
beat_reply (ok u) w = (json 204 nothing, w)
beat_reply (err e) w = (device_auth_error e, w)

abbrev pub is_zero : ℤ → Bool
is_zero (pos n) = n == 0
is_zero (negsuc n) = false

abbrev pub has_values : List Text → Bool
has_values [] = false
has_values (value ∷ values) = true

-- handleDeviceHeartbeat
unfoldable pub handle_device_heartbeat : Server → DeviceHandler
unfolding bearer_token
handle_device_heartbeat s r device w =
    if not (is_zero r.content_length) || has_values r.transfer_encoding
    then (error_reply bad_request (codes "heartbeat requests must have an empty body"), w)
    else settle (heartbeat s.libraries.platform (bearer_token r) r.now) beat_reply w

abbrev pub present : Option Addr → List Addr
present none = []
present (some a) = a ∷ []

-- Device.Addrs
unfoldable pub device_addrs : Device → List Addr
device_addrs device = present device.ipv4 ++ present device.ipv6

-- handleDeviceNetworkConfig; DNS is off and there are no peers.
unfoldable pub handle_device_network_config : Server → DeviceHandler
unfolding device_addrs
handle_device_network_config s r device w =
    (json 200 (network_config_body s.instance_id device.id (device_addrs device)), w)
