-- ===== src/Server/Removal.antt =====
-- A device that the server said is revoked is not served again.
use headnet.Base.{◌≡◌, refl, sym, ap, subst, ◌∙◌, Bool, true, false, ◌==◌, some, List, All}
use headnet.Text.{Text, eq}
use headnet.Schema.{User, Device}
use headnet.Storage.{
  Error, Result, ok, err, World, device_not_found, public_key_taken, invalid_public_key,
  invalid_name, device_revoked, pool_exhausted, device_token_invalid,
}
use headnet.Storage.Keeps.{Stable}
use headnet.Devices.Inventory.{revoke}
use headnet.Devices.Tokens.{authenticate}
use headnet.Devices.Requests.{serve, OnNewId, Request as DeviceRequest}
use headnet.Devices.Gone.{IsGone, Differs}
use headnet.Devices.Revocation.{revoke-authenticate}
use headnet.Api.{http_status}
use headnet.Server.{Server, Context, Request, Response, Body, device_body, settle}
use headnet.Server.Devices.{
  device_error, handle_revoke_device, revoke_reply, scope_for, require_device, handle_device_me,
  admit_device, bearer_token, device_auth_error,
}

device_error-status : (e : Error) → ((device_error e).status == 204) ≡ false
unfolding device_error http_status
device_error-status device_not_found = refl
device_error-status public_key_taken = refl
device_error-status invalid_public_key = refl
device_error-status invalid_name = refl
device_error-status device_revoked = refl
device_error-status pool_exhausted = refl
device_error-status _ = refl

revoke_answer :
    (answer : Result (Unit {0})) (w : World)
    → ((revoke_reply answer w).0.status == 204) ≡ true
    → answer ≡ ok tt
revoke_answer (ok u) w h = refl
revoke_answer (err e) w h = (let never : false ≡ true = sym (device_error-status e) ∙ h in cc)

abbrev shows_device : Body → Bool
shows_device (device_body device) = true
shows_device _ = false

device_auth_error-body : (e : Error) → shows_device (device_auth_error e).body ≡ false
device_auth_error-body device_token_invalid = refl
device_auth_error-body _ = refl

-- What a device handler answers about the device that is not the one.
about_other :
    (id : Text) (r : Request) (answer : Result Device) (w : World) {x : Device}
    → ((y : Device) → answer ≡ ok y → eq y.id id ≡ false)
    → (admit_device handle_device_me r answer w).0.body ≡ device_body x
    → eq x.id id ≡ false
unfolding handle_device_me
about_other id r (ok y) w {x} other h =
    subst (λ (z : Device). eq z.id id ≡ false) (body_device h) (other y refl)
  where
    body_device : {a b : Device} → device_body a ≡ device_body b → a ≡ b
    body_device e = cc
about_other id r (err e) w {x} other h =
    (let never : false ≡ true = sym (device_auth_error-body e) ∙ ap shows_device h in cc)

replied_world : (answer : Result (Unit {0})) (w : World) → (revoke_reply answer w).1 ≡ w
replied_world (ok u) w = refl
replied_world (err e) w = refl

handled :
    (s : Server) (user : User) (context : Context) (r : Request) (w : World)
    → context.user ≡ some user
    → handle_revoke_device s context r w
      ≡ settle (revoke r.path_id (scope_for user) r.now) revoke_reply w
unfolding handle_revoke_device
handled s user context r w known = rw known

device_seen :
    (s : Server) (id : Text) (r : Request) (w : World) {x : Device}
    → ((y : Device) (w₂ : World)
        → authenticate s.libraries.platform (bearer_token r) w ≡ (ok y, w₂)
        → eq y.id id ≡ false)
    → (require_device s handle_device_me r w).0.body ≡ device_body x
    → eq x.id id ≡ false
unfolding require_device
device_seen s id r w other seen =
    let answer = authenticate s.libraries.platform (bearer_token r) w in
    about_other id r answer.0 answer.1 (λ y e. other y answer.1 (λ i. (e i, answer.1))) seen

-- Once handleRevokeDevice has answered that a device is revoked, handleDeviceMe never answers with a
-- device of its identifier, whatever credential is presented, whatever requests are served in
-- between and whatever other connections and failures come in between, as long as no request gives
-- the identifier to a new device and no other connection brings a live device with it back.
pub handle_revoke_device-handle_device_me :
    (s : Server) (user : User) (context : Context) (r r' : Request) (rs : List DeviceRequest)
    (w : World) {x : Device}
    → context.user ≡ some user
    → Stable (IsGone r.path_id) w.events
    → All (OnNewId (Differs r.path_id)) rs
    → ((handle_revoke_device s context r w).0.status == 204) ≡ true
    → (require_device s handle_device_me r'
        (serve s.libraries.platform s.allocator rs (handle_revoke_device s context r w).1)).0.body
      ≡ device_body x
    → eq x.id r.path_id ≡ false
handle_revoke_device-handle_device_me s user context r r' rs w {x} known st fresh h seen =
    let call = revoke r.path_id (scope_for user) r.now w in
    let answered : handle_revoke_device s context r w ≡ revoke_reply call.0 call.1 =
      handled s user context r w known in
    let done : call.0 ≡ ok tt =
      revoke_answer call.0 call.1
        (subst (λ (out : Response × World). (out.0.status == 204) ≡ true) answered h) in
    let left : (handle_revoke_device s context r w).1 ≡ call.1 =
      ap (λ (out : Response × World). out.1) answered ∙ replied_world call.0 call.1 in
    device_seen s r.path_id r' (serve s.libraries.platform s.allocator rs call.1)
      (λ y w₂ e.
        revoke-authenticate s.libraries.platform s.allocator r.path_id (scope_for user) r.now rs
          (bearer_token r') w {w₁ = call.1} {w₂ = w₂} {x = y} st fresh (λ i. (done i, call.1)) e)
      (subst
        (λ (v : World).
          (require_device s handle_device_me r'
            (serve s.libraries.platform s.allocator rs v)).0.body
          ≡ device_body x)
        left seen)
