-- ===== src/Server/SetupKeys.antt =====
-- internal/server/devices.go: the setup keys of an administrator.
use headnet.Base.{
  ℕ, ◌*◌, ◌-◌, ◌%◌, ◌^◌, Bool, true, false, Option, none, some, List, [], ◌∷◌, ltb, if◌then◌else◌,
}
use headnet.Base.Int.{ℤ, pos, negsuc, is_negative, pos_part}
use headnet.Text.{Text, codes}
use headnet.Schema.{User}
use headnet.Storage.{Error, Result, ok, err, World, key_not_found}
use headnet.Api.{not_found, bad_request}
use headnet.Devices.SetupKeys.{
  NewSetupKey, IssuedSetupKey, create_setup_key, revoke_setup_key, redeemable,
}
use headnet.Server.{
  Server, Handler, Request, Response, Input, refused, decoded, settle, error_reply, json,
  with_details, says, nothing, setup_key_body,
}
use headnet.Server.Access.{internal_error}
use headnet.Server.Devices.{for_user}

-- api.CreateSetupKeyRequest
pub record CreateKeyRequest : Type 0 where
  pub description : Text
  pub tags : List Text
  pub expires_in_hours : ℤ
  pub never_expires : Bool
  pub max_uses : ℤ

abbrev pub hour : ℕ
hour = 3_600_000_000_000

-- The value of a 64-bit two's complement word.
unfoldable pub signed_word : ℕ → ℤ
signed_word n =
    let word = n % 2 ^ 64 in if ltb word (2 ^ 63) then pos word else negsuc (2 ^ 64 - 1 - word)

-- time.Duration(hours) * time.Hour, for hours that are not negative; it wraps around.
unfoldable pub hours_as_duration : ℤ → ℤ
unfolding signed_word
hours_as_duration hours = signed_word (pos_part hours * hour)

-- What handleCreateSetupKey asks of the store.
abbrev pub new_setup_key : CreateKeyRequest → NewSetupKey
new_setup_key input = record {
  description = input.description;
  tags = input.tags;
  expires_in = hours_as_duration input.expires_in_hours;
  never_expires = input.never_expires;
  max_uses = input.max_uses;
}

abbrev pub is_usable : Option Error → Bool
is_usable none = true
is_usable (some reason) = false

-- `later` is the second reading of the clock.
abbrev pub key_reply : ℕ → Result IssuedSetupKey → World → Response × World
key_reply later (err e) w = (internal_error, w)
key_reply later (ok issued) w = (
  json 201 (
      setup_key_body issued.key issued.tags (is_usable (redeemable issued.key later)) issued.token),
  w,
)

abbrev pub refuse_field : Text → Text → Response
refuse_field message field = with_details bad_request (says message) ((codes "field", field) ∷ [])

-- handleCreateSetupKey for a signed-in user; `id` is what NewID returns, `entropy` what NewToken does.
abbrev pub create_key_for :
    Server
    → Request
    → ℕ
    → Text
    → Option Text
    → User
    → Input CreateKeyRequest
    → World
    → Response × World
create_key_for s r later id entropy user (refused reply) w = (reply, w)
create_key_for s r later id entropy user (decoded input) w =
    if is_negative input.expires_in_hours
    then (
      refuse_field (codes "expires_in_hours must not be negative") (codes "expires_in_hours"),
      w,
    )
    else if is_negative input.max_uses
    then (refuse_field (codes "max_uses must not be negative") (codes "max_uses"), w)
    else settle
        (create_setup_key s.libraries.platform user.id (new_setup_key input) r.now id entropy)
        (key_reply later) w

-- handleCreateSetupKey
unfoldable pub handle_create_setup_key :
    Server → ℕ → Text → Option Text → Input CreateKeyRequest → Handler
unfolding hours_as_duration
handle_create_setup_key s later id entropy input context r =
    for_user context.user λ user. create_key_for s r later id entropy user input

abbrev pub is_no_key : Error → Bool
is_no_key key_not_found = true
is_no_key _ = false

abbrev pub key_revoked_reply : Result (Unit {0}) → World → Response × World
key_revoked_reply (ok u) w = (json 204 nothing, w)
key_revoked_reply (err e) w =
    if is_no_key e
    then (error_reply not_found (codes "no such setup key"), w)
    else (internal_error, w)

-- handleRevokeSetupKey
unfoldable pub handle_revoke_setup_key : Server → Handler
handle_revoke_setup_key s context r = settle (revoke_setup_key r.path_id r.now) key_revoked_reply
