-- ===== src/Devices/Inventory.antt =====
-- internal/devices/device.go
use headnet.Base.{
  ℕ, Bool, true, ◌&&◌, ◌||◌, not, Option, none, some, List, [], ◌∷◌, ◌++◌, ◌==◌, if◌then◌else◌,
  length,
}
use headnet.Text.{Text, codes, eq, trim_space}
use headnet.Netip.{Family}
use headnet.Platform.{Platform, hash_token}
use headnet.Schema.{Device, DeviceToken, SetupKey}
use headnet.Storage.{
  Error, Result, ok, err, M, Statement, statement, in_tx, ◌>>=◌, ◌>>◌, pure, raise, lift,
  classified, invalid_name, invalid_public_key, invalid_argument, unique_violation,
  foreign_key_violation, public_key_taken, device_not_found, device_revoked,
}
use headnet.Storage.Table.{any_row, find_row, count_rows, update_rows, delete_rows}
use headnet.Auth.Tokens.{from_entropy}
use headnet.Network.{Allocator, allocate, release}
use headnet.Devices.SetupKeys.{
  is_some, truncate, user_exists, redeemable, setup_key_by_token, setup_key_by_id,
  consume_setup_key,
}

abbrev pub wire_guard_key_length : ℕ
wire_guard_key_length = 32

abbrev pub max_name_length : ℕ
max_name_length = 64

abbrev pub max_metadata_length : ℕ
max_metadata_length = 128

abbrev pub all_zero : List ℕ → Bool
all_zero [] = true
all_zero (b ∷ bs) = b == 0 && all_zero bs

abbrev pub check_raw : Option (List ℕ) → Result (Unit {0})
check_raw none = err invalid_public_key
check_raw (some raw) =
    if not (length raw == wire_guard_key_length)
    then err invalid_public_key
    else if all_zero raw
    then err invalid_public_key
    else ok tt

-- ValidatePublicKey
unfoldable pub validate_public_key : Platform → Text → Result (Unit {0})
validate_public_key p key =
    let trimmed = trim_space key in
    if eq trimmed [] then err invalid_public_key else check_raw (p.decode_base64 trimmed)

pub record NewDevice : Type 0 where
  pub name : Text
  pub public_key : Text
  pub os : Text
  pub hostname : Text

-- Which devices an operation may see or touch.
pub record Scope : Type 0 where
  pub user_id : Text
  pub all : Bool

-- The condition that a scope adds to a query.
abbrev pub in_scope : Scope → Device → Bool
in_scope s d = s.all || eq d.user_id s.user_id

-- INSERT INTO devices, with the constraints of the table: the identifier and the public key are
-- unique, and the owner and the setup key are rows of their tables.
unfoldable pub insert_device : Device → Statement (Unit {0})
insert_device device d =
    if any_row (λ x. eq x.id device.id || eq x.public_key device.public_key) d.devices
    then (err unique_violation, d)
    else if user_exists device.user_id d.users
        && (eq device.enrolled_with [] || any_row (λ k. eq k.id device.enrolled_with) d.setup_keys)
    then (ok tt, record d { devices = d.devices ++ device ∷ [] })
    else (err foreign_key_violation, d)

-- INSERT INTO device_tokens
unfoldable pub insert_device_token : DeviceToken → Statement (Unit {0})
insert_device_token t d =
    if any_row (λ x. eq x.device_id t.device_id || eq x.token_hash t.token_hash) d.device_tokens
    then (err unique_violation, d)
    else if any_row (λ x. eq x.id t.device_id) d.devices
    then (ok tt, record d { device_tokens = d.device_tokens ++ t ∷ [] })
    else (err foreign_key_violation, d)

-- How create classifies the failure of the insert.
abbrev pub insert_error : Error → Error
insert_error unique_violation = public_key_taken
insert_error e = e

unfoldable pub new_device : Text → NewDevice → Text → Text → ℕ → Text → Device
new_device user_id new public_key setup_key_id now id = record {
  id = id;
  user_id = user_id;
  name = truncate (trim_space new.name) max_name_length;
  public_key = public_key;
  os = truncate (trim_space new.os) max_metadata_length;
  hostname = truncate (trim_space new.hostname) max_metadata_length;
  ipv4 = none;
  ipv6 = none;
  enrolled_with = setup_key_id;
  created_at = now;
  last_seen_at = none;
  revoked_at = none;
}

-- The redemption that opens the transaction of Store.create.
unfoldable pub redeem : Text → ℕ → M (Unit {0})
redeem setup_key_id now = do key ← setup_key_by_id setup_key_id; consume_setup_key key.id now

-- The transaction of Store.create.
unfoldable pub create_rows : Allocator → Device → Text → ℕ → (Family → ℕ → ℕ) → M Device
create_rows al draft token_hash now choices = do
  if eq draft.enrolled_with [] then pure tt else redeem draft.enrolled_with now
  assignment ← allocate al draft.id now choices
  let device = record draft { ipv4 = assignment.ipv4; ipv6 = assignment.ipv6 }
  classified insert_error (statement (insert_device device))
  if eq token_hash []
      then pure tt
      else statement (
          insert_device_token
            (record { device_id = device.id; token_hash = token_hash; created_at = now }))
  pure device

-- Store.create; `id` is what NewID returns.
unfoldable pub create :
    Platform → Allocator → Text → NewDevice → Text → Text → ℕ → Text → (Family → ℕ → ℕ) → M Device
create p al user_id new setup_key_id token_hash now id choices =
    if eq (truncate (trim_space new.name) max_name_length) [] then raise invalid_name else do
      lift (validate_public_key p (trim_space new.public_key))
      in_tx (
          create_rows al (new_device user_id new (trim_space new.public_key) setup_key_id now id)
            token_hash now choices)

-- Store.Register
unfoldable pub register :
    Platform → Allocator → Text → NewDevice → ℕ → Text → (Family → ℕ → ℕ) → M Device
register p al user_id new now id choices =
    if eq user_id [] then raise invalid_argument else create p al user_id new [] [] now id choices

abbrev pub device_token_prefix : Text
device_token_prefix = codes "hnd_"

-- Store.Enroll once the key is read and its Redeemable known; `entropy` is what NewToken returns.
abbrev pub redeem_for :
    Platform
    → Allocator
    → NewDevice
    → ℕ
    → Option Text
    → Text
    → (Family → ℕ → ℕ)
    → SetupKey
    → Option Error
    → M (Device × Text)
redeem_for p al new now entropy id choices key (some reason) = raise reason
redeem_for p al new now entropy id choices key none = do
  random ← lift (from_entropy entropy)
  let secret = device_token_prefix ++ random
  device ← create p al key.created_by new key.id (hash_token p secret) now id choices
  pure (device, secret)

-- Store.Enroll
unfoldable pub enroll :
    Platform
    → Allocator
    → Text
    → NewDevice
    → ℕ
    → Option Text
    → Text
    → (Family → ℕ → ℕ)
    → M (Device × Text)
enroll p al token new now entropy id choices = do
  key ← setup_key_by_token p token
  redeem_for p al new now entropy id choices key (redeemable key now)

abbrev pub or_missing : Option Device → Result Device
or_missing none = err device_not_found
or_missing (some device) = ok device

-- Store.ByID
unfoldable pub by_id : Text → Scope → M Device
by_id id scope =
    statement λ d. (or_missing (find_row (λ x. eq x.id id && in_scope scope x) d.devices), d)

-- The condition `revoked_at IS NULL`.
abbrev pub is_live : Device → Bool
is_live d = not (is_some d.revoked_at)

unfoldable pub mark_revoked : Text → ℕ → Statement ℕ
mark_revoked id now d = (
  ok (count_rows (λ x. eq x.id id && is_live x) d.devices),
  record d {
    devices =
        update_rows (λ x. eq x.id id && is_live x)
          (λ x. record x { revoked_at = some now; ipv4 = none; ipv6 = none }) d.devices;
  },
)

unfoldable pub delete_tokens : Text → Statement (Unit {0})
delete_tokens id d =
    (ok tt, record d { device_tokens = delete_rows (λ t. eq t.device_id id) d.device_tokens })

-- The transaction of Store.Revoke.
unfoldable pub revoke_rows : Text → ℕ → M (Unit {0})
revoke_rows id now = do
  release id
  affected ← statement (mark_revoked id now)
  if affected == 0 then raise device_revoked else statement (delete_tokens id)

-- Store.Revoke
unfoldable pub revoke : Text → Scope → ℕ → M (Unit {0})
revoke id scope now = do
  device ← by_id id scope
  if is_live device then in_tx (revoke_rows device.id now) else raise device_revoked

unfoldable pub stamp_seen : Text → ℕ → Statement (Unit {0})
stamp_seen id now d = (
  ok tt,
  record d {
    devices =
        update_rows (λ x. eq x.id id && is_live x) (λ x. record x { last_seen_at = some now })
          d.devices;
  },
)

-- Store.RecordSeen
unfoldable pub record_seen : Text → ℕ → M (Unit {0})
record_seen id now = statement (stamp_seen id now)

-- Store.Count
unfoldable pub count : Scope → M ℕ
count scope = statement λ d. (ok (count_rows (in_scope scope) d.devices), d)
