-- ===== src/Devices/Tokens.antt =====
-- internal/devices/token.go
use headnet.Base.{
  ℕ, ◌+◌, Bool, false, ◌&&◌, not, Option, none, some, List, ◌==◌, if◌then◌else◌, length,
}
use headnet.Text.{Text, eq, byte_length, cut_prefix}
use headnet.Platform.{Platform, hash_token}
use headnet.Schema.{Device, Database}
use headnet.Storage.{
  Result, ok, err, M, Statement, statement, ◌>>=◌, pure, raise, device_token_invalid,
}
use headnet.Storage.Table.{any_row, find_row, count_rows, update_rows}
use headnet.Devices.Inventory.{device_token_prefix, is_live}

abbrev pub is_token_body : Option (List ℕ) → Bool
is_token_body none = false
is_token_body (some raw) = length raw == 32

abbrev pub check_token_body : Platform → Option Text → Bool
check_token_body p none = false
check_token_body p (some body) = is_token_body (p.decode_raw_url body)

-- validDeviceToken
unfoldable pub valid_device_token : Platform → Text → Bool
valid_device_token p token =
    byte_length token == 4 + 43 && check_token_body p (cut_prefix device_token_prefix token)

-- WHERE revoked_at IS NULL AND id IN (SELECT device_id FROM device_tokens WHERE token_hash = ?)
abbrev pub holds_token : Text → Database → Device → Bool
holds_token hash d x =
    is_live x && any_row (λ t. eq t.token_hash hash && eq t.device_id x.id) d.device_tokens

abbrev pub or_invalid : Option Device → Result Device
or_invalid none = err device_token_invalid
or_invalid (some device) = ok device

-- Store.Authenticate
unfoldable pub authenticate : Platform → Text → M Device
authenticate p token =
    if not (valid_device_token p token)
    then raise device_token_invalid
    else statement λ d. (or_invalid (find_row (holds_token (hash_token p token) d) d.devices), d)

unfoldable pub mark_seen : Text → ℕ → Statement ℕ
mark_seen hash now d = (
  ok (count_rows (holds_token hash d) d.devices),
  record d {
    devices =
        update_rows (holds_token hash d) (λ x. record x { last_seen_at = some now }) d.devices;
  },
)

-- Store.Heartbeat
unfoldable pub heartbeat : Platform → Text → ℕ → M (Unit {0})
heartbeat p token now = if not (valid_device_token p token) then raise device_token_invalid else do
  affected ← statement (mark_seen (hash_token p token) now)
  if affected == 1 then pure tt else raise device_token_invalid
