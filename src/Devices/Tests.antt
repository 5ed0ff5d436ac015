-- ===== src/Devices/Tests.antt =====
-- Runs of the inventory: two devices with credentials, and a setup key for one use.
use headnet.Base.{ℕ, ◌+◌, ◌≡◌, refl, true, false, none, some, [], ◌∷◌, ◌++◌, take}
use Prim.Native.String.{String}
use headnet.Text.{
  Text, codes, eq, is_space, trim_left, trim_space, byte_length, cut_prefix, split, join, hex,
}
use headnet.Platform.{Platform, hash_token}
use headnet.Netip.{Addr, Family, ip4, contains, next, has_addr}
use headnet.Schema.{User, admin, local, SetupKey, Database, Device, empty}
use headnet.Storage.{
  World, ok, err, statement, interfere, rollback, finish, in_tx, device_token_invalid,
  key_exhausted,
}
use headnet.Storage.Table.{any_row, select_rows, count_rows, delete_rows, find_row, update_rows}
use headnet.Storage.Bind.{quiet}
use headnet.Storage.Rollback.{Untouched}
use headnet.Network.{
  Allocator, addrs, new_allocator, last_addr, to_bytes, from_bytes, set_host_bits, free_from,
  free_addresses, nth, pick_candidate, collect_taken, taken_in, insert_allocation, attempts,
  allocate_from, assign_rows, addresses_of, allocate, delete_allocations, release,
}
use headnet.Devices.SetupKeys.{
  revoked, expired, exhausted, redeemable, normalise_from, normalise_tags, split_tags,
  insert_setup_key, create_setup_key, setup_key_by_token, setup_key_by_id,
  mark_revoked as mark_key_revoked, revoke_setup_key, consumable, spend, consume_setup_key,
}
use headnet.Devices.Inventory.{
  NewDevice, Scope, validate_public_key, insert_device, insert_device_token, new_device, redeem,
  create_rows, create, register, enroll, by_id, mark_revoked, delete_tokens, revoke_rows, revoke,
  stamp_seen, record_seen, count,
}
use headnet.Devices.Tokens.{valid_device_token, authenticate, mark_seen, heartbeat}
use headnet.Devices.Requests.{Request, sees, enrolls, perform, serve}
use headnet.Devices.Uses.{consumable-redeemable}
use headnet.Devices.Atomic.{enroll-err}
use headnet.Devices.Revocation.{revoke-authenticate}

program : Unit {0}
unfolding eq is_space trim_left trim_space byte_length cut_prefix split join hex hash_token contains
    next has_addr statement interfere rollback finish in_tx any_row select_rows count_rows
    delete_rows find_row update_rows addrs new_allocator last_addr to_bytes from_bytes set_host_bits
    free_from free_addresses nth pick_candidate collect_taken taken_in insert_allocation attempts
    allocate_from assign_rows addresses_of allocate delete_allocations release revoked expired
    exhausted redeemable normalise_from normalise_tags split_tags insert_setup_key create_setup_key
    setup_key_by_token setup_key_by_id mark_key_revoked revoke_setup_key consumable spend
    consume_setup_key validate_public_key insert_device insert_device_token new_device redeem
    create_rows create register enroll by_id mark_revoked delete_tokens revoke_rows revoke
    stamp_seen record_seen count valid_device_token authenticate mark_seen heartbeat perform serve
program = tt

abbrev last_of : Text → ℕ
last_of [] = 0
last_of (c ∷ []) = c
last_of (c ∷ d ∷ t) = last_of (d ∷ t)

-- A platform whose hash is the last character and whose decoders take texts as bytes.
abbrev pub plain : Platform
plain = record {
  sha256 = λ t. last_of t ∷ [];
  decode_base64 = λ t. some t;
  decode_raw_url = λ t. some (take 32 t);
  to_lower = λ c. c;
}

abbrev host : ℕ → Addr
host n = record { family = ip4; value = 167772160 + n }

abbrev pub al : Allocator
al = new_allocator (record { addr = host 0; bits = 29 }) none

abbrev alice : Text
alice = codes "usr_1"

abbrev pub owner : User
owner = record {
  id = alice;
  email = codes "a@x";
  email_norm = codes "a@x";
  display_name = [];
  role = admin;
  provider = local;
  created_at = 0;
  updated_at = 0;
  last_login_at = none;
  password_hash = [];
}

abbrev key : SetupKey
key = record {
  id = codes "key_1";
  display_hint = codes "secret";
  description = [];
  tags = [];
  created_by = alice;
  created_at = 0;
  expires_at = some 100;
  max_uses = 1;
  uses = 0;
  revoked_at = none;
  key_hash = hash_token plain (codes "secret");
}

abbrev named : String → String → SetupKey
named n secret = record key { id = codes n; key_hash = hash_token plain (codes secret) }

-- 43 characters
abbrev pub random_1 : Text
random_1 = codes "aaaaaaaaaaaaaaaaaaaaaaaaaaaaaaaaaaaaaaaaaaa"

abbrev random_2 : Text
random_2 = codes "bbbbbbbbbbbbbbbbbbbbbbbbbbbbbbbbbbbbbbbbbbb"

abbrev pub laptop : NewDevice
laptop = record {
  name = codes " laptop ";
  public_key = codes "kkkkkkkkkkkkkkkkkkkkkkkkkkkkkkkk";
  os = [];
  hostname = [];
}

abbrev pub phone : NewDevice
phone = record {
  name = codes "phone";
  public_key = codes "pppppppppppppppppppppppppppppppp";
  os = [];
  hostname = [];
}

abbrev pub start : Database
start = record empty {
  users = owner ∷ [];
  setup_keys = key ∷ named "2" "other" ∷ named "3" "third" ∷ [];
}

abbrev pub no_choice : Family → ℕ → ℕ
no_choice f n = 0

abbrev enrols_laptop : Request
enrols_laptop = enrolls (codes "secret") laptop 5 (some random_1) (codes "dev_1") no_choice

abbrev enrols_phone : Request
enrols_phone = enrolls (codes "other") phone 6 (some random_2) (codes "dev_2") no_choice

abbrev both : World
both = serve plain al (enrols_laptop ∷ enrols_phone ∷ []) (quiet start)

abbrev everywhere : Scope
everywhere = record { user_id = []; all = true }

abbrev token_1 : Text
token_1 = codes "hnd_" ++ random_1

abbrev pub token_2 : Text
token_2 = codes "hnd_" ++ random_2

main :
    ((authenticate plain token_1 both).0
      ≡ ok (record (new_device alice laptop laptop.public_key (codes "key_1") 5 (codes "dev_1")) {
        ipv4 = some (host 1);
      }))
    × ((authenticate plain token_1 (revoke (codes "dev_1") everywhere 9 both).1).0
        ≡ err device_token_invalid)
    × ((enroll plain al (codes "secret") phone 7 (some random_2) (codes "dev_3") no_choice both).0
        ≡ err key_exhausted)
unfolding program
main = (refl, refl, refl)

abbrev pub device_of : String → Text → Device
device_of id public_key = record {
  id = codes id;
  user_id = alice;
  name = codes id;
  public_key = public_key;
  os = [];
  hostname = [];
  ipv4 = none;
  ipv6 = none;
  enrolled_with = [];
  created_at = 0;
  last_seen_at = none;
  revoked_at = none;
}

-- Two devices with their credentials.
abbrev pub two : World
two = quiet (record empty {
  users = owner ∷ [];
  setup_keys = key ∷ [];
  devices = device_of "d1" laptop.public_key ∷ device_of "d2" phone.public_key ∷ [];
  device_tokens =
      record { device_id = codes "d1"; token_hash = hash_token plain token_1; created_at = 0 }
      ∷ record { device_id = codes "d2"; token_hash = hash_token plain token_2; created_at = 0 }
      ∷ [];
})

revoke-authenticate_example : eq (codes "d2") (codes "d1") ≡ false
unfolding program
revoke-authenticate_example =
    revoke-authenticate plain al (codes "d1") everywhere 9 (sees (codes "d2") 10 ∷ []) token_2 two
      tt (tt, tt) refl refl

-- The laptop's public key is taken, and the key stays unspent.
enroll-err_example :
    Untouched two
      (enroll plain al (codes "secret") laptop 7 (some random_2) (codes "d3") no_choice two).1
unfolding program
enroll-err_example =
    enroll-err plain al laptop 7 (codes "d3") no_choice (codes "secret") (some random_2) two refl

consumable-redeemable_example : consumable (codes "key_1") 50 key ≡ true
unfolding program
consumable-redeemable_example = consumable-redeemable (codes "key_1") 50 key
