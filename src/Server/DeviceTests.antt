-- ===== src/Server/DeviceTests.antt =====
-- Runs of the handlers for devices and setup keys.
use headnet.Base.{List, ◌≡◌, refl, false, true, none, some, [], ◌∷◌, ◌++◌}
use headnet.Base.Int.{pos}
use headnet.Text.{
  codes, eq, is_space, trim_left, trim_space, byte_length, cut_prefix, split, join, hex,
}
use headnet.Platform.{hash_token}
use headnet.Netip.{contains, next, has_addr}
use headnet.Schema.{SetupKey}
use headnet.Storage.{statement, interfere, rollback, finish, in_tx}
use headnet.Storage.Table.{any_row, select_rows, count_rows, delete_rows, find_row, update_rows}
use headnet.Storage.Bind.{quiet}
use headnet.Network.{
  addrs, new_allocator, last_addr, to_bytes, from_bytes, set_host_bits, free_from, free_addresses,
  nth, pick_candidate, collect_taken, taken_in, insert_allocation, attempts, allocate_from,
  assign_rows, addresses_of, allocate, delete_allocations, release,
}
use headnet.Devices.SetupKeys.{
  revoked, expired, exhausted, redeemable, normalise_from, normalise_tags, split_tags,
  insert_setup_key, create_setup_key, setup_key_by_token, setup_key_by_id,
  mark_revoked as mark_key_revoked, revoke_setup_key, consumable, spend, consume_setup_key,
}
use headnet.Devices.Inventory.{
  validate_public_key, insert_device, insert_device_token, new_device, redeem, create_rows, create,
  register, enroll, by_id, mark_revoked, delete_tokens, revoke_rows, revoke, stamp_seen,
  record_seen, count,
}
use headnet.Devices.Tokens.{valid_device_token, authenticate, mark_seen, heartbeat}
use headnet.Shared.{cut}
use headnet.Auth.AccountTests.{toy, store}
use headnet.Devices.Requests.{sees, perform, serve}
use headnet.Devices.Tests.{
  laptop, device_of, plain, al, owner, start, two, token_2, no_choice, phone, random_1,
}
use headnet.Auth.Users.{is_admin}
use headnet.Schema.{SetupKey}
use headnet.Api.{http_status}
use headnet.Server.{Server, Context, Request, get, decoded}
use headnet.Server.Devices.{
  EnrollRequest, is_setup_key_rejection, key_rejected, device_error, handle_enroll_device,
  handle_revoke_device, bearer_token, require_device, handle_device_me,
}
use headnet.Server.SetupKeys.{
  CreateKeyRequest, signed_word, hours_as_duration, handle_create_setup_key, new_setup_key,
}
use headnet.Devices.SetupKeys.{new_key}
use headnet.Server.Enrolment.{handle_enroll_device-rejected}
use headnet.Server.Removal.{handle_revoke_device-handle_device_me}
use headnet.Server.Listing.{handle_list_devices, AreOwn, handle_list_devices-AreOwn}
use headnet.Devices.Listing.{list}
use headnet.Base.Sorting.{insert_by, sort_by}
use headnet.Text.{text_leb}
use headnet.Schema.{Device, member, User}

program : Unit {0}
unfolding handle_list_devices list insert_by sort_by text_leb cut is_admin http_status
    is_setup_key_rejection device_error handle_enroll_device handle_revoke_device bearer_token
    require_device handle_device_me signed_word hours_as_duration handle_create_setup_key eq
    is_space trim_left trim_space byte_length cut_prefix split join hex hash_token contains next
    has_addr statement interfere rollback finish in_tx any_row select_rows count_rows delete_rows
    find_row update_rows addrs new_allocator last_addr to_bytes from_bytes set_host_bits free_from
    free_addresses nth pick_candidate collect_taken taken_in insert_allocation attempts
    allocate_from assign_rows addresses_of allocate delete_allocations release revoked expired
    exhausted redeemable normalise_from normalise_tags split_tags insert_setup_key create_setup_key
    setup_key_by_token setup_key_by_id mark_key_revoked revoke_setup_key consumable spend
    consume_setup_key validate_public_key insert_device insert_device_token new_device redeem
    create_rows create register enroll by_id mark_revoked delete_tokens revoke_rows revoke
    stamp_seen record_seen count valid_device_token authenticate mark_seen heartbeat perform serve
program = tt

abbrev server : Server
server = record {
  libraries = record toy { platform = plain };
  users = store;
  sessions = record { lifetime = 100; idle_timeout = 0 };
  allocator = al;
  dummy_hash = [];
  secure_cookies = true;
  instance_id = codes "i";
  providers = [];
}

abbrev asked : Request
asked = record {
  method = get;
  session_cookie = none;
  csrf_header = [];
  authorization = (codes "bearer " ++ token_2) ∷ [];
  content_length = pos 0;
  transfer_encoding = [];
  ip = codes "::1";
  user_agent = [];
  path_id = codes "d1";
  now = 9;
}

abbrev by_owner : Context
by_owner = record { session = none; user = some owner }

abbrev stranger : EnrollRequest
stranger = record { setup_key = codes "guess"; device = phone }

handle_enroll_device-rejected_example :
    handle_enroll_device server
      (some random_1)
      (codes "d9")
      no_choice
      (decoded stranger)
      asked
      (quiet start)
    ≡ (key_rejected, quiet start)
unfolding program
handle_enroll_device-rejected_example =
    handle_enroll_device-rejected server asked stranger (some random_1) (codes "d9") no_choice start
      refl

handle_revoke_device-handle_device_me_example : eq (codes "d2") (codes "d1") ≡ false
unfolding program
handle_revoke_device-handle_device_me_example =
    handle_revoke_device-handle_device_me server owner by_owner asked asked
      (sees (codes "d2") 10 ∷ []) two refl tt (tt, tt) refl refl

abbrev day_long : CreateKeyRequest
day_long = record {
  description = [];
  tags = [];
  expires_in_hours = pos 24;
  never_expires = false;
  max_uses = pos 1;
}

abbrev made : SetupKey
made = new_key plain owner.id (new_setup_key day_long) 9 (codes "k9") random_1

abbrev a_member : User
a_member = record owner { role = member }

abbrev by_member : Context
by_member = record { session = none; user = some a_member }

-- The devices of `two`, the one with the greater identifier first.
abbrev shown : List Device
shown = device_of "d2" phone.public_key ∷ device_of "d1" laptop.public_key ∷ []

handle_list_devices-AreOwn_example : AreOwn a_member shown
unfolding program
handle_list_devices-AreOwn_example =
    handle_list_devices-AreOwn server by_member asked a_member two {found = shown} refl refl refl
