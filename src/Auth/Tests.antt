-- ===== src/Auth/Tests.antt =====
-- Runs of the session store, with a lifetime of 1000 seconds and an idle timeout of 300.
use headnet.Base.{ℕ, ◌*◌, ◌≡◌, refl, true, false, none, some, [], ◌∷◌}
use headnet.Text.{Text, codes, eq, hex}
use headnet.Platform.{Platform, hash_token}
use headnet.Schema.{User, admin, local, Session, Database, empty}
use headnet.Storage.{Error, ok, err, statement, session_expired, session_not_found}
use headnet.Storage.Table.{any_row, find_row, count_rows, delete_rows, update_rows}
use headnet.Storage.Bind.{quiet}
use headnet.Auth.Sessions.{
  SessionStore, Meta, new_session, insert_session, store_session, issue, is_expired, delete_by_id,
  touch, read_session, admit, lookup, delete_by_token, revoke, delete_by_user, revoke_all_for_user,
  verify_csrf,
}
use headnet.Auth.Validity.{IsAccepted, lookup-IsAccepted}
use headnet.Auth.Requests.{looks_up, perform, serve}
use headnet.Auth.Logout.{revoke-lookup, revoke_all_for_user-lookup}
use headnet.Auth.RoundTrip.{issue-lookup}

program : Unit {0}
unfolding eq hex hash_token statement any_row find_row count_rows delete_rows update_rows
    new_session insert_session store_session issue is_expired delete_by_id touch read_session admit
    lookup delete_by_token revoke delete_by_user revoke_all_for_user verify_csrf perform serve
program = tt

abbrev plain : Platform
plain = record {
  sha256 = λ t. t;
  decode_base64 = λ t. none;
  decode_raw_url = λ t. none;
  to_lower = λ c. c;
}

abbrev second : ℕ
second = 1_000_000_000

abbrev store : SessionStore
store = record { lifetime = 1000 * second; idle_timeout = 300 * second }

abbrev alice : Text
alice = codes "ua"

abbrev user : Text → User
user id = record {
  id = id;
  email = [];
  email_norm = [];
  display_name = [];
  role = admin;
  provider = local;
  created_at = 0;
  updated_at = 0;
  last_login_at = none;
  password_hash = [];
}

abbrev browser : Meta
browser = record { ip = codes "::1"; user_agent = codes "x" }

abbrev session : Text → Text → Session
session owner token = new_session plain store owner browser 0 token token (codes "c")

abbrev two : Database
two = record empty {
  users = user alice ∷ user (codes "ub") ∷ [];
  sessions = session alice (codes "s") ∷ session (codes "ub") (codes "t") ∷ [];
}

main :
    ((lookup plain store (codes "s") (30 * second) (quiet two)).0 ≡ ok (session alice (codes "s")))
    × ((lookup plain store (codes "s") (300 * second) (quiet two)).0 ≡ err session_expired)
    × ((lookup plain store (codes "v") 5 (quiet two)).0 ≡ err session_not_found)
    × (verify_csrf plain (session alice (codes "s")) (codes "c") ≡ true)
unfolding program
main = (refl, refl, refl, refl)

lookup-IsAccepted_example :
    IsAccepted plain store
      (codes "s")
      (90 * second)
      (quiet two)
      (record (session alice (codes "s")) { last_used_at = 90 * second })
unfolding program
lookup-IsAccepted_example = lookup-IsAccepted plain store (codes "s") (90 * second) (quiet two) refl

revoke-lookup_example :
    (e : Error) × ((lookup plain store (codes "s") 7 (
        serve plain store (looks_up (codes "t") 6 ∷ []) (revoke plain (codes "s") (quiet two)).1)).0
      ≡ err e)
unfolding program
revoke-lookup_example =
    revoke-lookup plain store (codes "s") 7 (looks_up (codes "t") 6 ∷ []) (quiet two) tt (tt, tt)
      refl

revoke_all_for_user-lookup_example : eq (codes "ub") alice ≡ false
unfolding program
revoke_all_for_user-lookup_example =
    revoke_all_for_user-lookup plain store alice 1 7 (codes "t") (looks_up (codes "t") 6 ∷ [])
      (quiet two) {s = session (codes "ub") (codes "t")} tt (tt, tt) refl refl

issue-lookup_example :
    (lookup plain store
      (codes "v")
      (90 * second)
      (issue plain store alice browser 0
        (codes "n")
        (some (codes "v"))
        (some (codes "c"))
        (quiet two)).1).0
    ≡ ok (record (new_session plain store alice browser 0 (codes "n") (codes "v") (codes "c")) {
      last_used_at = 90 * second;
    })
unfolding program
issue-lookup_example =
    issue-lookup plain store alice browser 0 (codes "n") (codes "v") (codes "c") two (90 * second)
      refl refl refl refl refl
