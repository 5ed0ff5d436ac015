-- ===== src/Server/Tests.antt =====
-- Runs of the handlers that sign in, claim the installation and guard the others.
use headnet.Base.{◌≡◌, refl, ◌⊎◌, ◌==◌, true, false, none, some, [], ◌∷◌}
use headnet.Base.Int.{pos}
use headnet.Text.{
  codes, eq, split, decimal, digits_from, byte_length, trim_space, trim_left, is_space, hex,
}
use headnet.Platform.{hash_token}
use headnet.Schema.{User, admin, local, Session, Database, empty}
use headnet.Storage.{statement, interfere, rollback, finish, in_tx}
use headnet.Storage.Bind.{quiet}
use headnet.Storage.Metadata.{claim_bootstrap, insert_missing}
use headnet.Storage.Table.{any_row, find_row, count_rows, update_rows, delete_rows}
use headnet.Auth.Passwords.{
  is_valid, weaker_than, check_password_length, print_hash, hash_password, decode_hash,
  verify_password,
}
use headnet.Auth.Users.{
  create, insert_user, new_account, by_email, by_id, normalize_email, validate_email, role_of,
  verify, has_password, is_admin, rehash_password, set_password_hash, store_password, record_login,
  stamp_login,
}
use headnet.Auth.Sessions.{
  SessionStore, new_session, insert_session, store_session, issue, is_expired, read_session, admit,
  lookup, touch, delete_by_id, verify_csrf,
}
use headnet.Auth.AccountTests.{toy, store, stored, secret, random}
use headnet.Devices.Tests.{al}
use headnet.Api.{http_status}
use headnet.Server.{
  Server, Context, Request, post, decoded, session_cookies, cleared_cookies, session_response,
  user_response,
}
use headnet.Server.Access.{authenticated, require_session, require_csrf, require_admin}
use headnet.Server.Guards.{Reaches, is_denial, authenticated-Reaches}
use headnet.Server.Accounts.{
  LoginRequest, BootstrapRequest, Draws, verify_credentials, handle_login, handle_bootstrap,
  handle_session, claim_and_create, invalid_credentials,
}
use headnet.Server.SignIn.{SignedIn, handle_login-SignedIn, handle_login-refused}
use headnet.Server.Bootstrap.{handle_bootstrap-once}

program : Unit {0}
unfolding eq split decimal digits_from byte_length trim_space trim_left is_space hex hash_token
    statement interfere rollback finish in_tx claim_bootstrap insert_missing any_row find_row
    count_rows update_rows delete_rows is_valid weaker_than check_password_length print_hash
    hash_password decode_hash verify_password create insert_user new_account by_email by_id
    normalize_email validate_email role_of verify has_password is_admin rehash_password
    set_password_hash store_password record_login stamp_login new_session insert_session
    store_session issue is_expired read_session admit lookup touch delete_by_id verify_csrf
    http_status session_cookies cleared_cookies session_response user_response authenticated
    require_session require_csrf require_admin verify_credentials handle_login handle_bootstrap
    handle_session claim_and_create
program = tt

abbrev ada : User
ada = record {
  id = codes "u1";
  email = codes "ada";
  email_norm = codes "ada";
  display_name = [];
  role = admin;
  provider = local;
  created_at = 0;
  updated_at = 0;
  last_login_at = none;
  password_hash = stored;
}

abbrev sessions : SessionStore
sessions = record { lifetime = 100; idle_timeout = 0 }

abbrev current : Session
current = record {
  id = codes "s1";
  user_id = codes "u1";
  created_at = 0;
  last_used_at = 0;
  expires_at = 100;
  ip = [];
  user_agent = [];
  csrf_hash = hash_token toy.platform (codes "c");
  token_hash = hash_token toy.platform (codes "t");
}

abbrev registered : Database
registered = record empty { users = ada ∷ []; sessions = current ∷ [] }

abbrev server : Server
server = record {
  libraries = toy;
  users = store;
  sessions = sessions;
  allocator = al;
  dummy_hash = stored;
  secure_cookies = true;
  instance_id = codes "i";
  providers = codes "local" ∷ [];
}

abbrev posted : Request
posted = record {
  method = post;
  session_cookie = some (codes "t");
  csrf_header = codes "c";
  authorization = [];
  content_length = pos 0;
  transfer_encoding = [];
  ip = codes "::1";
  user_agent = [];
  path_id = [];
  now = 7;
}

abbrev draws : Draws
draws = record {
  random = random;
  user_id = codes "u2";
  session_id = codes "s2";
  token = some (codes "x");
  csrf_token = some (codes "y");
  remaining = pos 100;
}

abbrev right : LoginRequest
right = record { email = codes "ada "; password = secret }

abbrev wrong : LoginRequest
wrong = record { email = codes "ada"; password = codes "guess" }

handle_login-SignedIn_example :
    SignedIn server posted draws right
      (quiet registered)
      (handle_login server posted draws (decoded right) (quiet registered))
unfolding program
handle_login-SignedIn_example =
    handle_login-SignedIn server posted draws right (quiet registered) refl

handle_login-refused_example :
    handle_login server posted draws (decoded wrong) (quiet registered)
    ≡ (invalid_credentials, quiet registered)
unfolding program
handle_login-refused_example = handle_login-refused server posted draws wrong registered refl

abbrev nowhere : Context
nowhere = record { session = none; user = none }

authenticated-Reaches_example :
    Reaches server
      (handle_session server)
      true
      posted
      (quiet registered)
      (authenticated server (handle_session server) true nowhere posted (quiet registered))
    ⊎ (is_denial
          (authenticated server
            (handle_session server)
            true
            nowhere
            posted
            (quiet registered)).0.body
        ≡ true)
authenticated-Reaches_example =
    authenticated-Reaches server (handle_session server) true posted (quiet registered) nowhere

abbrev first : BootstrapRequest
first = record { email = codes "eve"; password = secret; display_name = [] }

handle_bootstrap-once_example :
    ((handle_bootstrap server posted draws
        (codes "later")
        (decoded first)
        (handle_bootstrap server posted draws
          (codes "now")
          (decoded first)
          (quiet empty)).1).0.status
      == 201)
    ≡ false
unfolding program
handle_bootstrap-once_example =
    handle_bootstrap-once server posted posted draws draws (codes "now") (codes "later") first first
      (quiet empty) tt refl
