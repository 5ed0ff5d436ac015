-- ===== src/Schema.antt =====
-- The rows of the database, named after the Go structs that are scanned from them, and the database
-- as the record of its tables. A table is a list of rows. Instants and durations are nanoseconds.
use headnet.Base.{ℕ, List, [], Option}
use headnet.Text.{Text}
use headnet.Netip.{Addr, Family}

-- A column that holds the text of an address: what netip.ParseAddr makes of it.
pub data AddressText : Type 0 where
  parsed : Addr → AddressText
  unparseable : AddressText

pub record Allocation : Type 0 where
  pub address : AddressText
  pub family : Family
  pub owner_id : Text
  pub allocated_at : ℕ

pub record SetupKey : Type 0 where
  pub id : Text
  pub display_hint : Text
  pub description : Text
  -- The tags joined by commas.
  pub tags : Text
  pub created_by : Text
  pub created_at : ℕ
  pub expires_at : Option ℕ
  pub max_uses : ℕ
  pub uses : ℕ
  pub revoked_at : Option ℕ
  pub key_hash : Text

pub record Device : Type 0 where
  pub id : Text
  pub user_id : Text
  pub name : Text
  pub public_key : Text
  pub os : Text
  pub hostname : Text
  pub ipv4 : Option Addr
  pub ipv6 : Option Addr
  pub enrolled_with : Text
  pub created_at : ℕ
  pub last_seen_at : Option ℕ
  pub revoked_at : Option ℕ

pub record DeviceToken : Type 0 where
  pub device_id : Text
  pub token_hash : Text
  pub created_at : ℕ

pub record Session : Type 0 where
  pub id : Text
  pub user_id : Text
  pub created_at : ℕ
  pub last_used_at : ℕ
  pub expires_at : ℕ
  pub ip : Text
  pub user_agent : Text
  pub csrf_hash : Text
  pub token_hash : Text

pub data Role : Type 0 where
  admin member : Role

pub data Provider : Type 0 where
  local oidc : Provider

pub record User : Type 0 where
  pub id : Text
  pub email : Text
  pub email_norm : Text
  pub display_name : Text
  pub role : Role
  pub provider : Provider
  pub created_at : ℕ
  pub updated_at : ℕ
  pub last_login_at : Option ℕ
  pub password_hash : Text

pub record Metadata : Type 0 where
  pub key : Text
  pub value : Text
  pub created_at : ℕ
  pub updated_at : ℕ

-- A row of the migration ledger.
pub record AppliedMigration : Type 0 where
  pub version : ℕ
  pub name : Text
  pub checksum : Text
  pub applied_at : ℕ

pub record Database : Type 0 where
  pub schema_migrations : List AppliedMigration
  pub metadata : List Metadata
  pub users : List User
  pub allocations : List Allocation
  pub setup_keys : List SetupKey
  pub devices : List Device
  pub device_tokens : List DeviceToken
  pub sessions : List Session

abbrev pub empty : Database
empty = record {
  schema_migrations = [];
  metadata = [];
  users = [];
  allocations = [];
  setup_keys = [];
  devices = [];
  device_tokens = [];
  sessions = [];
}
