-- ===== src/Devices/Requests.antt =====
-- The operations of devices.Store that write, as requests, and a store that serves them one after
-- the other.
use headnet.Base.{ℕ, Option, List, [], ◌∷◌}
use headnet.Text.{Text}
use headnet.Platform.{Platform}
use headnet.Netip.{Addr, Family}
use headnet.Schema.{Device, DeviceToken, Database}
use headnet.Storage.{World, Statement}
use headnet.Network.{Allocator, insert_allocation, delete_allocations}
use headnet.Devices.SetupKeys.{
  NewSetupKey, insert_setup_key, new_key, mark_revoked as mark_key_revoked, spend, create_setup_key,
  revoke_setup_key,
}
use headnet.Devices.Inventory.{
  NewDevice, Scope, insert_device, insert_device_token, mark_revoked, delete_tokens, stamp_seen,
  register, enroll, revoke, record_seen,
}
use headnet.Devices.Tokens.{mark_seen, heartbeat}

pub data Request : Type 0 where
  registers : Text → NewDevice → ℕ → Text → (Family → ℕ → ℕ) → Request
  enrolls : Text → NewDevice → ℕ → Option Text → Text → (Family → ℕ → ℕ) → Request
  revokes : Text → Scope → ℕ → Request
  sees : Text → ℕ → Request
  beats : Text → ℕ → Request
  creates_key : Text → NewSetupKey → ℕ → Text → Option Text → Request
  revokes_key : Text → ℕ → Request

-- The world that a request leaves, whether it succeeds or fails.
unfoldable pub perform : Platform → Allocator → Request → World → World
perform p al (registers user new now id choices) w = (register p al user new now id choices w).1
perform p al (enrolls token new now entropy id choices) w =
    (enroll p al token new now entropy id choices w).1
perform p al (revokes id scope now) w = (revoke id scope now w).1
perform p al (sees id now) w = (record_seen id now w).1
perform p al (beats token now) w = (heartbeat p token now w).1
perform p al (creates_key user new now id entropy) w =
    (create_setup_key p user new now id entropy w).1
perform p al (revokes_key id now) w = (revoke_setup_key id now w).1

unfoldable pub serve : Platform → Allocator → List Request → World → World
unfolding perform
serve p al [] w = w
serve p al (r ∷ rs) w = serve p al rs (perform p al r w)

-- A condition on the identifier that a request gives a new device.
abbrev pub OnNewId : (Text → Type 0) → Request → Type 0
OnNewId Good (registers user new now id choices) = Good id
OnNewId Good (enrolls token new now entropy id choices) = Good id
OnNewId Good _ = Unit {0}

abbrev pub NoCondition : Text → Type 0
NoCondition id = Unit {0}

abbrev pub Preserves : {A : Type 0} → (Database → Type 0) → Statement A → Type 0
Preserves P s = (d : Database) → P d → P (s d).1

-- Every statement that writes keeps `P`, given that new devices have good identifiers.
pub record Respects (P : Database → Type 0) (Good : Text → Type 0) : Type 0 where
  pub inserts_allocation :
      (a : Addr) (owner : Text) (now : ℕ) → Preserves P (insert_allocation a owner now)
  pub deletes_allocations : (owner : Text) → Preserves P (delete_allocations owner)
  pub spends : (id : Text) (now : ℕ) → Preserves P (spend id now)
  pub inserts_key :
      (p : Platform) (user : Text) (new : NewSetupKey) (now : ℕ) (id token : Text)
      → Preserves P (insert_setup_key (new_key p user new now id token))
  pub revokes_keys : (id : Text) (now : ℕ) → Preserves P (mark_key_revoked id now)
  pub inserts_device : (x : Device) → Good x.id → Preserves P (insert_device x)
  pub inserts_token : (t : DeviceToken) → Preserves P (insert_device_token t)
  pub revokes_devices : (id : Text) (now : ℕ) → Preserves P (mark_revoked id now)
  pub deletes_tokens : (id : Text) → Preserves P (delete_tokens id)
  pub stamps : (id : Text) (now : ℕ) → Preserves P (stamp_seen id now)
  pub marks : (hash : Text) (now : ℕ) → Preserves P (mark_seen hash now)
