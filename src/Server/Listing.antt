-- ===== src/Server/Listing.antt =====
-- internal/server/devices.go: the lists of devices and of setup keys.
use headnet.Base.{
  ℕ, ◌≡◌, refl, ap, subst, Bool, true, false, Option, none, some, List, [], ◌∷◌, map, All,
}
use headnet.Platform.{Platform}
use headnet.Text.{Text, eq}
use headnet.Schema.{User, Device, SetupKey}
use headnet.Storage.{Result, ok, err, World}
use headnet.Auth.Users.{is_admin}
use headnet.Devices.SetupKeys.{redeemable, split_tags}
use headnet.Devices.Listing.{list, list_setup_keys, list-All}
use headnet.Devices.Inventory.{in_scope}
use headnet.Server.{
  Server, Handler, Context, Request, Response, Body, settle, json, device_list, setup_key_list,
}
use headnet.Server.Access.{internal_error}
use headnet.Server.Devices.{for_user, scope_for}
use headnet.Server.SetupKeys.{is_usable}

abbrev pub devices_reply : Result (List Device) → World → Response × World
devices_reply (err e) w = (internal_error, w)
devices_reply (ok found) w = (json 200 (device_list found), w)

-- handleListDevices
unfoldable pub handle_list_devices : Server → Handler
unfolding list
handle_list_devices s context r =
    for_user context.user λ user. settle (list (scope_for user)) devices_reply

-- setupKeyResponse
unfoldable pub setup_key_response : Platform → ℕ → SetupKey → SetupKey × List Text × Bool
unfolding redeemable split_tags
setup_key_response p now key = (key, split_tags p key.tags, is_usable (redeemable key now))

abbrev pub keys_reply : Platform → ℕ → Result (List SetupKey) → World → Response × World
keys_reply p now (err e) w = (internal_error, w)
keys_reply p now (ok keys) w = (json 200 (setup_key_list (map (setup_key_response p now) keys)), w)

-- handleListSetupKeys
unfoldable pub handle_list_setup_keys : Server → Handler
unfolding list_setup_keys setup_key_response
handle_list_setup_keys s context r = settle list_setup_keys (keys_reply s.libraries.platform r.now)

abbrev listed_devices : Body → Option (List Device)
listed_devices (device_list found) = some found
listed_devices _ = none

-- The devices that a member may see.
abbrev pub AreOwn : User → List Device → Type 0
AreOwn user = All (λ (x : Device). eq x.user_id user.id ≡ true)

in_scope-own :
    (user : User) (found : List Device)
    → is_admin user ≡ false
    → All (λ (x : Device). in_scope (scope_for user) x ≡ true) found
    → AreOwn user found
in_scope-own user [] plain all = tt
in_scope-own user (x ∷ found) plain (here, all) =
    (rw plain at here, in_scope-own user found plain all)

-- handleListDevices shows a user who is not an administrator only devices of its own, whatever
-- other connections do and whichever statements fail.
pub handle_list_devices-AreOwn :
    (s : Server) (context : Context) (r : Request) (user : User) (w : World) {found : List Device}
    → context.user ≡ some user
    → is_admin user ≡ false
    → (handle_list_devices s context r w).0.body ≡ device_list found
    → AreOwn user found
unfolding handle_list_devices
handle_list_devices-AreOwn s context r user w {found} is plain answered =
    by_result (list (scope_for user) w).0 (list (scope_for user) w).1 refl (rw is at answered)
  where
    by_result :
        (result : Result (List Device)) (w' : World)
        → list (scope_for user) w ≡ (result, w')
        → (devices_reply result w').0.body ≡ device_list found
        → AreOwn user found
    by_result (err e) w' h shown =
        let never : none ≡ some found = ap listed_devices shown in absurd cc
    by_result (ok these) w' h shown =
        let shown_these : some these ≡ some found = ap listed_devices shown in
        let same : these ≡ found = cc in
        subst (AreOwn user) same
          (in_scope-own user these plain (list-All (scope_for user) w {found = these} {w' = w'} h))
