-- ===== src/Devices/Serving.antt =====
-- An invariant that every statement keeps is kept by every request, however it ends.
use headnet.Base.{ℕ, zero, suc, Option, none, some, List, [], ◌∷◌, All}
use headnet.Text.{Text}
use headnet.Platform.{Platform}
use headnet.Netip.{Addr, Prefix, Family}
use headnet.Schema.{Device, DeviceToken, SetupKey, Database}
use headnet.Storage.{World, Error, Result, statement}
use headnet.Storage.Keeps.{Keeps, Stable, Keeps-statement, keeps_rules}
use headnet.Network.{
  Allocator, insert_allocation, delete_allocations, attempts, allocate_from, allocate_ip6, allocate,
  release, taken_in, addresses_of,
}
use headnet.Devices.SetupKeys.{
  NewSetupKey, insert_setup_key, new_key, mark_revoked as mark_key_revoked, spend, create_setup_key,
  setup_key_by_token, setup_key_by_id, revoke_setup_key, consume_setup_key,
}
use headnet.Devices.Inventory.{
  NewDevice, Scope, insert_device, insert_device_token, mark_revoked, delete_tokens, stamp_seen,
  redeem, create_rows, create, register, enroll, redeem_for, by_id, revoke_rows, revoke,
  record_seen, new_device,
}
use headnet.Devices.Tokens.{mark_seen, heartbeat}
use headnet.Devices.Requests.{
  Request, registers, enrolls, revokes, sees, beats, creates_key, revokes_key, perform, serve,
  OnNewId, Respects,
}

module _ {P : Database → Type 0} {Good : Text → Type 0} (v : Respects P Good) (p : Platform)
    (al : Allocator) where
  reads : {A : Type 0} (f : Database → Result A) → Keeps P (statement (λ d. (f d, d)))
  reads f = Keeps-statement _ (λ d h. h)

  attempts-Keeps :
      (pool : Prefix) (owner : Text) (now : ℕ) (choices : ℕ → ℕ) (left attempt : ℕ)
      (taken : List Addr)
      → Keeps P (attempts al pool owner now choices left attempt taken)
  unfolding attempts taken_in
  attempts-Keeps pool owner now choices zero attempt taken = search keeps_rules
  attempts-Keeps pool owner now choices (suc left) attempt taken =
      let retry =
        λ (taken' : List Addr). attempts-Keeps pool owner now choices left (suc attempt) taken' in
      let inserts = λ (a : Addr).
        Keeps-statement (insert_allocation a owner now) (v.inserts_allocation a owner now) in
      search (keeps_rules, reads, inserts, retry) depth 9

  allocate_from-Keeps :
      (pool : Prefix) (owner : Text) (now : ℕ) (choices : ℕ → ℕ)
      → Keeps P (allocate_from al pool owner now choices)
  unfolding allocate_from taken_in
  allocate_from-Keeps pool owner now choices = search (keeps_rules, reads, attempts-Keeps)

  allocate_ip6-Keeps :
      (pool : Option Prefix) (owner : Text) (now : ℕ) (choices : ℕ → ℕ)
      → Keeps P (allocate_ip6 al pool owner now choices)
  allocate_ip6-Keeps none owner now choices = search keeps_rules
  allocate_ip6-Keeps (some pool) owner now choices = search (keeps_rules, allocate_from-Keeps)

  allocate-Keeps :
      (owner : Text) (now : ℕ) (choices : Family → ℕ → ℕ) → Keeps P (allocate al owner now choices)
  unfolding allocate addresses_of
  allocate-Keeps owner now choices =
      search (keeps_rules, reads, allocate_from-Keeps, allocate_ip6-Keeps) depth 9

  setup_key_by_id-Keeps : (id : Text) → Keeps P (setup_key_by_id id)
  unfolding setup_key_by_id
  setup_key_by_id-Keeps id = reads _

  spend-Keeps : (id : Text) (now : ℕ) → Keeps P (statement (spend id now))
  spend-Keeps id now = Keeps-statement (spend id now) (v.spends id now)

  consume_setup_key-Keeps : (id : Text) (now : ℕ) → Keeps P (consume_setup_key id now)
  unfolding consume_setup_key
  consume_setup_key-Keeps id now = search (keeps_rules, setup_key_by_id-Keeps, spend-Keeps)

  redeem-Keeps : (id : Text) (now : ℕ) → Keeps P (redeem id now)
  unfolding redeem
  redeem-Keeps id now = search (keeps_rules, setup_key_by_id-Keeps, consume_setup_key-Keeps)

  create_rows-Keeps :
      (draft : Device) (token_hash : Text) (now : ℕ) (choices : Family → ℕ → ℕ)
      → Good draft.id
      → Keeps P (create_rows al draft token_hash now choices)
  unfolding create_rows
  create_rows-Keeps draft token_hash now choices good =
      let inserts =
        λ (x : Device) (g : Good x.id). Keeps-statement (insert_device x) (v.inserts_device x g) in
      let tokens =
        λ (t : DeviceToken). Keeps-statement (insert_device_token t) (v.inserts_token t) in
      search (keeps_rules, redeem-Keeps, allocate-Keeps, inserts, tokens) depth 9

  create-Keeps :
      (user_id : Text) (new : NewDevice) (key_id hash : Text) (now : ℕ) (id : Text)
      (choices : Family → ℕ → ℕ)
      → Good id
      → Keeps P (create p al user_id new key_id hash now id choices)
  unfolding create new_device
  create-Keeps user_id new key_id hash now id choices good =
      search (keeps_rules, create_rows-Keeps, good)

  register-Keeps :
      (user : Text) (new : NewDevice) (now : ℕ) (id : Text) (choices : Family → ℕ → ℕ)
      → Good id
      → Keeps P (register p al user new now id choices)
  unfolding register
  register-Keeps user new now id choices good = search (keeps_rules, create-Keeps)

  redeem_for-Keeps :
      (new : NewDevice) (now : ℕ) (entropy : Option Text) (id : Text) (choices : Family → ℕ → ℕ)
      (key : SetupKey) (reason : Option Error)
      → Good id
      → Keeps P (redeem_for p al new now entropy id choices key reason)
  redeem_for-Keeps new now entropy id choices key (some reason) good = search keeps_rules
  redeem_for-Keeps new now entropy id choices key none good = search (keeps_rules, create-Keeps)

  enroll-Keeps :
      (token : Text) (new : NewDevice) (now : ℕ) (entropy : Option Text) (id : Text)
      (choices : Family → ℕ → ℕ)
      → Good id
      → Keeps P (enroll p al token new now entropy id choices)
  unfolding enroll setup_key_by_token
  enroll-Keeps token new now entropy id choices good = search (keeps_rules, reads, redeem_for-Keeps)

  revoke-Keeps : (id : Text) (scope : Scope) (now : ℕ) → Keeps P (revoke id scope now)
  unfolding revoke by_id revoke_rows release
  revoke-Keeps id scope now =
      let releases = λ (owner : Text).
        Keeps-statement (delete_allocations owner) (v.deletes_allocations owner) in
      let marks = λ (x : Text). Keeps-statement (mark_revoked x now) (v.revokes_devices x now) in
      let deletes = λ (x : Text). Keeps-statement (delete_tokens x) (v.deletes_tokens x) in
      search (keeps_rules, reads, releases, marks, deletes) depth 9

  heartbeat-Keeps : (token : Text) (now : ℕ) → Keeps P (heartbeat p token now)
  unfolding heartbeat
  heartbeat-Keeps token now =
      let marks = λ (hash : Text). Keeps-statement (mark_seen hash now) (v.marks hash now) in
      search (keeps_rules, marks)

  create_setup_key-Keeps :
      (user : Text) (new : NewSetupKey) (now : ℕ) (id : Text) (entropy : Option Text)
      → Keeps P (create_setup_key p user new now id entropy)
  unfolding create_setup_key
  create_setup_key-Keeps user new now id entropy =
      let inserts = λ (token : Text).
        Keeps-statement (insert_setup_key (new_key p user new now id token))
          (v.inserts_key p user new now id token) in
      search (keeps_rules, inserts)

  mark_key_revoked-Keeps : (id : Text) (now : ℕ) → Keeps P (statement (mark_key_revoked id now))
  mark_key_revoked-Keeps id now = Keeps-statement (mark_key_revoked id now) (v.revokes_keys id now)

  revoke_setup_key-Keeps : (id : Text) (now : ℕ) → Keeps P (revoke_setup_key id now)
  unfolding revoke_setup_key
  revoke_setup_key-Keeps id now =
      search (keeps_rules, setup_key_by_id-Keeps, mark_key_revoked-Keeps)

  abbrev pub Holds : World → Type 0
  Holds w = Stable P w.events × P w.db

  perform-Keeps : (r : Request) (w : World) → OnNewId Good r → Holds w → Holds (perform p al r w)
  unfolding perform record_seen
  perform-Keeps (registers user new now id choices) w g h =
      (register-Keeps user new now id choices g).at w h.0 h.1
  perform-Keeps (enrolls token new now entropy id choices) w g h =
      (enroll-Keeps token new now entropy id choices g).at w h.0 h.1
  perform-Keeps (revokes id scope now) w g h = (revoke-Keeps id scope now).at w h.0 h.1
  perform-Keeps (sees id now) w g h =
      (Keeps-statement (stamp_seen id now) (v.stamps id now)).at w h.0 h.1
  perform-Keeps (beats token now) w g h = (heartbeat-Keeps token now).at w h.0 h.1
  perform-Keeps (creates_key user new now id entropy) w g h =
      (create_setup_key-Keeps user new now id entropy).at w h.0 h.1
  perform-Keeps (revokes_key id now) w g h = (revoke_setup_key-Keeps id now).at w h.0 h.1

  pub serve-Holds :
      (rs : List Request) (w : World) → All (OnNewId Good) rs → Holds w → Holds (serve p al rs w)
  unfolding serve
  serve-Holds [] w g h = h
  serve-Holds (r ∷ rs) w g h = serve-Holds rs (perform p al r w) g.1 (perform-Keeps r w g.0 h)

  -- From a database with `P`, among other connections that keep `P`, whatever requests are served
  -- and however they end, the database has `P`.
  pub serve-Keeps :
      (rs : List Request) (w : World)
      → All (OnNewId Good) rs
      → Stable P w.events
      → P w.db
      → P (serve p al rs w).db
  serve-Keeps rs w g st h = (serve-Holds rs w g (st, h)).1
