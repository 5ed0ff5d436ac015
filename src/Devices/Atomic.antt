-- ===== src/Devices/Atomic.antt =====
-- A registration or an enrolment that fails leaves nothing behind.
use headnet.Base.{ℕ, ◌≡◌, Option, none, some, [], Bool-cases, inl, inr}
use headnet.Text.{Text, eq}
use headnet.Platform.{Platform}
use headnet.Netip.{Family}
use headnet.Schema.{SetupKey}
use headnet.Storage.{Error, err, World}
use headnet.Storage.Rollback.{
  Untouched, IsAtomic, IsAtomic-raise, IsAtomic-lift, IsAtomic-read, IsAtomic-then_pure,
  atomic_rules,
}
use headnet.Auth.Tokens.{from_entropy}
use headnet.Network.{Allocator}
use headnet.Devices.SetupKeys.{redeemable, setup_key_by_token}
use headnet.Devices.Inventory.{NewDevice, create, register, enroll, redeem_for}

module _ (p : Platform) (al : Allocator) (new : NewDevice) (now : ℕ) (id : Text)
    (choices : Family → ℕ → ℕ) where
  -- When create fails, at whichever statement, no row of it is left: no device, no address, no
  -- credential, and a setup key that was spent is unspent.
  pub create-IsAtomic :
      (user_id setup_key_id token_hash : Text)
      → IsAtomic (create p al user_id new setup_key_id token_hash now id choices)
  unfolding create
  create-IsAtomic user_id setup_key_id token_hash = search atomic_rules

  pub register-IsAtomic : (user_id : Text) → IsAtomic (register p al user_id new now id choices)
  unfolding register
  register-IsAtomic user_id = search (atomic_rules, create-IsAtomic)

  redeem_for-IsAtomic :
      (key : SetupKey) (reason : Option Error) (entropy : Option Text)
      → IsAtomic (redeem_for p al new now entropy id choices key reason)
  redeem_for-IsAtomic key (some reason) entropy = search atomic_rules
  redeem_for-IsAtomic key none entropy =
      IsAtomic-lift (from_entropy entropy) _
        (λ random. IsAtomic-then_pure _ _ (create-IsAtomic key.created_by key.id _))

  enroll-IsAtomic :
      (token : Text) (entropy : Option Text)
      → IsAtomic (enroll p al token new now entropy id choices)
  unfolding enroll setup_key_by_token
  enroll-IsAtomic token entropy = elim (Bool-cases (eq token [])) [
    | inl blank ↦ rw blank (IsAtomic-raise _)
    | inr present ↦
        rw present (IsAtomic-read _ _ (λ key. redeem_for-IsAtomic key (redeemable key now) entropy))
  ]

  -- When Enroll fails, at whichever check or statement, the database is what the other connections
  -- made of it meanwhile: the setup key is not spent, and there is no device, no address and no
  -- credential of the enrolment.
  pub enroll-err :
      (token : Text) (entropy : Option Text) (w : World) {e : Error} {w' : World}
      → enroll p al token new now entropy id choices w ≡ (err e, w')
      → Untouched w w'
  enroll-err token entropy w h = (enroll-IsAtomic token entropy).at w h

  -- When Register fails, at whichever check or statement, the database is what the other
  -- connections made of it meanwhile: there is no device and no address of the registration.
  register-err :
      (user_id : Text) (w : World) {e : Error} {w' : World}
      → register p al user_id new now id choices w ≡ (err e, w')
      → Untouched w w'
  register-err user_id w h = (register-IsAtomic user_id).at w h
