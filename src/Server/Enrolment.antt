-- ===== src/Server/Enrolment.antt =====
-- An enrolment that is turned away for its key learns nothing about the key.
use headnet.Base.{
  ℕ, ◌≡◌, refl, subst, inl, inr, Bool, true, false, Option, none, some, [], Bool-cases,
}
use headnet.Text.{Text, eq}
use headnet.Platform.{hash_token}
use headnet.Netip.{Family}
use headnet.Schema.{SetupKey, Database}
use headnet.Storage.{Error, statement, key_revoked, key_expired, key_exhausted, continue}
use headnet.Storage.Bind.{quiet}
use headnet.Storage.Table.{find_row}
use headnet.Devices.SetupKeys.{
  redeemable, revoked, expired, exhausted, setup_key_by_token, or_not_found,
}
use headnet.Devices.Inventory.{enroll, redeem_for}
use headnet.Server.{Server, Request, decoded, settle}
use headnet.Server.Devices.{
  EnrollRequest, is_setup_key_rejection, key_rejected, enrolled, handle_enroll_device,
}
use headnet.Server.SetupKeys.{is_usable}

same_reason :
    (known e : Error)
    → ◌≡◌ {A = Option Error} (some known) (some e)
    → is_setup_key_rejection known ≡ true
    → is_setup_key_rejection e ≡ true
same_reason known e h k =
    let same : known ≡ e = cc in subst (λ (x : Error). is_setup_key_rejection x ≡ true) same k

redeemable-rejection :
    (key : SetupKey) (now : ℕ) {e : Error}
    → redeemable key now ≡ some e
    → is_setup_key_rejection e ≡ true
unfolding redeemable is_setup_key_rejection
redeemable-rejection key now {e} h = elim (Bool-cases (revoked key)) [
  | inl gone ↦ same_reason key_revoked e (rw gone at h) refl
  | inr held ↦ elim (Bool-cases (expired key now)) [
    | inl late ↦ same_reason key_expired e (rw (held, late) at h) refl
    | inr early ↦ elim (Bool-cases (exhausted key)) [
      | inl spent ↦ same_reason key_exhausted e (rw (held, early, spent) at h) refl
      | inr left ↦ let never : none ≡ some e = rw (held, early, left) at h in cc
    ]
  ]
]

-- The key exists and may be used.
abbrev pub admits : ℕ → Option SetupKey → Bool
admits now none = false
admits now (some key) = is_usable (redeemable key now)

module _ (s : Server) (r : Request) (input : EnrollRequest) (entropy : Option Text) (id : Text)
    (choices : Family → ℕ → ℕ) where
  abbrev with_key : SetupKey → Bool
  with_key k = eq k.key_hash (hash_token s.libraries.platform input.setup_key)

  key_found :
      (d : Database) (key : SetupKey) (reason : Option Error)
      → redeemable key r.now ≡ reason
      → is_usable reason ≡ false
      → settle
          (redeem_for s.libraries.platform s.allocator input.device r.now entropy id choices key
            reason)
          (enrolled s)
          (quiet d)
        ≡ (key_rejected, quiet d)
  key_found d key none e h = cc
  key_found d key (some reason) e h = rw (redeemable-rejection key r.now e)

  lookup_found :
      (d : Database) (found : Option SetupKey)
      → admits r.now found ≡ false
      → settle
          (λ w.
            continue
              (or_not_found found)
              (λ key.
                redeem_for s.libraries.platform s.allocator input.device r.now entropy id choices
                  key
                  (redeemable key r.now))
              w)
          (enrolled s)
          (quiet d)
        ≡ (key_rejected, quiet d)
  unfolding is_setup_key_rejection
  lookup_found d none h = refl
  lookup_found d (some key) h = key_found d key (redeemable key r.now) refl h

  -- With no other connection in the way and no failure, every enrolment with a key that does not
  -- exist, or is revoked, expired or used up, gets one and the same answer and changes nothing.
  pub handle_enroll_device-rejected :
      (d : Database)
      → admits r.now (find_row with_key d.setup_keys) ≡ false
      → handle_enroll_device s entropy id choices (decoded input) r (quiet d)
        ≡ (key_rejected, quiet d)
  unfolding handle_enroll_device enroll setup_key_by_token statement is_setup_key_rejection
  handle_enroll_device-rejected d h = elim (Bool-cases (eq input.setup_key [])) [
    | inl blank ↦ rw blank
    | inr present ↦ rw present (lookup_found d (find_row with_key d.setup_keys) h)
  ]
