-- ===== src/Devices/Revocation.antt =====
-- A revoked device is off the network for good.
use headnet.Base.{
  ℕ, ◌≡◌, refl, true, false, ◌&&◌, not, Option, none, some, List, [], ◌∷◌, arith, ◌==◌,
  if◌then◌else◌, All, ap, subst, sym, ◌∙◌,
}
use headnet.Text.{Text, eq, eq→≡}
use headnet.Platform.{Platform, hash_token}
use headnet.Schema.{Device, Database}
use headnet.Storage.{World, Result, ok, statement, in_tx, raise, device_revoked}
use headnet.Storage.Bind.{ok-injective}
use headnet.Storage.Table.{any_row, update_rows, find_row, find_row_sound, find_row-none_of}
use headnet.Storage.Keeps.{Keeps-statement, Stable}
use headnet.Storage.Commit.{Ensures-in_tx}
use headnet.Storage.Ensures.{
  Ensures, Ensures-bind, Ensures-if, Ensures-raise, Ensures-establish, Ensures-under, Ensures-Keeps,
  IsStable, Holds,
}
use headnet.Network.{Allocator, delete_allocations, release}
use headnet.Devices.Inventory.{
  Scope, in_scope, is_live, by_id, or_missing, mark_revoked, delete_tokens, revoke_rows, revoke,
}
use headnet.Devices.Tokens.{or_invalid, authenticate, holds_token, valid_device_token}
use headnet.Devices.Requests.{Request, OnNewId, serve}
use headnet.Devices.Serving.{serve-Holds}
use headnet.Devices.Gone.{IsGone, Differs, is_held, IsGone-Respects}

mark_revoked-IsGone :
    (id : Text) (now : ℕ) (xs : List Device)
    → any_row (is_held id) (
        update_rows
          (is_held id)
          (λ x. record x { revoked_at = some now; ipv4 = none; ipv6 = none })
          xs)
      ≡ false
unfolding any_row update_rows
mark_revoked-IsGone id now [] = refl
mark_revoked-IsGone id now (x ∷ xs) = ground (arith, mark_revoked-IsGone id now xs)

module _ (id : Text) (now : ℕ) where
  abbrev Stays : World → Type 0
  Stays = IsStable (IsGone id)

  releases : Ensures Stays (release id) (λ _. Stays)
  unfolding release
  releases = record {
    at = λ w p h.
        ((Ensures-establish (IsGone id) (λ _ _. Unit {0}) (delete_allocations id)
            (λ d a d' e. tt)).at
          w p h).0;
  }

  marks : Ensures Stays (statement (mark_revoked id now)) (λ _. Holds (IsGone id))
  unfolding mark_revoked
  marks =
      Ensures-establish (IsGone id) (λ _. IsGone id) (mark_revoked id now)
        (λ d a d' e.
          subst (IsGone id) (ap (λ (x : Result ℕ × Database). x.1) e)
            (mark_revoked-IsGone id now d.devices))

  deletes : Ensures (Holds (IsGone id)) (statement (delete_tokens id)) (λ _. Holds (IsGone id))
  unfolding delete_tokens
  deletes = Ensures-Keeps (IsGone id) _ (Keeps-statement _ (λ d h. h))

  revoke_rows-IsGone : Ensures Stays (revoke_rows id now) (λ _. Holds (IsGone id))
  unfolding revoke_rows
  revoke_rows-IsGone =
      Ensures-bind (λ _. Stays) (release id) _ releases
        (λ _.
          Ensures-bind (λ _. Holds (IsGone id)) (statement (mark_revoked id now)) _ marks
            (λ affected. Ensures-if (affected == 0) _ _ (λ _. Ensures-raise _) (λ _. deletes)))

  abbrev Found : Device → World → Type 0
  Found x w = Stays w × (eq x.id id ≡ true)

  or_missing-id :
      (o : Option Device) {x : Device}
      → or_missing o ≡ ok x
      → ((y : Device) → o ≡ some y → eq y.id id ≡ true)
      → eq x.id id ≡ true
  or_missing-id none e h = cc
  or_missing-id (some y) e h = ap (λ (z : Device). eq z.id id) (sym (ok-injective e)) ∙ h y refl

  finds : (scope : Scope) → Ensures Stays (by_id id scope) Found
  unfolding by_id
  finds scope =
      Ensures-establish (IsGone id) (λ x _. eq x.id id ≡ true) _
        (λ d x d' e.
          or_missing-id (find_row (λ y. eq y.id id && in_scope scope y) d.devices)
            (ap (λ (r : Result Device × Database). r.0) e)
            (λ y found. ground (
              arith,
              find_row_sound (λ z. eq z.id id && in_scope scope z) d.devices {x = y} found,
            )))

  revoke-Found :
      (x : Device)
      → Ensures
          (Found x)
          (if is_live x then in_tx (revoke_rows x.id now) else raise device_revoked)
          (λ _. Holds (IsGone id))
  revoke-Found x =
      Ensures-if (is_live x) _ _
        (λ live. record {
          at = λ w {a} {w'} p h.
              (Ensures-in_tx (IsGone id) _ revoke_rows-IsGone).at w {a = a} {w' = w'} p.0 (
                subst (λ (t : Text). in_tx (revoke_rows t now) w ≡ (ok a, w')) (eq→≡ x.id id p.1)
                  h);
        })
        (λ _. Ensures-raise _)

  revoke-IsGone : (scope : Scope) → Ensures Stays (revoke id scope now) (λ _. Holds (IsGone id))
  unfolding revoke
  revoke-IsGone scope = Ensures-bind Found (by_id id scope) _ (finds scope) revoke-Found

or_invalid-ok : (o : Option Device) {x : Device} → or_invalid o ≡ ok x → o ≡ some x
or_invalid-ok none e = cc
or_invalid-ok (some y) e = ap some (ok-injective e)

live_holder :
    (hash id : Text) (d : Database) (x : Device)
    → is_held id x ≡ false
    → holds_token hash d x ≡ true
    → eq x.id id ≡ false
live_holder hash id d x gone holds = ground arith

-- The device that a token authenticates is live.
authenticate-IsGone :
    (p : Platform) (token id : Text)
    → Ensures (Holds (IsGone id)) (authenticate p token) (λ x _. eq x.id id ≡ false)
unfolding authenticate
authenticate-IsGone p token id =
    Ensures-if (not (valid_device_token p token)) _ _ (λ _. Ensures-raise _)
      (λ _.
        Ensures-under (IsGone id) (λ x _. eq x.id id ≡ false) _
          (λ d x d' gone e.
            let clause = holds_token (hash_token p token) d in
            let found =
              or_invalid-ok (find_row clause d.devices)
                (ap (λ (r : Result Device × Database). r.0) e) in
            live_holder (hash_token p token) id d x
              (find_row-none_of clause (is_held id) d.devices gone found)
              (find_row_sound clause d.devices found)))

module _ (p : Platform) (al : Allocator) (id : Text) where
  -- Once Revoke of a device has returned, Authenticate never returns a device with its identifier,
  -- whatever requests are served in between, whatever token is presented and whatever other
  -- connections and failures come in between, as long as no request gives the identifier to a new
  -- device and no other connection brings a live device with it back.
  pub revoke-authenticate :
      (scope : Scope) (now : ℕ) (rs : List Request) (token : Text) (w : World) {w₁ w₂ : World}
      {x : Device}
      → Stable (IsGone id) w.events
      → All (OnNewId (Differs id)) rs
      → revoke id scope now w ≡ (ok tt, w₁)
      → authenticate p token (serve p al rs w₁) ≡ (ok x, w₂)
      → eq x.id id ≡ false
  revoke-authenticate scope now rs token w {w₁} st fresh revoked seen =
      let gone = (revoke-IsGone id now scope).at w st revoked in
      let later = serve-Holds (IsGone-Respects id) p al rs w₁ fresh gone in
      (authenticate-IsGone p token id).at (serve p al rs w₁) later seen
