-- ===== src/Devices/Keys.antt =====
-- The public keys of the devices stay distinct under every statement that writes.
use headnet.Base.{refl, inl, inr, ◌||◌, arith, Bool-cases}
use headnet.Text.{Text, eq}
use headnet.Schema.{Device, Database}
use headnet.Storage.Table.{any_row}
use headnet.Storage.Distinct.{IsDistinct, IsDistinct-append, IsDistinct-update_rows, any_row-either}
use headnet.Network.{insert_allocation, delete_allocations}
use headnet.Devices.SetupKeys.{insert_setup_key, mark_revoked as mark_key_revoked, spend}
use headnet.Devices.Inventory.{
  insert_device, insert_device_token, mark_revoked, delete_tokens, stamp_seen,
}
use headnet.Devices.Tokens.{mark_seen}
use headnet.Devices.Requests.{NoCondition, Preserves, Respects}

abbrev key_of : Device → Text
key_of x = x.public_key

-- No two devices, revoked ones included, have one public key.
abbrev pub HasUniqueKeys : Database → Type 0
HasUniqueKeys d = IsDistinct key_of d.devices

insert_device-HasUniqueKeys :
    (x : Device) → NoCondition x.id → Preserves HasUniqueKeys (insert_device x)
unfolding insert_device
insert_device-HasUniqueKeys x g d h =
    elim (Bool-cases (any_row (λ y. eq y.id x.id || eq y.public_key x.public_key) d.devices)) [
      | inl held ↦ rw held h
      | inr free ↦ rw free (
          ground (
            arith,
            IsDistinct-append key_of x d.devices
                (any_row-either (λ y. eq y.id x.id) (λ y. eq y.public_key x.public_key) d.devices
                  free).1
                h,
          ))
    ]

pub keys-Respects : Respects HasUniqueKeys NoCondition
unfolding insert_allocation delete_allocations insert_device_token mark_revoked delete_tokens
    stamp_seen mark_seen mark_key_revoked spend insert_setup_key
keys-Respects = record {
  inserts_allocation = λ a owner now d h. ground arith;
  deletes_allocations = λ owner d h. h;
  spends = λ id now d h. h;
  inserts_key = λ p user new now id token d h. ground arith;
  revokes_keys = λ id now d h. h;
  inserts_device = insert_device-HasUniqueKeys;
  inserts_token = λ t d h. ground arith;
  revokes_devices = λ id now d h. IsDistinct-update_rows key_of _ _ (λ x. refl) d.devices h;
  deletes_tokens = λ id d h. h;
  stamps = λ id now d h. IsDistinct-update_rows key_of _ _ (λ x. refl) d.devices h;
  marks = λ hash now d h. IsDistinct-update_rows key_of _ _ (λ x. refl) d.devices h;
}
