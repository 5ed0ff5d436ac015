-- ===== src/Devices/Gone.antt =====
-- A device that is not live stays so under every statement that writes, unless its identifier is
-- given to a new one.
use headnet.Base.{◌≡◌, refl, Bool, false, ◌&&◌, List, [], ◌∷◌, arith}
use headnet.Text.{Text, eq}
use headnet.Schema.{Device, Database}
use headnet.Storage.Table.{update_rows, any_row, any_row-append}
use headnet.Network.{insert_allocation, delete_allocations}
use headnet.Devices.SetupKeys.{insert_setup_key, mark_revoked as mark_key_revoked, spend}
use headnet.Devices.Inventory.{
  insert_device, insert_device_token, mark_revoked, delete_tokens, stamp_seen, is_live,
}
use headnet.Devices.Tokens.{mark_seen}
use headnet.Devices.Requests.{Preserves, Respects}

-- No live device has the identifier.
abbrev pub is_held : Text → Device → Bool
is_held id x = eq x.id id && is_live x

abbrev pub IsGone : Text → Database → Type 0
IsGone id d = any_row (is_held id) d.devices ≡ false

abbrev pub Differs : Text → Text → Type 0
Differs id new = eq new id ≡ false

gone-update_rows :
    (id : Text) (p : Device → Bool) (f : Device → Device)
    → ((x : Device) → is_held id x ≡ false → is_held id (f x) ≡ false)
    → (xs : List Device) → any_row (is_held id) xs ≡ false
    → any_row (is_held id) (update_rows p f xs) ≡ false
unfolding any_row update_rows
gone-update_rows id p f keep [] h = refl
gone-update_rows id p f keep (x ∷ xs) h = ground (arith, keep x, gone-update_rows id p f keep xs)

insert_device-IsGone :
    (id : Text) (x : Device) → Differs id x.id → Preserves (IsGone id) (insert_device x)
unfolding insert_device any_row
insert_device-IsGone id x g d h = ground (arith, any_row-append (is_held id) d.devices (x ∷ []), g)

pub IsGone-Respects : (id : Text) → Respects (IsGone id) (Differs id)
unfolding insert_allocation delete_allocations insert_device_token mark_revoked delete_tokens
    stamp_seen mark_seen mark_key_revoked spend insert_setup_key
IsGone-Respects id = record {
  inserts_allocation = λ a owner now d h. ground arith;
  deletes_allocations = λ owner d h. h;
  spends = λ id' now d h. h;
  inserts_key = λ p user new now id' token d h. ground arith;
  revokes_keys = λ id' now d h. h;
  inserts_device = insert_device-IsGone id;
  inserts_token = λ t d h. ground arith;
  revokes_devices = λ id' now d h. gone-update_rows id _ _ (λ x k. ground arith) d.devices h;
  deletes_tokens = λ id' d h. h;
  stamps = λ id' now d h. gone-update_rows id _ _ (λ x k. k) d.devices h;
  marks = λ hash now d h. gone-update_rows id _ _ (λ x k. k) d.devices h;
}
