-- ===== src/Devices/Invariants.antt =====
-- What stays true of the tables of internal/devices and internal/network, whatever is requested.
use headnet.Base.{List, [], ◌∷◌, arith, All}
use headnet.Text.{Text}
use headnet.Platform.{Platform}
use headnet.Storage.{World}
use headnet.Storage.Keeps.{Stable}
use headnet.Network.{Allocator}
use headnet.Network.Unique.{
  HasUniqueAddresses, insert_allocation-IsUnique, delete_allocations-IsUnique,
}
use headnet.Devices.SetupKeys.{insert_setup_key, mark_revoked as mark_key_revoked, spend}
use headnet.Devices.Inventory.{
  insert_device, insert_device_token, mark_revoked, delete_tokens, stamp_seen,
}
use headnet.Devices.Tokens.{mark_seen}
use headnet.Devices.Requests.{Request, registers, enrolls, NoCondition, OnNewId, Respects, serve}
use headnet.Devices.Serving.{serve-Keeps}
use headnet.Devices.Keys.{HasUniqueKeys, keys-Respects}

addresses-Respects : Respects HasUniqueAddresses NoCondition
unfolding insert_device insert_device_token mark_revoked delete_tokens stamp_seen mark_seen
    mark_key_revoked spend insert_setup_key
addresses-Respects = record {
  inserts_allocation = insert_allocation-IsUnique;
  deletes_allocations = delete_allocations-IsUnique;
  spends = λ id now d h. h;
  inserts_key = λ p user new now id token d h. ground arith;
  revokes_keys = λ id now d h. h;
  inserts_device = λ x g d h. ground arith;
  inserts_token = λ t d h. ground arith;
  revokes_devices = λ id now d h. h;
  deletes_tokens = λ id d h. h;
  stamps = λ id now d h. h;
  marks = λ hash now d h. h;
}

any_request : (r : Request) → OnNewId NoCondition r
any_request (registers user new now id choices) = tt
any_request (enrolls token new now entropy id choices) = tt
any_request _ = tt

any_requests : (rs : List Request) → All (OnNewId NoCondition) rs
any_requests [] = tt
any_requests (r ∷ rs) = (any_request r, any_requests rs)

module _ (p : Platform) (al : Allocator) (rs : List Request) (w : World) where
  -- Whatever is requested and whichever statements fail, no two allocations hold one address, if
  -- none do at first and the other connections keep that.
  serve-HasUniqueAddresses :
      Stable HasUniqueAddresses w.events
      → HasUniqueAddresses w.db
      → HasUniqueAddresses (serve p al rs w).db
  serve-HasUniqueAddresses = serve-Keeps addresses-Respects p al rs w (any_requests rs)

  -- Whatever is requested and whichever statements fail, no two devices have one text as their
  -- public key, revoked devices included, if none do at first and the other connections keep that.
  serve-HasUniqueKeys :
      Stable HasUniqueKeys w.events → HasUniqueKeys w.db → HasUniqueKeys (serve p al rs w).db
  serve-HasUniqueKeys = serve-Keeps keys-Respects p al rs w (any_requests rs)
