-- ===== src/Devices.antt =====
-- internal/devices: the inventory of devices and the setup keys that enrol them. What the source
-- draws at random (identifiers, tokens, the choices of a retry) is an argument of the operations;
-- `none` stands for a random source that fails.
pub mod SetupKeys
pub mod Inventory
pub mod Listing
pub mod Uses
pub mod Atomic
pub mod Tokens
pub mod Requests
pub mod Serving
pub mod Keys
pub mod Gone
pub mod Invariants
pub mod Revocation
pub mod Tests
