-- ===== src/Server/Expiry.antt =====
-- A setup key expires when the request asked for.
use headnet.Base.{ℕ, ◌≡◌, Bool, true, false, Option}
use headnet.Text.{Text}
use headnet.Platform.{Platform}
use headnet.Schema.{User, SetupKey}
use headnet.Storage.Ensures.{Ensures}
use headnet.Devices.SetupKeys.{new_key}
use headnet.Server.{Server, Request, Body, setup_key_body}
use headnet.Server.SetupKeys.{CreateKeyRequest, new_setup_key}

module _ (s : Server) (later : ℕ) (id : Text) (entropy : Option Text) (input : CreateKeyRequest)
    (r : Request) (user : User) where
  abbrev IsNewKey : SetupKey → Type 0
  IsNewKey key =
      (token : Text) × (key
        ≡ new_key s.libraries.platform user.id (new_setup_key input) r.now id token)

  abbrev shows_key : Body → Bool
  shows_key (setup_key_body key tags usable token) = true
  shows_key _ = false
