-- ===== src/Storage/Instance.antt =====
-- internal/storage/metadata.go: InstanceID, on which servers that start together agree, and
-- BootstrapClaimed. What NewID returns and the text of the time are arguments.
use headnet.Base.{ℕ, Bool, true, false, if◌then◌else◌}
use headnet.Text.{Text, codes}
use headnet.Storage.{
  Error, Result, ok, err, M, statement, in_tx, ◌>>◌, pure, raise, metadata_not_found,
}
use headnet.Storage.Metadata.{get_metadata, insert_missing, key_bootstrap_claimed_at}

abbrev pub key_instance_id : Text
key_instance_id = codes "instance_id"

abbrev pub key_initialised_at : Text
key_initialised_at = codes "initialised_at"

-- errors.Is(err, ErrMetadataNotFound)
abbrev pub is_unset : Error → Bool
is_unset metadata_not_found = true
is_unset _ = false

-- A call whose error is looked at.
abbrev pub attempt : {A B : Type 0} → M A → (Result A → M B) → M B
attempt m k w = let (r, w') = m w in k r w'

-- The transaction of InstanceID.
unfoldable pub initialise : Text → Text → ℕ → M (Unit {0})
initialise candidate stamp now = in_tx do
  statement (insert_missing key_instance_id candidate now)
  statement (insert_missing key_initialised_at stamp now)
  pure tt

abbrev pub id_or_initialise : Text → Text → ℕ → Result Text → M Text
id_or_initialise candidate stamp now (ok id) = pure id
id_or_initialise candidate stamp now (err e) =
    if is_unset e then initialise candidate stamp now >> get_metadata key_instance_id else raise e

-- InstanceID; `candidate` is what NewID returns.
unfoldable pub instance_id : Text → Text → ℕ → M Text
unfolding initialise
instance_id candidate stamp now =
    attempt (get_metadata key_instance_id) (id_or_initialise candidate stamp now)

abbrev pub claimed_or_not : Result Text → M Bool
claimed_or_not (ok value) = pure true
claimed_or_not (err e) = if is_unset e then pure false else raise e

-- BootstrapClaimed
unfoldable pub bootstrap_claimed : M Bool
bootstrap_claimed = attempt (get_metadata key_bootstrap_claimed_at) claimed_or_not
