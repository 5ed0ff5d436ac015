-- ===== src/Devices/SetupKeys.antt =====
-- internal/devices/setupkey.go
use headnet.Base.{
  ℕ, ◌+◌, ◌*◌, Bool, true, false, ◌&&◌, ◌||◌, not, Option, none, some, List, [], ◌∷◌, ◌++◌, ltb,
  leb, ◌==◌, if◌then◌else◌, take,
}
use headnet.Base.Int.{ℤ, is_negative, pos_part}
use headnet.Text.{Text, eq, trim_space, split, join}
use headnet.Platform.{Platform, hash_token, lower}
use headnet.Schema.{SetupKey, User}
use headnet.Storage.{
  Error, Result, ok, err, M, Statement, statement, ◌>>=◌, ◌>>◌, pure, raise, lift, key_not_found,
  key_revoked, key_expired, key_exhausted, invalid_argument, unique_violation,
  foreign_key_violation,
}
use headnet.Auth.Tokens.{from_entropy}
use headnet.Storage.Table.{any_row, find_row, count_rows, update_rows}

abbrev pub is_some : {A : Type 0} → Option A → Bool
is_some none = false
is_some (some a) = true

-- SetupKey.Revoked
unfoldable pub revoked : SetupKey → Bool
revoked k = is_some k.revoked_at

abbrev pub past : ℕ → Option ℕ → Bool
past now none = false
past now (some t) = not (ltb now t)

-- SetupKey.Expired
unfoldable pub expired : SetupKey → ℕ → Bool
expired k now = past now k.expires_at

-- SetupKey.Exhausted
unfoldable pub exhausted : SetupKey → Bool
exhausted k = ltb 0 k.max_uses && leb k.max_uses k.uses

-- SetupKey.Redeemable: why a key cannot be used, or `none` if it can be.
unfoldable pub redeemable : SetupKey → ℕ → Option Error
unfolding revoked expired exhausted
redeemable k now =
    if revoked k
    then some key_revoked
    else if expired k now
    then some key_expired
    else if exhausted k
    then some key_exhausted
    else none

pub record NewSetupKey : Type 0 where
  pub description : Text
  pub tags : List Text
  pub expires_in : ℤ
  pub never_expires : Bool
  pub max_uses : ℤ

-- The key with the slice of its tags, and the secret that is shown once.
pub record IssuedSetupKey : Type 0 where
  pub key : SetupKey
  pub tags : List Text
  pub token : Text

abbrev pub max_description_length : ℕ
max_description_length = 200

abbrev pub display_hint_length : ℕ
display_hint_length = 8

-- DefaultExpiry, seven days in nanoseconds.
abbrev pub default_expiry : ℕ
default_expiry = 7 * 24 * 3600 * 1_000_000_000

-- truncate: at most `limit` runes.
abbrev pub truncate : Text → ℕ → Text
truncate s limit = take limit s

abbrev pub has_text : Text → List Text → Bool
has_text t [] = false
has_text t (u ∷ us) = eq t u || has_text t us

-- The loop of normaliseTags; `seen` holds what `out` has so far.
unfoldable pub normalise_from : Platform → List Text → List Text → List Text
normalise_from p seen [] = []
normalise_from p seen (raw ∷ rest) =
    let tag = lower p (trim_space raw) in
    let skipped = normalise_from p seen rest in
    let kept = tag ∷ normalise_from p (tag ∷ seen) rest in
    if eq tag [] || has_text tag seen then skipped else kept

unfoldable pub normalise_tags : Platform → List Text → List Text
unfolding normalise_from
normalise_tags p tags = normalise_from p [] tags

-- splitTags, which every read of a key applies to its column.
unfoldable pub split_tags : Platform → Text → List Text
unfolding normalise_tags
split_tags p joined = if eq joined [] then [] else normalise_tags p (split b',' joined)

abbrev pub lifetime : NewSetupKey → ℕ
lifetime new = if pos_part new.expires_in == 0 then default_expiry else pos_part new.expires_in

abbrev pub user_exists : Text → List User → Bool
user_exists id = any_row λ u. eq u.id id

-- INSERT INTO setup_keys, with the constraints of the table.
unfoldable pub insert_setup_key : SetupKey → Statement (Unit {0})
insert_setup_key key d =
    if any_row (λ k. eq k.id key.id || eq k.key_hash key.key_hash) d.setup_keys
    then (err unique_violation, d)
    else if user_exists key.created_by d.users
    then (ok tt, record d { setup_keys = d.setup_keys ++ key ∷ [] })
    else (err foreign_key_violation, d)

abbrev pub new_key : Platform → Text → NewSetupKey → ℕ → Text → Text → SetupKey
new_key p created_by new now id token = record {
  id = id;
  display_hint = take display_hint_length token;
  description = truncate (trim_space new.description) max_description_length;
  tags = join b',' (normalise_tags p new.tags);
  created_by = created_by;
  created_at = now;
  expires_at = if new.never_expires then none else some (now + lifetime new);
  max_uses = pos_part new.max_uses;
  uses = 0;
  revoked_at = none;
  key_hash = hash_token p token;
}

-- Store.CreateSetupKey; `id` is what NewID returns, `entropy` what NewToken does.
unfoldable pub create_setup_key :
    Platform → Text → NewSetupKey → ℕ → Text → Option Text → M IssuedSetupKey
create_setup_key p created_by new now id entropy =
    if eq created_by [] || is_negative new.max_uses || is_negative new.expires_in
    then raise invalid_argument
    else do
      token ← lift (from_entropy entropy)
      let key = new_key p created_by new now id token
      statement (insert_setup_key key)
      pure (record { key = key; tags = normalise_tags p new.tags; token = token })

abbrev pub or_not_found : Option SetupKey → Result SetupKey
or_not_found none = err key_not_found
or_not_found (some k) = ok k

-- Store.SetupKeyByToken
unfoldable pub setup_key_by_token : Platform → Text → M SetupKey
setup_key_by_token p token =
    if eq token []
    then raise key_not_found
    else statement
        λ d. (or_not_found (find_row (λ k. eq k.key_hash (hash_token p token)) d.setup_keys), d)

-- Store.SetupKeyByID and setupKeyByIDTx
unfoldable pub setup_key_by_id : Text → M SetupKey
setup_key_by_id id = statement λ d. (or_not_found (find_row (λ k. eq k.id id) d.setup_keys), d)

abbrev pub live_key : Text → SetupKey → Bool
live_key id k = eq k.id id && not (is_some k.revoked_at)

-- The UPDATE of Store.RevokeSetupKey, with the rows affected.
unfoldable pub mark_revoked : Text → ℕ → Statement ℕ
mark_revoked id now d = (
  ok (count_rows (live_key id) d.setup_keys),
  record d {
    setup_keys = update_rows (live_key id) (λ k. record k { revoked_at = some now }) d.setup_keys;
  },
)

-- Store.RevokeSetupKey
unfoldable pub revoke_setup_key : Text → ℕ → M (Unit {0})
revoke_setup_key id now = do
  affected ← statement (mark_revoked id now)
  if affected == 0 then (do setup_key_by_id id; pure tt) else pure tt

-- The WHERE clause of consumeSetupKey.
unfoldable pub consumable : Text → ℕ → SetupKey → Bool
consumable id now k =
    eq k.id id
    && not (is_some k.revoked_at)
    && not (past now k.expires_at)
    && (k.max_uses == 0 || ltb k.uses k.max_uses)

unfoldable pub spend : Text → ℕ → Statement ℕ
unfolding consumable
spend id now d = (
  ok (count_rows (consumable id now) d.setup_keys),
  record d {
    setup_keys = update_rows (consumable id now) (λ k. record k { uses = k.uses + 1 }) d.setup_keys;
  },
)

abbrev pub reason_or_exhausted : Option Error → Error
reason_or_exhausted none = key_exhausted
reason_or_exhausted (some reason) = reason

-- Store.consumeSetupKey
unfoldable pub consume_setup_key : Text → ℕ → M (Unit {0})
consume_setup_key id now = do
  affected ← statement (spend id now)
  if affected == 0
      then (do fresh ← setup_key_by_id id; raise (reason_or_exhausted (redeemable fresh now)))
      else pure tt
