-- ===== src/Storage/Metadata.antt =====
-- internal/storage/metadata.go: GetMetadata, SetMetadata and the claim of an installation. The text of
-- the current time is an argument.
use headnet.Base.{
  ℕ, ◌≡◌, ap, sym, subst, Bool, true, false, Option, none, some, [], ◌∷◌, ◌++◌, ◌==◌, arith,
  if◌then◌else◌, Bool-cases, inl, inr,
}
use headnet.Text.{Text, codes, eq, eq_refl}
use headnet.Schema.{Metadata, Database}
use headnet.Storage.{
  World, Result, ok, err, M, Statement, statement, ◌>>=◌, pure, metadata_not_found,
}
use headnet.Storage.Bind.{ok-injective}
use headnet.Storage.Keeps.{Stable}
use headnet.Storage.Ensures.{
  Ensures, Ensures-bind, Ensures-pure, Ensures-establish, Ensures-under, IsStable, Holds,
}
use headnet.Storage.Table.{any_row, any_row-append, find_row, update_rows}

abbrev pub or_unset : Option Metadata → Result Text
or_unset none = err metadata_not_found
or_unset (some row) = ok row.value

-- GetMetadata
unfoldable pub get_metadata : Text → M Text
get_metadata key = statement λ d. (or_unset (find_row (λ r. eq r.key key) d.metadata), d)

abbrev pub new_row : Text → Text → ℕ → Metadata
new_row key value now = record { key = key; value = value; created_at = now; updated_at = now }

-- INSERT … ON CONFLICT (key) DO UPDATE
unfoldable pub upsert : Text → Text → ℕ → Statement (Unit {0})
upsert key value now d = (
  ok tt,
  record d {
    metadata =
        if any_row (λ r. eq r.key key) d.metadata
        then update_rows (λ r. eq r.key key) (λ r. record r { value = value; updated_at = now })
            d.metadata
        else d.metadata ++ new_row key value now ∷ [];
  },
)

-- SetMetadata
unfoldable pub set_metadata : Text → Text → ℕ → M (Unit {0})
set_metadata key value now = statement (upsert key value now)

-- INSERT … ON CONFLICT (key) DO NOTHING, with the rows affected.
unfoldable pub insert_missing : Text → Text → ℕ → Statement ℕ
insert_missing key value now d =
    if any_row (λ r. eq r.key key) d.metadata
    then (ok 0, d)
    else (ok 1, record d { metadata = d.metadata ++ new_row key value now ∷ [] })

abbrev pub key_bootstrap_claimed_at : Text
key_bootstrap_claimed_at = codes "bootstrap_claimed_at"

-- ClaimBootstrap
unfoldable pub claim_bootstrap : Text → ℕ → M Bool
claim_bootstrap stamp now = do
  affected ← statement (insert_missing key_bootstrap_claimed_at stamp now)
  pure (affected == 1)

-- The row of the key is there.
abbrev pub HasKey : Text → Database → Type 0
HasKey key d = any_row (λ r. eq r.key key) d.metadata ≡ true

insert_missing-HasKey :
    (key value : Text) (now : ℕ) (d : Database) → HasKey key (insert_missing key value now d).1
unfolding insert_missing any_row
insert_missing-HasKey key value now d = elim (Bool-cases (any_row (λ r. eq r.key key) d.metadata)) [
  | inl held ↦ rw held held
  | inr free ↦
      rw
        (
          free,
          any_row-append (λ (r : Metadata). eq r.key key) d.metadata (new_row key value now ∷ []),
          eq_refl key,
        )
        (ground arith)
]

-- The installation is claimed.
abbrev pub Claimed : Database → Type 0
Claimed = HasKey key_bootstrap_claimed_at

module _ (stamp : Text) (now : ℕ) where
  pub claims : Ensures (IsStable Claimed) (claim_bootstrap stamp now) (λ _. Holds Claimed)
  unfolding claim_bootstrap
  claims =
      Ensures-bind (λ _. Holds Claimed) (statement _) _
        (Ensures-establish Claimed (λ _. Claimed) _
          (λ d a d' e.
            subst Claimed (ap (λ (r : Result ℕ × Database). r.1) e)
              (insert_missing-HasKey key_bootstrap_claimed_at stamp now d)))
        (λ affected. Ensures-pure _ (λ w h. h))

  pub loses : Ensures (Holds Claimed) (claim_bootstrap stamp now) (λ won _. won ≡ false)
  unfolding claim_bootstrap insert_missing
  loses =
      Ensures-bind (λ affected _. affected ≡ 0) (statement _) _
        (Ensures-under Claimed (λ affected _. affected ≡ 0) _
          (λ d a d' held e.
            sym (ok-injective (ap (λ (r : Result ℕ × Database). r.0) (rw held at e)))))
        (λ affected. Ensures-pure _ (λ w zero. rw zero))

-- Once one ClaimBootstrap has returned, a later one never wins, whatever other connections do in
-- between and during the calls, as long as none removes the claim.
claim_bootstrap-once :
    (stamp stamp' : Text) (now now' : ℕ) (w : World) {won won' : Bool} {w₁ w₂ : World}
    → Stable (λ d. any_row (λ r. eq r.key key_bootstrap_claimed_at) d.metadata ≡ true) w.events
    → claim_bootstrap stamp now w ≡ (ok won, w₁)
    → claim_bootstrap stamp' now' w₁ ≡ (ok won', w₂)
    → won' ≡ false
claim_bootstrap-once stamp stamp' now now' w {w₁} st first second =
    (loses stamp' now').at w₁ ((claims stamp now).at w st first) second
