-- ===== src/Devices/Uses.antt =====
-- The conditional UPDATE spends a key exactly when Redeemable allows it, and no key is ever spent
-- more often than it may be.
use headnet.Base.{
  ℕ, ◌+◌, ◌≤◌, ◌≡◌, ◌⊎◌, inl, inr, Bool, true, ◌&&◌, not, List, [], ◌∷◌, ◌++◌, arith, All,
  Bool-cases,
}
use headnet.Text.{Text, eq}
use headnet.Schema.{SetupKey, Database}
use headnet.Storage.{M, statement}
use headnet.Storage.Table.{update_rows}
use headnet.Storage.Keeps.{Keeps, Keeps-statement, keeps_rules}
use headnet.Devices.SetupKeys.{
  redeemable, consumable, spend, consume_setup_key, setup_key_by_id, is_some,
}

-- The WHERE clause of consumeSetupKey and SetupKey.Redeemable are one condition: an update of the
-- key `id` touches a row exactly when it is that key and Redeemable gives no reason against it.
pub consumable-redeemable :
    (id : Text) (now : ℕ) (k : SetupKey)
    → consumable id now k ≡ (eq k.id id && not (is_some (redeemable k now)))
unfolding consumable redeemable
consumable-redeemable id now k = ground arith

abbrev pub WithinUses : SetupKey → Type 0
WithinUses k = (k.max_uses ≡ 0) ⊎ (k.uses ≤ k.max_uses)

abbrev pub HasUsesBounded : Database → Type 0
HasUsesBounded d = All WithinUses d.setup_keys

pub All-update_rows :
    {A : Type 0} (P : A → Type 0) (p : A → Bool) (f : A → A)
    → ((a : A) → p a ≡ true → P a → P (f a))
    → (xs : List A) → All P xs
    → All P (update_rows p f xs)
unfolding update_rows
All-update_rows P p f keep [] h = tt
All-update_rows P p f keep (x ∷ xs) h = elim (Bool-cases (p x)) [
  | inl hit ↦ rw hit (keep x hit h.0, All-update_rows P p f keep xs h.1)
  | inr miss ↦ rw miss (h.0, All-update_rows P p f keep xs h.1)
]

pub All-append :
    {A : Type 0} (P : A → Type 0) (xs : List A) (y : A) → All P xs → P y → All P (xs ++ y ∷ [])
All-append P [] y h hy = (hy, tt)
All-append P (x ∷ xs) y h hy = (h.0, All-append P xs y h.1 hy)

pub spend_within :
    (id : Text) (now : ℕ) (k : SetupKey)
    → consumable id now k ≡ true
    → WithinUses k
    → WithinUses (record k { uses = k.uses + 1 })
unfolding consumable
spend_within id now k h w = ground arith

abbrev KeepsUses : {A : Type 0} → M A → Type 0
KeepsUses = Keeps HasUsesBounded

spend-KeepsUses : (id : Text) (now : ℕ) → KeepsUses (statement (spend id now))
unfolding spend
spend-KeepsUses id now =
    Keeps-statement _ (λ d h. All-update_rows WithinUses _ _ (spend_within id now) d.setup_keys h)

setup_key_by_id-KeepsUses : (id : Text) → KeepsUses (setup_key_by_id id)
unfolding setup_key_by_id
setup_key_by_id-KeepsUses id = Keeps-statement _ (λ d h. h)

-- Redeeming a key, successfully or not, and among other connections that do the same, never
-- takes its uses past the maximum.
pub consume_setup_key-KeepsUses :
    (id : Text) (now : ℕ) → Keeps HasUsesBounded (consume_setup_key id now)
unfolding consume_setup_key
consume_setup_key-KeepsUses id now =
    search (keeps_rules, spend-KeepsUses, setup_key_by_id-KeepsUses)
