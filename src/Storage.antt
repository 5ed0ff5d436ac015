-- ===== src/Storage.antt =====
-- internal/storage: statements, transactions and the errors that the packages branch on.
-- A computation runs against a world: the database, and what the environment does before each
-- statement. The statement may fail, and other connections may commit changes of their own.
pub mod Table
pub mod Distinct
pub mod Bind
pub mod Ensures
pub mod Commit
pub mod Rollback
pub mod Keeps
pub mod Metadata
pub mod Instance
pub mod Identity
pub mod Migrations
pub mod Ledger
pub mod SchemaVersion
pub mod Loading
pub mod Complete
pub mod Exact
pub mod Tests
use headnet.Base.{ℕ, zero, suc, ◌-◌, List, [], ◌∷◌, Bool, if◌then◌else◌, length}
use headnet.Schema.{Database}

-- The sentinel errors of the packages, and those that a caller only logs.
pub data Error : Type 0 where
  database_failed unique_violation foreign_key_violation invalid_argument entropy_failed : Error
  pool_exhausted already_allocated unparseable_address too_many_attempts : Error
  key_not_found key_revoked key_expired key_exhausted : Error
  device_not_found public_key_taken invalid_public_key invalid_name device_revoked : Error
  device_token_invalid session_not_found session_expired metadata_not_found : Error
  password_too_short password_too_long invalid_hash incompatible_version : Error
  no_password user_not_found email_taken invalid_email already_claimed : Error
  checksum_mismatch database_ahead bad_migration : Error

pub data Result {ℓ} (A : Type ℓ) : Type ℓ where
  ok : A → Result A
  err : Error → Result A

-- What happens before one statement: other connections change the database, and then the
-- statement may fail.
pub record Event : Type 0 where
  pub others : Database → Database
  pub fails : Bool

-- With no event left, nothing interferes and nothing fails.
pub record World : Type 0 where
  pub db : Database
  pub events : List Event

abbrev pub M : Type 0 → Type 0
M A = World → Result A × World

infixl 5 ◌>>=◌ ◌>>◌
abbrev pub continue : {A B : Type 0} → Result A → (A → M B) → M B
continue (ok a) f w = f a w
continue (err e) f w = (err e, w)

abbrev pub ◌>>=◌ : {A B : Type 0} → M A → (A → M B) → M B
◌>>=◌ m f w = let (r, w') = m w in continue r f w'

abbrev pub ◌>>◌ : {A B : Type 0} → M A → M B → M B
m >> n = m >>= λ _. n

abbrev pub pure : {A : Type 0} → A → M A
pure a w = (ok a, w)

abbrev pub raise : {A : Type 0} → Error → M A
raise e w = (err e, w)

abbrev pub lift : {A : Type 0} → Result A → M A
lift r w = (r, w)

-- An error is replaced by the caller's own.
abbrev pub map_err : {A : Type 0} → (Error → Error) → Result A → Result A
map_err f (ok a) = ok a
map_err f (err e) = err (f e)

abbrev pub classified : {A : Type 0} → (Error → Error) → M A → M A
classified f m w = let (r, w') = m w in (map_err f r, w')

-- A statement that the database executes, or rejects without an effect.
abbrev pub Statement : Type 0 → Type 0
Statement A = Database → Result A × Database

abbrev pub run_statement : {A : Type 0} → Statement A → List Event → Database → Result A × World
run_statement s [] d = let (r, d') = s d in (r, record { db = d'; events = [] })
run_statement s (e ∷ es) d =
    let seen = e.others d in
    let (r, d') = s seen in
    if e.fails
    then (err database_failed, record { db = seen; events = es })
    else (r, record { db = d'; events = es })

-- db.ExecContext, db.QueryContext
unfoldable pub statement : {A : Type 0} → Statement A → M A
statement s w = run_statement s w.events w.db

-- What the others did in the first `n` events.
unfoldable pub interfere : ℕ → List Event → Database → Database
interfere zero es d = d
interfere (suc n) [] d = d
interfere (suc n) (e ∷ es) d = interfere n es (e.others d)

-- tx.Rollback: this connection's changes since `start` are undone, those of the others stand.
unfoldable pub rollback : World → World → World
unfolding interfere
rollback start w = record w {
  db = interfere (length start.events - length w.events) start.events start.db;
}

-- What the deferred function of DB.InTx does with an error.
unfoldable pub finish : {A : Type 0} → World → Result A × World → Result A × World
unfolding rollback
finish start (ok a, w) = (ok a, w)
finish start (err e, w) = (err e, rollback start w)

abbrev pub no_change : Statement (Unit {0})
no_change d = (ok tt, d)

-- DB.InTx: begin, the body, commit, and a rollback on any error.
unfoldable pub in_tx : {A : Type 0} → M A → M A
unfolding statement finish
in_tx body w = finish w ((do statement no_change; a ← body; statement no_change; pure a) w)
