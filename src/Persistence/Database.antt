-- ===== src/Persistence/Database.antt =====
-- persistence/database.py: the tables, and transactions.
-- A JSON column holds the value that it encodes. The rows of a table that only inserts write, or
-- whose every write sets all columns from one value, are those values; `workflow_records` is also
-- written column by column, so its rows keep the columns beside the JSON value.
use powerfactory_mcp.Prelude.{ℕ, String, List, [], ◌≡◌, refl, arith, subst, sym}
use powerfactory_mcp.Errors.{Error, Result, ok, err}
use powerfactory_mcp.Domain.Values.{ConfigurationKey, ContentDigest}
use powerfactory_mcp.Domain.Workflow.{
  WorkflowState, WorkflowRecord, IdempotentCommandRecord, AuditEvent,
}
use powerfactory_mcp.Domain.Lease.{ContextLease, LeaseEvent}
use powerfactory_mcp.Domain.Operation.{OperationRecord}
use powerfactory_mcp.Persistence.Timestamps.{Timestamp}

pub record WorkflowRow : Type 0 where
  pub workflow_id : String
  pub state : WorkflowState
  pub workflow_version_counter : ℕ
  pub configuration_key : ConfigurationKey
  pub record_json : WorkflowRecord
  pub updated_at : Timestamp

pub record FenceCounter : Type 0 where
  pub service_scope_digest : ContentDigest
  pub configuration_key : ConfigurationKey
  pub last_fencing_token : ℕ

-- `operation_sequence` is the last value that AUTOINCREMENT has given out.
pub record Database : Type 0 where
  pub workflow_records : List WorkflowRow
  pub workflow_commands : List IdempotentCommandRecord
  pub workflow_audit_events : List AuditEvent
  pub context_lease_fence_counters : List FenceCounter
  pub context_leases : List ContextLease
  pub context_lease_events : List LeaseEvent
  pub operation_records : List OperationRecord
  pub operation_sequence : ℕ

-- The tables as the migrations create them.
abbrev pub empty : Database
empty = record {
  workflow_records = [];
  workflow_commands = [];
  workflow_audit_events = [];
  context_lease_fence_counters = [];
  context_leases = [];
  context_lease_events = [];
  operation_records = [];
  operation_sequence = 0;
}

-- What runs inside a transaction: an exception drops what was written.
abbrev pub Tx {ℓ} : Type ℓ → Type ℓ
Tx A = Database → Result (A × Database)

-- What a method of a store does: the rows stay beside the exception.
abbrev pub Exec {ℓ} : Type ℓ → Type ℓ
Exec A = Database → Result A × Database

infixl 5 ◌>>=◌ ◌>>◌
abbrev pub ◌>>=◌ {ℓ κ} : {A : Type ℓ} {B : Type κ} → Tx A → (A → Tx B) → Tx B
◌>>=◌ m f db = elim (m db) [ err e ↦ err e | ok (a, db') ↦ f a db' ]

abbrev pub ◌>>◌ {ℓ} : {B : Type ℓ} → Tx (Unit {0}) → Tx B → Tx B
m >> k = m >>= λ _. k

abbrev pub pure {ℓ} : {A : Type ℓ} → A → Tx A
pure a db = ok (a, db)

abbrev pub raise {ℓ} : {A : Type ℓ} → Error → Tx A
raise e db = err e

-- A check or a constructor, which touches no row.
abbrev pub lift {ℓ} : {A : Type ℓ} → Result A → Tx A
lift r db = elim r [ err e ↦ err e | ok a ↦ ok (a, db) ]

unfoldable pub commit {ℓ} : {A : Type ℓ} → Database → Result (A × Database) → Result A × Database
commit db (err e) = (err e, db)
commit db (ok (a, db')) = (ok a, db')

-- `SQLiteDatabase.transaction`: commit on return, roll back on any exception.
unfoldable pub transaction {ℓ} : {A : Type ℓ} → Tx A → Exec A
unfolding commit
transaction m db = commit db (m db)

-- Checks before the transaction is opened.
unfoldable pub checked {ℓ κ} : {A : Type ℓ} {B : Type κ} → Result A → (A → Exec B) → Exec B
checked (err e) k db = (err e, db)
checked (ok a) k db = k a db

split {ℓ κ} :
    {A : Type ℓ} {B : Type κ} (x : Result (A × Database)) (f : A → Tx B) {r : B × Database}
    → (elim x [ err e ↦ err e | ok (a, db') ↦ f a db' ]) ≡ ok r
    → (a : A) × (db' : Database) × (x ≡ ok (a, db')) × (f a db' ≡ ok r)
split (err e) f h = cc
split (ok (a, db')) f h = (a, db', refl, h)

-- Inversion of what returns, for proofs where the parts stay shut.
pub bind-eq-ok {ℓ κ} :
    {A : Type ℓ} {B : Type κ} (m : Tx A) (f : A → Tx B) (db : Database) {r : B × Database}
    → (m >>= f) db ≡ ok r
    → (a : A) × (db' : Database) × (m db ≡ ok (a, db')) × (f a db' ≡ ok r)
bind-eq-ok m f db h = split (m db) f h

-- A chain goes on from where its first part returned.
pub bind_ok {ℓ κ} :
    {A : Type ℓ} {B : Type κ} (m : Tx A) (f : A → Tx B) (db : Database) {a : A} {db1 : Database}
    → m db ≡ ok (a, db1)
    → (m >>= f) db ≡ f a db1
bind_ok m f db {a} {db1} h =
    subst (λ x. (elim x [ err e ↦ err e | ok (v, d) ↦ f v d ]) ≡ f a db1) (sym h) refl

pub lift-eq-ok {ℓ} :
    {A : Type ℓ} (x : Result A) (db : Database) {a : A} {db' : Database}
    → lift x db ≡ ok (a, db')
    → (x ≡ ok a) × (db' ≡ db)
lift-eq-ok (err e) db h = cc
lift-eq-ok (ok a) db h = ground arith

commit-eq-ok {ℓ} :
    {A : Type ℓ} (db : Database) (x : Result (A × Database)) {a : A}
    → (commit db x).0 ≡ ok a
    → x ≡ ok (a, (commit db x).1)
unfolding commit
commit-eq-ok db (err e) h = cc
commit-eq-ok db (ok (b, db')) h = cc

commit-eq-err {ℓ} :
    {A : Type ℓ} (db : Database) (x : Result (A × Database)) {e : Error}
    → (commit db x).0 ≡ err e
    → (x ≡ err e) × ((commit db x).1 ≡ db)
unfolding commit
commit-eq-err db (err e) h = (cc, refl)
commit-eq-err db (ok (b, db')) h = cc

-- A transaction that returns is its body; one that raises has changed nothing.
pub transaction-eq-ok {ℓ} :
    {A : Type ℓ} (m : Tx A) (db : Database) {a : A}
    → (transaction m db).0 ≡ ok a
    → m db ≡ ok (a, (transaction m db).1)
unfolding transaction
transaction-eq-ok m db h = commit-eq-ok db (m db) h

pub transaction-eq-err {ℓ} :
    {A : Type ℓ} (m : Tx A) (db : Database) {e : Error}
    → (transaction m db).0 ≡ err e
    → (m db ≡ err e) × ((transaction m db).1 ≡ db)
unfolding transaction
transaction-eq-err m db h = commit-eq-err db (m db) h

pub checked-eq-ok {ℓ κ} :
    {A : Type ℓ} {B : Type κ} (x : Result A) (k : A → Exec B) (db : Database) {b : B}
    → (checked x k db).0 ≡ ok b
    → (a : A) × (x ≡ ok a) × (checked x k db ≡ k a db)
unfolding checked
checked-eq-ok (err e) k db h = cc
checked-eq-ok (ok a) k db h = (a, refl, refl)
