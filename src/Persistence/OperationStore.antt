-- ===== src/Persistence/OperationStore.antt =====
-- persistence/operation_store.py: the durable states of the operations of the serialized gateway
-- owner. The proofs are in the modules below.
pub mod Admission
mod Columns
pub use Columns.*
pub mod States
pub mod Stages
pub mod Moves
pub mod History
use powerfactory_mcp.Prelude.{
  ℕ, suc, ◌+◌, ◌*◌, String, Bool, true, false, ◌&&◌, ◌||◌, ◌==◌, nat_eq, leb, Option, none, some,
  List, [], ◌∷◌, if◌then◌else◌,
}
use powerfactory_mcp.Errors.{
  Error, Result, ok, err, value_error, operation_not_found, operation_key_conflict,
  invalid_operation_transition,
}
use powerfactory_mcp.Table.{find, select, any, count, update, insert}
use powerfactory_mcp.Domain.Operation.{OperationState, OperationRecord}
use powerfactory_mcp.Persistence.Database.{Database, Tx, Exec, transaction, checked}
use Admission.{AdmitRequest, check_admit, queued_row}

-- WHERE operation_id = ?, WHERE idempotency_key = ?
abbrev pub operation_at : String → OperationRecord → Bool
operation_at operation_id r = r.operation_id == operation_id

abbrev pub admitted_under : String → OperationRecord → Bool
admitted_under key r = r.idempotency_key == key

-- Both columns are UNIQUE.
abbrev pub operation_clashes : OperationRecord → OperationRecord → Bool
operation_clashes row r = operation_at row.operation_id r || admitted_under row.idempotency_key r

-- `assert row is not None`, once the transaction is closed.
unfoldable pub asserted {ℓ} : {A : Type ℓ} → Result (Option A) × Database → Result A × Database
asserted (err e, db) = (err e, db)
asserted (ok none, db) = (err (value_error "assert row is not None"), db)
asserted (ok (some a), db) = (ok a, db)

-- The INSERT of `admit`, and the row that it reads back.
unfoldable pub insert_operation :
    AdmitRequest → String → String → Tx (Option (OperationRecord × Bool))
insert_operation q operation_id payload_json db =
    let row = queued_row q operation_id payload_json (suc db.operation_sequence) in
    elim (insert (operation_clashes row) row db.operation_records) [
      | err e ↦ err e
      | ok rows ↦ ok (
        elim (find (operation_at operation_id) rows) [ none ↦ none | some r ↦ some (r, true) ],
        record db { operation_records = rows; operation_sequence = suc db.operation_sequence },
      )
    ]

-- The transaction of `admit`: a key that a row holds, or a new one.
unfoldable pub admit_at :
    AdmitRequest → String → String → Option OperationRecord → Tx (Option (OperationRecord × Bool))
admit_at q operation_id payload_json none db = insert_operation q operation_id payload_json db
admit_at q operation_id payload_json (some r) db =
    if r.handler_name == q.handler_name && r.payload_json == payload_json
    then ok (some (r, false), db)
    else err operation_key_conflict

unfoldable pub admit : AdmitRequest → String → Exec (OperationRecord × Bool)
admit q operation_id db = asserted (
    checked (check_admit q)
      (λ payload_json. transaction λ db.
        admit_at q operation_id payload_json
          (find (admitted_under q.idempotency_key) db.operation_records) db)
      db)

-- The reads.
unfoldable pub get : String → Database → Result OperationRecord
get operation_id db = elim (find (operation_at operation_id) db.operation_records) [
  | none ↦ err (operation_not_found operation_id)
  | some r ↦ ok r
]

unfoldable pub get_by_idempotency_key : String → Database → Option OperationRecord
get_by_idempotency_key key db = find (admitted_under key) db.operation_records

unfoldable pub queued : Database → List OperationRecord
queued db = select (λ r. is_queued r.state) db.operation_records

unfoldable pub list_operations : Database → List OperationRecord
list_operations db = db.operation_records

-- UPDATE ... WHERE operation_id = ? AND state IN (...), and the errors of an update that does not hit
-- one row: `_transition` and `complete` share them.
abbrev pub hits : String → (OperationState → Bool) → OperationRecord → Bool
hits operation_id expected r = operation_at operation_id r && expected r.state

abbrev pub missed : String → Option OperationState → Option OperationRecord → Error
missed operation_id target none = operation_not_found operation_id
missed operation_id target (some r) = invalid_operation_transition r.state target

unfoldable pub guarded_update :
    String
    → (OperationState → Bool)
    → (OperationRecord → OperationRecord)
    → Option OperationState
    → Tx (Option OperationRecord)
guarded_update operation_id expected set target db =
    let rows = update (hits operation_id expected) set db.operation_records in
    if nat_eq (count (hits operation_id expected) db.operation_records) 1
    then ok (find (operation_at operation_id) rows, record db { operation_records = rows })
    else err (missed operation_id target (find (operation_at operation_id) db.operation_records))

-- `_transition`.
unfoldable pub transition_operation :
    String → (OperationState → Bool) → OperationState → Updates → Exec OperationRecord
transition_operation operation_id expected target updates db = asserted (
    transaction (guarded_update operation_id expected (set_columns target updates) (some target))
      db)

unfoldable pub start : String → ℕ → Exec OperationRecord
start operation_id now =
    transition_operation operation_id is_queued OperationState.in_flight
      (record no_updates { started_at_ns = some now })

unfoldable pub cancel_before_start : String → ℕ → Exec OperationRecord
cancel_before_start operation_id now =
    transition_operation operation_id is_queued OperationState.cancelled_before_start
      (record no_updates { finished_at_ns = some now })

unfoldable pub mark_client_timed_out : String → Exec OperationRecord
mark_client_timed_out operation_id =
    transition_operation operation_id is_in_flight OperationState.client_timed_out no_updates

unfoldable pub mark_engine_unresponsive : String → Exec OperationRecord
mark_engine_unresponsive operation_id =
    transition_operation operation_id is_answerable OperationState.engine_unresponsive no_updates

-- `canonical_json` of the error comes first, and may raise.
unfoldable pub fail : String → Result String → ℕ → Exec OperationRecord
fail operation_id error_json now = checked error_json λ text.
    transition_operation operation_id is_answerable OperationState.failed
      (record no_updates { error_json = some text; finished_at_ns = some now })

unfoldable pub require_reconciliation : String → Result String → ℕ → Exec OperationRecord
require_reconciliation operation_id error_json now = checked error_json λ text.
    transition_operation operation_id is_running OperationState.reconciliation_required
      (record no_updates { error_json = some text; finished_at_ns = some now })

unfoldable pub complete : String → Result String → ℕ → Exec OperationRecord
complete operation_id result_json now db = asserted (
    checked result_json
      (λ text. transaction (guarded_update operation_id is_running (set_completed text now) none))
      db)

unfoldable pub reconcile_orphans : ℕ → Exec ℕ
reconcile_orphans now = transaction λ db. ok (
  count (λ r. is_running r.state) db.operation_records,
  record db {
    operation_records =
        update (λ r. is_running r.state) (set_finished OperationState.reconciliation_required now)
          db.operation_records;
  },
)

ids_of : List OperationRecord → List String
ids_of [] = []
ids_of (r ∷ rs) = r.operation_id ∷ ids_of rs

-- WHERE state = ? AND operation_id IN (...)
abbrev pub queued_among : List String → OperationRecord → Bool
queued_among ids r = is_queued r.state && any (λ i. r.operation_id == i) ids

unfoldable pub cancel_expired_queued : ℕ → Exec (List String)
unfolding ids_of
cancel_expired_queued now = transaction λ db.
    let ids =
      ids_of
        (select (λ r. is_queued r.state && leb r.queue_deadline_at_ns now) db.operation_records) in
    ok (
      ids,
      record db {
        operation_records =
            update (queued_among ids) (set_finished OperationState.cancelled_before_start now)
              db.operation_records;
      },
    )

unfoldable pub cancel_all_queued : ℕ → Exec (List String)
unfolding ids_of
cancel_all_queued now = transaction λ db. ok (
  ids_of (select (λ r. is_queued r.state) db.operation_records),
  record db {
    operation_records =
        update (λ r. is_queued r.state) (set_finished OperationState.cancelled_before_start now)
          db.operation_records;
  },
)
