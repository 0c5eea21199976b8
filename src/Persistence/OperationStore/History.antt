-- ===== src/Persistence/OperationStore/History.antt =====
-- Histories of operations: the calls of the store, one after the other.
pub mod Rows
pub mod Once
pub mod Keys
use powerfactory_mcp.Prelude.{ℕ, String, List, [], ◌∷◌}
use powerfactory_mcp.Errors.{Result}
use powerfactory_mcp.Persistence.Database.{Database}
use powerfactory_mcp.Persistence.OperationStore.Admission.{AdmitRequest}
use powerfactory_mcp.Persistence.OperationStore.{
  admit, start, cancel_before_start, mark_client_timed_out, mark_engine_unresponsive, complete,
  fail, require_reconciliation, reconcile_orphans, cancel_expired_queued, cancel_all_queued,
}

-- A call with its arguments, the identifier that it draws, and the time.
pub data OperationCall : Type 0 where
  admit_call : AdmitRequest → String → OperationCall
  start_call cancel_call : String → ℕ → OperationCall
  time_out_call unresponsive_call : String → OperationCall
  complete_call fail_call reconciliation_call : String → Result String → ℕ → OperationCall
  orphans_call cancel_expired_call cancel_all_call : ℕ → OperationCall

-- The tables after a call, whether it returned or raised.
unfoldable pub perform : OperationCall → Database → Database
perform (OperationCall.admit_call q operation_id) db = (admit q operation_id db).1
perform (OperationCall.start_call i now) db = (start i now db).1
perform (OperationCall.cancel_call i now) db = (cancel_before_start i now db).1
perform (OperationCall.time_out_call i) db = (mark_client_timed_out i db).1
perform (OperationCall.unresponsive_call i) db = (mark_engine_unresponsive i db).1
perform (OperationCall.complete_call i result now) db = (complete i result now db).1
perform (OperationCall.fail_call i error now) db = (fail i error now db).1
perform (OperationCall.reconciliation_call i error now) db =
    (require_reconciliation i error now db).1
perform (OperationCall.orphans_call now) db = (reconcile_orphans now db).1
perform (OperationCall.cancel_expired_call now) db = (cancel_expired_queued now db).1
perform (OperationCall.cancel_all_call now) db = (cancel_all_queued now db).1

unfoldable pub perform_all : List OperationCall → Database → Database
perform_all [] db = db
perform_all (call ∷ calls) db = perform_all calls (perform call db)
