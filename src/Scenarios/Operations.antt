-- ===== src/Scenarios/Operations.antt =====
-- The theorems on the operation store, at one operation.
use powerfactory_mcp.Prelude.{◌≡◌, refl, true, false, some, List, [], ◌∷◌}
use powerfactory_mcp.Errors.{ok}
use powerfactory_mcp.Table.{find, count, any, update, insert}
use powerfactory_mcp.Domain.Values.Checks.{require_positive}
use powerfactory_mcp.Domain.Operation.{OperationRecord, OperationState}
use powerfactory_mcp.Persistence.Database.{Database, empty, transaction, checked, commit}
use powerfactory_mcp.Persistence.OperationStore.{
  operation_at, asserted, insert_operation, admit_at, admit, guarded_update, transition_operation,
  start, is_running, reconcile_orphans,
}
use powerfactory_mcp.Persistence.OperationStore.Admission.{
  AdmitRequest, is_handler_name, validate_identity, check_admit, queued_row,
}
use powerfactory_mcp.Persistence.OperationStore.History.{OperationCall, perform, perform_all}
use powerfactory_mcp.Persistence.OperationStore.History.Rows.{
  OperationsInv, Later, empty-OperationsInv, perform_all-invariant, perform_all-Later,
}
use powerfactory_mcp.Persistence.OperationStore.History.Once.{start_once, reconcile_orphans-none}
use powerfactory_mcp.Persistence.OperationStore.History.Keys.{admit-retried}
use powerfactory_mcp.Scenarios.Data.{id_a, id_b}

abbrev scan : AdmitRequest
scan = record {
  handler_name = "inventory.scan";
  payload_json = ok "{}";
  idempotency_key = "key-1";
  queue_deadline_ms = 1000;
  client_response_deadline_ms = 2000;
  engine_health_threshold_ms = 3000;
  now_ns = 5;
}

abbrev calls : List OperationCall
calls = OperationCall.admit_call scan id_a ∷ []

abbrev db : Database
db = perform_all calls empty

abbrev row : OperationRecord
row = queued_row scan id_a "{}" 1

abbrev running : OperationRecord
running = record row { state = OperationState.in_flight; started_at_ns = some 6; version = 1 }

facts :
    ((admit scan id_a empty).0 ≡ ok (row, true))
    × (find (operation_at id_a) db.operation_records ≡ some row)
    × ((start id_a 6 db).0 ≡ ok running)
unfolding perform perform_all admit check_admit validate_identity is_handler_name require_positive
    checked transaction commit asserted admit_at insert_operation insert any find count update start
    transition_operation guarded_update
facts = (refl, refl, refl)

perform_all-invariant_example : OperationsInv (perform_all calls empty)
perform_all-invariant_example = perform_all-invariant calls

perform_all-Later_example :
    (r' : OperationRecord) × (find
        (operation_at id_a)
        (perform_all (OperationCall.start_call id_a 6 ∷ []) db).operation_records
      ≡ some r')
    × Later row r'
perform_all-Later_example =
    perform_all-Later (OperationCall.start_call id_a 6 ∷ []) db id_a row facts.1

start_once_example : ¬ (
    (start id_a 7 (perform_all [] (perform (OperationCall.start_call id_a 6) db))).0 ≡ ok running)
start_once_example = start_once id_a 6 db running (perform_all-invariant calls) facts.2 [] 7 running

reconcile_orphans-none_example :
    ((reconcile_orphans 9 db).0 ≡ ok (count (λ r. is_running r.state) db.operation_records))
    × (count (λ r. is_running r.state) (reconcile_orphans 9 db).1.operation_records ≡ 0)
reconcile_orphans-none_example = reconcile_orphans-none 9 db

admit-retried_example :
    (r' : OperationRecord) × Later row r'
    × (admit scan id_b (
          perform_all
            (OperationCall.start_call id_a 6 ∷ [])
            (perform (OperationCall.admit_call scan id_a) empty))
        ≡ (
          ok (r', false),
          perform_all
              (OperationCall.start_call id_a 6 ∷ [])
              (perform (OperationCall.admit_call scan id_a) empty),
        ))
admit-retried_example =
    admit-retried scan scan id_a id_b empty empty-OperationsInv
      (OperationCall.start_call id_a 6 ∷ []) row true facts.0 refl refl refl
