-- ===== src/Scenarios/Worker.antt =====
-- The theorems on the gateway's worker, at one operation.
use powerfactory_mcp.Prelude.{
  ◌≤◌, String, ◌≡◌, refl, ◌⊎◌, true, false, none, some, List, [], ◌∷◌, ◌++◌, length, arith,
}
use powerfactory_mcp.Errors.{ok, err}
use powerfactory_mcp.Table.{find, count, any, update, insert}
use powerfactory_mcp.Domain.Values.Checks.{require_positive}
use powerfactory_mcp.Domain.Operation.{OperationRecord, OperationState}
use powerfactory_mcp.Domain.Inventory.Checks.{contains, all_distinct}
use powerfactory_mcp.Persistence.Database.{empty, transaction, checked, commit}
use powerfactory_mcp.Persistence.OperationStore.{
  set_completed, operation_at, asserted, insert_operation, admit_at, admit, guarded_update,
  transition_operation, start, get, get_by_idempotency_key, complete, reconcile_orphans,
  cancel_all_queued, mark_engine_unresponsive,
}
use powerfactory_mcp.Persistence.OperationStore.Admission.{
  is_handler_name, validate_identity, check_admit, queued_row,
}
use powerfactory_mcp.Persistence.OperationStore.History.Rows.{
  empty-OperationsInv, perform_all-invariant,
}
use powerfactory_mcp.Persistence.OperationStore.History.{OperationCall, perform, perform_all}
use powerfactory_mcp.Gateway.Worker.State.{Settings, Worker, Owner, Outcome, waiting}
use powerfactory_mcp.Gateway.Worker.OwnerThread.{
  poll_queue, judge, after_call, begin, settle_outcome, owner_step, handler_done,
}
use powerfactory_mcp.Gateway.Worker.{
  OperationRequest, admit_request, admissible, enqueue, submitted, submit, is_overdue, watched,
  watch, new_worker, WorkerEvent, worker_step, run_worker,
}
use powerfactory_mcp.Gateway.Worker.Claims.{Begun}
use powerfactory_mcp.Gateway.Worker.Once.{run_worker-handled_once}
use powerfactory_mcp.Gateway.Worker.Closing.{refusal, all_in_process, closed-refuses}
use powerfactory_mcp.Gateway.Worker.Queue.{run_worker-queue_bounded}
use powerfactory_mcp.Gateway.Worker.Running.{Running}
use powerfactory_mcp.Gateway.Worker.Serial.{run_worker-serialized}
use powerfactory_mcp.Gateway.Worker.Settling.{Settled}
use powerfactory_mcp.Gateway.Worker.Settled.{run_worker-settles}
use powerfactory_mcp.Gateway.Worker.Progress.{in_flight_row, serving, run_worker-completes}
use powerfactory_mcp.Gateway.Worker.Taking.{held}
use powerfactory_mcp.Gateway.Worker.Waiting.{run_worker-queued_kept}
use powerfactory_mcp.Scenarios.Data.{id_a, id_b}

abbrev settings : Settings
settings = record {
  handlers = "inventory.scan" ∷ [];
  encodes = λ text. true;
  max_queue_size = 2;
  queue_deadline_ms = 1000;
  client_response_deadline_ms = 2000;
  engine_health_threshold_ms = 3000;
  shutdown_drain_deadline_ms = 5000;
  watchdog_interval_ms = 5;
}

abbrev scan_request : String → OperationRequest
scan_request key = record {
  handler_name = "inventory.scan";
  payload_json = ok "{}";
  idempotency_key = key;
}

abbrev opened : Worker
opened = new_worker 1 2 [] empty

-- The owner takes an operation, starts it and calls its handler.
abbrev taking : List WorkerEvent
taking =
    WorkerEvent.submit_event (scan_request "key-1") id_a 5
    ∷ WorkerEvent.owner_event 6
    ∷ WorkerEvent.owner_event 7
    ∷ WorkerEvent.owner_event 8
    ∷ WorkerEvent.owner_event 9
    ∷ WorkerEvent.owner_event 10
    ∷ WorkerEvent.owner_event 11
    ∷ []

-- The handler returns, and the owner stores that and waits again.
abbrev served : List WorkerEvent
served =
    taking
    ++ WorkerEvent.handler_event (Outcome.returned (ok "[]") "{}")
      ∷ WorkerEvent.owner_event 12
      ∷ WorkerEvent.owner_event 13
      ∷ []

taking-run : (run_worker settings taking opened).handled ≡ id_a ∷ []
unfolding run_worker worker_step new_worker submit submitted admissible enqueue owner_step
    poll_queue judge begin admit check_admit validate_identity is_handler_name require_positive
    checked transaction commit asserted admit_at insert_operation insert any find count update start
    get get_by_idempotency_key transition_operation guarded_update reconcile_orphans
    cancel_all_queued
taking-run = refl

run_worker-handled_once_example :
    (all_distinct (run_worker settings served opened).handled ≡ true)
    × ((i : String)
        → contains (run_worker settings served opened).handled i ≡ true
        → Begun i (run_worker settings served opened).db)
run_worker-handled_once_example =
    run_worker-handled_once settings 1 2 empty empty-OperationsInv served

abbrev queueing : List WorkerEvent
queueing = WorkerEvent.submit_event (scan_request "key-1") id_a 5 ∷ WorkerEvent.owner_event 6 ∷ []

abbrev row : OperationRecord
row = queued_row (admit_request settings (scan_request "key-1") 5) id_a "{}" 1

queueing-row :
    find (operation_at id_a) (run_worker settings queueing opened).db.operation_records ≡ some row
unfolding run_worker worker_step new_worker submit submitted admissible enqueue owner_step
    poll_queue admit check_admit validate_identity is_handler_name require_positive checked
    transaction commit asserted admit_at insert_operation insert any find count update
    get_by_idempotency_key reconcile_orphans cancel_all_queued
queueing-row = refl

run_worker-queued_kept_example :
    (contains (run_worker settings queueing opened).queue id_a ≡ true)
    ⊎ (held (run_worker settings queueing opened).owner ≡ some id_a)
run_worker-queued_kept_example =
    run_worker-queued_kept settings 1 2 empty empty-OperationsInv queueing id_a row queueing-row
      refl

run_worker-queue_bounded_example : length (run_worker settings served opened).queue ≤ 2
unfolding new_worker
run_worker-queue_bounded_example = run_worker-queue_bounded settings served opened (omega arith)

abbrev running : OperationRecord
running = record row { state = OperationState.in_flight; started_at_ns = some 9; version = 1 }

-- The watchdog finds the operation overdue, and the handler returns after that.
abbrev overdue : Worker
overdue =
    run_worker settings (taking ++ WorkerEvent.watch_event id_a running 3000000009 ∷ []) opened

abbrev late_answer : List WorkerEvent
late_answer =
    WorkerEvent.handler_event (Outcome.returned (ok "[]") "{}")
    ∷ WorkerEvent.owner_event 3000000010
    ∷ []

overdue-run :
    (overdue.quarantined ≡ true)
    × (overdue.stopping ≡ false)
    × (get_by_idempotency_key "key-2" (run_worker settings late_answer overdue).db ≡ none)
unfolding run_worker worker_step new_worker submit submitted admissible enqueue owner_step
    poll_queue judge begin admit check_admit validate_identity is_handler_name require_positive
    checked transaction commit asserted admit_at insert_operation insert any find count update start
    get get_by_idempotency_key transition_operation guarded_update reconcile_orphans
    cancel_all_queued watch watched is_overdue mark_engine_unresponsive handler_done settle_outcome
    after_call complete
overdue-run = (refl, refl, refl)

closed-refuses_example :
    submit settings (scan_request "key-2") id_b 3000000011 (run_worker settings late_answer overdue)
    ≡ (
      err (refusal (run_worker settings late_answer overdue)),
      run_worker settings late_answer overdue,
    )
unfolding any all_in_process
closed-refuses_example =
    closed-refuses settings overdue late_answer (scan_request "key-2") id_b 3000000011
      (ground (arith, overdue-run.0)) refl refl overdue-run.2

taking-Running : Running id_a (run_worker settings taking opened).db
unfolding run_worker worker_step new_worker submit submitted admissible enqueue owner_step
    poll_queue judge begin admit check_admit validate_identity is_handler_name require_positive
    checked transaction commit asserted admit_at insert_operation insert any find count update start
    get get_by_idempotency_key transition_operation guarded_update reconcile_orphans
    cancel_all_queued
taking-Running = (running, refl, refl)

run_worker-serialized_example : id_a ≡ id_a
run_worker-serialized_example =
    run_worker-serialized settings 1 2 empty empty-OperationsInv taking id_a id_a taking-Running
      taking-Running

-- A worker with one operation on its queue.
abbrev loaded : Worker
loaded = record {
  db =
      perform_all
        (OperationCall.admit_call (admit_request settings (scan_request "key-1") 5) id_a ∷ [])
        empty;
  queue = id_a ∷ [];
  stopping = false;
  quarantined = false;
  active_operation_id = none;
  owner = waiting;
  handled = [];
}

loaded-row : find (operation_at id_a) loaded.db.operation_records ≡ some row
unfolding perform perform_all admit check_admit validate_identity is_handler_name require_positive
    checked transaction commit asserted admit_at insert_operation insert any find
loaded-row = refl

run_worker-completes_example :
    (find
        (operation_at id_a)
        (run_worker settings (serving 8 9 "[]" "{}") loaded).db.operation_records
      ≡ some (set_completed "[]" 9 (in_flight_row 8 row)))
    × ((run_worker settings (serving 8 9 "[]" "{}") loaded).handled ≡ id_a ∷ [])
    × ((run_worker settings (serving 8 9 "[]" "{}") loaded).owner ≡ waiting)
    × ((run_worker settings (serving 8 9 "[]" "{}") loaded).queue ≡ [])
    × ((run_worker settings (serving 8 9 "[]" "{}") loaded).active_operation_id ≡ none)
unfolding any
run_worker-completes_example =
    run_worker-completes settings loaded id_a [] row 8 9 "[]" "{}"
      (perform_all-invariant
        (OperationCall.admit_call (admit_request settings (scan_request "key-1") 5) id_a ∷ []))
      loaded-row refl refl refl refl refl

-- The owner has called the handler of a started operation.
abbrev started_calls : List OperationCall
started_calls =
    OperationCall.admit_call (admit_request settings (scan_request "key-1") 5) id_a
    ∷ OperationCall.start_call id_a 8
    ∷ []

abbrev handling : Worker
handling = record loaded {
  db = perform_all started_calls empty;
  queue = [];
  active_operation_id = some id_a;
  owner = Owner.running id_a (in_flight_row 8 row);
  handled = id_a ∷ [];
}

handling-row : find (operation_at id_a) handling.db.operation_records ≡ some (in_flight_row 8 row)
unfolding perform perform_all admit check_admit validate_identity is_handler_name require_positive
    checked transaction commit asserted admit_at insert_operation insert any find start
    transition_operation guarded_update update count
handling-row = refl

-- The handler fails, the watchdog gives the operation up before `fail`, and a close comes before it is
-- reconciled.
abbrev troubled : List WorkerEvent
troubled =
    WorkerEvent.watch_event id_a (in_flight_row 8 row) 9000000000
    ∷ WorkerEvent.owner_event 9000000001
    ∷ WorkerEvent.close_event 9000000002
    ∷ WorkerEvent.owner_event 9000000003
    ∷ []

run_worker-settles_example :
    Settled id_a
      (run_worker settings
        (WorkerEvent.handler_event (Outcome.known_failure "{}") ∷ troubled)
        handling).db
run_worker-settles_example =
    run_worker-settles settings handling id_a (in_flight_row 8 row) (Outcome.known_failure "{}")
      troubled (perform_all-invariant started_calls) (in_flight_row 8 row, handling-row, refl) refl
      refl (omega arith)
