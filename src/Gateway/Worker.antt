-- ===== src/Gateway/Worker.antt =====
-- `SerializedOperationWorker` of gateway/worker.py: `submit` and the waits of a client, the watchdog,
-- `close`, and the start of a new process over the tables of an earlier one. A schedule of events
-- gives the accesses of the threads to what they share, in their order.
pub mod State
pub mod OwnerThread
pub mod Clients
pub mod Events
pub mod Claims
pub mod Once
pub mod Closing
pub mod Queue
pub mod Calls
pub mod Taking
pub mod Waiting
pub mod Timed
pub mod Running
pub mod Engaged
pub mod Serial
pub mod Settling
pub mod Settled
pub mod Progress
use powerfactory_mcp.Prelude.{
  ℕ, ◌+◌, ◌*◌, String, Bool, true, false, not, ◌&&◌, ◌||◌, ltb, leb, Option, none, some, is_some,
  List, [], ◌∷◌, ◌++◌, length, if◌then◌else◌,
}
use powerfactory_mcp.Errors.{
  Error, Result, ok, err, unknown_operation_handler, worker_closed, engine_quarantined,
  queue_capacity, guard, refuse, ◌>>◌,
}
use powerfactory_mcp.Domain.Operation.{OperationRecord, OperationState, is_terminal}
use powerfactory_mcp.Domain.Inventory.Checks.{contains}
use powerfactory_mcp.Persistence.Database.{Database, empty}
use powerfactory_mcp.Persistence.OperationStore.Admission.{AdmitRequest}
use powerfactory_mcp.Persistence.OperationStore.{
  admit, get_by_idempotency_key, mark_client_timed_out, mark_engine_unresponsive, reconcile_orphans,
  cancel_expired_queued, cancel_all_queued, is_in_flight, is_answerable,
}
use State.{Settings, Worker, Owner, Outcome, waiting, gone, is_gone, is_transition_error}
use OwnerThread.{owner_step, handler_done}

-- `OperationRequest`, with what `canonical_json` makes of its payload.
pub record OperationRequest : Type 0 where
  pub handler_name : String
  pub payload_json : Result String
  pub idempotency_key : String

-- A key that no row holds is admitted while the worker is open, healthy and has room.
unfoldable pub admissible : Settings → Worker → Option OperationRecord → Result (Unit {0})
admissible s w (some r) = ok tt
admissible s w none = do
  refuse w.stopping worker_closed
  refuse w.quarantined engine_quarantined
  refuse (leb s.max_queue_size (length w.queue)) queue_capacity

abbrev pub admit_request : Settings → OperationRequest → ℕ → AdmitRequest
admit_request s q now = record {
  handler_name = q.handler_name;
  payload_json = q.payload_json;
  idempotency_key = q.idempotency_key;
  queue_deadline_ms = s.queue_deadline_ms;
  client_response_deadline_ms = s.client_response_deadline_ms;
  engine_health_threshold_ms = s.engine_health_threshold_ms;
  now_ns = now;
}

-- A created operation is put on the queue. `put_nowait` cannot find it full: the capacity was tested
-- under the admission lock, under which alone the queue grows.
unfoldable pub enqueue :
    Worker → Result (OperationRecord × Bool) × Database → Result OperationRecord × Worker
enqueue w (err e, db) = (err e, record w { db = db })
enqueue w (ok (r, false), db) = (ok r, record w { db = db })
enqueue w (ok (r, true), db) = (ok r, record w { db = db; queue = w.queue ++ r.operation_id ∷ [] })

-- `submit` once its tests have passed or raised.
unfoldable pub submitted :
    Settings
    → OperationRequest
    → String
    → ℕ
    → Worker
    → Result (Unit {0})
    → Result OperationRecord × Worker
submitted s q operation_id now w (err e) = (err e, w)
submitted s q operation_id now w (ok passed) =
    enqueue w (admit (admit_request s q now) operation_id w.db)

-- The admission lock makes `submit` one step. A client that does not wait has the record at once.
unfoldable pub submit :
    Settings → OperationRequest → String → ℕ → Worker → Result OperationRecord × Worker
submit s q operation_id now w = submitted s q operation_id now w (
    guard (contains s.handlers q.handler_name) (unknown_operation_handler q.handler_name)
    >> admissible s w (get_by_idempotency_key q.idempotency_key w.db))

abbrev pub is_given_up : OperationState → Bool
is_given_up OperationState.client_timed_out = true
is_given_up OperationState.engine_unresponsive = true
is_given_up _ = false

-- A transition that the store does not admit is another turn.
unfoldable pub timed_out :
    Result OperationRecord × Database → Result (Option OperationRecord) × Database
timed_out (ok r, db) = (ok (some r), db)
timed_out (err e, db) = (if is_transition_error e then ok none else err e, db)

-- One turn of `_wait_for_client`, with the record that it read: the record to return, or none when
-- it waits for a change.
unfoldable pub client_turn :
    OperationRecord → ℕ → Database → Result (Option OperationRecord) × Database
client_turn r now db =
    if is_terminal r.state || is_given_up r.state
    then (ok (some r), db)
    else if ltb now r.client_deadline_at_ns
    then (ok none, db)
    else if is_in_flight r.state
    then timed_out (mark_client_timed_out r.operation_id db)
    else (ok (some r), db)

-- One turn of `wait_for_terminal`, with the record that it read.
unfoldable pub terminal_turn : OperationRecord → ℕ → ℕ → Option OperationRecord
terminal_turn r deadline now = if is_terminal r.state || leb deadline now then some r else none

-- The watchdog's test of the record of the operation that it saw active.
unfoldable pub is_overdue : OperationRecord → ℕ → Bool
is_overdue r now = is_answerable r.state && elim r.started_at_ns [
  | none ↦ false
  | some at ↦ leb (at + r.engine_health_threshold_ms * 1000000) now
]

unfoldable pub watched : Worker → Result OperationRecord × Database → Worker
watched w (ok r, db) = record w { db = db; quarantined = true }
watched w (err e, db) = record w { db = db }

-- The watchdog marks an overdue operation, and quarantines the worker when the store admits that.
unfoldable pub watch : String → OperationRecord → ℕ → Worker → Worker
watch i r now w = if is_overdue r now then watched w (mark_engine_unresponsive i w.db) else w

unfoldable pub close_begin : ℕ → Worker → Worker
close_begin now w = record w { stopping = true; db = (cancel_all_queued now w.db).1 }

unfoldable pub given_up : Worker → Result OperationRecord × Database → Worker
given_up w (ok r, db) = record w { db = db; quarantined = true }
given_up w (err e, db) = record w { db = db; quarantined = is_transition_error e || w.quarantined }

-- The deadline of `close`, with the active operation that it saw: an owner or a watchdog that still
-- runs makes the worker quarantined. An error that is not caught comes before that.
unfoldable pub close_late : Option String → Bool → Worker → Worker
close_late none watchdog_alive w =
    if is_gone w.owner
    then record w { quarantined = watchdog_alive || w.quarantined }
    else record w { quarantined = true }
close_late (some i) watchdog_alive w =
    if is_gone w.owner
    then record w { quarantined = watchdog_alive || w.quarantined }
    else given_up w (mark_engine_unresponsive i w.db)

-- `__init__`, over the tables that an earlier process left.
unfoldable pub new_worker : ℕ → ℕ → List String → Database → Worker
new_worker now later handled db = record {
  db = (cancel_all_queued later (reconcile_orphans now db).1).1;
  queue = [];
  stopping = false;
  quarantined = false;
  active_operation_id = none;
  owner = waiting;
  handled = handled;
}

-- The events of a schedule. The records and identifiers that a client, the watchdog and `close` act
-- on were read earlier; here they are any.
pub data WorkerEvent : Type 0 where
  submit_event : OperationRequest → String → ℕ → WorkerEvent
  owner_event : ℕ → WorkerEvent
  handler_event : Outcome → WorkerEvent
  client_event : OperationRecord → ℕ → WorkerEvent
  expire_queue_event : ℕ → WorkerEvent
  watch_event : String → OperationRecord → ℕ → WorkerEvent
  close_event : ℕ → WorkerEvent
  deadline_event : Option String → Bool → WorkerEvent
  restart_event : ℕ → ℕ → WorkerEvent

unfoldable pub worker_step : Settings → WorkerEvent → Worker → Worker
worker_step s (WorkerEvent.submit_event q i now) w = (submit s q i now w).1
worker_step s (WorkerEvent.owner_event now) w = owner_step s now w.owner w
worker_step s (WorkerEvent.handler_event outcome) w = record w {
  owner = handler_done outcome w.owner;
}
worker_step s (WorkerEvent.client_event r now) w = record w { db = (client_turn r now w.db).1 }
worker_step s (WorkerEvent.expire_queue_event now) w = record w {
  db = (cancel_expired_queued now w.db).1;
}
worker_step s (WorkerEvent.watch_event i r now) w = watch i r now w
worker_step s (WorkerEvent.close_event now) w = close_begin now w
worker_step s (WorkerEvent.deadline_event active alive) w = close_late active alive w
worker_step s (WorkerEvent.restart_event now later) w = new_worker now later w.handled w.db

unfoldable pub run_worker : Settings → List WorkerEvent → Worker → Worker
run_worker s [] w = w
run_worker s (event ∷ events) w = run_worker s events (worker_step s event w)
