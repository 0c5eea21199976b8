-- ===== src/Gateway/Worker/State.antt =====
-- The state of `SerializedOperationWorker`, gateway/worker.py, and where its owner thread stands.
use powerfactory_mcp.Prelude.{ℕ, String, Bool, true, false, ltb, Option, List, length}
use powerfactory_mcp.Errors.{
  Error, Result, ok, value_error, invalid_operation_transition, guard, ◌>>◌,
}
use powerfactory_mcp.Domain.Values.Checks.{require_positive}
use powerfactory_mcp.Domain.Operation.{OperationRecord}
use powerfactory_mcp.Persistence.Database.{Database}

-- The arguments of `__init__`; a handler is known by its name. `encodes` says of the JSON text of a
-- stored payload whether `canonical_json` and `json.loads` give the handler a tree of its own, or
-- raise.
pub record Settings : Type 0 where
  pub handlers : List String
  pub encodes : String → Bool
  pub max_queue_size : ℕ
  pub queue_deadline_ms : ℕ
  pub client_response_deadline_ms : ℕ
  pub engine_health_threshold_ms : ℕ
  pub shutdown_drain_deadline_ms : ℕ
  pub watchdog_interval_ms : ℕ

unfoldable pub new_settings : Settings → Result Settings
new_settings s = do
  require_positive s.max_queue_size "max_queue_size"
  require_positive s.queue_deadline_ms "queue_deadline_ms"
  require_positive s.client_response_deadline_ms "client_response_deadline_ms"
  require_positive s.engine_health_threshold_ms "engine_health_threshold_ms"
  require_positive s.shutdown_drain_deadline_ms "shutdown_drain_deadline_ms"
  require_positive s.watchdog_interval_ms "watchdog_interval_ms"
  guard (ltb 0 (length s.handlers)) (value_error "handlers must contain at least one callable")
  ok s

-- What a handler comes to, with the JSON text of the evidence of a failure, `_failure_evidence`: a
-- `KnownOperationFailure`, another exception, a result with what `canonical_json` makes of it, or a
-- `BaseException` that is no `Exception`, such as `SystemExit`, which `_execute` does not catch.
pub data Outcome : Type 0 where
  known_failure uncertain_failure : String → Outcome
  returned : Result String → String → Outcome
  escaped : Outcome

-- Where the owner thread stands, between two accesses of what it shares with the other threads.
pub data Owner : Type 0 where
  waiting : Owner
  taken : String → Owner
  judged : String → OperationRecord → Owner
  expiring starting : String → Owner
  started executing running : String → OperationRecord → Owner
  settling : String → OperationRecord → Outcome → Owner
  reconciling : String → OperationRecord → String → Owner
  finishing : String → Bool → Owner
  gone : Owner

-- `handled` has the operations whose handler was called, for the theorems; the other fields are the
-- attributes, with the store's tables.
pub record Worker : Type 0 where
  pub db : Database
  pub queue : List String
  pub stopping : Bool
  pub quarantined : Bool
  pub active_operation_id : Option String
  pub owner : Owner
  pub handled : List String

-- `except InvalidOperationTransitionError`.
abbrev pub is_transition_error : Error → Bool
is_transition_error (invalid_operation_transition s t) = true
is_transition_error _ = false

abbrev pub is_gone : Owner → Bool
is_gone gone = true
is_gone _ = false
