-- ===== src/Domain/Operation.antt =====
-- The states of a gateway operation, and its durable record: `OperationState`, `TERMINAL_STATES` and
-- `OperationRecord` of persistence/operation_store.py.
use powerfactory_mcp.Prelude.{ℕ, String, Bool, true, false, Option}

pub data OperationState : Type 0 where
  queued cancelled_before_start in_flight client_timed_out completed : OperationState
  completed_after_client_timeout failed engine_unresponsive reconciliation_required : OperationState

-- Membership in `TERMINAL_STATES`.
abbrev pub is_terminal : OperationState → Bool
is_terminal OperationState.cancelled_before_start = true
is_terminal OperationState.completed = true
is_terminal OperationState.completed_after_client_timeout = true
is_terminal OperationState.failed = true
is_terminal OperationState.reconciliation_required = true
is_terminal _ = false

-- A payload, a result and an error stand as the canonical JSON text of their column.
pub record OperationRecord : Type 0 where
  pub sequence : ℕ
  pub operation_id : String
  pub idempotency_key : String
  pub handler_name : String
  pub payload_json : String
  pub state : OperationState
  pub admitted_at_ns : ℕ
  pub queue_deadline_at_ns : ℕ
  pub client_deadline_at_ns : ℕ
  pub engine_health_threshold_ms : ℕ
  pub started_at_ns : Option ℕ
  pub finished_at_ns : Option ℕ
  pub result_json : Option String
  pub error_json : Option String
  pub version : ℕ
