-- ===== src/Persistence/OperationStore/Columns.antt =====
-- The states that the methods of the operation store expect, and the columns that they set.
use powerfactory_mcp.Prelude.{
  ℕ, ◌+◌, String, Bool, true, false, Option, none, some, leb, if◌then◌else◌,
}
use powerfactory_mcp.Domain.Operation.{OperationState, OperationRecord}

abbrev pub is_queued : OperationState → Bool
is_queued OperationState.queued = true
is_queued _ = false

-- The columns that a transition may set beside the state; the others stay.
pub record Updates : Type 0 where
  pub started_at_ns : Option ℕ
  pub finished_at_ns : Option ℕ
  pub error_json : Option String

abbrev pub set_to {ℓ} : {A : Type ℓ} → Option A → Option A → Option A
set_to none old = old
set_to (some new) old = some new

abbrev pub set_columns : OperationState → Updates → OperationRecord → OperationRecord
set_columns target updates r = record r {
  state = target;
  version = r.version + 1;
  started_at_ns = set_to updates.started_at_ns r.started_at_ns;
  finished_at_ns = set_to updates.finished_at_ns r.finished_at_ns;
  error_json = set_to updates.error_json r.error_json;
}

abbrev pub no_updates : Updates
no_updates = record { started_at_ns = none; finished_at_ns = none; error_json = none }

-- The states that the methods expect.
abbrev pub is_in_flight : OperationState → Bool
is_in_flight OperationState.in_flight = true
is_in_flight _ = false

abbrev pub is_answerable : OperationState → Bool
is_answerable OperationState.in_flight = true
is_answerable OperationState.client_timed_out = true
is_answerable _ = false

abbrev pub is_running : OperationState → Bool
is_running OperationState.in_flight = true
is_running OperationState.client_timed_out = true
is_running OperationState.engine_unresponsive = true
is_running _ = false

-- The CASE of `complete`.
abbrev pub completed_state : ℕ → OperationRecord → OperationState → OperationState
completed_state now r OperationState.engine_unresponsive = OperationState.reconciliation_required
completed_state now r OperationState.client_timed_out =
    OperationState.completed_after_client_timeout
completed_state now r _ =
    if leb r.client_deadline_at_ns now
    then OperationState.completed_after_client_timeout
    else OperationState.completed

abbrev pub set_completed : String → ℕ → OperationRecord → OperationRecord
set_completed text now r = record r {
  state = completed_state now r r.state;
  result_json = some text;
  finished_at_ns = some now;
  version = r.version + 1;
}

-- An UPDATE of all rows in some states.
abbrev pub set_finished : OperationState → ℕ → OperationRecord → OperationRecord
set_finished target now r = record r {
  state = target;
  finished_at_ns = some now;
  version = r.version + 1;
}
