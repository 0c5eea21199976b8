-- ===== src/Persistence/WorkflowStore.antt =====
-- persistence/workflow_store.py: workflow rows, idempotent commands and the audit trail. The proofs
-- are in the modules below.
pub mod Transitions
pub mod Request
pub mod Build
pub mod Outcome
pub mod Invariant
pub mod Preservation
pub mod Moves
pub mod Idempotency
pub mod Lifecycle
pub mod Completion
use powerfactory_mcp.Prelude.{
  ℕ, ◌+◌, String, Bool, true, false, not, ◌&&◌, ◌==◌, nat_eq, ltb, leb, Option, none, some, List,
  [], ◌∷◌, length, if◌then◌else◌,
}
use powerfactory_mcp.Errors.{
  Error, Result, ok, err, value_error, workflow_not_found, workflow_already_exists,
  workflow_idempotency_conflict, workflow_version_conflict, guard, refuse,
}
use powerfactory_mcp.Table.{find, select, count, update, insert}
use powerfactory_mcp.Domain.Values.{WorkflowVersion, revision_eq}
use powerfactory_mcp.Domain.Workflow.{
  WorkflowState, WorkflowRecord, IdempotentCommandRecord, AuditEvent, state_eq,
}
use powerfactory_mcp.Persistence.Timestamps.{encode_utc_timestamp}
use powerfactory_mcp.Persistence.Database.{
  Database, WorkflowRow, Tx, Exec, ◌>>=◌, ◌>>◌, pure, raise, lift, transaction, checked,
}
use powerfactory_mcp.Persistence.Writers.{
  command_at, insert_workflow_command, append_workflow_audit_event,
}
use Transitions.{Transition}
use Request.{TransitionRequest, check_request}
use Build.{
  TransitionIds, next_version, next_workflow, command, requested_event, transitioned_event,
  build_transition,
}

-- WHERE workflow_id = ?
abbrev pub workflow_at : String → WorkflowRow → Bool
workflow_at workflow_id r = r.workflow_id == workflow_id

abbrev found_or {ℓ} : {A : Type ℓ} → Error → Option A → Tx A
found_or e none = raise e
found_or e (some a) = pure a

-- `_workflow_row`.
unfoldable pub workflow_row : String → Tx WorkflowRow
workflow_row workflow_id db =
    found_or (workflow_not_found workflow_id) (find (workflow_at workflow_id) db.workflow_records)
      db

-- The row that `record` inserts.
abbrev pub new_row : WorkflowRecord → WorkflowRow
new_row w = record {
  workflow_id = w.workflow_id;
  state = w.state;
  workflow_version_counter = w.workflow_version.counter;
  configuration_key = w.configuration_key;
  record_json = w;
  updated_at = encode_utc_timestamp w.updated_at;
}

-- The INSERT of `record`, and `record`.
unfoldable pub insert_record : WorkflowRecord → Tx WorkflowRecord
insert_record w db = elim (insert (workflow_at w.workflow_id) (new_row w) db.workflow_records) [
  | err e ↦ err (workflow_already_exists w.workflow_id)
  | ok rows ↦ ok (w, record db { workflow_records = rows })
]

unfoldable pub record_workflow : WorkflowRecord → Exec WorkflowRecord
record_workflow w = transaction (insert_record w)

-- `workflow`, `command`, `command_for_key` and `audit_events` read outside any transaction.
unfoldable pub workflow : String → Database → Result WorkflowRecord
workflow workflow_id db = elim (find (workflow_at workflow_id) db.workflow_records) [
  | none ↦ err (workflow_not_found workflow_id)
  | some r ↦ ok r.record_json
]

unfoldable pub command_of : String → Database → Result IdempotentCommandRecord
command_of command_id db = elim (find (λ c. c.command_id == command_id) db.workflow_commands) [
  | none ↦ err (workflow_not_found command_id)
  | some c ↦ ok c
]

unfoldable pub command_for_key : String → String → Database → Option IdempotentCommandRecord
command_for_key workflow_id key db = find (command_at workflow_id key) db.workflow_commands

unfoldable pub audit_events : String → Database → List AuditEvent
audit_events workflow_id db = select (λ e. e.workflow_id == workflow_id) db.workflow_audit_events

-- `WorkflowVersion(workflow_id, int(row["workflow_version_counter"]))`.
abbrev pub version_of : String → WorkflowRow → WorkflowVersion
version_of workflow_id row = record {
  scope_id = workflow_id;
  counter = row.workflow_version_counter;
}

-- `append_audit`, once the row is read.
unfoldable pub append_row : AuditEvent → WorkflowRow → Tx AuditEvent
append_row event row = do
  lift (
      refuse (ltb row.workflow_version_counter event.workflow_version.counter) (
        workflow_version_conflict event.workflow_id event.workflow_version
          (version_of event.workflow_id row)))
  append_workflow_audit_event event

unfoldable pub append_audit : AuditEvent → Exec AuditEvent
append_audit event = transaction (workflow_row event.workflow_id >>= append_row event)

-- WHERE workflow_id = ? AND workflow_version_counter = ?
abbrev pub expected_row : TransitionRequest → WorkflowRow → Bool
expected_row q r =
    workflow_at q.workflow_id r
    && nat_eq r.workflow_version_counter q.expected_workflow_version.counter

-- The columns that the UPDATE sets.
abbrev pub advance : TransitionRequest → TransitionIds → WorkflowRecord → WorkflowRow → WorkflowRow
advance q ids previous r = record r {
  state = q.target_state;
  workflow_version_counter = (next_version q ids previous).counter;
  record_json = next_workflow q ids previous;
  updated_at = encode_utc_timestamp q.occurred_at;
}

unfoldable pub lost_race : TransitionRequest → Tx (Unit {0})
lost_race q = do
  row ← workflow_row q.workflow_id
  raise (
      workflow_version_conflict q.workflow_id q.expected_workflow_version
        (version_of q.workflow_id row))

-- The guarded UPDATE of `transition`, and what follows when it does not hit exactly one row.
unfoldable pub compare_and_swap : TransitionRequest → TransitionIds → WorkflowRecord → Tx (Unit {0})
compare_and_swap q ids previous db =
    if nat_eq (count (expected_row q) db.workflow_records) 1
    then ok (
      tt,
      record db {
        workflow_records = update (expected_row q) (advance q ids previous) db.workflow_records;
      },
    )
    else lost_race q db

-- The writes of an admitted transition.
unfoldable pub write_transition :
    TransitionRequest → TransitionIds → WorkflowRecord → Tx IdempotentCommandRecord
write_transition q ids previous = do
  insert_workflow_command (command q ids previous)
  compare_and_swap q ids previous
  _ ← append_workflow_audit_event (requested_event q ids previous)
  _ ← append_workflow_audit_event (transitioned_event q ids previous)
  pure (command q ids previous)

-- The transaction for a key that no command holds yet.
unfoldable pub apply_transition :
    TransitionRequest → TransitionIds → Transition → Tx IdempotentCommandRecord
apply_transition q ids legal = do
  row ← workflow_row q.workflow_id
  lift (
      guard (revision_eq row.record_json.workflow_version q.expected_workflow_version) (
        workflow_version_conflict q.workflow_id q.expected_workflow_version
          row.record_json.workflow_version))
  lift (
      guard (state_eq legal.source row.record_json.state && state_eq legal.target q.target_state)
        (value_error "workflow command cannot make this transition"))
  lift (build_transition q ids row.record_json)
  write_transition q ids row.record_json

-- A key that a command holds: the same command is returned, another one refused.
unfoldable pub replay_or_apply :
    TransitionRequest
    → TransitionIds
    → Transition
    → Option IdempotentCommandRecord
    → Tx IdempotentCommandRecord
replay_or_apply q ids legal none = apply_transition q ids legal
replay_or_apply q ids legal (some c) =
    if c.command_name == q.command_name && c.request_digest == q.request_digest
    then pure c
    else raise (workflow_idempotency_conflict q.workflow_id q.idempotency_key)

unfoldable pub transition : TransitionRequest → TransitionIds → Exec IdempotentCommandRecord
transition q ids = checked (check_request q) λ legal. transaction λ db.
    replay_or_apply q ids legal
      (find (command_at q.workflow_id q.idempotency_key) db.workflow_commands) db
