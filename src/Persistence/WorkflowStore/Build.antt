-- ===== src/Persistence/WorkflowStore/Build.antt =====
-- The values that `WorkflowStore.transition` builds before it writes any row.
use powerfactory_mcp.Prelude.{◌+◌, String, Option, none, some}
use powerfactory_mcp.Errors.{Result, ok, ◌>>=◌}
use powerfactory_mcp.Domain.Values.{WorkflowVersion}
use powerfactory_mcp.Domain.Values.Checks.{new_revision}
use powerfactory_mcp.Domain.Workflow.{
  WorkflowRecord, IdempotentCommandRecord, WorkflowCommandStatus, AuditEvent, AuditEventType,
}
use powerfactory_mcp.Persistence.WorkflowStore.Request.{TransitionRequest}
use powerfactory_mcp.Domain.Workflow.Checks.{
  new_workflow_record, new_command_record, new_audit_event,
}

-- What `uuid.uuid4()` returns at its three calls.
pub record TransitionIds : Type 0 where
  pub command_id : String
  pub requested_event_id : String
  pub transitioned_event_id : String

-- `x if x is not None else y`.
abbrev pub or_previous : Option String → Option String → Option String
or_previous none y = y
or_previous (some x) y = some x

module _ (q : TransitionRequest) (ids : TransitionIds) (previous : WorkflowRecord) where
  abbrev pub next_version : WorkflowVersion
  next_version = record {
    scope_id = q.workflow_id;
    counter = previous.workflow_version.counter + 1;
  }

  abbrev pub next_workflow : WorkflowRecord
  next_workflow = record previous {
    state = q.target_state;
    workflow_version = next_version;
    updated_at = q.occurred_at;
    latest_command_id = some ids.command_id;
    latest_operation_id = or_previous q.operation_id previous.latest_operation_id;
    recovery_reference = or_previous q.recovery_reference previous.recovery_reference;
  }

  abbrev pub command : IdempotentCommandRecord
  command = record {
    command_id = ids.command_id;
    workflow_id = q.workflow_id;
    command_name = q.command_name;
    idempotency_key = q.idempotency_key;
    request_digest = q.request_digest;
    expected_workflow_version = q.expected_workflow_version;
    status = WorkflowCommandStatus.completed;
    resulting_workflow_version = next_version;
    requested_at = q.occurred_at;
    operation_id = q.operation_id;
    result_digest = q.result_digest;
    completed_at = some q.occurred_at;
  }

  abbrev pub requested_event : AuditEvent
  requested_event = record {
    event_id = ids.requested_event_id;
    workflow_id = q.workflow_id;
    workflow_version = previous.workflow_version;
    event_type = AuditEventType.requested;
    actor_class = q.actor_class;
    occurred_at = q.occurred_at;
    request_digest = q.request_digest;
    evidence_reference = q.evidence_reference;
    command_id = some ids.command_id;
    operation_id = q.operation_id;
    correlation_id = q.correlation_id;
    state_before = none;
    state_after = none;
    authorization_reference = q.authorization_reference;
    fencing_token = q.fencing_token;
  }

  abbrev pub transitioned_event : AuditEvent
  transitioned_event = record {
    event_id = ids.transitioned_event_id;
    workflow_id = q.workflow_id;
    workflow_version = next_version;
    event_type = q.transition_event_type;
    actor_class = q.actor_class;
    occurred_at = q.occurred_at;
    request_digest = q.request_digest;
    evidence_reference = q.evidence_reference;
    command_id = some ids.command_id;
    operation_id = q.operation_id;
    correlation_id = q.correlation_id;
    state_before = some previous.state;
    state_after = some q.target_state;
    authorization_reference = q.authorization_reference;
    fencing_token = q.fencing_token;
  }

  -- The constructors run in this order, and each may raise.
  unfoldable pub build_transition : Result (Unit {0})
  build_transition = do
    _ ← new_revision q.workflow_id (previous.workflow_version.counter + 1)
    _ ← new_workflow_record next_workflow
    _ ← new_command_record command
    _ ← new_audit_event requested_event
    _ ← new_audit_event transitioned_event
    ok tt
