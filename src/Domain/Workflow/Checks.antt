-- ===== src/Domain/Workflow/Checks.antt =====
-- The `__post_init__` methods of domain/workflow.py: each returns the record that it accepts.
use powerfactory_mcp.Prelude.{
  ℕ, String, Bool, true, false, not, ◌&&◌, Option, none, some, is_none, is_some, ltb, ◌==◌,
}
use powerfactory_mcp.Errors.{Result, ok, value_error, guard, refuse, ◌>>◌}
use powerfactory_mcp.Domain.Values.{Datetime, before}
use powerfactory_mcp.Domain.Values.Checks.{
  require_text, require_aware, require_uuid4, require_optional_uuid4, require_optional_text,
  require_positive,
}
use powerfactory_mcp.Domain.Workflow.{
  WorkflowRecord, IdempotentCommandRecord, WorkflowCommandStatus, AuditEvent,
}

unfoldable pub new_workflow_record : WorkflowRecord → Result WorkflowRecord
new_workflow_record r = do
  require_uuid4 r.workflow_id "WorkflowRecord.workflow_id"
  guard (r.workflow_version.scope_id == r.workflow_id)
      (value_error "workflow_version scope must equal workflow_id")
  require_aware r.created_at "WorkflowRecord.created_at"
  require_aware r.updated_at "WorkflowRecord.updated_at"
  refuse (before r.updated_at r.created_at) (value_error "updated_at cannot precede created_at")
  require_optional_uuid4 r.latest_command_id "WorkflowRecord.latest_command_id"
  require_optional_uuid4 r.latest_operation_id "WorkflowRecord.latest_operation_id"
  require_optional_text r.recovery_reference "WorkflowRecord.recovery_reference" 1024
  ok r

-- `status in (REQUESTED, IN_PROGRESS)`.
abbrev is_incomplete : WorkflowCommandStatus → Bool
is_incomplete WorkflowCommandStatus.requested = true
is_incomplete WorkflowCommandStatus.in_progress = true
is_incomplete _ = false

check_completed_at : Datetime → Option Datetime → Result (Unit {0})
check_completed_at requested_at none = ok tt
check_completed_at requested_at (some completed_at) = do
  require_aware completed_at "IdempotentCommandRecord.completed_at"
  refuse (before completed_at requested_at) (value_error "completed_at cannot precede requested_at")

check_result : Bool → Option Datetime → Option String → Result (Unit {0})
check_result true completed_at result_digest =
    guard (is_none completed_at && is_none result_digest)
      (value_error "incomplete command records cannot have a result")
check_result false completed_at result_digest =
    guard (is_some completed_at) (value_error "completed command records require completed_at")

unfoldable pub new_command_record : IdempotentCommandRecord → Result IdempotentCommandRecord
unfolding check_completed_at check_result
new_command_record c = do
  require_uuid4 c.command_id "IdempotentCommandRecord.command_id"
  require_uuid4 c.workflow_id "IdempotentCommandRecord.workflow_id"
  require_text c.command_name "IdempotentCommandRecord.command_name" 128
  require_text c.idempotency_key "IdempotentCommandRecord.idempotency_key" 256
  require_aware c.requested_at "IdempotentCommandRecord.requested_at"
  require_optional_uuid4 c.operation_id "IdempotentCommandRecord.operation_id"
  guard (c.expected_workflow_version.scope_id == c.workflow_id)
      (value_error "expected_workflow_version scope must equal workflow_id")
  guard (c.resulting_workflow_version.scope_id == c.workflow_id)
      (value_error "resulting_workflow_version scope must equal workflow_id")
  refuse (ltb c.resulting_workflow_version.counter c.expected_workflow_version.counter)
      (value_error "resulting_workflow_version cannot precede expected_workflow_version")
  check_completed_at c.requested_at c.completed_at
  check_result (is_incomplete c.status) c.completed_at c.result_digest
  ok c

check_fencing_token : Option ℕ → Result (Unit {0})
check_fencing_token none = ok tt
check_fencing_token (some token) = require_positive token "AuditEvent.fencing_token"

abbrev both_or_neither : Bool → Bool → Bool
both_or_neither true b = b
both_or_neither false b = not b

unfoldable pub new_audit_event : AuditEvent → Result AuditEvent
unfolding check_fencing_token
new_audit_event e = do
  require_uuid4 e.event_id "AuditEvent.event_id"
  require_uuid4 e.workflow_id "AuditEvent.workflow_id"
  guard (e.workflow_version.scope_id == e.workflow_id)
      (value_error "workflow_version scope must equal workflow_id")
  require_aware e.occurred_at "AuditEvent.occurred_at"
  require_text e.evidence_reference "AuditEvent.evidence_reference" 1024
  require_optional_uuid4 e.command_id "AuditEvent.command_id"
  require_optional_uuid4 e.operation_id "AuditEvent.operation_id"
  require_optional_uuid4 e.correlation_id "AuditEvent.correlation_id"
  require_optional_text e.authorization_reference "AuditEvent.authorization_reference" 256
  check_fencing_token e.fencing_token
  guard (both_or_neither (is_some e.state_before) (is_some e.state_after))
      (value_error "state_before and state_after must be present together")
  ok e
