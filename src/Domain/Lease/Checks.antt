-- ===== src/Domain/Lease/Checks.antt =====
-- The `__post_init__` methods of domain/lease.py: each returns the record that it accepts.
use powerfactory_mcp.Prelude.{Bool, true, false, not, ◌&&◌, is_none, is_some, ◌==◌}
use powerfactory_mcp.Errors.{Result, ok, value_error, guard, refuse, ◌>>◌}
use powerfactory_mcp.Domain.Values.{before}
use powerfactory_mcp.Domain.Values.Checks.{
  require_text, require_aware, require_uuid4, require_optional_uuid4, require_optional_text,
  require_positive,
}
use powerfactory_mcp.Domain.Lease.{
  ContextLease, LeaseEvent, LeaseState, LeaseEventType, is_held, is_recovery, held_matches,
}

-- `state is LeaseState.AVAILABLE`, and so on.
abbrev is_available : LeaseState → Bool
is_available LeaseState.available = true
is_available _ = false

abbrev is_expired : LeaseState → Bool
is_expired LeaseState.expired = true
is_expired _ = false

abbrev is_in_flight_expired : LeaseState → Bool
is_in_flight_expired LeaseState.in_flight_expired = true
is_in_flight_expired _ = false

check_state : ContextLease → Result (Unit {0})
check_state l = do
  refuse (is_available l.state)
      (value_error "AVAILABLE is represented by the absence of a ContextLease")
  refuse (is_held l.state && not (held_matches l.mode l.state))
      (value_error "held lease state must match lease mode")
  refuse (is_expired l.state && is_some l.operation_id)
      (value_error "EXPIRED lease cannot retain an operation_id")
  refuse (is_in_flight_expired l.state && is_none l.operation_id)
      (value_error "IN_FLIGHT_EXPIRED lease requires an operation_id")
  refuse (is_held l.state && is_some l.recovery_disposition)
      (value_error "held lease cannot have a recovery_disposition")
  refuse (is_recovery l.state && is_none l.recovery_disposition)
      (value_error "recovery lease state requires a recovery_disposition")

unfoldable pub new_context_lease : ContextLease → Result ContextLease
unfolding check_state
new_context_lease l = do
  require_uuid4 l.lease_id "ContextLease.lease_id"
  require_uuid4 l.workflow_id "ContextLease.workflow_id"
  guard (l.workflow_version.scope_id == l.workflow_id)
      (value_error "workflow_version scope must equal workflow_id")
  require_positive l.fencing_token "ContextLease.fencing_token"
  require_aware l.issued_at "ContextLease.issued_at"
  require_aware l.expires_at "ContextLease.expires_at"
  guard (before l.issued_at l.expires_at) (value_error "expires_at must follow issued_at")
  require_uuid4 l.owner_instance_id "ContextLease.owner_instance_id"
  require_optional_uuid4 l.operation_id "ContextLease.operation_id"
  require_optional_text l.recovery_disposition "ContextLease.recovery_disposition" 1024
  check_state l
  ok l

abbrev is_started : LeaseEventType → Bool
is_started LeaseEventType.atomic_call_started = true
is_started _ = false

abbrev is_finished : LeaseEventType → Bool
is_finished LeaseEventType.atomic_call_finished = true
is_finished _ = false

unfoldable pub new_lease_event : LeaseEvent → Result LeaseEvent
new_lease_event e = do
  require_uuid4 e.event_id "LeaseEvent.event_id"
  require_uuid4 e.lease_id "LeaseEvent.lease_id"
  require_uuid4 e.workflow_id "LeaseEvent.workflow_id"
  guard (e.workflow_version.scope_id == e.workflow_id)
      (value_error "workflow_version scope must equal workflow_id")
  require_positive e.fencing_token "LeaseEvent.fencing_token"
  require_aware e.occurred_at "LeaseEvent.occurred_at"
  require_text e.reason "LeaseEvent.reason" 1024
  require_text e.evidence_reference "LeaseEvent.evidence_reference" 1024
  require_optional_uuid4 e.command_id "LeaseEvent.command_id"
  require_optional_uuid4 e.operation_id "LeaseEvent.operation_id"
  require_optional_uuid4 e.correlation_id "LeaseEvent.correlation_id"
  refuse (is_started e.event_type && is_none e.operation_id)
      (value_error "ATOMIC_CALL_STARTED event requires an operation_id")
  refuse (is_finished e.event_type && is_none e.operation_id)
      (value_error "ATOMIC_CALL_FINISHED event requires an operation_id")
  ok e
