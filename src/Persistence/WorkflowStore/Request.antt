-- ===== src/Persistence/WorkflowStore/Request.antt =====
-- The arguments of `WorkflowStore.transition`, and the checks that it makes before it opens its
-- transaction.
use powerfactory_mcp.Prelude.{
  ℕ, String, Bool, true, false, ◌&&◌, ◌==◌, leb, ltb, length, Option, none, some,
}
use powerfactory_mcp.Errors.{Result, ok, err, value_error, guard, refuse, ◌>>=◌, ◌>>◌}
use powerfactory_mcp.Domain.Values.{Datetime, ContentDigest, WorkflowVersion}
use powerfactory_mcp.Domain.Values.Checks.{codes, require_aware}
use powerfactory_mcp.Domain.Workflow.{WorkflowState, AuditEventType, AuditActorClass}
use powerfactory_mcp.Persistence.WorkflowStore.Transitions.{Transition, legal_transition}

-- The keyword arguments of `transition`.
pub record TransitionRequest : Type 0 where
  pub workflow_id : String
  pub command_name : String
  pub idempotency_key : String
  pub request_digest : ContentDigest
  pub expected_workflow_version : WorkflowVersion
  pub target_state : WorkflowState
  pub transition_event_type : AuditEventType
  pub actor_class : AuditActorClass
  pub evidence_reference : String
  pub occurred_at : Datetime
  pub result_digest : Option ContentDigest
  pub operation_id : Option String
  pub recovery_reference : Option String
  pub correlation_id : Option String
  pub authorization_reference : Option String
  pub fencing_token : Option ℕ

abbrev is_requested : AuditEventType → Bool
is_requested AuditEventType.requested = true
is_requested _ = false

-- `not text or len(text) > maximum`, negated.
has_length : ℕ → String → Bool
has_length maximum text = ltb 0 (length (codes text)) && leb (length (codes text)) maximum

legal_or_error : Option Transition → Result Transition
legal_or_error none = err (value_error "unsupported workflow command")
legal_or_error (some t) = ok t

unfoldable pub check_request : TransitionRequest → Result Transition
unfolding legal_or_error has_length
check_request q = do
  require_aware q.occurred_at "occurred_at"
  guard (q.expected_workflow_version.scope_id == q.workflow_id)
      (value_error "expected_workflow_version scope must equal workflow_id")
  refuse (is_requested q.transition_event_type)
      (value_error "transition_event_type cannot be requested")
  legal ← legal_or_error (legal_transition q.command_name)
  guard (has_length 128 q.command_name)
      (value_error "command_name must be nonempty and at most 128 characters")
  guard (has_length 256 q.idempotency_key)
      (value_error "idempotency_key must be nonempty and at most 256 characters")
  ok legal
