-- ===== src/Domain/Workflow.antt =====
-- domain/workflow.py: the data of a durable workflow, of its commands and of its audit trail.
pub mod Checks
use mathlib.Core.Bool.{decide, decide_iff}
use powerfactory_mcp.Prelude.{ℕ, String, Bool, true, Option, ◌≡◌, ◌↔◌}
use powerfactory_mcp.Domain.Values.{
  Datetime, ConfigurationKey, ContentDigest, WorkflowVersion, VersionedName,
}

pub data WorkflowState : Type 0 where
  new previewing awaiting_authorization execution_admission executing calculating : WorkflowState
  verifying completed failed_before_effect reconciliation_required quarantined : WorkflowState
  rollback_previewing awaiting_rollback_authorization rollback_admission rolling_back :
      WorkflowState
  rollback_verifying rolled_back abandoned : WorkflowState

pub data WorkflowCommandStatus : Type 0 where
  requested in_progress completed rejected version_conflict : WorkflowCommandStatus
  idempotency_conflict reconciliation_required quarantined : WorkflowCommandStatus

pub data AuditEventType : Type 0 where
  requested preview_started preview_persisted lease_released : AuditEventType
  authorization_requested authorization_observed admission_revalidated : AuditEventType
  intent_committed submitted owner_returned client_timed_out live_observed : AuditEventType
  verified recovery_started classified quarantined manual_disposition : AuditEventType
  reconciled : AuditEventType

pub data AuditActorClass : Type 0 where
  requester workflow_service approval_authority lease_manager serialized_owner : AuditActorClass
  recovery_service operator : AuditActorClass

pub record WorkflowRecord : Type 0 where
  pub workflow_id : String
  pub state : WorkflowState
  pub workflow_version : WorkflowVersion
  pub operation_specification : VersionedName
  pub configuration_key : ConfigurationKey
  pub proposal_digest : ContentDigest
  pub created_at : Datetime
  pub updated_at : Datetime
  pub latest_command_id : Option String
  pub latest_operation_id : Option String
  pub recovery_reference : Option String

pub record IdempotentCommandRecord : Type 0 where
  pub command_id : String
  pub workflow_id : String
  pub command_name : String
  pub idempotency_key : String
  pub request_digest : ContentDigest
  pub expected_workflow_version : WorkflowVersion
  pub status : WorkflowCommandStatus
  pub resulting_workflow_version : WorkflowVersion
  pub requested_at : Datetime
  pub operation_id : Option String
  pub result_digest : Option ContentDigest
  pub completed_at : Option Datetime

pub record AuditEvent : Type 0 where
  pub event_id : String
  pub workflow_id : String
  pub workflow_version : WorkflowVersion
  pub event_type : AuditEventType
  pub actor_class : AuditActorClass
  pub occurred_at : Datetime
  pub request_digest : ContentDigest
  pub evidence_reference : String
  pub command_id : Option String
  pub operation_id : Option String
  pub correlation_id : Option String
  pub state_before : Option WorkflowState
  pub state_after : Option WorkflowState
  pub authorization_reference : Option String
  pub fencing_token : Option ℕ

WorkflowState-discrete : Discrete WorkflowState
WorkflowState-discrete = hlevel

-- `==` of two states.
unfoldable pub state_eq : WorkflowState → WorkflowState → Bool
unfolding decide WorkflowState-discrete
state_eq a b = decide (WorkflowState-discrete a b)

pub state_eq_iff : (a b : WorkflowState) → (state_eq a b ≡ true) ↔ (a ≡ b)
unfolding state_eq
state_eq_iff a b = decide_iff (WorkflowState-discrete a b)
