-- ===== src/Domain/Lease.antt =====
-- domain/lease.py: the data of a context lease and of its event stream.
pub mod Checks
use powerfactory_mcp.Prelude.{ℕ, String, Bool, true, false, Option}
use powerfactory_mcp.Domain.Values.{Datetime, ConfigurationKey, ContentDigest, WorkflowVersion}

pub data LeaseMode : Type 0 where
  preview execution rollback : LeaseMode

pub data LeaseState : Type 0 where
  available held_preview held_execution held_rollback expired in_flight_expired : LeaseState
  reconciliation_required quarantined : LeaseState

pub data LeaseEventType : Type 0 where
  acquire_attempted acquired released_for_authorization released expired : LeaseEventType
  stale_fence_rejected atomic_call_started atomic_call_finished recovery_admitted : LeaseEventType
  quarantined operator_recovered : LeaseEventType

-- `_HELD_STATE_FOR_MODE`, and `_held_state` of the store.
abbrev pub held_state : LeaseMode → LeaseState
held_state preview = held_preview
held_state execution = held_execution
held_state rollback = held_rollback

-- Membership in `_HELD_STATES`.
abbrev pub is_held : LeaseState → Bool
is_held held_preview = true
is_held held_execution = true
is_held held_rollback = true
is_held _ = false

-- Membership in `_RECOVERY_STATES`.
abbrev pub is_recovery : LeaseState → Bool
is_recovery LeaseState.expired = true
is_recovery in_flight_expired = true
is_recovery reconciliation_required = true
is_recovery LeaseState.quarantined = true
is_recovery _ = false

-- `state is _HELD_STATE_FOR_MODE[mode]`.
abbrev pub held_matches : LeaseMode → LeaseState → Bool
held_matches preview held_preview = true
held_matches execution held_execution = true
held_matches rollback held_rollback = true
held_matches _ _ = false

pub record ContextLease : Type 0 where
  pub lease_id : String
  pub service_scope_digest : ContentDigest
  pub configuration_key : ConfigurationKey
  pub workflow_id : String
  pub workflow_version : WorkflowVersion
  pub fencing_token : ℕ
  pub mode : LeaseMode
  pub state : LeaseState
  pub issued_at : Datetime
  pub expires_at : Datetime
  pub owner_instance_id : String
  pub operation_id : Option String
  pub recovery_disposition : Option String

pub record LeaseEvent : Type 0 where
  pub event_id : String
  pub lease_id : String
  pub service_scope_digest : ContentDigest
  pub configuration_key : ConfigurationKey
  pub workflow_id : String
  pub workflow_version : WorkflowVersion
  pub fencing_token : ℕ
  pub event_type : LeaseEventType
  pub occurred_at : Datetime
  pub state_before : LeaseState
  pub state_after : LeaseState
  pub reason : String
  pub evidence_reference : String
  pub command_id : Option String
  pub operation_id : Option String
  pub correlation_id : Option String
