-- ===== src/Scenarios/Data.antt =====
-- A workflow, its first calls, and the leases of one scope.
use powerfactory_mcp.Persistence.LeaseStore.Expiry.{ExpiryNote}
use powerfactory_mcp.Persistence.LeaseStore.Acquire.{AcquireIds}
use powerfactory_mcp.Persistence.LeaseStore.Arguments.{AcquireRequest}
use powerfactory_mcp.Persistence.LeaseStore.Holder.{Claim}
use powerfactory_mcp.Domain.Lease.{LeaseMode}
use Prim.Native.String.{◌++◌}
use powerfactory_mcp.Prelude.{Bool, ℕ, String, none, List, [], ◌∷◌}
use powerfactory_mcp.Domain.Values.{Datetime}
use powerfactory_mcp.Domain.Workflow.{
  WorkflowState, WorkflowRecord, AuditEventType, AuditActorClass,
}
use powerfactory_mcp.Persistence.WorkflowStore.Request.{TransitionRequest}
use powerfactory_mcp.Persistence.WorkflowStore.Build.{TransitionIds}
use powerfactory_mcp.Persistence.History.{Call}

abbrev pub flow : String
flow = "11111111-1111-4111-8111-111111111111"

abbrev pub owner : String
owner = "22222222-2222-4222-8222-222222222222"

abbrev pub id_a : String
id_a = "aaaaaaaa-aaaa-4aaa-8aaa-aaaaaaaaaaa1"

abbrev pub id_b : String
id_b = "aaaaaaaa-aaaa-4aaa-8aaa-aaaaaaaaaaa2"

abbrev pub id_c : String
id_c = "aaaaaaaa-aaaa-4aaa-8aaa-aaaaaaaaaaa3"

abbrev pub id_d : String
id_d = "aaaaaaaa-aaaa-4aaa-8aaa-aaaaaaaaaaa4"

abbrev pub id_e : String
id_e = "aaaaaaaa-aaaa-4aaa-8aaa-aaaaaaaaaaa5"

abbrev pub id_f : String
id_f = "aaaaaaaa-aaaa-4aaa-8aaa-aaaaaaaaaaa6"

abbrev pub id_g : String
id_g = "aaaaaaaa-aaaa-4aaa-8aaa-aaaaaaaaaaa7"

abbrev pub at_time : ℕ → Datetime
at_time n = record { micros = n; aware = Bool.true }

abbrev pub new_flow : WorkflowRecord
new_flow = record {
  workflow_id = flow;
  state = WorkflowState.new;
  workflow_version = record { scope_id = flow; counter = 0 };
  operation_specification = record { name = "load_flow"; version = "1" };
  configuration_key = "key";
  proposal_digest = "proposal";
  created_at = at_time 1000;
  updated_at = at_time 1000;
  latest_command_id = none;
  latest_operation_id = none;
  recovery_reference = none;
}

-- `start_preview` under a key.
abbrev pub preview : String → String → TransitionRequest
preview key digest = record {
  workflow_id = flow;
  command_name = "start_preview";
  idempotency_key = key;
  request_digest = digest;
  expected_workflow_version = record { scope_id = flow; counter = 0 };
  target_state = WorkflowState.previewing;
  transition_event_type = AuditEventType.preview_started;
  actor_class = AuditActorClass.workflow_service;
  evidence_reference = "evidence";
  occurred_at = at_time 2000;
  result_digest = none;
  operation_id = none;
  recovery_reference = none;
  correlation_id = none;
  authorization_reference = none;
  fencing_token = none;
}

abbrev pub ids_first : TransitionIds
ids_first = record { command_id = id_a; requested_event_id = id_b; transitioned_event_id = id_c }

abbrev pub ids_second : TransitionIds
ids_second = record { command_id = id_d; requested_event_id = id_e; transitioned_event_id = id_f }

abbrev pub recorded_calls : List Call
recorded_calls = Call.record_call new_flow ∷ []

-- Workflows recorded in later states.
abbrev pub waiting_flow : WorkflowRecord
waiting_flow = record new_flow { state = WorkflowState.awaiting_authorization }

abbrev pub abandoned_flow : WorkflowRecord
abandoned_flow = record new_flow { state = WorkflowState.abandoned }

abbrev pub admission : TransitionRequest
admission = record (preview "key-1" "digest") {
  command_name = "admit_execution";
  target_state = WorkflowState.execution_admission;
  transition_event_type = AuditEventType.admission_revalidated;
}

abbrev pub uid : String → String
uid tail = "bbbbbbbb-bbbb-4bbb-8bbb-bbbbbbbbbb" ++ tail

-- A grant of a scope, for preview, from one instant to another.
abbrev pub grant : String → ℕ → ℕ → AcquireRequest
grant scope from until = record {
  mode = LeaseMode.preview;
  service_scope_digest = scope;
  configuration_key = "key";
  workflow_id = flow;
  expected_workflow_version = record { scope_id = flow; counter = 0 };
  owner_instance_id = owner;
  issued_at = at_time from;
  expires_at = at_time until;
  reason = "preview";
  evidence_reference = "evidence";
  command_id = none;
  correlation_id = none;
}

abbrev pub grant_ids : String → AcquireIds
grant_ids n = record {
  lease_id = uid (n ++ "0");
  attempted_event_id = uid (n ++ "1");
  acquired_event_id = uid (n ++ "2");
}

-- A claim on a lease, under a token.
abbrev pub claim_on : String → ℕ → ℕ → Claim
claim_on lease_id token now = record {
  lease_id = lease_id;
  fencing_token = token;
  owner_instance_id = owner;
  workflow_version = record { scope_id = flow; counter = 0 };
  occurred_at = at_time now;
  reason = "call";
  evidence_reference = "evidence";
  command_id = none;
  correlation_id = none;
}

abbrev pub note_at : ℕ → ExpiryNote
note_at now = record {
  occurred_at = at_time now;
  reason = "expiry";
  evidence_reference = "evidence";
  correlation_id = none;
}
