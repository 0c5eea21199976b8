-- ===== src/Persistence/LeaseStore/Events.antt =====
-- `_append_event` and `_append_stale_rejection` of persistence/lease_store.py.
use Prim.Native.String.{◌++◌}
use powerfactory_mcp.Prelude.{ℕ, String, Option}
use powerfactory_mcp.Domain.Values.{Datetime}
use powerfactory_mcp.Domain.Lease.{ContextLease, LeaseState, LeaseEvent, LeaseEventType}
use powerfactory_mcp.Domain.Lease.Checks.{new_lease_event}
use powerfactory_mcp.Persistence.Database.{Tx, ◌>>=◌, lift, pure}
use powerfactory_mcp.Persistence.Writers.{append_lease_event}
use powerfactory_mcp.Persistence.LeaseStore.Holder.{Claim}

-- The event that `_append_event` builds. `token` is the lease's unless a rejection asserts another.
abbrev pub event_of :
    ContextLease
    → String
    → LeaseEventType
    → Datetime
    → LeaseState
    → LeaseState
    → String
    → String
    → Option String
    → Option String
    → Option String
    → ℕ
    → LeaseEvent
event_of l event_id kind occurred_at before after reason evidence command operation correlation
      token =
    record {
      event_id = event_id;
      lease_id = l.lease_id;
      service_scope_digest = l.service_scope_digest;
      configuration_key = l.configuration_key;
      workflow_id = l.workflow_id;
      workflow_version = l.workflow_version;
      fencing_token = token;
      event_type = kind;
      occurred_at = occurred_at;
      state_before = before;
      state_after = after;
      reason = reason;
      evidence_reference = evidence;
      command_id = command;
      operation_id = operation;
      correlation_id = correlation;
    }

-- `_append_event`: the constructor's checks, then the row.
unfoldable pub append_event : LeaseEvent → Tx (Unit {0})
append_event e = do _ ← lift (new_lease_event e); _ ← append_lease_event e; pure tt

-- The event of an accepted call of a holder.
abbrev pub claim_event :
    ContextLease → Claim → String → LeaseEventType → LeaseState → Option String → LeaseEvent
claim_event l claim event_id kind after operation =
    event_of l event_id kind claim.occurred_at l.state after claim.reason claim.evidence_reference
      claim.command_id operation claim.correlation_id l.fencing_token

-- The event of a rejected one: the asserted token, and the reason with the rejection's own behind.
abbrev pub rejection_event : ContextLease → Claim → String → String → Option String → LeaseEvent
rejection_event l claim event_id stale_reason operation =
    event_of l event_id LeaseEventType.stale_fence_rejected claim.occurred_at l.state l.state
      (claim.reason ++ ": " ++ stale_reason) claim.evidence_reference claim.command_id operation
      claim.correlation_id claim.fencing_token

-- `_append_stale_rejection`.
unfoldable pub append_stale_rejection :
    ContextLease → Claim → String → String → Option String → Tx (Unit {0})
append_stale_rejection l claim event_id stale_reason operation =
    append_event (rejection_event l claim event_id stale_reason operation)
