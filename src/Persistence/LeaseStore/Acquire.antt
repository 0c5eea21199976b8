-- ===== src/Persistence/LeaseStore/Acquire.antt =====
-- `ContextLeaseStore.acquire`.
use powerfactory_mcp.Prelude.{ℕ, String, Option, none, some}
use powerfactory_mcp.Errors.{lease_busy}
use powerfactory_mcp.Domain.Lease.{ContextLease, LeaseState, LeaseEvent, LeaseEventType, held_state}
use powerfactory_mcp.Domain.Lease.Checks.{new_context_lease}
use powerfactory_mcp.Persistence.Database.{
  Tx, Exec, ◌>>=◌, ◌>>◌, pure, raise, lift, transaction, checked,
}
use powerfactory_mcp.Persistence.Writers.{mint_fencing_token, write_lease_row}
use powerfactory_mcp.Persistence.LeaseStore.Holder.{current, assert_workflow_version}
use powerfactory_mcp.Persistence.LeaseStore.Arguments.{AcquireRequest, check_acquire}
use powerfactory_mcp.Persistence.LeaseStore.Events.{event_of, append_event}

-- What `uuid.uuid4()` returns at its three calls.
pub record AcquireIds : Type 0 where
  pub lease_id : String
  pub attempted_event_id : String
  pub acquired_event_id : String

-- The lease that is admitted under a minted token.
abbrev pub new_lease : AcquireRequest → String → ℕ → ContextLease
new_lease q lease_id token = record {
  lease_id = lease_id;
  service_scope_digest = q.service_scope_digest;
  configuration_key = q.configuration_key;
  workflow_id = q.workflow_id;
  workflow_version = q.expected_workflow_version;
  fencing_token = token;
  mode = q.mode;
  state = held_state q.mode;
  issued_at = q.issued_at;
  expires_at = q.expires_at;
  owner_instance_id = q.owner_instance_id;
  operation_id = none;
  recovery_disposition = none;
}

abbrev pub acquire_event : AcquireRequest → ContextLease → String → LeaseEventType → LeaseEvent
acquire_event q l event_id kind =
    event_of l event_id kind q.issued_at LeaseState.available l.state q.reason q.evidence_reference
      q.command_id none q.correlation_id l.fencing_token

-- `if current is not None: raise LeaseBusyError(current)`.
abbrev pub refuse_busy : Option ContextLease → Tx (Unit {0})
refuse_busy none = pure tt
refuse_busy (some l) = raise (lease_busy l)

unfoldable pub check_scope : AcquireRequest → Tx (Unit {0})
check_scope q db = refuse_busy (current q.service_scope_digest q.configuration_key db) db

unfoldable pub assert_version : AcquireRequest → Tx (Unit {0})
assert_version q db = lift (assert_workflow_version q.workflow_id q.expected_workflow_version db) db

-- The lease under its token, between its two events.
unfoldable pub admit_lease : AcquireRequest → AcquireIds → ContextLease → Tx ContextLease
admit_lease q ids lease = do
  _ ← lift (new_context_lease lease)
  append_event (acquire_event q lease ids.attempted_event_id LeaseEventType.acquire_attempted)
  write_lease_row lease
  append_event (acquire_event q lease ids.acquired_event_id LeaseEventType.acquired)
  pure lease

unfoldable pub acquire_in : AcquireRequest → AcquireIds → Tx ContextLease
acquire_in q ids = do
  check_scope q
  assert_version q
  token ← mint_fencing_token q.service_scope_digest q.configuration_key
  admit_lease q ids (new_lease q ids.lease_id token)

unfoldable pub acquire : AcquireRequest → AcquireIds → Exec ContextLease
acquire q ids = checked (check_acquire q) λ _. transaction (acquire_in q ids)
