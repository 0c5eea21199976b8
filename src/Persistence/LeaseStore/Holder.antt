-- ===== src/Persistence/LeaseStore/Holder.antt =====
-- The lookups of `ContextLeaseStore`, and its test that a caller holds a lease.
use Prim.Native.String.{◌++◌}
use powerfactory_mcp.Prelude.{
  ℕ, String, Bool, ◌&&◌, not, ◌==◌, nat_eq, Option, none, some, is_some, List, if◌then◌else◌,
}
use powerfactory_mcp.Errors.{
  Result, ok, err, lease_not_found, lease_workflow_version_conflict, ◌>>◌,
}
use powerfactory_mcp.Table.{find, select}
use powerfactory_mcp.Domain.Values.{Datetime, WorkflowVersion, revision_eq, not_after}
use powerfactory_mcp.Domain.Values.Checks.{require_aware, require_uuid4, require_positive}
use powerfactory_mcp.Domain.Lease.{ContextLease, LeaseState, LeaseEvent, is_held}
use powerfactory_mcp.Persistence.Database.{Database, WorkflowRow}
use powerfactory_mcp.Persistence.Writers.{lease_at}
use powerfactory_mcp.Persistence.WorkflowStore.{workflow_at, version_of}

-- `LeaseState.value`.
abbrev pub state_value : LeaseState → String
state_value LeaseState.available = "available"
state_value LeaseState.held_preview = "held_preview"
state_value LeaseState.held_execution = "held_execution"
state_value LeaseState.held_rollback = "held_rollback"
state_value LeaseState.expired = "expired"
state_value LeaseState.in_flight_expired = "in_flight_expired"
state_value LeaseState.reconciliation_required = "reconciliation_required"
state_value LeaseState.quarantined = "quarantined"

-- The arguments that name a holder and describe its call.
pub record Claim : Type 0 where
  pub lease_id : String
  pub fencing_token : ℕ
  pub owner_instance_id : String
  pub workflow_version : WorkflowVersion
  pub occurred_at : Datetime
  pub reason : String
  pub evidence_reference : String
  pub command_id : Option String
  pub correlation_id : Option String

-- `lease` and `_current`.
unfoldable pub current : String → String → Database → Option ContextLease
current digest key db = find (lease_at digest key) db.context_leases

abbrev pub has_id : String → ContextLease → Bool
has_id lease_id l = l.lease_id == lease_id

abbrev pub found_or_missing : String → Option ContextLease → Result ContextLease
found_or_missing lease_id none = err (lease_not_found lease_id)
found_or_missing lease_id (some l) = ok l

-- `_current_by_id`.
unfoldable pub current_by_id : String → Database → Result ContextLease
current_by_id lease_id db = do
  require_uuid4 lease_id "lease_id"
  found_or_missing lease_id (find (has_id lease_id) db.context_leases)

-- `lease_events`.
unfoldable pub lease_events : String → String → Database → List LeaseEvent
lease_events digest key db =
    select (λ e. e.service_scope_digest == digest && e.configuration_key == key)
      db.context_lease_events

-- The two ways in which `_assert_workflow_version` fails are told apart by `_holder_failure`.
pub data VersionCheck : Type 0 where
  matches : VersionCheck
  missing : VersionCheck
  conflicts : WorkflowVersion → VersionCheck

unfoldable pub check_version : String → WorkflowVersion → Option WorkflowRow → VersionCheck
check_version workflow_id expected none = missing
check_version workflow_id expected (some row) =
    if revision_eq (version_of workflow_id row) expected
    then matches
    else conflicts (version_of workflow_id row)

abbrev version_check : String → WorkflowVersion → Database → VersionCheck
version_check workflow_id expected db =
    check_version workflow_id expected (find (workflow_at workflow_id) db.workflow_records)

abbrev version_error : String → WorkflowVersion → VersionCheck → Result (Unit {0})
version_error workflow_id expected matches = ok tt
version_error workflow_id expected missing = err (lease_not_found ("workflow " ++ workflow_id))
version_error workflow_id expected (conflicts current) =
    err (lease_workflow_version_conflict workflow_id expected current)

-- `_assert_workflow_version`.
unfoldable pub assert_workflow_version : String → WorkflowVersion → Database → Result (Unit {0})
assert_workflow_version workflow_id expected db =
    version_error workflow_id expected (version_check workflow_id expected db)

-- The last test of `_holder_failure`: a lost compare-and-swap is a reason, a missing workflow an
-- exception.
abbrev pub version_failure : String → VersionCheck → Result (Option String)
version_failure workflow_id matches = ok none
version_failure workflow_id missing = err (lease_not_found ("workflow " ++ workflow_id))
version_failure workflow_id (conflicts current) =
    ok (some "workflow version compare-and-swap no longer matches")

-- The tests of `_holder_failure` after the checks of its arguments.
unfoldable pub stale_reason : ContextLease → Claim → Bool → Database → Result (Option String)
stale_reason l claim require_no_operation db =
    if not (is_held l.state)
    then ok (some ("lease is " ++ state_value l.state))
    else if not (nat_eq l.fencing_token claim.fencing_token)
    then ok (some "fencing token is not current")
    else if not (l.owner_instance_id == claim.owner_instance_id)
    then ok (some "owner instance is not current")
    else if not (revision_eq l.workflow_version claim.workflow_version)
    then ok (some "workflow version is not current")
    else if not_after l.expires_at claim.occurred_at
    then ok (some "lease has expired")
    else if require_no_operation && is_some l.operation_id
    then ok (some "an atomic call is in flight")
    else version_failure l.workflow_id (version_check l.workflow_id l.workflow_version db)

-- `_holder_failure`.
unfoldable pub holder_failure : ContextLease → Claim → Bool → Database → Result (Option String)
holder_failure l claim require_no_operation db = do
  require_positive claim.fencing_token "fencing_token"
  require_uuid4 claim.owner_instance_id "owner_instance_id"
  require_aware claim.occurred_at "occurred_at"
  stale_reason l claim require_no_operation db
