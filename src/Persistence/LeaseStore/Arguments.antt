-- ===== src/Persistence/LeaseStore/Arguments.antt =====
-- The arguments of `ContextLeaseStore.acquire` and the checks before its transaction.
use powerfactory_mcp.Prelude.{String, ◌==◌, Option}
use powerfactory_mcp.Errors.{Result, value_error, guard, ◌>>◌}
use powerfactory_mcp.Domain.Values.{Datetime, WorkflowVersion}
use powerfactory_mcp.Domain.Values.Checks.{require_aware, require_uuid4}
use powerfactory_mcp.Domain.Lease.{LeaseMode}

pub record AcquireRequest : Type 0 where
  pub mode : LeaseMode
  pub service_scope_digest : String
  pub configuration_key : String
  pub workflow_id : String
  pub expected_workflow_version : WorkflowVersion
  pub owner_instance_id : String
  pub issued_at : Datetime
  pub expires_at : Datetime
  pub reason : String
  pub evidence_reference : String
  pub command_id : Option String
  pub correlation_id : Option String

unfoldable pub check_acquire : AcquireRequest → Result (Unit {0})
check_acquire q = do
  require_uuid4 q.workflow_id "workflow_id"
  require_uuid4 q.owner_instance_id "owner_instance_id"
  require_aware q.issued_at "issued_at"
  require_aware q.expires_at "expires_at"
  guard (q.expected_workflow_version.scope_id == q.workflow_id)
      (value_error "expected_workflow_version scope must equal workflow_id")
