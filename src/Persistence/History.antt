-- ===== src/Persistence/History.antt =====
-- Histories: the calls of the workflow store and of the lease store, one after the other, on one
-- database. SQLite's `BEGIN IMMEDIATE` gives one writer at a time, so any interleaving of the
-- processes' calls is such a sequence; an `expire_due` that others interrupt is, for what it writes,
-- a number of `expire` calls.
pub mod Steps
pub mod Growth
pub mod Retries
pub mod Progress
pub mod Fencing
use powerfactory_mcp.Prelude.{ℕ, String, Bool, List, [], ◌∷◌}
use powerfactory_mcp.Domain.Workflow.{WorkflowRecord, AuditEvent}
use powerfactory_mcp.Domain.Workflow.Checks.{new_workflow_record}
use powerfactory_mcp.Persistence.Database.{Database, checked}
use powerfactory_mcp.Persistence.WorkflowStore.Request.{TransitionRequest}
use powerfactory_mcp.Persistence.WorkflowStore.Build.{TransitionIds}
use powerfactory_mcp.Persistence.WorkflowStore.{record_workflow, append_audit, transition}
use powerfactory_mcp.Persistence.LeaseStore.Holder.{Claim}
use powerfactory_mcp.Persistence.LeaseStore.Arguments.{AcquireRequest}
use powerfactory_mcp.Persistence.LeaseStore.Acquire.{AcquireIds, acquire}
use powerfactory_mcp.Persistence.LeaseStore.Fenced.{
  start_atomic_call, finish_atomic_call, release, release_for_authorization,
}
use powerfactory_mcp.Persistence.LeaseStore.Expiry.{ExpiryNote, expire, expire_due}

-- A call with its arguments and the identifiers that it will draw.
pub data Call : Type 0 where
  record_call : WorkflowRecord → Call
  transition_call : TransitionRequest → TransitionIds → Call
  audit_call : AuditEvent → Call
  acquire_call : AcquireRequest → AcquireIds → Call
  start_call finish_call : Claim → String → String → Call
  release_call authorization_call : Claim → String → Call
  expire_call : String → String → ExpiryNote → String → Call
  expire_due_call : ExpiryNote → (ℕ → String) → Call

-- The tables after a call, whether it returned or raised.
unfoldable pub step : Call → Database → Database
step (Call.record_call w) db = (checked (new_workflow_record w) record_workflow db).1
step (Call.transition_call q ids) db = (transition q ids db).1
step (Call.audit_call event) db = (append_audit event db).1
step (Call.acquire_call q ids) db = (acquire q ids db).1
step (Call.start_call claim operation event_id) db =
    (start_atomic_call claim operation event_id db).1
step (Call.finish_call claim operation event_id) db =
    (finish_atomic_call claim operation event_id db).1
step (Call.release_call claim event_id) db = (release claim event_id db).1
step (Call.authorization_call claim event_id) db = (release_for_authorization claim event_id db).1
step (Call.expire_call digest key note event_id) db = (expire digest key note event_id db).1
step (Call.expire_due_call note uuids) db = (expire_due note uuids db).1

unfoldable pub run : List Call → Database → Database
run [] db = db
run (call ∷ calls) db = run calls (step call db)
