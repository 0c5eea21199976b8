-- ===== src/Persistence/LeaseStore/Fenced.antt =====
-- The calls of a lease's holder: `start_atomic_call`, `finish_atomic_call`, `release` and
-- `release_for_authorization`. A call that is not the holder's commits its rejection as an event,
-- and raises only once the transaction is closed.
use powerfactory_mcp.Prelude.{
  String, Bool, true, false, ◌&&◌, not, Option, none, some, if◌then◌else◌,
}
use powerfactory_mcp.Errors.{Result, ok, err, lease_fence_rejected}
use powerfactory_mcp.Table.{delete}
use powerfactory_mcp.Domain.Values.{opt_eq}
use powerfactory_mcp.Domain.Values.Checks.{require_uuid4}
use powerfactory_mcp.Domain.Lease.{ContextLease, LeaseMode, LeaseState, LeaseEventType}
use powerfactory_mcp.Domain.Lease.Checks.{new_context_lease}
use powerfactory_mcp.Persistence.Database.{
  Database, Tx, Exec, ◌>>=◌, ◌>>◌, pure, lift, transaction, checked,
}
use powerfactory_mcp.Persistence.Writers.{lease_at, write_lease_row}
use powerfactory_mcp.Persistence.LeaseStore.Holder.{Claim, current_by_id, holder_failure}
use powerfactory_mcp.Persistence.LeaseStore.Events.{
  claim_event, append_event, append_stale_rejection,
}

-- What the transaction of a holder's call leaves behind: `stale_reason` and the lease.
pub data Verdict : Type 0 where
  rejected : ContextLease → String → Verdict
  admitted : ContextLease → Verdict

-- `if stale_reason is not None: raise LeaseFenceRejectedError(current, stale_reason)`.
unfoldable pub settle : Result Verdict × Database → Result ContextLease × Database
settle (err e, db) = (err e, db)
settle (ok (rejected l reason), db) = (err (lease_fence_rejected l reason), db)
settle (ok (admitted l), db) = (ok l, db)

unfoldable pub read_lease : Claim → Tx ContextLease
read_lease claim db = lift (current_by_id claim.lease_id db) db

unfoldable pub read_failure : ContextLease → Claim → Bool → Tx (Option String)
read_failure l claim require_no_operation db =
    lift (holder_failure l claim require_no_operation db) db

-- The two branches of a holder's call; `operation` is what a rejection's event carries.
unfoldable pub reject_or :
    ContextLease → Claim → String → Option String → Tx ContextLease → Option String → Tx Verdict
reject_or l claim event_id operation accept (some reason) = do
  append_stale_rejection l claim event_id reason operation
  pure (rejected l reason)
reject_or l claim event_id operation accept none = do next ← accept; pure (admitted next)

-- `next_lease = replace(current, operation_id=...)`, its row and its event.
unfoldable pub set_operation :
    ContextLease → Claim → String → LeaseEventType → String → Option String → Tx ContextLease
set_operation l claim event_id kind operation_id next_operation = do
  let next = record l { operation_id = next_operation }
  _ ← lift (new_context_lease next)
  write_lease_row next
  append_event (claim_event next claim event_id kind next.state (some operation_id))
  pure next

unfoldable pub start_in : Claim → String → String → Tx Verdict
start_in claim operation_id event_id = do
  l ← read_lease claim
  stale ← read_failure l claim true
  reject_or l claim event_id none
      (set_operation l claim event_id LeaseEventType.atomic_call_started operation_id
        (some operation_id))
      stale

unfoldable pub start_atomic_call : Claim → String → String → Exec ContextLease
start_atomic_call claim operation_id event_id db = settle (
    checked (require_uuid4 operation_id "operation_id")
      (λ _. transaction (start_in claim operation_id event_id)) db)

-- A reason that is tested only where `_holder_failure` found none.
abbrev pub or_reason : Option String → Bool → String → Option String
or_reason (some reason) test other = some reason
or_reason none test other = if test then some other else none

unfoldable pub finish_in : Claim → String → String → Tx Verdict
finish_in claim operation_id event_id = do
  l ← read_lease claim
  stale ← read_failure l claim false
  reject_or l claim event_id (some operation_id)
      (set_operation l claim event_id LeaseEventType.atomic_call_finished operation_id none)
      (or_reason stale (not (opt_eq l.operation_id (some operation_id)))
        "operation_id does not match the durable atomic call")

unfoldable pub finish_atomic_call : Claim → String → String → Exec ContextLease
finish_atomic_call claim operation_id event_id db = settle (
    checked (require_uuid4 operation_id "operation_id")
      (λ _. transaction (finish_in claim operation_id event_id)) db)

abbrev pub is_preview : LeaseMode → Bool
is_preview LeaseMode.preview = true
is_preview _ = false

-- DELETE FROM context_leases WHERE the scope is the lease's.
unfoldable pub delete_lease : ContextLease → Tx (Unit {0})
delete_lease l db = ok (
  tt,
  record db {
    context_leases = delete (lease_at l.service_scope_digest l.configuration_key) db.context_leases;
  },
)

unfoldable pub free_scope : ContextLease → Claim → String → LeaseEventType → Tx ContextLease
free_scope l claim event_id kind = do
  append_event (claim_event l claim event_id kind LeaseState.available none)
  delete_lease l
  pure l

unfoldable pub release_in : Claim → LeaseEventType → Bool → String → Tx Verdict
release_in claim kind require_preview event_id = do
  l ← read_lease claim
  stale ← read_failure l claim true
  reject_or l claim event_id none (free_scope l claim event_id kind) (
      or_reason stale (require_preview && not (is_preview l.mode))
        "only a preview lease may be released for authorization")

-- `_release`, and its two callers.
unfoldable pub release_as : Claim → LeaseEventType → Bool → String → Exec ContextLease
release_as claim kind require_preview event_id db =
    settle (transaction (release_in claim kind require_preview event_id) db)

unfoldable pub release_for_authorization : Claim → String → Exec ContextLease
release_for_authorization claim event_id =
    release_as claim LeaseEventType.released_for_authorization true event_id

unfoldable pub release : Claim → String → Exec ContextLease
release claim event_id = release_as claim LeaseEventType.released false event_id
