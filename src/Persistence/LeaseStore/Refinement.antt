-- ===== src/Persistence/LeaseStore/Refinement.antt =====
-- Each method of the lease store is a move of the abstract lock service, and none touches the
-- workflow tables.
use powerfactory_mcp.Persistence.LeaseStore.Calls.{
  LeaseCall, LeaseCall-transaction, LeaseCall-checked, LeaseCall-settle, current_by_id-current,
  reject_or-LeaseCall, set_operation-LeaseCall,
}
use powerfactory_mcp.Prelude.{
  String, ◌≡◌, ap, subst, ◌∙◌, Bool, true, false, Option, none, some, not, ◌&&◌,
}
use powerfactory_mcp.Errors.{ok}
use powerfactory_mcp.Domain.Values.{opt_eq}
use powerfactory_mcp.Domain.Values.Checks.{require_uuid4}
use powerfactory_mcp.Domain.Lease.{ContextLease, LeaseEventType}
use powerfactory_mcp.Persistence.Database.{Database, Tx, bind-eq-ok, lift-eq-ok}
use powerfactory_mcp.Persistence.LeaseStore.Holder.{Claim, current, current_by_id, holder_failure}
use powerfactory_mcp.Persistence.LeaseStore.Fenced.{
  Verdict, read_lease, read_failure, reject_or, set_operation, start_in, start_atomic_call,
  finish_in, finish_atomic_call, free_scope, release_in, release_as, or_reason, is_preview,
}
use powerfactory_mcp.Persistence.LeaseStore.Moves.{freed}
use powerfactory_mcp.Persistence.LeaseStore.Effects.{free_scope-eq-ok}
use powerfactory_mcp.Persistence.LeaseStore.Invariant.{LeaseInv}

module _ (db : Database) (inv : LeaseInv db) where
  start_in-LeaseCall :
      (claim : Claim) (operation_id event_id : String) (v : Verdict) (db' : Database)
      → start_in claim operation_id event_id db ≡ ok (v, db')
      → LeaseCall db db'
  unfolding start_in read_lease read_failure
  start_in-LeaseCall claim operation_id event_id v db' h =
      let (l, db1, e1, h1) = bind-eq-ok (read_lease claim) _ db h in
      let (stale, db2, e2, h2) = bind-eq-ok (read_failure l claim true) _ db1 h1 in
      let (read, same1) = lift-eq-ok (current_by_id claim.lease_id db) db e1 in
      let (failed, same2) = lift-eq-ok (holder_failure l claim true db1) db1 e2 in
      let found = current_by_id-current claim.lease_id db inv read in
      reject_or-LeaseCall l claim event_id none (start l) stale db
        (set_operation-LeaseCall l claim event_id LeaseEventType.atomic_call_started operation_id
          (some operation_id) db found)
        (subst (λ d. reject_or l claim event_id none (start l) stale d ≡ ok (v, db'))
          (same2 ∙ same1) h2)
    where
      start : ContextLease → Tx ContextLease
      start l =
          set_operation l claim event_id LeaseEventType.atomic_call_started operation_id
            (some operation_id)

  finish_in-LeaseCall :
      (claim : Claim) (operation_id event_id : String) (v : Verdict) (db' : Database)
      → finish_in claim operation_id event_id db ≡ ok (v, db')
      → LeaseCall db db'
  unfolding finish_in read_lease read_failure
  finish_in-LeaseCall claim operation_id event_id v db' h =
      let (l, db1, e1, h1) = bind-eq-ok (read_lease claim) _ db h in
      let (stale, db2, e2, h2) = bind-eq-ok (read_failure l claim false) _ db1 h1 in
      let (read, same1) = lift-eq-ok (current_by_id claim.lease_id db) db e1 in
      let (failed, same2) = lift-eq-ok (holder_failure l claim false db1) db1 e2 in
      let found = current_by_id-current claim.lease_id db inv read in
      reject_or-LeaseCall l claim event_id (some operation_id) (finish l) (reason l stale) db
        (set_operation-LeaseCall l claim event_id LeaseEventType.atomic_call_finished operation_id
          none db found)
        (subst
          (λ d.
            reject_or l claim event_id (some operation_id) (finish l) (reason l stale) d
            ≡ ok (v, db'))
          (same2 ∙ same1) h2)
    where
      finish : ContextLease → Tx ContextLease
      finish l =
          set_operation l claim event_id LeaseEventType.atomic_call_finished operation_id none

      reason : ContextLease → Option String → Option String
      reason l stale =
          or_reason stale (not (opt_eq l.operation_id (some operation_id)))
            "operation_id does not match the durable atomic call"

  free_scope-LeaseCall :
      (l : ContextLease) (claim : Claim) (event_id : String) (kind : LeaseEventType)
      → current l.service_scope_digest l.configuration_key db ≡ some l
      → (next : ContextLease) (db' : Database)
      → free_scope l claim event_id kind db ≡ ok (next, db')
      → LeaseCall db db'
  free_scope-LeaseCall l claim event_id kind found next db' h =
      let wrote = (free_scope-eq-ok l claim event_id kind db h).1 in
      record {
        move =
            freed l found (ap (λ d. d.context_leases) wrote)
              (ap (λ d. d.context_lease_fence_counters) wrote);
        workflows = record {
          records = ap (λ d. d.workflow_records) wrote;
          commands = ap (λ d. d.workflow_commands) wrote;
          audits = ap (λ d. d.workflow_audit_events) wrote;
        };
      }

  release_in-LeaseCall :
      (claim : Claim) (kind : LeaseEventType) (require_preview : Bool) (event_id : String)
      (v : Verdict) (db' : Database)
      → release_in claim kind require_preview event_id db ≡ ok (v, db')
      → LeaseCall db db'
  unfolding release_in read_lease read_failure
  release_in-LeaseCall claim kind require_preview event_id v db' h =
      let (l, db1, e1, h1) = bind-eq-ok (read_lease claim) _ db h in
      let (stale, db2, e2, h2) = bind-eq-ok (read_failure l claim true) _ db1 h1 in
      let (read, same1) = lift-eq-ok (current_by_id claim.lease_id db) db e1 in
      let (failed, same2) = lift-eq-ok (holder_failure l claim true db1) db1 e2 in
      let found = current_by_id-current claim.lease_id db inv read in
      reject_or-LeaseCall l claim event_id none (free_scope l claim event_id kind) (reason l stale)
        db (free_scope-LeaseCall l claim event_id kind found)
        (subst
          (λ d.
            reject_or l claim event_id none (free_scope l claim event_id kind) (reason l stale) d
            ≡ ok (v, db'))
          (same2 ∙ same1) h2)
    where
      reason : ContextLease → Option String → Option String
      reason l stale =
          or_reason stale (require_preview && not (is_preview l.mode))
            "only a preview lease may be released for authorization"

  -- The three kinds of call of a holder.
  pub start_atomic_call-LeaseCall :
      (claim : Claim) (operation_id event_id : String)
      → LeaseCall db (start_atomic_call claim operation_id event_id db).1
  unfolding start_atomic_call
  start_atomic_call-LeaseCall claim operation_id event_id = LeaseCall-settle db _ (
      LeaseCall-checked (require_uuid4 operation_id "operation_id") _ db (λ _.
        LeaseCall-transaction (start_in claim operation_id event_id) db
          (start_in-LeaseCall claim operation_id event_id)))

  pub finish_atomic_call-LeaseCall :
      (claim : Claim) (operation_id event_id : String)
      → LeaseCall db (finish_atomic_call claim operation_id event_id db).1
  unfolding finish_atomic_call
  finish_atomic_call-LeaseCall claim operation_id event_id = LeaseCall-settle db _ (
      LeaseCall-checked (require_uuid4 operation_id "operation_id") _ db (λ _.
        LeaseCall-transaction (finish_in claim operation_id event_id) db
          (finish_in-LeaseCall claim operation_id event_id)))

  pub release_as-LeaseCall :
      (claim : Claim) (kind : LeaseEventType) (require_preview : Bool) (event_id : String)
      → LeaseCall db (release_as claim kind require_preview event_id db).1
  unfolding release_as
  release_as-LeaseCall claim kind require_preview event_id = LeaseCall-settle db _ (
      LeaseCall-transaction (release_in claim kind require_preview event_id) db
        (release_in-LeaseCall claim kind require_preview event_id))
