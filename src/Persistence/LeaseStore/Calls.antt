-- ===== src/Persistence/LeaseStore/Calls.antt =====
-- A call of the lease store, as the other stores see it: a move of the abstract lock service that
-- leaves the workflow tables alone. The rules for its parts.
use powerfactory_mcp.Prelude.{String, ◌≡◌, refl, ap, subst, Option, none, some, arith}
use powerfactory_mcp.Errors.{Result, ok, err}
use powerfactory_mcp.Table.Counts.{find_unique}
use powerfactory_mcp.Domain.Lease.{ContextLease, LeaseEventType}
use powerfactory_mcp.Persistence.Database.{
  commit, Database, Tx, Exec, transaction, checked, bind-eq-ok,
}
use powerfactory_mcp.Persistence.Writers.{lease_at}
use powerfactory_mcp.Persistence.LeaseStore.Holder.{Claim, current, has_id, current_by_id}
use powerfactory_mcp.Persistence.LeaseStore.Events.{append_stale_rejection, rejection_event}
use powerfactory_mcp.Persistence.LeaseStore.Fenced.{Verdict, settle, reject_or, set_operation}
use powerfactory_mcp.Persistence.LeaseStore.Moves.{same_scope_refl, LeaseMove, idle, replaced}
use powerfactory_mcp.Persistence.LeaseStore.Effects.{append_event-eq-ok, set_operation-eq-ok}
use powerfactory_mcp.Persistence.LeaseStore.Invariant.{LeaseInv}

-- The workflow tables are as they were.
pub record SameWorkflows (db db' : Database) : Type 0 where
  pub records : db'.workflow_records ≡ db.workflow_records
  pub commands : db'.workflow_commands ≡ db.workflow_commands
  pub audits : db'.workflow_audit_events ≡ db.workflow_audit_events

pub record LeaseCall (db db' : Database) : Type 0 where
  pub move : LeaseMove db db'
  pub workflows : SameWorkflows db db'

pub LeaseCall-refl : (db : Database) → LeaseCall db db
LeaseCall-refl db = record {
  move = idle refl refl;
  workflows = record { records = refl; commands = refl; audits = refl };
}

-- An exception rolls back, so only a body that returns counts.
pub LeaseCall-transaction {ℓ} :
    {A : Type ℓ} (m : Tx A) (db : Database)
    → ((a : A) (db' : Database) → m db ≡ ok (a, db') → LeaseCall db db')
    → LeaseCall db (transaction m db).1
unfolding transaction
LeaseCall-transaction {A} m db h = by_result (m db) h
  where
    by_result :
        (x : Result (A × Database))
        → ((a : A) (db' : Database) → x ≡ ok (a, db') → LeaseCall db db')
        → LeaseCall db (commit db x).1
    by_result (err e) h = LeaseCall-refl db
    by_result (ok (a, db')) h = h a db' refl

pub LeaseCall-checked {ℓ κ} :
    {A : Type ℓ} {B : Type κ} (r : Result A) (k : A → Exec B) (db : Database)
    → ((a : A) → LeaseCall db (k a db).1)
    → LeaseCall db (checked r k db).1
unfolding checked
LeaseCall-checked (err e) k db h = LeaseCall-refl db
LeaseCall-checked (ok a) k db h = h a

pub LeaseCall-settle :
    (db : Database) (x : Result Verdict × Database) → LeaseCall db x.1 → LeaseCall db (settle x).1
unfolding settle
LeaseCall-settle db (err e, db') h = h
LeaseCall-settle db (ok (Verdict.rejected l reason), db') h = h
LeaseCall-settle db (ok (Verdict.admitted l), db') h = h

-- A lease that is found by its id is its scope's.
pub current_by_id-current :
    (lease_id : String) (db : Database) {l : ContextLease}
    → LeaseInv db
    → current_by_id lease_id db ≡ ok l
    → current l.service_scope_digest l.configuration_key db ≡ some l
unfolding current_by_id current
current_by_id-current lease_id db {l} inv h =
    find_unique (lease_at l.service_scope_digest l.configuration_key) (has_id lease_id)
      db.context_leases (ground arith) (same_scope_refl l.service_scope_digest l.configuration_key)
      (inv.one_per_scope l.service_scope_digest l.configuration_key)

pub reject_or-LeaseCall :
    (l : ContextLease) (claim : Claim) (event_id : String) (operation : Option String)
    (accept : Tx ContextLease) (stale : Option String) (db : Database) {v : Verdict}
    {db' : Database}
    → ((next : ContextLease) (db1 : Database) → accept db ≡ ok (next, db1) → LeaseCall db db1)
    → reject_or l claim event_id operation accept stale db ≡ ok (v, db')
    → LeaseCall db db'
unfolding reject_or append_stale_rejection
reject_or-LeaseCall l claim event_id operation accept (some reason) db accepts h =
    let (_, db1, e1, h1) =
      bind-eq-ok (append_stale_rejection l claim event_id reason operation) _ db h in
    let wrote = append_event-eq-ok (rejection_event l claim event_id reason operation) db e1 in
    record {
      move = idle (ground arith) (ground arith);
      workflows = record { records = ground arith; commands = ground arith; audits = ground arith };
    }
reject_or-LeaseCall l claim event_id operation accept none db accepts h =
    let (next, db1, e1, h1) = bind-eq-ok accept _ db h in
    subst (LeaseCall db) (ground arith) (accepts next db1 e1)

pub set_operation-LeaseCall :
    (l : ContextLease) (claim : Claim) (event_id : String) (kind : LeaseEventType)
    (operation_id : String) (next_operation : Option String) (db : Database)
    → current l.service_scope_digest l.configuration_key db ≡ some l
    → (next : ContextLease) (db' : Database)
    → set_operation l claim event_id kind operation_id next_operation db ≡ ok (next, db')
    → LeaseCall db db'
set_operation-LeaseCall l claim event_id kind operation_id next_operation db found next db' h =
    let wrote =
      (set_operation-eq-ok l claim event_id kind operation_id next_operation db found h).1 in
    record {
      move =
          replaced l (record l { operation_id = next_operation }) found refl refl refl
            (ap (λ d. d.context_leases) wrote) (ap (λ d. d.context_lease_fence_counters) wrote);
      workflows = record {
        records = ap (λ d. d.workflow_records) wrote;
        commands = ap (λ d. d.workflow_commands) wrote;
        audits = ap (λ d. d.workflow_audit_events) wrote;
      };
    }
