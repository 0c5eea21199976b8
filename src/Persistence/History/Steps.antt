-- ===== src/Persistence/History/Steps.antt =====
-- Every call of a history keeps the tables consistent.
use powerfactory_mcp.Prelude.{
  ℕ, suc, String, ◌≡◌, refl, sym, subst, List, [], ◌∷◌, arith, true, false,
}
use powerfactory_mcp.Errors.{Result, ok, err}
use powerfactory_mcp.Domain.Workflow.{WorkflowRecord}
use powerfactory_mcp.Domain.Workflow.Checks.{new_workflow_record}
use powerfactory_mcp.Domain.Values.Checks.{require_aware}
use powerfactory_mcp.Domain.Lease.{ContextLease, LeaseEventType}
use powerfactory_mcp.Persistence.Database.{Database, Exec, empty, checked}
use powerfactory_mcp.Table.{count, find}
use powerfactory_mcp.Persistence.LeaseStore.Holder.{current}
use powerfactory_mcp.Persistence.WorkflowStore.{record_workflow}
use powerfactory_mcp.Persistence.WorkflowStore.Invariant.{Move, kept, Inv}
use powerfactory_mcp.Persistence.WorkflowStore.Preservation.{Move-Inv}
use powerfactory_mcp.Persistence.WorkflowStore.Moves.{
  WorkflowCall, transition-WorkflowCall, record_workflow-WorkflowCall, append_audit-WorkflowCall,
}
use powerfactory_mcp.Persistence.LeaseStore.Moves.{last_token, LeaseMove, idle}
use powerfactory_mcp.Persistence.LeaseStore.Invariant.{LeaseInv}
use powerfactory_mcp.Persistence.LeaseStore.Preservation.{LeaseMove-LeaseInv}
use powerfactory_mcp.Persistence.LeaseStore.Fenced.{release, release_for_authorization}
use powerfactory_mcp.Persistence.LeaseStore.Expiry.{
  ExpiryNote, expire, expire_each, expire_due, due_leases, consed, followed_by,
}
use powerfactory_mcp.Persistence.LeaseStore.Calls.{LeaseCall}
use powerfactory_mcp.Persistence.LeaseStore.Refinement.{
  start_atomic_call-LeaseCall, finish_atomic_call-LeaseCall, release_as-LeaseCall,
}
use powerfactory_mcp.Persistence.LeaseStore.Turnover.{acquire-LeaseCall, expire-LeaseCall}
use powerfactory_mcp.Persistence.History.{Call, step, run}

pub record Consistent (db : Database) : Type 0 where
  pub workflows : Inv db
  pub leases : LeaseInv db

-- A sequence of moves of the two abstract services.
pub data Trail : Database → Database → Type 0 where
  stop : {db : Database} → Trail db db
  next : {db db1 db2 : Database} → Move db db1 → LeaseMove db db1 → Trail db1 db2 → Trail db db2

pub Trail-one : {db db' : Database} → Move db db' → LeaseMove db db' → Trail db db'
Trail-one m l = next m l stop

pub Trail-join : {db db1 db2 : Database} → Trail db db1 → Trail db1 db2 → Trail db db2
Trail-join stop p = p
Trail-join (next m l p) r = next m l (Trail-join p r)

pub Trail-Consistent : {db db' : Database} → Trail db db' → Consistent db → Consistent db'
Trail-Consistent stop c = c
Trail-Consistent (next m l p) c =
    Trail-Consistent p
      (record { workflows = Move-Inv m c.workflows; leases = LeaseMove-LeaseInv l c.leases })

LeaseCall-Trail : {db db' : Database} → LeaseCall db db' → Trail db db'
LeaseCall-Trail c = Trail-one (kept c.workflows.records c.workflows.commands) c.move

WorkflowCall-Trail : {db db' : Database} → WorkflowCall db db' → Trail db db'
WorkflowCall-Trail c = Trail-one c.move (idle c.leases.leases c.leases.counters)

new_workflow_record-same :
    (w : WorkflowRecord) {r : WorkflowRecord} → new_workflow_record w ≡ ok r → r ≡ w
unfolding new_workflow_record
new_workflow_record-same w h = ground arith

record_call-Trail :
    (w : WorkflowRecord) (db : Database) (r : Result WorkflowRecord)
    → new_workflow_record w ≡ r
    → Trail db (checked r record_workflow db).1
unfolding checked
record_call-Trail w db (err e) h = stop
record_call-Trail w db (ok v) h =
    let same = new_workflow_record-same w h in
    subst (λ x. Trail db (record_workflow x db).1) (sym same)
      (WorkflowCall-Trail
        (record_workflow-WorkflowCall w db (subst (λ x. new_workflow_record w ≡ ok x) same h)))

consed-Trail :
    (db : Database) (l : ContextLease) (x : Result (List ContextLease) × Database)
    → Trail db x.1
    → Trail db (consed l x).1
consed-Trail db l (err e, db') p = p
consed-Trail db l (ok ls, db') p = p

-- An expiry and what follows it.
then_Trail :
    (db : Database) (rest : Exec (List ContextLease)) (x : Result ContextLease × Database)
    → Trail db x.1
    → ((db' : Database) → Trail db' (rest db').1)
    → Trail db (followed_by x rest).1
then_Trail db rest (err e, db') p more = p
then_Trail db rest (ok expired, db') p more =
    Trail-join p (consed-Trail db' expired (rest db') (more db'))

-- `expire_due` is a path with one move for each lease that it reaches.
expire_each-Trail :
    (ls : List ContextLease) (note : ExpiryNote) (uuids : ℕ → String) (n : ℕ) (db : Database)
    → Trail db (expire_each ls note uuids n db).1
unfolding expire_each
expire_each-Trail [] note uuids n db = stop
expire_each-Trail (l ∷ ls) note uuids n db =
    then_Trail db (expire_each ls note uuids (suc n))
      (expire l.service_scope_digest l.configuration_key note (uuids n) db)
      (LeaseCall-Trail
        (expire-LeaseCall l.service_scope_digest l.configuration_key note (uuids n) db))
      (expire_each-Trail ls note uuids (suc n))

checked-Trail {ℓ κ} :
    {A : Type ℓ} {B : Type κ} (r : Result A) (k : A → Exec B) (db : Database)
    → ((a : A) → Trail db (k a db).1)
    → Trail db (checked r k db).1
unfolding checked
checked-Trail (err e) k db h = stop
checked-Trail (ok a) k db h = h a

expire_due-Trail :
    (note : ExpiryNote) (uuids : ℕ → String) (db : Database) → Trail db (expire_due note uuids db).1
unfolding expire_due
expire_due-Trail note uuids db =
    checked-Trail (require_aware note.occurred_at "occurred_at") _ db
      (λ _. expire_each-Trail (due_leases note.occurred_at db) note uuids 0 db)

pub step-Trail : (call : Call) (db : Database) → Consistent db → Trail db (step call db)
unfolding step release release_for_authorization
step-Trail (Call.record_call w) db c = record_call-Trail w db (new_workflow_record w) refl
step-Trail (Call.transition_call q ids) db c = WorkflowCall-Trail (transition-WorkflowCall q ids db)
step-Trail (Call.audit_call event) db c = WorkflowCall-Trail (append_audit-WorkflowCall event db)
step-Trail (Call.acquire_call q ids) db c = LeaseCall-Trail (acquire-LeaseCall q ids db)
step-Trail (Call.start_call claim operation event_id) db c =
    LeaseCall-Trail (start_atomic_call-LeaseCall db c.leases claim operation event_id)
step-Trail (Call.finish_call claim operation event_id) db c =
    LeaseCall-Trail (finish_atomic_call-LeaseCall db c.leases claim operation event_id)
step-Trail (Call.release_call claim event_id) db c =
    LeaseCall-Trail (release_as-LeaseCall db c.leases claim LeaseEventType.released false event_id)
step-Trail (Call.authorization_call claim event_id) db c =
    LeaseCall-Trail (
      release_as-LeaseCall db c.leases claim LeaseEventType.released_for_authorization true
        event_id)
step-Trail (Call.expire_call digest key note event_id) db c =
    LeaseCall-Trail (expire-LeaseCall digest key note event_id db)
step-Trail (Call.expire_due_call note uuids) db c = expire_due-Trail note uuids db

-- A history is a path.
pub run-Trail : (calls : List Call) (db : Database) → Consistent db → Trail db (run calls db)
unfolding run
run-Trail [] db c = stop
run-Trail (call ∷ calls) db c =
    let p = step-Trail call db c in
    Trail-join p (run-Trail calls (step call db) (Trail-Consistent p c))

pub empty-Consistent : Consistent empty
unfolding count find current last_token
empty-Consistent = record {
  workflows = record {
    one_row = λ w. omega arith;
    rows = λ w r h. cc;
    one_per_key = λ w key. omega arith;
    one_per_version = λ w n. omega arith;
    current_free = λ w n h. refl;
  };
  leases = record { one_per_scope = λ d k. omega arith; newest = λ d k l h. cc };
}

-- Whatever the calls were, the tables are consistent: one row for a workflow whose columns agree
-- with its JSON record, one command for an idempotency key and for a replaced version, one lease for
-- a scope, under the newest token that the scope has given out.
pub run-Consistent : (calls : List Call) → Consistent (run calls empty)
run-Consistent calls = Trail-Consistent (run-Trail calls empty empty-Consistent) empty-Consistent
