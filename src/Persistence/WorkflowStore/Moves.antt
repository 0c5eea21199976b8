-- ===== src/Persistence/WorkflowStore/Moves.antt =====
-- Each method of the workflow store is a move of the workflow tables, and none touches the leases.
use powerfactory_mcp.Prelude.{
  false, Bool, ◌++◌, ◌≡◌, refl, sym, ap, subst, Bool, [], ◌∷◌, ◌++◌, arith, eq_iff, inl, inr, ltb,
}
use powerfactory_mcp.Errors.{Error, Result, ok, err, refuse, workflow_version_conflict}
use powerfactory_mcp.Table.{any, insert, any-false}
use powerfactory_mcp.Domain.Workflow.{WorkflowRecord, IdempotentCommandRecord, AuditEvent}
use powerfactory_mcp.Domain.Workflow.Checks.{new_workflow_record}
use powerfactory_mcp.Persistence.Database.{
  Database, Tx, lift, commit, transaction, checked, transaction-eq-err, WorkflowRow, ◌>>=◌,
  bind-eq-ok, lift-eq-ok,
}
use powerfactory_mcp.Persistence.Writers.{append_workflow_audit_event-eq-ok}
use powerfactory_mcp.Persistence.WorkflowStore.Request.{TransitionRequest, check_request}
use powerfactory_mcp.Persistence.WorkflowStore.Build.{TransitionIds}
use powerfactory_mcp.Persistence.WorkflowStore.{
  workflow_at, new_row, insert_record, workflow_row, append_row, version_of, record_workflow,
  append_audit, transition,
}
use powerfactory_mcp.Persistence.WorkflowStore.Outcome.{
  Replayed, Advanced, transition-eq-ok, workflow_row-eq-ok,
}
use powerfactory_mcp.Persistence.WorkflowStore.Invariant.{Move, kept, recorded, moved}

-- The lease tables are as they were.
pub record SameLeases (db db' : Database) : Type 0 where
  pub leases : db'.context_leases ≡ db.context_leases
  pub counters : db'.context_lease_fence_counters ≡ db.context_lease_fence_counters
  pub events : db'.context_lease_events ≡ db.context_lease_events

pub record WorkflowCall (db db' : Database) : Type 0 where
  pub move : Move db db'
  pub leases : SameLeases db db'

WorkflowCall-refl : (db : Database) → WorkflowCall db db
WorkflowCall-refl db = record {
  move = kept refl refl;
  leases = record { leases = refl; counters = refl; events = refl };
}

WorkflowCall-Replayed :
    {q : TransitionRequest} {db db' : Database} {c : IdempotentCommandRecord}
    → Replayed q db c db'
    → WorkflowCall db db'
WorkflowCall-Replayed {db = db} r = subst (WorkflowCall db) (sym r.unchanged) (WorkflowCall-refl db)

WorkflowCall-Advanced :
    {q : TransitionRequest} {ids : TransitionIds} {db db' : Database} {c : IdempotentCommandRecord}
    → Advanced q ids db c db'
    → WorkflowCall db db'
WorkflowCall-Advanced {q} {ids} {c = c} a = record {
  move = moved q ids c a;
  leases = record {
    leases = ap (λ d. d.context_leases) a.written;
    counters = ap (λ d. d.context_lease_fence_counters) a.written;
    events = ap (λ d. d.context_lease_events) a.written;
  };
}

checked_error {ℓ κ} :
    {A : Type ℓ} {B : Type κ} (r : Result A) (m : A → Tx B) (db : Database) {e : Error}
    → (checked r (λ a. transaction (m a)) db).0 ≡ err e
    → (checked r (λ a. transaction (m a)) db).1 ≡ db
unfolding checked
checked_error (err e) m db h = refl
checked_error (ok a) m db h = (transaction-eq-err (m a) db h).1

-- A transition that raises changes no row.
transition_error :
    (q : TransitionRequest) (ids : TransitionIds) (db : Database) {e : Error}
    → (transition q ids db).0 ≡ err e
    → (transition q ids db).1 ≡ db
unfolding transition
transition_error q ids db h = checked_error (check_request q) _ db h

pub transition-WorkflowCall :
    (q : TransitionRequest) (ids : TransitionIds) (db : Database)
    → WorkflowCall db (transition q ids db).1
transition-WorkflowCall q ids db = by_result (transition q ids db).0 refl
  where
    by_result :
        (r : Result IdempotentCommandRecord)
        → (transition q ids db).0 ≡ r
        → WorkflowCall db (transition q ids db).1
    by_result (err e) h =
        subst (WorkflowCall db) (sym (transition_error q ids db h)) (WorkflowCall-refl db)
    by_result (ok c) h = elim (transition-eq-ok q ids db h) [
      | inl r ↦ WorkflowCall-Replayed r
      | inr a ↦ WorkflowCall-Advanced a
    ]

WorkflowCall-transaction {ℓ} :
    {A : Type ℓ} (m : Tx A) (db : Database)
    → ((a : A) (db' : Database) → m db ≡ ok (a, db') → WorkflowCall db db')
    → WorkflowCall db (transaction m db).1
unfolding transaction
WorkflowCall-transaction {A} m db h = by_result (m db) h
  where
    by_result :
        (x : Result (A × Database))
        → ((a : A) (db' : Database) → x ≡ ok (a, db') → WorkflowCall db db')
        → WorkflowCall db (commit db x).1
    by_result (err e) h = WorkflowCall-refl db
    by_result (ok (a, db')) h = h a db' refl

-- A record that its constructor accepted has its version's scope.
new_workflow_record-scope :
    (w : WorkflowRecord) {r : WorkflowRecord}
    → new_workflow_record w ≡ ok r
    → w.workflow_version.scope_id ≡ w.workflow_id
unfolding new_workflow_record
new_workflow_record-scope w h = ground (arith, eq_iff w.workflow_version.scope_id w.workflow_id)

-- An inserted record is the only one of its workflow.
insert_record-eq-ok :
    (w : WorkflowRecord) (db : Database) {a : WorkflowRecord} {db' : Database}
    → insert_record w db ≡ ok (a, db')
    → (any (workflow_at w.workflow_id) db.workflow_records ≡ false)
      × (db' ≡ record db { workflow_records = db.workflow_records ++ new_row w ∷ [] })
unfolding insert_record insert
insert_record-eq-ok w db h = ground arith

insert_record-WorkflowCall :
    (w : WorkflowRecord) (db : Database)
    → new_workflow_record w ≡ ok w
    → (a : WorkflowRecord) (db' : Database) → insert_record w db ≡ ok (a, db')
    → WorkflowCall db db'
insert_record-WorkflowCall w db valid a db' h =
    let (fresh, written) = insert_record-eq-ok w db h in
    record {
      move =
          recorded w (any-false (workflow_at w.workflow_id) db.workflow_records fresh)
            (new_workflow_record-scope w valid) (ap (λ d. d.workflow_records) written)
            (ap (λ d. d.workflow_commands) written);
      leases = record {
        leases = ap (λ d. d.context_leases) written;
        counters = ap (λ d. d.context_lease_fence_counters) written;
        events = ap (λ d. d.context_lease_events) written;
      };
    }

pub record_workflow-WorkflowCall :
    (w : WorkflowRecord) (db : Database)
    → new_workflow_record w ≡ ok w
    → WorkflowCall db (record_workflow w db).1
unfolding record_workflow
record_workflow-WorkflowCall w db valid =
    WorkflowCall-transaction _ db (insert_record-WorkflowCall w db valid)

append_audit_written :
    (event : AuditEvent) (row : WorkflowRow) (db : Database) {a : AuditEvent} {db' : Database}
    → append_row event row db ≡ ok (a, db')
    → WorkflowCall db db'
unfolding append_row
append_audit_written event row db {db' = db'} h =
    let (_, db1, e1, h1) = bind-eq-ok (lift (refuse stale conflict)) _ db h in
    let (g1, same1) = lift-eq-ok (refuse stale conflict) db e1 in
    let (_, written) = append_workflow_audit_event-eq-ok event db1 h1 in
    subst (λ d. WorkflowCall d db') same1
      (record {
        move = kept (ap (λ d. d.workflow_records) written) (ap (λ d. d.workflow_commands) written);
        leases = record {
          leases = ap (λ d. d.context_leases) written;
          counters = ap (λ d. d.context_lease_fence_counters) written;
          events = ap (λ d. d.context_lease_events) written;
        };
      })
  where
    stale : Bool
    stale = ltb row.workflow_version_counter event.workflow_version.counter

    conflict : Error
    conflict =
        workflow_version_conflict event.workflow_id event.workflow_version
          (version_of event.workflow_id row)

pub append_audit-WorkflowCall :
    (event : AuditEvent) (db : Database) → WorkflowCall db (append_audit event db).1
unfolding append_audit
append_audit-WorkflowCall event db =
    WorkflowCall-transaction (workflow_row event.workflow_id >>= append_row event) db λ e db' h.
      let (row, db1, e1, h1) =
        bind-eq-ok (workflow_row event.workflow_id) (append_row event) db h in
      let (found, same) = workflow_row-eq-ok event.workflow_id db e1 in
      subst (λ d. WorkflowCall d db') same (append_audit_written event row db1 h1)
