-- ===== src/Persistence/OperationStore/History/Once.antt =====
-- An operation is started once, and admitted once for its idempotency key.
use powerfactory_mcp.Prelude.{
  ℕ, ◌≤◌, String, ◌≡◌, refl, sym, subst, ◌∙◌, true, Option, none, some, List, [], ◌∷◌, arith,
}
use powerfactory_mcp.Errors.{Result, ok, err}
use powerfactory_mcp.Table.{find, count, update, find-update, find-fits}
use powerfactory_mcp.Table.Counts.{find_unique, find-of_count, count-update_out}
use powerfactory_mcp.Domain.Operation.{OperationState, OperationRecord}
use powerfactory_mcp.Persistence.Database.{Database, transaction, commit, transaction-eq-ok}
use powerfactory_mcp.Persistence.OperationStore.{
  operation_at, asserted, hits, guarded_update, set_columns, no_updates, transition_operation,
  is_queued, is_running, start, reconcile_orphans, set_finished,
}
use powerfactory_mcp.Persistence.OperationStore.States.{stage, stage_bounds}
use powerfactory_mcp.Persistence.OperationStore.Moves.{guarded_update-eq-ok}
use powerfactory_mcp.Persistence.OperationStore.History.{OperationCall, perform, perform_all}
use powerfactory_mcp.Persistence.OperationStore.History.Rows.{
  OperationsInv, perform_all-Later, perform_all-OperationsInv,
}

pub asserted-eq-ok {ℓ} :
    {A : Type ℓ} (x : Result (Option A) × Database) {a : A}
    → (asserted x).0 ≡ ok a
    → (x.0 ≡ ok (some a)) × ((asserted x).1 ≡ x.1)
unfolding asserted
asserted-eq-ok (err e, db) h = cc
asserted-eq-ok (ok none, db) h = cc
asserted-eq-ok (ok (some a), db) h = (cc, refl)

abbrev started : ℕ → OperationRecord → OperationRecord
started now = set_columns OperationState.in_flight (record no_updates { started_at_ns = some now })

started_row :
    (i : String) (now : ℕ) (rows : List OperationRecord) {q : OperationRecord}
    → find (operation_at i) rows ≡ some q
    → hits i is_queued q ≡ true
    → find (operation_at i) (update (hits i is_queued) (started now) rows) ≡ some (started now q)
started_row i now rows found hit =
    find-update (operation_at i) (hits i is_queued) (started now) (λ r _. refl) rows
    ∙ rw (found, hit) refl

-- A `start` that returns found its row queued, and left it in flight.
pub start-eq-ok :
    (i : String) (now : ℕ) (db : Database) {r : OperationRecord}
    → OperationsInv db
    → (start i now db).0 ≡ ok r
    → (q : OperationRecord) × (find (operation_at i) db.operation_records ≡ some q)
      × (is_queued q.state ≡ true)
      × (find (operation_at i) (start i now db).1.operation_records ≡ some (started now q))
unfolding start transition_operation
start-eq-ok i now db {r} inv h =
    let update_in = guarded_update i is_queued (started now) (some OperationState.in_flight) in
    let (returned, same) = asserted-eq-ok (transaction update_in db) h in
    let body = transaction-eq-ok update_in db returned in
    let (one, _, wrote) =
      guarded_update-eq-ok i is_queued (started now) (some OperationState.in_flight) db body in
    let (q, hit) = find-of_count (hits i is_queued) db.operation_records (omega (arith, one)) in
    let fits = find-fits (hits i is_queued) db.operation_records hit in
    let found =
      find_unique (operation_at i) (hits i is_queued) db.operation_records hit
        (ground (arith, fits)) (inv.one_per_id i) in
    (
      q,
      found,
      ground (arith, fits),
      subst (λ d. find (operation_at i) d.operation_records ≡ some (started now q))
          (sym (same ∙ wrote)) (started_row i now db.operation_records found fits),
    )

module _ (i : String) (now : ℕ) (db : Database) (r : OperationRecord) (good : OperationsInv db)
    (once : (start i now db).0 ≡ ok r) (calls : List OperationCall) where
  abbrev pub behind : Database
  behind = perform_all calls (perform (OperationCall.start_call i now) db)

  -- An operation is started at most once: on tables that keep the invariant, after a `start` that
  -- returned, and any calls after it, no `start` of the operation returns.
  pub start_once : (again : ℕ) (r' : OperationRecord) → ¬ ((start i again behind).0 ≡ ok r')
  unfolding perform perform_all
  start_once again r' h =
      let (q, _, _, found) = start-eq-ok i now db good once in
      let (q2, found2, later) =
        perform_all-Later calls (start i now db).1 i (started now q) found in
      let (q3, found3, fresh, _) = start-eq-ok i again behind now_good h in
      let same : q2 ≡ q3 = ground (arith, found2, found3) in
      omega
        (arith, subst (λ x. 1 ≤ stage x.state) same later.climbs, (stage_bounds q3.state).2 fresh)
    where
      now_good : OperationsInv behind
      now_good =
          perform_all-OperationsInv calls (perform (OperationCall.start_call i now) db)
            (perform_all-OperationsInv (OperationCall.start_call i now ∷ []) db good)

-- `reconcile_orphans` returns the number of the rows that are in flight, timed out or unresponsive,
-- and leaves no row in these states.
pub reconcile_orphans-none :
    (now : ℕ) (db : Database)
    → ((reconcile_orphans now db).0 ≡ ok (count (λ r. is_running r.state) db.operation_records))
      × (count (λ r. is_running r.state) (reconcile_orphans now db).1.operation_records ≡ 0)
unfolding reconcile_orphans transaction commit
reconcile_orphans-none now db = (
  refl,
  count-update_out (λ r. is_running r.state)
      (set_finished OperationState.reconciliation_required now) (λ r h. refl) db.operation_records,
)
