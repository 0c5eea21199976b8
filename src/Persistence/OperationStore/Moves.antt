-- ===== src/Persistence/OperationStore/Moves.antt =====
-- Each method of the operation store is a move of its table: it keeps the rows, admits one, or takes
-- some to a later stage.
use powerfactory_mcp.Prelude.{
  ℕ, suc, String, ◌≡◌, refl, ap, Bool, true, false, Option, none, some, [], ◌∷◌, ◌++◌, arith,
  Bool-cases, inl, inr,
}
use powerfactory_mcp.Errors.{Result, ok, err}
use powerfactory_mcp.Table.{find, any, update, insert, count}
use powerfactory_mcp.Domain.Operation.{OperationState, OperationRecord}
use powerfactory_mcp.Persistence.Database.{Database, Tx, Exec, transaction, commit, checked}
use powerfactory_mcp.Persistence.OperationStore.Admission.{AdmitRequest, check_admit, queued_row}
use powerfactory_mcp.Persistence.OperationStore.Stages.{
  RowInv, Advances, start-Advances, cancel-Advances, cancel_all-Advances, time_out-Advances,
  unresponsive-Advances, fail-Advances, reconcile-Advances, orphan-Advances, complete-Advances,
}
use powerfactory_mcp.Persistence.OperationStore.{
  operation_at, admitted_under, operation_clashes, asserted, insert_operation, admit_at, admit,
  hits, guarded_update, Updates, set_columns, transition_operation, is_queued, is_running,
  is_in_flight, is_answerable, queued_among, set_finished, set_completed, start,
  cancel_before_start, mark_client_timed_out, mark_engine_unresponsive, complete, fail,
  require_reconciliation, reconcile_orphans, cancel_expired_queued, cancel_all_queued,
}

pub data OperationMove (db db' : Database) : Type 0 where
  operations_kept : db'.operation_records ≡ db.operation_records → OperationMove db db'
  operation_admitted :
      (r : OperationRecord)
      → any (operation_clashes r) db.operation_records ≡ false
      → r.state ≡ OperationState.queued
      → RowInv r
      → db'.operation_records ≡ db.operation_records ++ r ∷ []
      → OperationMove db db'
  operations_advanced :
      (p : OperationRecord → Bool) (set : OperationRecord → OperationRecord)
      → ((r : OperationRecord) → p r ≡ true → Advances r (set r))
      → db'.operation_records ≡ update p set db.operation_records
      → OperationMove db db'

transaction-OperationMove {ℓ} :
    {A : Type ℓ} (m : Tx A) (db : Database)
    → ((a : A) (db' : Database) → m db ≡ ok (a, db') → OperationMove db db')
    → OperationMove db (transaction m db).1
unfolding transaction
transaction-OperationMove {A} m db h = by_result (m db) h
  where
    by_result :
        (x : Result (A × Database))
        → ((a : A) (db' : Database) → x ≡ ok (a, db') → OperationMove db db')
        → OperationMove db (commit db x).1
    by_result (err e) h = operations_kept refl
    by_result (ok (a, db')) h = h a db' refl

checked-OperationMove {ℓ κ} :
    {A : Type ℓ} {B : Type κ} (r : Result A) (k : A → Exec B) (db : Database)
    → ((a : A) → OperationMove db (k a db).1)
    → OperationMove db (checked r k db).1
unfolding checked
checked-OperationMove (err e) k db h = operations_kept refl
checked-OperationMove (ok a) k db h = h a

asserted-OperationMove {ℓ} :
    {A : Type ℓ} (db : Database) (x : Result (Option A) × Database)
    → OperationMove db x.1
    → OperationMove db (asserted x).1
unfolding asserted
asserted-OperationMove db (err e, db') h = h
asserted-OperationMove db (ok none, db') h = h
asserted-OperationMove db (ok (some a), db') h = h

-- An update that returns has hit exactly one row.
pub guarded_update-eq-ok :
    (i : String) (expected : OperationState → Bool) (set : OperationRecord → OperationRecord)
    (target : Option OperationState) (db : Database) {o : Option OperationRecord} {db' : Database}
    → guarded_update i expected set target db ≡ ok (o, db')
    → (count (hits i expected) db.operation_records ≡ 1)
      × (o ≡ find (operation_at i) (update (hits i expected) set db.operation_records))
      × (db' ≡ record db { operation_records = update (hits i expected) set db.operation_records })
unfolding guarded_update
guarded_update-eq-ok i expected set target db h = ground arith

guarded_update-OperationMove :
    (i : String) (expected : OperationState → Bool) (set : OperationRecord → OperationRecord)
    (target : Option OperationState) (db : Database)
    → ((r : OperationRecord) → expected r.state ≡ true → Advances r (set r))
    → OperationMove db (transaction (guarded_update i expected set target) db).1
guarded_update-OperationMove i expected set target db rises =
    transaction-OperationMove (guarded_update i expected set target) db λ o db' h.
      operations_advanced (hits i expected) set (λ r hit. rises r (ground (arith, hit)))
        (ap (λ d. d.operation_records) (guarded_update-eq-ok i expected set target db h).2)

transition_operation-OperationMove :
    (i : String) (expected : OperationState → Bool) (target : OperationState) (updates : Updates)
    (db : Database)
    → ((r : OperationRecord) → expected r.state ≡ true → Advances r (set_columns target updates r))
    → OperationMove db (transition_operation i expected target updates db).1
unfolding transition_operation
transition_operation-OperationMove i expected target updates db rises =
    asserted-OperationMove db _
      (guarded_update-OperationMove i expected (set_columns target updates) (some target) db rises)

admit_at-OperationMove :
    (q : AdmitRequest) (i payload : String) (o : Option OperationRecord) (db : Database)
    {a : Option (OperationRecord × Bool)} {db' : Database}
    → admit_at q i payload o db ≡ ok (a, db')
    → OperationMove db db'
unfolding admit_at insert_operation insert
admit_at-OperationMove q i payload none db h =
    elim (Bool-cases (any (operation_clashes row) db.operation_records)) [
      | inl clash ↦ absurd (ground (arith, clash, h))
      | inr fresh ↦
          operation_admitted row fresh refl
            (record { started = refl; finished = refl; bounded = omega arith })
            (ground (arith, fresh, h))
    ]
  where
    row : OperationRecord
    row = queued_row q i payload (suc db.operation_sequence)
admit_at-OperationMove q i payload (some r) db h = operations_kept (ground arith)

-- The other methods.
module _ (db : Database) where
  pub admit-OperationMove : (q : AdmitRequest) (i : String) → OperationMove db (admit q i db).1
  unfolding admit
  admit-OperationMove q i = asserted-OperationMove db _ (
      checked-OperationMove (check_admit q) _ db (λ payload.
        transaction-OperationMove _ db (λ a db' h.
          admit_at-OperationMove q i payload
            (find (admitted_under q.idempotency_key) db.operation_records) db h)))

  pub start-OperationMove : (i : String) (now : ℕ) → OperationMove db (start i now db).1
  unfolding start
  start-OperationMove i now =
      transition_operation-OperationMove i is_queued OperationState.in_flight _ db
        (λ r h. start-Advances r now h)

  pub cancel-OperationMove :
      (i : String) (now : ℕ) → OperationMove db (cancel_before_start i now db).1
  unfolding cancel_before_start
  cancel-OperationMove i now =
      transition_operation-OperationMove i is_queued OperationState.cancelled_before_start _ db
        (λ r h. cancel-Advances r now h)

  pub time_out-OperationMove : (i : String) → OperationMove db (mark_client_timed_out i db).1
  unfolding mark_client_timed_out
  time_out-OperationMove i =
      transition_operation-OperationMove i is_in_flight OperationState.client_timed_out _ db
        (λ r h. time_out-Advances r h)

  pub unresponsive-OperationMove : (i : String) → OperationMove db (mark_engine_unresponsive i db).1
  unfolding mark_engine_unresponsive
  unresponsive-OperationMove i =
      transition_operation-OperationMove i is_answerable OperationState.engine_unresponsive _ db
        (λ r h. unresponsive-Advances r h)

  pub fail-OperationMove :
      (i : String) (error : Result String) (now : ℕ) → OperationMove db (fail i error now db).1
  unfolding fail
  fail-OperationMove i error now = checked-OperationMove error _ db (λ text.
      transition_operation-OperationMove i is_answerable OperationState.failed _ db
        (λ r h. fail-Advances r text now h))

  pub require_reconciliation-OperationMove :
      (i : String) (error : Result String) (now : ℕ)
      → OperationMove db (require_reconciliation i error now db).1
  unfolding require_reconciliation
  require_reconciliation-OperationMove i error now = checked-OperationMove error _ db (λ text.
      transition_operation-OperationMove i is_running OperationState.reconciliation_required _ db
        (λ r h. reconcile-Advances r text now h))

  pub complete-OperationMove :
      (i : String) (result : Result String) (now : ℕ)
      → OperationMove db (complete i result now db).1
  unfolding complete
  complete-OperationMove i result now = asserted-OperationMove db _ (
      checked-OperationMove result _ db (λ text.
        guarded_update-OperationMove i is_running (set_completed text now) none db
          (λ r h. complete-Advances r text now h)))

  pub orphans-OperationMove : (now : ℕ) → OperationMove db (reconcile_orphans now db).1
  unfolding reconcile_orphans transaction commit
  orphans-OperationMove now =
      operations_advanced (λ r. is_running r.state)
        (set_finished OperationState.reconciliation_required now) (λ r h. orphan-Advances r now h)
        refl

  pub cancel_all-OperationMove : (now : ℕ) → OperationMove db (cancel_all_queued now db).1
  unfolding cancel_all_queued transaction commit
  cancel_all-OperationMove now =
      operations_advanced (λ r. is_queued r.state)
        (set_finished OperationState.cancelled_before_start now)
        (λ r h. cancel_all-Advances r now h) refl

  pub cancel_expired-OperationMove : (now : ℕ) → OperationMove db (cancel_expired_queued now db).1
  unfolding cancel_expired_queued transaction commit
  cancel_expired-OperationMove now =
      operations_advanced (queued_among _) (set_finished OperationState.cancelled_before_start now)
        (λ r h. cancel_all-Advances r now (ground (arith, h))) refl
