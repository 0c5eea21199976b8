-- ===== src/Persistence/OperationStore/History/Rows.antt =====
-- The rows of the operation table along a history.
use mathlib.Core.Option
use powerfactory_mcp.Prelude.{
  ◌+◌, ◌≤◌, String, ◌≡◌, refl, sym, ap, subst, ◌∙◌, ◌⊎◌, Bool, true, false, ◌==◌, Option, none,
  some, List, [], ◌∷◌, ◌++◌, arith, Bool-cases, Option-cases, inl, inr, eq_iff, if◌then◌else◌,
}
use powerfactory_mcp.Table.{find, count, update, find-append, find-update}
use powerfactory_mcp.Table.Counts.{count_added, count-update, count-any, count_mono}
use powerfactory_mcp.Domain.Operation.{OperationRecord, is_terminal}
use powerfactory_mcp.Persistence.Database.{Database, empty}
use powerfactory_mcp.Persistence.OperationStore.{operation_at, admitted_under, operation_clashes}
use powerfactory_mcp.Persistence.OperationStore.Stages.{RowInv, Advances}
use powerfactory_mcp.Persistence.OperationStore.States.{stage, is_unstarted, stage_bounds}
use powerfactory_mcp.Persistence.OperationStore.Moves.{
  OperationMove, operations_kept, operation_admitted, operations_advanced, admit-OperationMove,
  start-OperationMove, cancel-OperationMove, time_out-OperationMove, unresponsive-OperationMove,
  complete-OperationMove, fail-OperationMove, require_reconciliation-OperationMove,
  orphans-OperationMove, cancel_expired-OperationMove, cancel_all-OperationMove,
}
use powerfactory_mcp.Persistence.OperationStore.History.{OperationCall, perform, perform_all}

-- The keys are unique, and every row is as its state says.
pub record OperationsInv (db : Database) : Type 0 where
  pub one_per_id : (i : String) → count (operation_at i) db.operation_records ≤ 1
  pub one_per_key : (k : String) → count (admitted_under k) db.operation_records ≤ 1
  pub rows :
      (i : String) (r : OperationRecord)
      → find (operation_at i) db.operation_records ≡ some r
      → RowInv r

-- What became of a row.
pub record Later (r r' : OperationRecord) : Type 0 where
  pub same_id : r'.operation_id ≡ r.operation_id
  pub same_key : r'.idempotency_key ≡ r.idempotency_key
  pub same_handler : r'.handler_name ≡ r.handler_name
  pub same_payload : r'.payload_json ≡ r.payload_json
  pub climbs : stage r.state ≤ stage r'.state
  pub begun : is_unstarted r.state ≡ false → is_unstarted r'.state ≡ false
  pub version : r.version ≤ r'.version
  pub bounded : r'.version + stage r.state ≤ r.version + stage r'.state
  pub frozen : is_terminal r.state ≡ true → r' ≡ r

Later-refl : (r : OperationRecord) → Later r r
Later-refl r = record {
  same_id = refl;
  same_key = refl;
  same_handler = refl;
  same_payload = refl;
  climbs = omega arith;
  begun = λ h. h;
  version = omega arith;
  bounded = omega arith;
  frozen = λ h. refl;
}

Later-Advances : {r r' r'' : OperationRecord} → Advances r r' → Later r' r'' → Later r r''
Later-Advances {r} {r'} {r''} a l = record {
  same_id = l.same_id ∙ a.same_id;
  same_key = l.same_key ∙ a.same_key;
  same_handler = l.same_handler ∙ a.same_handler;
  same_payload = l.same_payload ∙ a.same_payload;
  climbs = omega (arith, a.climbs, l.climbs);
  begun = λ h. l.begun (a.begun h);
  version = omega (arith, a.version, l.version);
  bounded = omega (arith, a.climbs, a.version, l.bounded);
  frozen =
      λ h. absurd (omega (arith, a.climbs, (stage_bounds r'.state).0, (stage_bounds r.state).1 h));
}

find_advanced :
    (db db' : Database) (p : OperationRecord → Bool) (set : OperationRecord → OperationRecord)
    → ((r : OperationRecord) → p r ≡ true → Advances r (set r))
    → db'.operation_records ≡ update p set db.operation_records
    → (i : String)
    → find (operation_at i) db'.operation_records
      ≡ Option.map (λ x. if p x then set x else x) (find (operation_at i) db.operation_records)
find_advanced db db' p set rises e i = rw e (
    find-update (operation_at i) p set (λ x hit. ap (λ y. y == i) (rises x hit).same_id)
      db.operation_records)

-- The row of an identifier after one move.
module _ (i : String) (r : OperationRecord) where
  stepped :
      {db db' : Database}
      → OperationMove db db'
      → find (operation_at i) db.operation_records ≡ some r
      → (r' : OperationRecord) × (find (operation_at i) db'.operation_records ≡ some r')
        × ((r' ≡ r) ⊎ Advances r r')
  stepped (operations_kept e) h = (r, rw e h, inl refl)
  stepped {db} (operation_admitted x fresh q inv e) h =
      (r, rw e (rw (find-append (operation_at i) db.operation_records (x ∷ []), h) refl), inl refl)
  stepped {db} {db'} (operations_advanced p set rises e) h = elim (Bool-cases (p r)) [
    | inl hit ↦ (set r, find_advanced db db' p set rises e i ∙ rw (h, hit) refl, inr (rises r hit))
    | inr miss ↦ (r, find_advanced db db' p set rises e i ∙ rw (h, miss) refl, inl refl)
  ]

pub perform-OperationMove :
    (call : OperationCall) (db : Database) → OperationMove db (perform call db)
unfolding perform
perform-OperationMove (OperationCall.admit_call q i) db = admit-OperationMove db q i
perform-OperationMove (OperationCall.start_call i now) db = start-OperationMove db i now
perform-OperationMove (OperationCall.cancel_call i now) db = cancel-OperationMove db i now
perform-OperationMove (OperationCall.time_out_call i) db = time_out-OperationMove db i
perform-OperationMove (OperationCall.unresponsive_call i) db = unresponsive-OperationMove db i
perform-OperationMove (OperationCall.complete_call i result now) db =
    complete-OperationMove db i result now
perform-OperationMove (OperationCall.fail_call i error now) db = fail-OperationMove db i error now
perform-OperationMove (OperationCall.reconciliation_call i error now) db =
    require_reconciliation-OperationMove db i error now
perform-OperationMove (OperationCall.orphans_call now) db = orphans-OperationMove db now
perform-OperationMove (OperationCall.cancel_expired_call now) db =
    cancel_expired-OperationMove db now
perform-OperationMove (OperationCall.cancel_all_call now) db = cancel_all-OperationMove db now

only :
    (i : String) (x : OperationRecord) {r : OperationRecord}
    → find (operation_at i) (x ∷ []) ≡ some r
    → x ≡ r
unfolding find
only i x h = ground (arith, h)

Move-OperationsInv :
    {db db' : Database} → OperationMove db db' → OperationsInv db → OperationsInv db'
Move-OperationsInv (operations_kept e) inv = record {
  one_per_id = λ i. rw e (inv.one_per_id i);
  one_per_key = λ k. rw e (inv.one_per_key k);
  rows = λ i r h. inv.rows i r (rw e at h);
}
Move-OperationsInv {db} {db'} (operation_admitted x fresh q new e) inv = record {
  one_per_id = λ i. rw e (
      ground (
        arith,
        count_added (operation_at i) db.operation_records x,
        inv.one_per_id i,
        no_id,
        eq_iff x.operation_id i,
      ));
  one_per_key = λ k. rw e (
      ground (
        arith,
        count_added (admitted_under k) db.operation_records x,
        inv.one_per_key k,
        no_key,
        eq_iff x.idempotency_key k,
      ));
  rows = λ i r h. admitted_row i r (find (operation_at i) db.operation_records) refl (rw e at h);
}
  where
    none_clash : count (operation_clashes x) db.operation_records ≡ 0
    none_clash = count-any (operation_clashes x) db.operation_records fresh

    no_id : count (operation_at x.operation_id) db.operation_records ≡ 0
    no_id = omega (
      arith,
      none_clash,
      count_mono (operation_clashes x) (operation_at x.operation_id) (λ r h. ground (arith, h))
          db.operation_records,
    )

    no_key : count (admitted_under x.idempotency_key) db.operation_records ≡ 0
    no_key = omega (
      arith,
      none_clash,
      count_mono (operation_clashes x) (admitted_under x.idempotency_key) (λ r h. ground (arith, h))
          db.operation_records,
    )

    admitted_row :
        (i : String) (r : OperationRecord) (o : Option OperationRecord)
        → find (operation_at i) db.operation_records ≡ o
        → find (operation_at i) (db.operation_records ++ x ∷ []) ≡ some r
        → RowInv r
    admitted_row i r none was h =
        let one : find (operation_at i) (x ∷ []) ≡ some r =
          cc (find-append (operation_at i) db.operation_records (x ∷ []), was, h) in
        subst RowInv (only i x one) new
    admitted_row i r (some y) was h =
        inv.rows i r (cc (find-append (operation_at i) db.operation_records (x ∷ []), was, h))
Move-OperationsInv {db} {db'} (operations_advanced p set rises e) inv = record {
  one_per_id = λ i. rw e (
      rw
        (count-update (operation_at i) p set (λ r hit. ap (λ y. y == i) (rises r hit).same_id)
          db.operation_records)
        (inv.one_per_id i));
  one_per_key = λ k. rw e (
      rw
        (count-update (admitted_under k) p set (λ r hit. ap (λ y. y == k) (rises r hit).same_key)
          db.operation_records)
        (inv.one_per_key k));
  rows = λ i r h. elim (Option-cases (find (operation_at i) db.operation_records)) [
    | inl was ↦
        let gone : find (operation_at i) db'.operation_records ≡ none =
          find_advanced db db' p set rises e i ∙ rw was refl in
        absurd (cc (h, gone))
    | inr (y, was) ↦
        let (r', found, kept_or) =
          stepped i y {db = db} {db' = db'} (operations_advanced p set rises e) was in
        subst RowInv (cc (found, h)) (elim kept_or [
          | inl same ↦ subst RowInv (sym same) (inv.rows i y was)
          | inr a ↦ a.times (inv.rows i y was)
        ])
  ];
}

pub empty-OperationsInv : OperationsInv empty
unfolding count find
empty-OperationsInv = record {
  one_per_id = λ i. omega arith;
  one_per_key = λ k. omega arith;
  rows = λ i r h. cc;
}

pub perform_all-OperationsInv :
    (calls : List OperationCall) (db : Database)
    → OperationsInv db
    → OperationsInv (perform_all calls db)
unfolding perform_all
perform_all-OperationsInv [] db inv = inv
perform_all-OperationsInv (call ∷ calls) db inv =
    perform_all-OperationsInv calls (perform call db)
      (Move-OperationsInv (perform-OperationMove call db) inv)

-- Whatever calls of the operation store were made, one row has an operation's identifier and one an
-- idempotency key, a row has a start time when its operation was started and a finish time when its
-- state is terminal, and its version is at most its stage.
pub perform_all-invariant : (calls : List OperationCall) → OperationsInv (perform_all calls empty)
perform_all-invariant calls = perform_all-OperationsInv calls empty empty-OperationsInv

-- An admitted operation keeps its row, its keys and its payload through any calls; its state only
-- climbs the stages queued, in flight, client timed out, engine unresponsive and terminal, it stays
-- started once it was, its version grows by no more than its stage does, and a row in a terminal state never changes.
pub perform_all-Later :
    (calls : List OperationCall) (db : Database) (i : String) (r : OperationRecord)
    → find (operation_at i) db.operation_records ≡ some r
    → (r' : OperationRecord) × (find (operation_at i) (perform_all calls db).operation_records
        ≡ some r')
      × Later r r'
unfolding perform_all
perform_all-Later [] db i r h = (r, h, Later-refl r)
perform_all-Later (call ∷ calls) db i r h =
    let (r1, found1, by) = stepped i r (perform-OperationMove call db) h in
    let (r2, found2, rest) = perform_all-Later calls (perform call db) i r1 found1 in
    (
      r2,
      found2,
      elim by [ inl same ↦ subst (λ x. Later x r2) same rest | inr a ↦ Later-Advances a rest ],
    )
