-- ===== src/Persistence/OperationStore/History/Keys.antt =====
-- Admission by idempotency key: a retried `admit` returns the operation that the first one admitted.
use powerfactory_mcp.Prelude.{
  suc, String, ◌≡◌, refl, sym, ap, subst, ◌∙◌, Bool, false, Option, none, some, List, [], ◌∷◌, ◌++◌,
  arith, Bool-cases, inl, inr, eq_iff,
}
use powerfactory_mcp.Errors.{Result, ok}
use powerfactory_mcp.Table.{find, any, insert, find-append, find-fits}
use powerfactory_mcp.Table.Counts.{find_unique}
use powerfactory_mcp.Domain.Operation.{OperationRecord}
use powerfactory_mcp.Persistence.Database.{
  Database, Tx, transaction, commit, transaction-eq-ok, checked, checked-eq-ok,
}
use powerfactory_mcp.Persistence.OperationStore.{
  operation_at, admitted_under, operation_clashes, asserted, insert_operation, admit, admit_at,
}
use powerfactory_mcp.Persistence.OperationStore.Admission.{AdmitRequest, check_admit, queued_row}
use powerfactory_mcp.Persistence.OperationStore.History.{OperationCall, perform, perform_all}
use powerfactory_mcp.Persistence.OperationStore.History.Rows.{
  OperationsInv, Later, perform_all-Later, perform_all-OperationsInv,
}
use powerfactory_mcp.Persistence.OperationStore.History.Once.{asserted-eq-ok}

-- What holds of the row that `admit` returns.
record AdmittedRow (q : AdmitRequest) (payload : String) (db' : Database) (r : OperationRecord)
    : Type 0 where
  found : find (operation_at r.operation_id) db'.operation_records ≡ some r
  key : r.idempotency_key ≡ q.idempotency_key
  handler : r.handler_name ≡ q.handler_name
  payload_same : r.payload_json ≡ payload

no_clash :
    (x : OperationRecord) (rows : List OperationRecord)
    → any (operation_clashes x) rows ≡ false
    → find (operation_at x.operation_id) rows ≡ none
unfolding any find
no_clash x [] h = refl
no_clash x (r ∷ rows) h = ground (arith, no_clash x rows, h)

only : (x : OperationRecord) → find (operation_at x.operation_id) (x ∷ []) ≡ some x
unfolding find
only x = ground (arith, eq_iff x.operation_id x.operation_id)

pub inserted :
    (x : OperationRecord) (rows : List OperationRecord)
    → any (operation_clashes x) rows ≡ false
    → find (operation_at x.operation_id) (rows ++ x ∷ []) ≡ some x
inserted x rows h =
    find-append (operation_at x.operation_id) rows (x ∷ []) ∙ rw (no_clash x rows h, only x) refl

admit_at-AdmittedRow :
    (q : AdmitRequest) (i payload : String) (o : Option OperationRecord) (db : Database)
    {r : OperationRecord} {b : Bool} {db' : Database}
    → OperationsInv db
    → find (admitted_under q.idempotency_key) db.operation_records ≡ o
    → admit_at q i payload o db ≡ ok (some (r, b), db')
    → AdmittedRow q payload db' r
unfolding admit_at insert_operation insert
admit_at-AdmittedRow q i payload none db {r} {b} {db'} inv was h =
    elim (Bool-cases (any (operation_clashes row) db.operation_records)) [
      | inl clash ↦ absurd (ground (arith, clash, h))
      | inr fresh ↦
          let same : r ≡ row = ground (arith, fresh, h, inserted row db.operation_records fresh) in
          let wrote : db'.operation_records ≡ db.operation_records ++ row ∷ [] =
            ground (arith, fresh, h) in
          subst (AdmittedRow q payload db') (sym same) (record {
            found = rw wrote (inserted row db.operation_records fresh);
            key = refl;
            handler = refl;
            payload_same = refl;
          })
    ]
  where
    row : OperationRecord
    row = queued_row q i payload (suc db.operation_sequence)
admit_at-AdmittedRow q i payload (some x) db {r} {b} {db'} inv was h =
    let same : r ≡ x = ground (arith, h) in
    let kept : db' ≡ db = ground (arith, h) in
    let fits = find-fits (admitted_under q.idempotency_key) db.operation_records was in
    subst (AdmittedRow q payload db') (sym same) (record {
      found = rw kept (
          find_unique (operation_at x.operation_id) (admitted_under q.idempotency_key)
            db.operation_records was (ground (arith, eq_iff x.operation_id x.operation_id))
            (inv.one_per_id x.operation_id));
      key = (eq_iff x.idempotency_key q.idempotency_key).0 fits;
      handler = ground (arith, h, eq_iff x.handler_name q.handler_name);
      payload_same = ground (arith, h, eq_iff x.payload_json payload);
    })

admit-AdmittedRow :
    (q : AdmitRequest) (i : String) (db : Database) {r : OperationRecord} {b : Bool}
    → OperationsInv db
    → (admit q i db).0 ≡ ok (r, b)
    → (payload : String) × (check_admit q ≡ ok payload) × AdmittedRow q payload (admit q i db).1 r
unfolding admit
admit-AdmittedRow q i db {r} {b} inv h =
    let (returned, same) = asserted-eq-ok (checked (check_admit q) body db) h in
    let (payload, known, run) = checked-eq-ok (check_admit q) body db returned in
    let done =
      transaction-eq-ok (in_transaction payload) db
        (subst (λ x. x.0 ≡ ok (some (r, b))) run returned) in
    (
      payload,
      known,
      subst (λ d. AdmittedRow q payload d r) (sym (same ∙ ap (λ x. x.1) run))
          (admit_at-AdmittedRow q i payload _ db inv refl done),
    )
  where
    in_transaction : String → Tx (Option (OperationRecord × Bool))
    in_transaction payload d =
        admit_at q i payload (find (admitted_under q.idempotency_key) d.operation_records) d

    body : String → Database → Result (Option (OperationRecord × Bool)) × Database
    body payload = transaction (in_transaction payload)

admit_found :
    (q : AdmitRequest) (i : String) (db : Database) {payload : String} {r : OperationRecord}
    → check_admit q ≡ ok payload
    → find (admitted_under q.idempotency_key) db.operation_records ≡ some r
    → r.handler_name ≡ q.handler_name
    → r.payload_json ≡ payload
    → admit q i db ≡ (ok (r, false), db)
unfolding admit admit_at checked transaction commit asserted
admit_found q i db {payload} {r} known found handler same = ground (
  arith,
  known,
  found,
  handler,
  same,
  eq_iff r.handler_name q.handler_name,
  eq_iff r.payload_json payload,
)

-- On tables that keep the invariant, a retried admission returns the operation that the first one
-- admitted: after an `admit` that returned, and any calls after it, an `admit` with the same key,
-- the same handler and the same checked payload returns the current row of the same operation as
-- not created, and changes nothing, whatever identifier it would draw.
pub admit-retried :
    (q q' : AdmitRequest) (i i' : String) (db : Database) (good : OperationsInv db)
    (calls : List OperationCall) (r : OperationRecord) (b : Bool)
    → (admit q i db).0 ≡ ok (r, b)
    → q'.idempotency_key ≡ q.idempotency_key
    → q'.handler_name ≡ q.handler_name
    → check_admit q' ≡ check_admit q
    → (r' : OperationRecord) × Later r r'
      × (admit q' i' (perform_all calls (perform (OperationCall.admit_call q i) db))
          ≡ (ok (r', false), perform_all calls (perform (OperationCall.admit_call q i) db)))
unfolding perform perform_all
admit-retried q q' i i' db good calls r b h same_key same_handler same_checks =
    let (payload, known, a) = admit-AdmittedRow q i db good h in
    let (r', found, later) = perform_all-Later calls (admit q i db).1 r.operation_id r a.found in
    let now_good =
      perform_all-OperationsInv calls (admit q i db).1
        (perform_all-OperationsInv (OperationCall.admit_call q i ∷ []) db good) in
    let key : r'.idempotency_key ≡ q'.idempotency_key = later.same_key ∙ a.key ∙ sym same_key in
    let by_key =
      find_unique (admitted_under q'.idempotency_key) (operation_at r.operation_id)
        (perform_all calls (admit q i db).1).operation_records found
        ((eq_iff r'.idempotency_key q'.idempotency_key).1 key)
        (now_good.one_per_key q'.idempotency_key) in
    (
      r',
      later,
      admit_found q' i' (perform_all calls (admit q i db).1) (same_checks ∙ known) by_key
          (later.same_handler ∙ a.handler ∙ sym same_handler) (later.same_payload ∙ a.payload_same),
    )
