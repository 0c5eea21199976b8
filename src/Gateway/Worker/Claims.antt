-- ===== src/Gateway/Worker/Claims.antt =====
-- The operation that the owner has started and not yet handed to its handler, along its steps.
use powerfactory_mcp.Prelude.{
  ℕ, String, ◌≡◌, refl, sym, subst, ◌==◌, true, false, Option, none, some, List, [], ◌∷◌, arith,
  Bool-cases, inl, inr, eq_iff, is_none, ◌&&◌, leb,
}
use powerfactory_mcp.Errors.{Result, ok, err}
use powerfactory_mcp.Table.{find, any}
use powerfactory_mcp.Domain.Operation.{OperationState, OperationRecord}
use powerfactory_mcp.Domain.Inventory.Checks.{contains, all_distinct}
use powerfactory_mcp.Persistence.Database.{Database}
use powerfactory_mcp.Persistence.OperationStore.{
  operation_at, start, is_queued, set_columns, no_updates, get,
}
use powerfactory_mcp.Persistence.OperationStore.States.{is_unstarted, queued_facts}
use powerfactory_mcp.Persistence.OperationStore.History.{OperationCall, perform, perform_all}
use powerfactory_mcp.Persistence.OperationStore.History.Rows.{
  OperationsInv, perform_all-Later, perform_all-OperationsInv,
}
use powerfactory_mcp.Persistence.OperationStore.History.Once.{start-eq-ok}
use powerfactory_mcp.Gateway.Worker.State.{
  Settings, Worker, Owner, Outcome, waiting, taken, judged, expiring, starting, started, executing,
  running, settling, reconciling, finishing, gone, known_failure, uncertain_failure, returned,
  escaped,
}
use powerfactory_mcp.Gateway.Worker.OwnerThread.{
  can_call, after_call-none, failed_or-none, poll_queue, judge, begin, settle_outcome, owner_step,
}

-- A row has the identifier, and its operation was started: it is neither queued nor cancelled before
-- its start.
abbrev pub Begun : String → Database → Type 0
Begun i db =
    (r : OperationRecord) × (find (operation_at i) db.operation_records ≡ some r)
    × (is_unstarted r.state ≡ false)

-- The operation that the owner has started and not yet handed to its handler.
abbrev pub claim : Owner → Option String
claim (started i r) = some i
claim (executing i r) = some i
claim _ = none

pub record Safe (handled : List String) (claimed : Option String) (db : Database) : Type 0 where
  pub tables : OperationsInv db
  pub begun : (i : String) → contains handled i ≡ true → Begun i db
  pub distinct : all_distinct handled ≡ true
  pub unhandled : (i : String) → claimed ≡ some i → (contains handled i ≡ false) × Begun i db

abbrev pub SafeWorker : Worker → Type 0
SafeWorker w = Safe w.handled (claim w.owner) w.db

pub Begun-perform_all :
    (calls : List OperationCall) (db : Database) (i : String)
    → Begun i db
    → Begun i (perform_all calls db)
Begun-perform_all calls db i (r, found, far) =
    let (r', found', later) = perform_all-Later calls db i r found in (r', found', later.begun far)

module _ {handled : List String} where
  Safe-perform_all :
      {claimed : Option String} (calls : List OperationCall) (db : Database)
      → Safe handled claimed db
      → Safe handled claimed (perform_all calls db)
  Safe-perform_all calls db safe = record {
    tables = perform_all-OperationsInv calls db safe.tables;
    begun = λ i h. Begun-perform_all calls db i (safe.begun i h);
    distinct = safe.distinct;
    unhandled =
        λ i h. ((safe.unhandled i h).0, Begun-perform_all calls db i (safe.unhandled i h).1);
  }

  -- One call.
  pub Safe-perform :
      {claimed : Option String} (call : OperationCall) (db : Database)
      → Safe handled claimed db
      → Safe handled claimed (perform call db)
  unfolding perform_all
  Safe-perform call db safe = Safe-perform_all (call ∷ []) db safe

  pub Safe-drop :
      {claimed : Option String} {db : Database} → Safe handled claimed db → Safe handled none db
  Safe-drop safe = record {
    tables = safe.tables;
    begun = safe.begun;
    distinct = safe.distinct;
    unhandled = λ i h. absurd (cc (h));
  }

  Safe-called : {i : String} {db : Database} → Safe handled (some i) db → Safe (i ∷ handled) none db
  unfolding all_distinct any
  Safe-called {i} {db} safe =
      let (new, at) = safe.unhandled i refl in
      record {
        tables = safe.tables;
        begun = λ j h. elim (Bool-cases (i == j)) [
          | inl same ↦ subst (λ x. Begun x db) ((eq_iff i j).0 same) at
          | inr other ↦ safe.begun j (ground (arith, h, other))
        ];
        distinct = ground (arith, new, safe.distinct);
        unhandled = λ j h. absurd (cc (h));
      }

  Safe-start :
      (i : String) (now : ℕ) (db : Database) {r : OperationRecord}
      → Safe handled none db
      → (start i now db).0 ≡ ok r
      → Safe handled (some i) (start i now db).1
  unfolding perform
  Safe-start i now db safe h =
      let (q, was, fresh, found) = start-eq-ok i now db safe.tables h in
      let next = Safe-perform (OperationCall.start_call i now) db safe in
      record {
        tables = next.tables;
        begun = next.begun;
        distinct = next.distinct;
        unhandled =
            λ j same. subst Fresh (cc (same)) (unseen q was fresh, (started_row q, found, refl));
      }
    where
      Fresh : String → Type 0
      Fresh j = (contains handled j ≡ false) × Begun j (start i now db).1

      started_row : OperationRecord → OperationRecord
      started_row q =
          set_columns OperationState.in_flight (record no_updates { started_at_ns = some now }) q

      unseen :
          (q : OperationRecord)
          → find (operation_at i) db.operation_records ≡ some q
          → is_queued q.state ≡ true
          → contains handled i ≡ false
      unseen q was fresh = elim (Bool-cases (contains handled i)) [
        | inl seen ↦
            let (q', was', far) = safe.begun i seen in
            let same : q' ≡ q = ground (arith, was, was') in
            let started : is_unstarted q.state ≡ false =
              subst (λ x. is_unstarted x.state ≡ false) same far in
            absurd (cc (started, (queued_facts q.state fresh).2))
        | inr new ↦ new
      ]

-- The steps of the owner after a call of the store.
judge-claim : (i : String) (x : Result OperationRecord) → claim (judge i x) ≡ none
unfolding judge
judge-claim i (err e) = refl
judge-claim i (ok r) = elim (Bool-cases (is_queued r.state)) [
  | inl left ↦ rw left refl
  | inr right ↦ rw right refl
]

-- A state of the owner that claims nothing is safe over the tables after a call.
unclaimed :
    {handled : List String} {claimed : Option String} {db : Database}
    → claimed ≡ none
    → Safe handled none db
    → Safe handled claimed db
unclaimed {handled} {claimed} {db} e safe = subst (λ c. Safe handled c db) (sym e) safe

settle_outcome-Safe :
    (i : String) (r : OperationRecord) (outcome : Outcome) (now : ℕ) (w : Worker)
    → Safe w.handled none w.db
    → SafeWorker (settle_outcome i r outcome now w)
unfolding settle_outcome perform
settle_outcome-Safe i r (known_failure error) now w safe =
    unclaimed (failed_or-none claim i r error (λ b. refl) refl _)
      (Safe-perform (OperationCall.fail_call r.operation_id (ok error) now) w.db safe)
settle_outcome-Safe i r (uncertain_failure error) now w safe = safe
settle_outcome-Safe i r (returned (err e) error) now w safe = safe
settle_outcome-Safe i r (returned (ok text) error) now w safe =
    unclaimed (after_call-none claim i (λ b. refl) _)
      (Safe-perform (OperationCall.complete_call r.operation_id (ok text) now) w.db safe)
settle_outcome-Safe i r escaped now w safe = safe

begin-Safe :
    (i : String) (now : ℕ) (w : Worker) (x : Result OperationRecord)
    → (start i now w.db).0 ≡ x
    → Safe w.handled none w.db
    → Safe w.handled (claim (begin i x)) (start i now w.db).1
unfolding begin perform
begin-Safe i now w (err e) h safe = Safe-perform (OperationCall.start_call i now) w.db safe
begin-Safe i now w (ok r) h safe = Safe-start i now w.db safe h

poll_queue-Safe :
    (w : Worker) (queue : List String)
    → Safe w.handled none w.db
    → SafeWorker w
    → SafeWorker (poll_queue w queue)
unfolding poll_queue
poll_queue-Safe w [] safe whole = elim (Bool-cases (w.stopping && is_none w.active_operation_id)) [
  | inl ends ↦ rw ends safe
  | inr stays ↦ rw stays whole
]
poll_queue-Safe w (i ∷ rest) safe whole = safe

pub owner_step-Safe :
    (s : Settings) (now : ℕ) (o : Owner) (w : Worker)
    → Safe w.handled (claim o) w.db
    → SafeWorker w
    → SafeWorker (owner_step s now o w)
unfolding owner_step perform
owner_step-Safe s now waiting w safe whole = poll_queue-Safe w w.queue safe whole
owner_step-Safe s now (taken i) w safe whole = unclaimed (judge-claim i (get i w.db)) safe
owner_step-Safe s now (judged i r) w safe whole =
    elim (Bool-cases (leb r.queue_deadline_at_ns now)) [
      | inl late ↦ rw late safe
      | inr early ↦ rw early safe
    ]
owner_step-Safe s now (expiring i) w safe whole =
    unclaimed (after_call-none claim i (λ b. refl) _)
      (Safe-perform (OperationCall.cancel_call i now) w.db safe)
owner_step-Safe s now (starting i) w safe whole = begin-Safe i now w _ refl safe
owner_step-Safe s now (started i r) w safe whole = safe
owner_step-Safe s now (executing i r) w safe whole = elim (Bool-cases (can_call s r)) [
  | inl known ↦ rw known (Safe-called safe)
  | inr unknown ↦ rw unknown (Safe-drop safe)
]
owner_step-Safe s now (running i r) w safe whole = whole
owner_step-Safe s now (settling i r outcome) w safe whole =
    settle_outcome-Safe i r outcome now w safe
owner_step-Safe s now (reconciling i r error) w safe whole =
    unclaimed (after_call-none claim i (λ b. refl) _)
      (Safe-perform (OperationCall.reconciliation_call r.operation_id (ok error) now) w.db safe)
owner_step-Safe s now (finishing i true) w safe whole = safe
owner_step-Safe s now (finishing i false) w safe whole = safe
owner_step-Safe s now gone w safe whole = whole

-- The other events.
