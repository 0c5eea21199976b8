-- ===== src/Gateway/Worker/Progress.antt =====
-- The owner runs what is queued.
use powerfactory_mcp.Prelude.{
  ℕ, String, ◌≡◌, refl, sym, ap, subst, ◌∙◌, ◌==◌, Bool, true, false, Option, none, some, List, [],
  ◌∷◌, arith, eq_iff, eq_refl, leb, nat_eq,
}
use powerfactory_mcp.Errors.{ok}
use powerfactory_mcp.Table.{find, count, update, find-update, find-fits}
use powerfactory_mcp.Table.Counts.{count-find, count_mono}
use powerfactory_mcp.Domain.Operation.{OperationState, OperationRecord}
use powerfactory_mcp.Persistence.Database.{Database, transaction, commit, checked}
use powerfactory_mcp.Persistence.OperationStore.{
  operation_at, asserted, start, get, complete, is_queued, is_running, hits, guarded_update,
  transition_operation, set_columns, no_updates, set_completed,
}
use powerfactory_mcp.Persistence.OperationStore.History.{OperationCall, perform}
use powerfactory_mcp.Persistence.OperationStore.History.Rows.{OperationsInv}
use powerfactory_mcp.Gateway.Worker.State.{
  Settings, Worker, Owner, Outcome, waiting, taken, judged, starting, started, executing, running,
  settling, finishing,
}
use powerfactory_mcp.Gateway.Worker.OwnerThread.{
  can_call, poll_queue, judge, after_call, begin, settle_outcome, owner_step, handler_done, cleared,
}
use powerfactory_mcp.Gateway.Worker.Taking.{perform-OperationsInv}
use powerfactory_mcp.Gateway.Worker.{WorkerEvent, worker_step, run_worker}

-- An update whose row is there and in an expected state returns it changed.
module _ (i : String) (expected : OperationState → Bool) (set : OperationRecord → OperationRecord)
    (target : Option OperationState) (db : Database) (inv : OperationsInv db)
    (same_id : (r : OperationRecord) → (set r).operation_id ≡ r.operation_id) (r : OperationRecord)
    (found : find (operation_at i) db.operation_records ≡ some r)
    (fit : expected r.state ≡ true) where
  abbrev changed : Database
  changed = record db { operation_records = update (hits i expected) set db.operation_records }

  hit : hits i expected r ≡ true
  hit = ground (arith, find-fits (operation_at i) db.operation_records found, fit)

  one : nat_eq (count (hits i expected) db.operation_records) 1 ≡ true
  one = ground (
    arith,
    count-find (operation_at i) (hits i expected) db.operation_records found hit,
    count_mono (operation_at i) (hits i expected) (λ r' h. ground (arith, h)) db.operation_records,
    inv.one_per_id i,
  )

  changed-row : find (operation_at i) changed.operation_records ≡ some (set r)
  changed-row =
      find-update (operation_at i) (hits i expected) set (λ x h. ap (λ n. n == i) (same_id x))
        db.operation_records
      ∙ rw (found, hit) refl

  guarded-returns :
      asserted (transaction (guarded_update i expected set target) db) ≡ (ok (set r), changed)
  unfolding asserted transaction commit guarded_update
  guarded-returns = rw (one, changed-row) refl

abbrev pub in_flight_row : ℕ → OperationRecord → OperationRecord
in_flight_row now r =
    set_columns OperationState.in_flight (record no_updates { started_at_ns = some now }) r

-- The owner's way from the queue to the end of an operation.
abbrev pub serving : ℕ → ℕ → String → String → List WorkerEvent
serving now later text evidence =
    WorkerEvent.owner_event now
    ∷ WorkerEvent.owner_event now
    ∷ WorkerEvent.owner_event now
    ∷ WorkerEvent.owner_event now
    ∷ WorkerEvent.owner_event now
    ∷ WorkerEvent.owner_event now
    ∷ WorkerEvent.handler_event (Outcome.returned (ok text) evidence)
    ∷ WorkerEvent.owner_event later
    ∷ WorkerEvent.owner_event later
    ∷ []

module _ (s : Settings) (w : Worker) (i : String) (rest : List String) (r : OperationRecord)
    (now later : ℕ) (text evidence : String) (inv : OperationsInv w.db)
    (found : find (operation_at i) w.db.operation_records ≡ some r)
    (fresh : is_queued r.state ≡ true) (early : leb r.queue_deadline_at_ns now ≡ false)
    (known : can_call s r ≡ true) where
  abbrev r1 : OperationRecord
  r1 = in_flight_row now r

  abbrev db1 : Database
  db1 =
      changed i is_queued (in_flight_row now) (some OperationState.in_flight) w.db inv (λ x. refl) r
        found fresh

  starts : start i now w.db ≡ (ok r1, db1)
  unfolding start transition_operation
  starts =
      guarded-returns i is_queued (in_flight_row now) (some OperationState.in_flight) w.db inv
        (λ x. refl) r found fresh

  inv1 : OperationsInv db1
  unfolding perform
  inv1 =
      subst (λ d. OperationsInv d) (ap (λ x. x.1) starts)
        (perform-OperationsInv (OperationCall.start_call i now) w.db inv)

  found1 : find (operation_at i) db1.operation_records ≡ some r1
  found1 =
      changed-row i is_queued (in_flight_row now) (some OperationState.in_flight) w.db inv
        (λ x. refl) r found fresh

  same_id : r1.operation_id ≡ i
  same_id = (eq_iff r.operation_id i).0 (find-fits (operation_at i) w.db.operation_records found)

  abbrev db2 : Database
  db2 = changed i is_running (set_completed text later) none db1 inv1 (λ x. refl) r1 found1 refl

  completes : complete r1.operation_id (ok text) later db1 ≡ (ok (set_completed text later r1), db2)
  unfolding complete checked
  completes =
      subst (λ n. complete n (ok text) later db1 ≡ (ok (set_completed text later r1), db2))
        (sym same_id)
        (guarded-returns i is_running (set_completed text later) none db1 inv1 (λ x. refl) r1 found1
          refl)

  -- The worker at a step of the way.
  at : Database → Option String → List String → Owner → Worker
  at db active handled o = record w {
    db = db;
    queue = rest;
    active_operation_id = active;
    handled = handled;
    owner = o;
  }

  abbrev last : Worker
  last = at db2 (cleared i (some i)) (i ∷ w.handled) waiting

  take_ :
      w.owner ≡ waiting
      → w.queue ≡ i ∷ rest
      → worker_step s (WorkerEvent.owner_event now) w
        ≡ at w.db w.active_operation_id w.handled (taken i)
  unfolding at worker_step owner_step poll_queue
  take_ idle listed = rw (idle, listed) refl

  gets : get i w.db ≡ ok r
  unfolding get
  gets = ground (arith, found)

  judge_ :
      worker_step s
        (WorkerEvent.owner_event now)
        (at w.db w.active_operation_id w.handled (taken i))
      ≡ at w.db w.active_operation_id w.handled (judged i r)
  unfolding at worker_step owner_step judge
  judge_ = rw (gets, fresh) refl

  choose_ :
      worker_step s
        (WorkerEvent.owner_event now)
        (at w.db w.active_operation_id w.handled (judged i r))
      ≡ at w.db w.active_operation_id w.handled (starting i)
  unfolding at worker_step owner_step
  choose_ = rw early refl

  start_ :
      worker_step s
        (WorkerEvent.owner_event now)
        (at w.db w.active_operation_id w.handled (starting i))
      ≡ at db1 w.active_operation_id w.handled (started i r1)
  unfolding at worker_step owner_step begin
  start_ = rw starts refl

  call_ :
      worker_step s (WorkerEvent.owner_event now) (at db1 (some i) w.handled (executing i r1))
      ≡ at db1 (some i) (i ∷ w.handled) (running i r1)
  unfolding at worker_step owner_step
  call_ = rw known refl

  settle_ :
      worker_step s
        (WorkerEvent.owner_event later)
        (at db1 (some i) (i ∷ w.handled) (settling i r1 (Outcome.returned (ok text) evidence)))
      ≡ at db2 (some i) (i ∷ w.handled) (finishing i false)
  unfolding at worker_step owner_step settle_outcome after_call
  settle_ = rw completes refl

  -- The owner alone runs a queued operation to its end: over tables that keep the invariant of the
  -- store, when the operation is the next one on the queue of a waiting owner, is still queued
  -- before its deadline, has a handler and a payload that gets through its round trip, when the
  -- handler returns a result that has a JSON text, and when no step of another thread falls in
  -- between, then after the eight steps of the owner and the return of the handler its row is as
  -- `complete` sets it with the result, the handler was called for it, and the owner waits for the
  -- rest of the queue with no operation active.
  pub run_worker-completes :
      w.owner ≡ waiting
      → w.queue ≡ i ∷ rest
      → (find
            (operation_at i)
            (run_worker s (serving now later text evidence) w).db.operation_records
          ≡ some (set_completed text later (in_flight_row now r)))
        × ((run_worker s (serving now later text evidence) w).handled ≡ i ∷ w.handled)
        × ((run_worker s (serving now later text evidence) w).owner ≡ waiting)
        × ((run_worker s (serving now later text evidence) w).queue ≡ rest)
        × ((run_worker s (serving now later text evidence) w).active_operation_id ≡ none)
  unfolding at run_worker worker_step owner_step handler_done
  run_worker-completes idle listed =
      let all = way idle listed in
      (
        ap (λ x. find (operation_at i) x.db.operation_records) all ∙ ends,
        ap (λ x. x.handled) all,
        ap (λ x. x.owner) all,
        ap (λ x. x.queue) all,
        ap (λ x. x.active_operation_id) all ∙ rw (eq_refl i) refl,
      )
    where
      o : WorkerEvent
      o = WorkerEvent.owner_event now

      e : WorkerEvent
      e = WorkerEvent.owner_event later

      answered : List WorkerEvent
      answered = WorkerEvent.handler_event (Outcome.returned (ok text) evidence) ∷ e ∷ e ∷ []

      ends : find (operation_at i) db2.operation_records ≡ some (set_completed text later r1)
      ends =
          changed-row i is_running (set_completed text later) none db1 inv1 (λ x. refl) r1 found1
            refl

      way :
          w.owner ≡ waiting
          → w.queue ≡ i ∷ rest
          → run_worker s (serving now later text evidence) w ≡ last
      way idle listed =
          ap (λ x. run_worker s (o ∷ o ∷ o ∷ o ∷ o ∷ answered) x) (take_ idle listed)
          ∙ ap (λ x. run_worker s (o ∷ o ∷ o ∷ o ∷ answered) x) judge_
          ∙ ap (λ x. run_worker s (o ∷ o ∷ o ∷ answered) x) choose_
          ∙ ap (λ x. run_worker s (o ∷ o ∷ answered) x) start_
          ∙ ap (λ x. run_worker s (answered) x) call_
          ∙ ap (λ x. run_worker s (e ∷ []) x) settle_
