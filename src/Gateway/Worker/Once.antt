-- ===== src/Gateway/Worker/Once.antt =====
-- A handler is called at most once for an operation.
use powerfactory_mcp.Prelude.{ℕ, String, ◌≡◌, refl, sym, subst, Bool, true, false, none, List, []}
use powerfactory_mcp.Errors.{Result, ok, err}
use powerfactory_mcp.Table.{any}
use powerfactory_mcp.Domain.Operation.{OperationRecord}
use powerfactory_mcp.Domain.Inventory.Checks.{contains, all_distinct}
use powerfactory_mcp.Persistence.Database.{Database}
use powerfactory_mcp.Persistence.OperationStore.History.{OperationCall, perform}
use powerfactory_mcp.Persistence.OperationStore.History.Rows.{OperationsInv}
use powerfactory_mcp.Gateway.Worker.State.{Settings, Worker}
use powerfactory_mcp.Gateway.Worker.OwnerThread.{handler_done-keeps}
use powerfactory_mcp.Gateway.Worker.{enqueue, new_worker, WorkerEvent, run_worker}
use powerfactory_mcp.Gateway.Worker.Events.{Lasting, run_worker-On}
use powerfactory_mcp.Gateway.Worker.Claims.{
  Begun, Safe, Safe-drop, Safe-perform, SafeWorker, claim, owner_step-Safe,
}

enqueue-Safe :
    (w : Worker) (x : Result (OperationRecord × Bool) × Database)
    → Safe w.handled (claim w.owner) x.1
    → SafeWorker (enqueue w x).1
unfolding enqueue
enqueue-Safe w (err e, db) h = h
enqueue-Safe w (ok (r, false), db) h = h
enqueue-Safe w (ok (r, true), db) h = h

new_worker-Safe :
    (now later : ℕ) {handled : List String} (db : Database)
    → Safe handled none db
    → SafeWorker (new_worker now later handled db)
unfolding new_worker perform
new_worker-Safe now later db safe =
    Safe-perform (OperationCall.cancel_all_call later) _
      (Safe-perform (OperationCall.orphans_call now) db safe)

-- Every event keeps it.
lasting : (s : Settings) → Lasting s (λ handled queue o db. Safe handled (claim o) db)
unfolding perform
lasting s = record {
  called = λ call db a b safe. Safe-perform call db safe;
  answered = λ {handled} {queue} outcome o db safe.
      subst (λ c. Safe handled c db) (sym (handler_done-keeps claim outcome o (λ i r. refl))) safe;
  admitted = λ a i w safe. enqueue-Safe w _ (Safe-perform (OperationCall.admit_call a i) w.db safe);
  stepped = λ now w safe. owner_step-Safe s now w.owner w safe safe;
  opened = λ now later w safe. new_worker-Safe now later w.db (Safe-drop safe);
}

-- Over any tables that keep the invariant of the store, whatever the order of the steps of the
-- clients, the owner, the handlers, the watchdog and `close`, and whatever processes end and start
-- again in between, the handler of an operation is called at most once, and only where the store
-- has started the operation: each operation whose handler was called has a row, which is neither
-- queued nor cancelled before its start.
pub run_worker-handled_once :
    (s : Settings) (now later : ℕ) (db : Database)
    → OperationsInv db
    → (events : List WorkerEvent)
    → (all_distinct (run_worker s events (new_worker now later [] db)).handled ≡ true)
      × ((i : String)
          → contains (run_worker s events (new_worker now later [] db)).handled i ≡ true
          → Begun i (run_worker s events (new_worker now later [] db)).db)
unfolding any all_distinct
run_worker-handled_once s now later db good events =
    let safe = run_worker-On s _ (lasting s) events (new_worker now later [] db) opened in
    (safe.distinct, safe.begun)
  where
    opened : SafeWorker (new_worker now later [] db)
    opened = new_worker-Safe now later db (record {
      tables = good;
      begun = λ i h. absurd (cc (h));
      distinct = refl;
      unhandled = λ i h. absurd (cc (h));
    })
