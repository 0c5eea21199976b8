-- ===== src/Gateway/Worker/Waiting.antt =====
-- No queued operation is forgotten.
use powerfactory_mcp.Prelude.{
  ℕ, String, ◌≡◌, refl, subst, ◌⊎◌, Bool, true, false, some, List, [], ◌∷◌, ◌++◌, arith, inl, inr,
}
use powerfactory_mcp.Errors.{Result, ok, err}
use powerfactory_mcp.Table.{find}
use powerfactory_mcp.Domain.Operation.{OperationRecord}
use powerfactory_mcp.Domain.Inventory.Checks.{contains}
use powerfactory_mcp.Persistence.Database.{Database}
use powerfactory_mcp.Persistence.OperationStore.{operation_at, admit, is_queued, reconcile_orphans}
use powerfactory_mcp.Persistence.OperationStore.History.{OperationCall, perform}
use powerfactory_mcp.Persistence.OperationStore.History.Rows.{OperationsInv}
use powerfactory_mcp.Gateway.Worker.State.{Settings, Worker}
use powerfactory_mcp.Gateway.Worker.OwnerThread.{handler_done-keeps}
use powerfactory_mcp.Gateway.Worker.Calls.{cancel_all-leaves, admit-rows}
use powerfactory_mcp.Gateway.Worker.{enqueue, new_worker, WorkerEvent, run_worker}
use powerfactory_mcp.Gateway.Worker.Events.{Lasting, run_worker-On}
use powerfactory_mcp.Gateway.Worker.Taking.{
  Waits, Waits-perform, Waits-same, WaitsIn, contains-kept, contains-new, held, owner_step-Waits,
  perform-OperationsInv,
}

enqueue-Waits :
    (w : Worker) (x : Result (OperationRecord × Bool) × Database)
    → OperationsInv x.1
    → ((i : String) (r : OperationRecord)
        → find (operation_at i) x.1.operation_records ≡ some r
        → (find (operation_at i) w.db.operation_records ≡ some r)
          ⊎ ((new : OperationRecord) × (x.0 ≡ ok (new, true))
              × (new.operation_id ≡ i)
              × (is_queued r.state ≡ true)))
    → WaitsIn w
    → WaitsIn (enqueue w x).1
unfolding enqueue
enqueue-Waits w (err e, db) inv from h = record {
  tables = inv;
  waits = λ i r at fresh. elim (from i r at) [
    | inl old ↦ h.waits i r old fresh
    | inr (new, created, same, fresh_) ↦ absurd (cc (created))
  ];
}
enqueue-Waits w (ok (r0, false), db) inv from h = record {
  tables = inv;
  waits = λ i r at fresh. elim (from i r at) [
    | inl old ↦ h.waits i r old fresh
    | inr (new, created, same, fresh_) ↦ absurd (ground (arith, created))
  ];
}
enqueue-Waits w (ok (r0, true), db) inv from h = record {
  tables = inv;
  waits = λ i r at fresh. elim (from i r at) [
    | inl old ↦ elim (h.waits i r old fresh) [
      | inl listed ↦ inl (contains-kept w.queue r0.operation_id i listed)
      | inr mine ↦ inr mine
    ]
    | inr (new, created, same, fresh_) ↦
        let e : r0.operation_id ≡ i = ground (arith, created, same) in
        inl (
          subst (λ x. contains (w.queue ++ r0.operation_id ∷ []) x ≡ true) e
            (contains-new w.queue r0.operation_id))
  ];
}

new_worker-Waits :
    (now later : ℕ) (handled : List String) (db : Database)
    → OperationsInv db
    → WaitsIn (new_worker now later handled db)
unfolding new_worker perform
new_worker-Waits now later handled db inv = record {
  tables =
      perform-OperationsInv (OperationCall.cancel_all_call later) _
        (perform-OperationsInv (OperationCall.orphans_call now) db inv);
  waits = λ i r at fresh.
      absurd (cc (fresh, cancel_all-leaves later (reconcile_orphans now db).1 i r at));
}

-- Every event keeps it.
lasting : (s : Settings) → Lasting s (λ handled queue o db. Waits queue (held o) db)
unfolding perform
lasting s = record {
  called = λ call db a b h. Waits-perform call db b h;
  answered = λ outcome o db h. Waits-same (handler_done-keeps held outcome o (λ i r. refl)) h;
  admitted = λ a i w h.
      enqueue-Waits w (admit a i w.db)
        (perform-OperationsInv (OperationCall.admit_call a i) w.db h.tables)
        (λ j r at. admit-rows a i w.db j r at) h;
  stepped = λ now w h. owner_step-Waits s now w.owner w h h;
  opened = λ now later w h. new_worker-Waits now later w.handled w.db h.tables;
}

-- No queued operation is forgotten: over any tables that keep the invariant of the store, and
-- whatever the order of the steps of the threads and the ends of processes, an operation whose row
-- is queued is on the queue of the worker, or the owner has taken it from there and is about to
-- cancel or start it.
pub run_worker-queued_kept :
    (s : Settings) (now later : ℕ) (db : Database)
    → OperationsInv db
    → (events : List WorkerEvent) (i : String) (r : OperationRecord)
    → find (operation_at i) (run_worker s events (new_worker now later [] db)).db.operation_records
      ≡ some r
    → is_queued r.state ≡ true
    → (contains (run_worker s events (new_worker now later [] db)).queue i ≡ true)
      ⊎ (held (run_worker s events (new_worker now later [] db)).owner ≡ some i)
run_worker-queued_kept s now later db good events =
    (run_worker-On s _ (lasting s) events (new_worker now later [] db)
      (new_worker-Waits now later [] db good)).waits
