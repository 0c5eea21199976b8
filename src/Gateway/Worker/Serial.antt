-- ===== src/Gateway/Worker/Serial.antt =====
-- At most one operation is running.
use powerfactory_mcp.Prelude.{
  ℕ, String, ◌≡◌, refl, sym, subst, ◌∙◌, Bool, true, false, some, List, [], arith, Bool-cases,
  Option-cases, inl, inr, if◌then◌else◌,
}
use powerfactory_mcp.Errors.{Result, ok, err}
use powerfactory_mcp.Table.{find, find-update}
use powerfactory_mcp.Domain.Operation.{OperationState, OperationRecord}
use powerfactory_mcp.Persistence.Database.{Database, transaction, commit}
use powerfactory_mcp.Persistence.OperationStore.{
  operation_at, is_running, set_finished, reconcile_orphans,
}
use powerfactory_mcp.Persistence.OperationStore.History.{OperationCall, perform}
use powerfactory_mcp.Persistence.OperationStore.History.Rows.{OperationsInv}
use powerfactory_mcp.Gateway.Worker.State.{
  Settings, Worker, Owner, Outcome, waiting, taken, judged, expiring, starting, started, executing,
  running, settling, reconciling, finishing, gone,
}
use powerfactory_mcp.Gateway.Worker.OwnerThread.{handler_done}
use powerfactory_mcp.Gateway.Worker.Taking.{perform-OperationsInv}
use powerfactory_mcp.Gateway.Worker.Running.{Running}
use powerfactory_mcp.Gateway.Worker.{enqueue, new_worker, WorkerEvent, run_worker}
use powerfactory_mcp.Gateway.Worker.Events.{Lasting, run_worker-On}
use powerfactory_mcp.Gateway.Worker.Engaged.{
  Serial, Serial-go, Serial-owner_step, Serial-perform, SerialWorker,
}

-- The other events.
Serial-handler_done :
    (outcome : Outcome) (o : Owner) {db : Database}
    → Serial o db
    → Serial (handler_done outcome o) db
unfolding handler_done
Serial-handler_done outcome waiting a = a
Serial-handler_done outcome (taken i) a = a
Serial-handler_done outcome (judged i r) a = a
Serial-handler_done outcome (expiring i) a = a
Serial-handler_done outcome (starting i) a = a
Serial-handler_done outcome (started i r) a = a
Serial-handler_done outcome (executing i r) a = a
Serial-handler_done outcome (running i r) a =
    Serial-go (running i r) (settling i r outcome) (λ h. h) (λ j h. h) a
Serial-handler_done outcome (settling i r done) a = a
Serial-handler_done outcome (reconciling i r error) a = a
Serial-handler_done outcome (finishing i raised) a = a
Serial-handler_done outcome gone a = a

Serial-enqueue :
    (w : Worker) (x : Result (OperationRecord × Bool) × Database)
    → Serial w.owner x.1
    → SerialWorker (enqueue w x).1
unfolding enqueue
Serial-enqueue w (err e, db) h = h
Serial-enqueue w (ok (r, false), db) h = h
Serial-enqueue w (ok (r, true), db) h = h

-- A new process reconciles what is running.
pub orphans-Running :
    (now : ℕ) (db : Database) (i : String) → ¬ (Running i (reconcile_orphans now db).1)
unfolding reconcile_orphans transaction commit
orphans-Running now db i (r, at, runs) =
    let moved =
      find-update (operation_at i) (λ x. is_running x.state) set (λ x hit. refl)
        db.operation_records in
    elim (Option-cases (find (operation_at i) db.operation_records)) [
      | inl none_there ↦ cc (at, moved, none_there)
      | inr (y, there) ↦
          let e : some (if is_running y.state then set y else y) ≡ some r =
            sym (moved ∙ rw there refl) ∙ at in
          elim (Bool-cases (is_running y.state)) [
            | inl hit ↦
                let same : r ≡ set y = ground (arith, e, hit) in
                cc (subst (λ x. is_running x.state ≡ true) same runs)
            | inr missed ↦
                let same : r ≡ y = ground (arith, e, missed) in
                cc (missed, subst (λ x. is_running x.state ≡ true) same runs)
          ]
    ]
  where
    set : OperationRecord → OperationRecord
    set = set_finished OperationState.reconciliation_required now

Serial-new_worker :
    (now later : ℕ) (handled : List String) (db : Database)
    → OperationsInv db
    → SerialWorker (new_worker now later handled db)
unfolding new_worker perform
Serial-new_worker now later handled db inv =
    Serial-perform (OperationCall.cancel_all_call later) (reconcile_orphans now db).1 refl (record {
      tables = perform-OperationsInv (OperationCall.orphans_call now) db inv;
      current = "";
      only = λ i h. absurd (orphans-Running now db i h);
      named = λ i h. absurd (cc (h));
    })

-- Every event keeps it.
lasting : (s : Settings) → Lasting s (λ handled queue o db. Serial o db)
unfolding perform
lasting s = record {
  called = λ call db a b h. Serial-perform call db a h;
  answered = λ outcome o db h. Serial-handler_done outcome o h;
  admitted =
      λ a i w h. Serial-enqueue w _ (Serial-perform (OperationCall.admit_call a i) w.db refl h);
  stepped = λ now w h. Serial-owner_step s now w.owner w h h;
  opened = λ now later w h. Serial-new_worker now later w.handled w.db h.tables;
}

-- The operations are serialized: over any tables that keep the invariant of the store, and whatever
-- the order of the steps of the threads and the ends of processes, at most one operation has a row
-- that is in flight, timed out or unresponsive.
pub run_worker-serialized :
    (s : Settings) (now later : ℕ) (db : Database)
    → OperationsInv db
    → (events : List WorkerEvent) (i j : String)
    → Running i (run_worker s events (new_worker now later [] db)).db
    → Running j (run_worker s events (new_worker now later [] db)).db
    → i ≡ j
run_worker-serialized s now later db good events i j a b =
    let all =
      run_worker-On s _ (lasting s) events (new_worker now later [] db)
        (Serial-new_worker now later [] db good) in
    (all.only i a).0 ∙ sym (all.only j b).0
