-- ===== src/Gateway/Worker/Settled.antt =====
-- Once its handler has come back, an operation is brought to a terminal state.
use powerfactory_mcp.Prelude.{
  ℕ, zero, suc, ◌≤◌, String, ◌≡◌, refl, sym, subst, inl, inr, Bool, true, false, some, Bool-cases,
  List, [], ◌∷◌, arith,
}
use powerfactory_mcp.Errors.{Result, ok, err}
use powerfactory_mcp.Table.{find}
use powerfactory_mcp.Domain.Operation.{OperationRecord}
use powerfactory_mcp.Persistence.Database.{Database}
use powerfactory_mcp.Persistence.OperationStore.{is_running, operation_at, reconcile_orphans}
use powerfactory_mcp.Persistence.OperationStore.History.{OperationCall, perform}
use powerfactory_mcp.Persistence.OperationStore.History.Rows.{OperationsInv}
use powerfactory_mcp.Gateway.Worker.State.{
  Settings, Worker, Owner, Outcome, waiting, taken, judged, expiring, starting, started, executing,
  running, settling, reconciling, finishing, gone,
}
use powerfactory_mcp.Gateway.Worker.OwnerThread.{handler_done}
use powerfactory_mcp.Gateway.Worker.Taking.{perform-OperationsInv}
use powerfactory_mcp.Gateway.Worker.Claims.{Begun}
use powerfactory_mcp.Gateway.Worker.Serial.{orphans-Running}
use powerfactory_mcp.Gateway.Worker.Settling.{
  Due, Settled, Settling, comes_back, less, owner_step-Settling, not_running-Settled,
  Settled-perform, Settling-perform, Begun-perform,
}
use powerfactory_mcp.Gateway.Worker.{enqueue, new_worker, WorkerEvent, worker_step, run_worker}
use powerfactory_mcp.Gateway.Worker.Events.{Lasting, worker_step-On}

-- The owner's steps in a schedule.
abbrev pub owner_steps : List WorkerEvent → ℕ
owner_steps [] = 0
owner_steps (WorkerEvent.owner_event now ∷ events) = suc (owner_steps events)
owner_steps (event ∷ events) = owner_steps events

module _ (i : String) where
  Due-more : (o : Owner) (n : ℕ) → Due i o (less n) → Due i o n
  Due-more (settling j r outcome) zero due = due
  Due-more (settling j r outcome) (suc zero) due = due
  Due-more (settling j r outcome) (suc (suc zero)) due = absurd due
  Due-more (settling j r outcome) (suc (suc (suc n))) due = due
  Due-more (reconciling j r error) zero due = due
  Due-more (reconciling j r error) (suc zero) due = absurd due
  Due-more (reconciling j r error) (suc (suc n)) due = due
  Due-more waiting n due = due
  Due-more (taken j) n due = due
  Due-more (judged j r) n due = due
  Due-more (expiring j) n due = due
  Due-more (starting j) n due = due
  Due-more (started j r) n due = due
  Due-more (executing j r) n due = due
  Due-more (running j r) n due = due
  Due-more (finishing j raised) n due = due
  Due-more gone n due = due

  handler_done-Due :
      (outcome : Outcome) (o : Owner) (n : ℕ) → Due i o n → Due i (handler_done outcome o) n
  unfolding handler_done
  handler_done-Due outcome waiting n due = due
  handler_done-Due outcome (taken j) n due = due
  handler_done-Due outcome (judged j r) n due = due
  handler_done-Due outcome (expiring j) n due = due
  handler_done-Due outcome (starting j) n due = due
  handler_done-Due outcome (started j r) n due = due
  handler_done-Due outcome (executing j r) n due = due
  handler_done-Due outcome (running j r) n due = absurd due
  handler_done-Due outcome (settling j r done) n due = due
  handler_done-Due outcome (reconciling j r error) n due = due
  handler_done-Due outcome (finishing j raised) n due = due
  handler_done-Due outcome gone n due = due

  -- A new process reconciles what was started and runs.
  new_worker-Settled :
      (now later : ℕ) (handled : List String) (db : Database)
      → Begun i db
      → Settled i (new_worker now later handled db).db
  unfolding new_worker perform
  new_worker-Settled now later handled db b =
      let orphaned = (reconcile_orphans now db).1 in
      Settled-perform i (OperationCall.cancel_all_call later) orphaned (
        not_running-Settled i orphaned (Begun-perform i (OperationCall.orphans_call now) db b)
          (λ r at. rests r at))
    where
      rests :
          (r : OperationRecord)
          → find (operation_at i) (reconcile_orphans now db).1.operation_records ≡ some r
          → is_running r.state ≡ false
      rests r at = elim (Bool-cases (is_running r.state)) [
        | inl runs ↦ absurd (orphans-Running now db i (r, at, runs))
        | inr still ↦ still
      ]

  opened_over :
      {n : ℕ} (now later : ℕ) (handled : List String) (db : Database)
      → OperationsInv db
      → Begun i db
      → Settling i n (new_worker now later handled db).owner (new_worker now later handled db).db
  unfolding new_worker perform
  opened_over now later handled db inv b =
      let orphaned = (reconcile_orphans now db).1 in
      record {
        tables =
            perform-OperationsInv (OperationCall.cancel_all_call later) orphaned
              (perform-OperationsInv (OperationCall.orphans_call now) db inv);
        begun =
            Begun-perform i (OperationCall.cancel_all_call later) orphaned
              (Begun-perform i (OperationCall.orphans_call now) db b);
        reached = inl (new_worker-Settled now later handled db b);
      }

  enqueue-Settling :
      {n : ℕ} (w : Worker) (x : Result (OperationRecord × Bool) × Database)
      → Settling i n w.owner x.1
      → Settling i n (enqueue w x).1.owner (enqueue w x).1.db
  unfolding enqueue
  enqueue-Settling w (err e, db) h = h
  enqueue-Settling w (ok (r, false), db) h = h
  enqueue-Settling w (ok (r, true), db) h = h

  -- Every event keeps it.
  lasting : (s : Settings) (n : ℕ) → Lasting s (λ handled queue o db. Settling i n o db)
  unfolding perform
  lasting s n = record {
    called = λ call db a b h. Settling-perform i call db h;
    answered = λ outcome o db h. record {
      tables = h.tables;
      begun = h.begun;
      reached = elim h.reached [ inl a ↦ inl a | inr due ↦ inr (handler_done-Due outcome o n due) ];
    };
    admitted =
        λ a j w h. enqueue-Settling w _ (Settling-perform i (OperationCall.admit_call a j) w.db h);
    stepped = λ now w h.
        let next = owner_step-Settling i now w s n h in
        record {
          tables = next.tables;
          begun = next.begun;
          reached = elim next.reached [ inl a ↦ inl a | inr due ↦ inr (Due-more _ n due) ];
        };
    opened = λ now later w h. restarted now later w h;
  }
    where
      restarted :
          (now later : ℕ) (w : Worker)
          → Settling i n w.owner w.db
          → Settling i n
              (new_worker now later w.handled w.db).owner
              (new_worker now later w.handled w.db).db
      restarted now later w h = opened_over now later w.handled w.db h.tables h.begun

  not-Due : (o : Owner) → ¬ (Due i o 0)
  not-Due waiting due = due
  not-Due (taken j) due = due
  not-Due (judged j r) due = due
  not-Due (expiring j) due = due
  not-Due (starting j) due = due
  not-Due (started j r) due = due
  not-Due (executing j r) due = due
  not-Due (running j r) due = due
  not-Due (settling j r outcome) due = due
  not-Due (reconciling j r error) due = due
  not-Due (finishing j raised) due = due
  not-Due gone due = due

  less_fits : (n : ℕ) {m : ℕ} → n ≤ suc m → less n ≤ m
  less_fits zero h = omega arith
  less_fits (suc n) h = omega (arith, h)

  -- Whatever events there are, the owner's steps among them bring it to its end.
  run_worker-Settling :
      (s : Settings) (events : List WorkerEvent) (n : ℕ) (w : Worker)
      → n ≤ owner_steps events
      → Settling i n w.owner w.db
      → Settled i (run_worker s events w).db
  unfolding run_worker worker_step
  run_worker-Settling s [] zero w enough h = elim h.reached [
    | inl ended ↦ ended
    | inr due ↦ absurd (not-Due w.owner due)
  ]
  run_worker-Settling s [] (suc n) w enough h = absurd (omega (arith, enough))
  run_worker-Settling s (WorkerEvent.owner_event now ∷ events) n w enough h =
      run_worker-Settling s events (less n) _ (less_fits n enough)
        (owner_step-Settling i now w s n h)
  run_worker-Settling s (WorkerEvent.submit_event q j now ∷ events) n w enough h =
      run_worker-Settling s events n _ enough
        (worker_step-On s _ (lasting s n) (WorkerEvent.submit_event q j now) w h)
  run_worker-Settling s (WorkerEvent.handler_event outcome ∷ events) n w enough h =
      run_worker-Settling s events n _ enough
        (worker_step-On s _ (lasting s n) (WorkerEvent.handler_event outcome) w h)
  run_worker-Settling s (WorkerEvent.client_event r now ∷ events) n w enough h =
      run_worker-Settling s events n _ enough
        (worker_step-On s _ (lasting s n) (WorkerEvent.client_event r now) w h)
  run_worker-Settling s (WorkerEvent.expire_queue_event now ∷ events) n w enough h =
      run_worker-Settling s events n _ enough
        (worker_step-On s _ (lasting s n) (WorkerEvent.expire_queue_event now) w h)
  run_worker-Settling s (WorkerEvent.watch_event j r now ∷ events) n w enough h =
      run_worker-Settling s events n _ enough
        (worker_step-On s _ (lasting s n) (WorkerEvent.watch_event j r now) w h)
  run_worker-Settling s (WorkerEvent.close_event now ∷ events) n w enough h =
      run_worker-Settling s events n _ enough
        (worker_step-On s _ (lasting s n) (WorkerEvent.close_event now) w h)
  run_worker-Settling s (WorkerEvent.deadline_event active alive ∷ events) n w enough h =
      run_worker-Settling s events n _ enough
        (worker_step-On s _ (lasting s n) (WorkerEvent.deadline_event active alive) w h)
  run_worker-Settling s (WorkerEvent.restart_event now later ∷ events) n w enough h =
      run_worker-Settling s events n _ enough
        (worker_step-On s _ (lasting s n) (WorkerEvent.restart_event now later) w h)

-- Once the handler of an operation has come back, the operation is brought to a terminal state: over
-- tables that keep the invariant of the store, where the owner runs an operation that was started
-- and the handler comes back with a result or an exception that `_execute` catches, the row is
-- in a terminal state once the owner has made two more steps, whatever steps of the other threads
-- come in between and after them, those of clients, the watchdog and a close with its deadline
-- included, and whatever processes end and start again.
pub run_worker-settles :
    (s : Settings) (w : Worker) (j : String) (r : OperationRecord) (outcome : Outcome)
    (events : List WorkerEvent)
    → OperationsInv w.db
    → Begun r.operation_id w.db
    → w.owner ≡ running j r
    → comes_back outcome ≡ true
    → 2 ≤ owner_steps events
    → Settled r.operation_id (run_worker s (WorkerEvent.handler_event outcome ∷ events) w).db
unfolding run_worker worker_step handler_done
run_worker-settles s w j r outcome events inv begun runs back enough =
    run_worker-Settling r.operation_id s events 2
      (record w { owner = handler_done outcome w.owner }) enough
      (record {
        tables = inv;
        begun = begun;
        reached =
            inr
              (subst (λ o. Due r.operation_id (handler_done outcome o) 2) (sym runs) (refl, back));
      })
