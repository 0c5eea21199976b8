-- ===== src/Gateway/Worker/Events.antt =====
-- A property that the owner, `submit` and a new process keep, and the calls of the other threads,
-- holds after every schedule.
use powerfactory_mcp.Prelude.{
  ℕ, String, false, ◌≡◌, refl, none, some, List, [], ◌∷◌, Bool-cases, inl, inr,
}
use powerfactory_mcp.Errors.{Result, ok, err}
use powerfactory_mcp.Domain.Operation.{OperationRecord}
use powerfactory_mcp.Persistence.Database.{Database}
use powerfactory_mcp.Persistence.OperationStore.{admit}
use powerfactory_mcp.Persistence.OperationStore.Admission.{AdmitRequest}
use powerfactory_mcp.Persistence.OperationStore.History.{OperationCall, perform}
use powerfactory_mcp.Gateway.Worker.State.{Settings, Worker, Owner, Outcome, is_gone}
use powerfactory_mcp.Gateway.Worker.OwnerThread.{owner_step, handler_done}
use powerfactory_mcp.Gateway.Worker.Clients.{client_turn-either}
use powerfactory_mcp.Gateway.Worker.Calls.{is_admission}
use powerfactory_mcp.Gateway.Worker.Timed.{is_start}
use powerfactory_mcp.Gateway.Worker.{
  OperationRequest, submitted, submit, enqueue, admit_request, watched, watch, is_overdue, given_up,
  close_begin, close_late, new_worker, WorkerEvent, worker_step, run_worker,
}

-- A property of the handled operations, the queue, the owner and the tables.
abbrev pub View : Type 1
View = List String → List String → Owner → Database → Type 0

abbrev pub On : View → Worker → Type 0
On P w = P w.handled w.queue w.owner w.db

-- What keeps a property.
pub record Lasting (s : Settings) (P : View) : Type 0 where
  pub called :
      {handled queue : List String} {o : Owner} (call : OperationCall) (db : Database)
      → is_start call ≡ false
      → is_admission call ≡ false
      → P handled queue o db
      → P handled queue o (perform call db)
  pub answered :
      {handled queue : List String} (outcome : Outcome) (o : Owner) (db : Database)
      → P handled queue o db
      → P handled queue (handler_done outcome o) db
  pub admitted :
      (a : AdmitRequest) (i : String) (w : Worker) → On P w → On P (enqueue w (admit a i w.db)).1
  pub stepped : (now : ℕ) (w : Worker) → On P w → On P (owner_step s now w.owner w)
  pub opened : (now later : ℕ) (w : Worker) → On P w → On P (new_worker now later w.handled w.db)

module _ (s : Settings) (P : View) (keeps : Lasting s P) where
  watched-On :
      (w : Worker) (x : Result OperationRecord × Database)
      → P w.handled w.queue w.owner x.1
      → On P (watched w x)
  unfolding watched
  watched-On w (ok r, db) h = h
  watched-On w (err e, db) h = h

  given_up-On :
      (w : Worker) (x : Result OperationRecord × Database)
      → P w.handled w.queue w.owner x.1
      → On P (given_up w x)
  unfolding given_up
  given_up-On w (ok r, db) h = h
  given_up-On w (err e, db) h = h

  submitted-On :
      (q : OperationRequest) (i : String) (now : ℕ) (w : Worker) (x : Result (Unit {0}))
      → On P w
      → On P (submitted s q i now w x).1
  unfolding submitted
  submitted-On q i now w (err e) h = h
  submitted-On q i now w (ok passed) h = keeps.admitted (admit_request s q now) i w h

  pub worker_step-On : (event : WorkerEvent) (w : Worker) → On P w → On P (worker_step s event w)
  unfolding worker_step submit watch close_begin close_late perform
  worker_step-On (WorkerEvent.submit_event q i now) w h = submitted-On q i now w _ h
  worker_step-On (WorkerEvent.owner_event now) w h = keeps.stepped now w h
  worker_step-On (WorkerEvent.handler_event outcome) w h = keeps.answered outcome w.owner w.db h
  worker_step-On (WorkerEvent.client_event r now) w h =
      client_turn-either (P w.handled w.queue w.owner) r now w.db h
        (keeps.called (OperationCall.time_out_call r.operation_id) w.db refl refl h)
  worker_step-On (WorkerEvent.expire_queue_event now) w h =
      keeps.called (OperationCall.cancel_expired_call now) w.db refl refl h
  worker_step-On (WorkerEvent.watch_event i r now) w h = elim (Bool-cases (is_overdue r now)) [
    | inl late ↦
        rw late (watched-On w _ (keeps.called (OperationCall.unresponsive_call i) w.db refl refl h))
    | inr early ↦ rw early h
  ]
  worker_step-On (WorkerEvent.close_event now) w h =
      keeps.called (OperationCall.cancel_all_call now) w.db refl refl h
  worker_step-On (WorkerEvent.deadline_event none alive) w h = elim (Bool-cases (is_gone w.owner)) [
    | inl ended ↦ rw ended h
    | inr runs ↦ rw runs h
  ]
  worker_step-On (WorkerEvent.deadline_event (some i) alive) w h =
      elim (Bool-cases (is_gone w.owner)) [
        | inl ended ↦ rw ended h
        | inr runs ↦
            rw runs
              (given_up-On w _ (keeps.called (OperationCall.unresponsive_call i) w.db refl refl h))
      ]
  worker_step-On (WorkerEvent.restart_event now later) w h = keeps.opened now later w h

  pub run_worker-On :
      (events : List WorkerEvent) (w : Worker) → On P w → On P (run_worker s events w)
  unfolding run_worker
  run_worker-On [] w h = h
  run_worker-On (event ∷ events) w h =
      run_worker-On events (worker_step s event w) (worker_step-On event w h)
