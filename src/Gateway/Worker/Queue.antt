-- ===== src/Gateway/Worker/Queue.antt =====
-- The bound of the queue.
use powerfactory_mcp.Prelude.{
  ℕ, ◌+◌, ◌≤◌, String, ◌≡◌, refl, Bool, true, false, Option, none, some, List, [], ◌∷◌, length,
  length-append, arith, Bool-cases, inl, inr,
}
use powerfactory_mcp.Errors.{Result, ok, err, guard, ◌>>◌, unknown_operation_handler}
use powerfactory_mcp.Domain.Operation.{OperationRecord}
use powerfactory_mcp.Domain.Inventory.Checks.{contains}
use powerfactory_mcp.Persistence.Database.{Database, checked, transaction, commit}
use powerfactory_mcp.Persistence.OperationStore.{
  admit, admit_at, asserted, admitted_under, get_by_idempotency_key,
}
use powerfactory_mcp.Table.{find}
use powerfactory_mcp.Persistence.OperationStore.Admission.{AdmitRequest}
use powerfactory_mcp.Gateway.Worker.State.{Settings, Worker, is_gone}
use powerfactory_mcp.Gateway.Worker.{
  OperationRequest, submit, submitted, enqueue, admissible, admit_request, watched, watch,
  is_overdue, given_up, close_begin, close_late, new_worker, WorkerEvent, worker_step, run_worker,
}
use powerfactory_mcp.Gateway.Worker.Closing.{Serves-owner_step}

-- The queue.
abbrev Bounded : Settings → Worker → Type 0
Bounded s w = length w.queue ≤ s.max_queue_size

enqueue-Bounded :
    (s : Settings) (w : Worker) (x : Result (OperationRecord × Bool) × Database)
    → length w.queue + 1 ≤ s.max_queue_size
    → Bounded s (enqueue w x).1
unfolding enqueue
enqueue-Bounded s w (err e, db) h = omega (arith, h)
enqueue-Bounded s w (ok (r, false), db) h = omega (arith, h)
enqueue-Bounded s w (ok (r, true), db) h =
    omega (arith, h, length-append w.queue (r.operation_id ∷ []))

-- A key that a row holds is not created again.
known-not_created :
    (q : AdmitRequest) (i : String) (db : Database) {x r : OperationRecord} {created : Bool}
    → find (admitted_under q.idempotency_key) db.operation_records ≡ some x
    → (admit q i db).0 ≡ ok (r, created)
    → created ≡ false
unfolding admit admit_at checked transaction commit asserted
known-not_created q i db {x} {r} {created} found h = ground (arith, found, h)

enqueue_known-Bounded :
    (s : Settings) (w : Worker) (x : Result (OperationRecord × Bool) × Database)
    → ((r : OperationRecord) (created : Bool) → x.0 ≡ ok (r, created) → created ≡ false)
    → Bounded s w
    → Bounded s (enqueue w x).1
unfolding enqueue
enqueue_known-Bounded s w (err e, db) old h = h
enqueue_known-Bounded s w (ok (r, false), db) old h = h
enqueue_known-Bounded s w (ok (r, true), db) old h = absurd (cc (old r true refl))

admissible-room :
    (s : Settings) (w : Worker) {u : Unit {0}}
    → admissible s w none ≡ ok u
    → length w.queue + 1 ≤ s.max_queue_size
unfolding admissible
admissible-room s w h = ground (arith, h)

submit-Bounded :
    (s : Settings) (q : OperationRequest) (i : String) (now : ℕ) (w : Worker)
    → Bounded s w
    → Bounded s (submit s q i now w).1
unfolding submit submitted get_by_idempotency_key
submit-Bounded s q i now w h = by_tests (contains s.handlers q.handler_name) _ refl _ refl
  where
    tests : Bool → Option OperationRecord → Result (Unit {0})
    tests known row = guard known (unknown_operation_handler q.handler_name) >> admissible s w row

    by_tests :
        (known : Bool) (row : Option OperationRecord)
        → find (admitted_under q.idempotency_key) w.db.operation_records ≡ row
        → (x : Result (Unit {0})) → tests known row ≡ x
        → Bounded s (submitted s q i now w x).1
    by_tests known row was (err e) e1 = h
    by_tests false row was (ok u) e1 = absurd (cc (e1))
    by_tests true none was (ok u) e1 = enqueue-Bounded s w _ (admissible-room s w e1)
    by_tests true (some x) was (ok u) e1 =
        enqueue_known-Bounded s w (admit (admit_request s q now) i w.db)
          (λ r created e. known-not_created (admit_request s q now) i w.db was e) h

watched-queue : (w : Worker) (x : Result OperationRecord × Database) → (watched w x).queue ≡ w.queue
unfolding watched
watched-queue w (ok r, db) = refl
watched-queue w (err e, db) = refl

given_up-queue :
    (w : Worker) (x : Result OperationRecord × Database) → (given_up w x).queue ≡ w.queue
unfolding given_up
given_up-queue w (ok r, db) = refl
given_up-queue w (err e, db) = refl

watch-queue :
    (i : String) (r : OperationRecord) (now : ℕ) (w : Worker) → (watch i r now w).queue ≡ w.queue
unfolding watch
watch-queue i r now w = elim (Bool-cases (is_overdue r now)) [
  | inl late ↦ rw late (watched-queue w _)
  | inr early ↦ rw early refl
]

close_late-queue :
    (o : Option String) (alive : Bool) (w : Worker) → (close_late o alive w).queue ≡ w.queue
unfolding close_late
close_late-queue none alive w = elim (Bool-cases (is_gone w.owner)) [
  | inl ended ↦ rw ended refl
  | inr runs ↦ rw runs refl
]
close_late-queue (some i) alive w = elim (Bool-cases (is_gone w.owner)) [
  | inl ended ↦ rw ended refl
  | inr runs ↦ rw runs (given_up-queue w _)
]

worker_step-Bounded :
    (s : Settings) (event : WorkerEvent) (w : Worker)
    → Bounded s w
    → Bounded s (worker_step s event w)
unfolding worker_step close_begin new_worker
worker_step-Bounded s (WorkerEvent.submit_event q i now) w h = submit-Bounded s q i now w h
worker_step-Bounded s (WorkerEvent.owner_event now) w h =
    omega (arith, h, (Serves-owner_step s now w.owner w).shorter)
worker_step-Bounded s (WorkerEvent.handler_event outcome) w h = h
worker_step-Bounded s (WorkerEvent.client_event r now) w h = h
worker_step-Bounded s (WorkerEvent.expire_queue_event now) w h = h
worker_step-Bounded s (WorkerEvent.watch_event i r now) w h = rw (watch-queue i r now w) h
worker_step-Bounded s (WorkerEvent.close_event now) w h = h
worker_step-Bounded s (WorkerEvent.deadline_event active alive) w h =
    rw (close_late-queue active alive w) h
worker_step-Bounded s (WorkerEvent.restart_event now later) w h = omega arith

-- The queue never has more operations than its size, whatever the order of the events, when it has
-- not at first: a request is queued only when there was room before it was admitted.
pub run_worker-queue_bounded :
    (s : Settings) (events : List WorkerEvent) (w : Worker)
    → length w.queue ≤ s.max_queue_size
    → length (run_worker s events w).queue ≤ s.max_queue_size
unfolding run_worker
run_worker-queue_bounded s [] w h = h
run_worker-queue_bounded s (event ∷ events) w h =
    run_worker-queue_bounded s events (worker_step s event w) (worker_step-Bounded s event w h)
