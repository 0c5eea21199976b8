-- ===== src/Gateway/Worker/Closing.antt =====
-- A worker that is stopping or quarantined stays so, and admits nothing new.
use powerfactory_mcp.Prelude.{
  ℕ, ◌≤◌, String, ◌≡◌, refl, sym, subst, ◌∙◌, ◌||◌, ◌&&◌, not, Bool, true, false, none, some, List,
  [], ◌∷◌, length, arith, Bool-cases, inl, inr, is_none, if◌then◌else◌,
}
use powerfactory_mcp.Errors.{Error, Result, ok, err, worker_closed, engine_quarantined}
use powerfactory_mcp.Domain.Operation.{OperationRecord}
use powerfactory_mcp.Domain.Inventory.Checks.{contains}
use powerfactory_mcp.Persistence.Database.{Database}
use powerfactory_mcp.Persistence.OperationStore.{get_by_idempotency_key}
use powerfactory_mcp.Gateway.Worker.State.{
  Settings, Worker, Owner, Outcome, waiting, taken, judged, expiring, starting, started, executing,
  running, settling, reconciling, finishing, gone, known_failure, uncertain_failure, returned,
  escaped, is_gone,
}
use powerfactory_mcp.Gateway.Worker.OwnerThread.{can_call, poll_queue, settle_outcome, owner_step}
use powerfactory_mcp.Gateway.Worker.{
  OperationRequest, submit, submitted, enqueue, admissible, watched, watch, is_overdue, given_up,
  close_begin, close_late, WorkerEvent, worker_step, run_worker,
}

-- What the owner's steps do to the queue and the flags: the queue only gets shorter.
pub record Serves (w w' : Worker) : Type 0 where
  pub shorter : length w'.queue ≤ length w.queue
  pub same_quarantined : w'.quarantined ≡ w.quarantined
  pub same_stopping : w'.stopping ≡ w.stopping

serves :
    (w w' : Worker)
    → length w'.queue ≤ length w.queue
    → w'.quarantined ≡ w.quarantined
    → w'.stopping ≡ w.stopping
    → Serves w w'
serves w w' q a b = record { shorter = q; same_quarantined = a; same_stopping = b }

Serves-poll_queue :
    (w : Worker) (queue : List String) → w.queue ≡ queue → Serves w (poll_queue w queue)
unfolding poll_queue
Serves-poll_queue w [] e = elim (Bool-cases (w.stopping && is_none w.active_operation_id)) [
  | inl ends ↦ rw ends (serves w (record w { owner = gone }) (omega arith) refl refl)
  | inr stays ↦ rw stays (serves w w (omega arith) refl refl)
]
Serves-poll_queue w (i ∷ rest) e =
    serves w _ (subst (λ q. length rest ≤ length q) (sym e) (omega arith)) refl refl

Serves-settle_outcome :
    (i : String) (r : OperationRecord) (outcome : Outcome) (now : ℕ) (w : Worker)
    → Serves w (settle_outcome i r outcome now w)
unfolding settle_outcome
Serves-settle_outcome i r (known_failure error) now w = serves w _ (omega arith) refl refl
Serves-settle_outcome i r (uncertain_failure error) now w = serves w _ (omega arith) refl refl
Serves-settle_outcome i r (returned (err e) error) now w = serves w _ (omega arith) refl refl
Serves-settle_outcome i r (returned (ok text) error) now w = serves w _ (omega arith) refl refl
Serves-settle_outcome i r escaped now w = serves w _ (omega arith) refl refl

pub Serves-owner_step :
    (s : Settings) (now : ℕ) (o : Owner) (w : Worker) → Serves w (owner_step s now o w)
unfolding owner_step
Serves-owner_step s now waiting w = Serves-poll_queue w w.queue refl
Serves-owner_step s now (taken i) w = serves w _ (omega arith) refl refl
Serves-owner_step s now (judged i r) w = serves w _ (omega arith) refl refl
Serves-owner_step s now (expiring i) w = serves w _ (omega arith) refl refl
Serves-owner_step s now (starting i) w = serves w _ (omega arith) refl refl
Serves-owner_step s now (started i r) w = serves w _ (omega arith) refl refl
Serves-owner_step s now (executing i r) w = elim (Bool-cases (can_call s r)) [
  | inl known ↦
      rw known (
        serves w (record w { owner = running i r; handled = i ∷ w.handled }) (omega arith) refl
          refl)
  | inr unknown ↦
      rw unknown (serves w (record w { owner = finishing i true }) (omega arith) refl refl)
]
Serves-owner_step s now (running i r) w = serves w w (omega arith) refl refl
Serves-owner_step s now (settling i r outcome) w = Serves-settle_outcome i r outcome now w
Serves-owner_step s now (reconciling i r error) w = serves w _ (omega arith) refl refl
Serves-owner_step s now (finishing i raised) w = serves w _ (omega arith) refl refl
Serves-owner_step s now gone w = serves w w (omega arith) refl refl

-- What every event but a new process does to the flags: they are never taken back.
record Closes (w w' : Worker) : Type 0 where
  pub still_quarantined : w.quarantined ≡ true → w'.quarantined ≡ true
  pub still_stopping : w.stopping ≡ true → w'.stopping ≡ true

Closes-same :
    {w w' : Worker} → w'.quarantined ≡ w.quarantined → w'.stopping ≡ w.stopping → Closes w w'
Closes-same a b = record { still_quarantined = λ h. a ∙ h; still_stopping = λ h. b ∙ h }

Closes-quarantined :
    {w w' : Worker} → w'.quarantined ≡ true → w'.stopping ≡ w.stopping → Closes w w'
Closes-quarantined a b = record { still_quarantined = λ h. a; still_stopping = λ h. b ∙ h }

Closes-or :
    (w : Worker) (alive : Bool) → Closes w (record w { quarantined = alive || w.quarantined })
Closes-or w true = Closes-quarantined refl refl
Closes-or w false = Closes-same refl refl

Closes-watched : (w : Worker) (x : Result OperationRecord × Database) → Closes w (watched w x)
unfolding watched
Closes-watched w (ok r, db) = Closes-quarantined refl refl
Closes-watched w (err e, db) = Closes-same refl refl

Closes-given_up : (w : Worker) (x : Result OperationRecord × Database) → Closes w (given_up w x)
unfolding given_up
Closes-given_up w (ok r, db) = Closes-quarantined refl refl
Closes-given_up w (err e, db) = record {
  still_quarantined = λ h. ground (arith, h);
  still_stopping = λ h. h;
}

Closes-enqueue :
    (w : Worker) (x : Result (OperationRecord × Bool) × Database) → Closes w (enqueue w x).1
unfolding enqueue
Closes-enqueue w (err e, db) = Closes-same refl refl
Closes-enqueue w (ok (r, false), db) = Closes-same refl refl
Closes-enqueue w (ok (r, true), db) = Closes-same refl refl

Closes-submitted :
    (s : Settings) (q : OperationRequest) (i : String) (now : ℕ) (w : Worker)
    (x : Result (Unit {0}))
    → Closes w (submitted s q i now w x).1
unfolding submitted
Closes-submitted s q i now w (err e) = Closes-same refl refl
Closes-submitted s q i now w (ok passed) = Closes-enqueue w _

abbrev pub is_restart : WorkerEvent → Bool
is_restart (WorkerEvent.restart_event now later) = true
is_restart _ = false

Closes-worker_step :
    (s : Settings) (event : WorkerEvent) (w : Worker)
    → is_restart event ≡ false
    → Closes w (worker_step s event w)
unfolding worker_step submit watch close_begin close_late
Closes-worker_step s (WorkerEvent.submit_event q i now) w h = Closes-submitted s q i now w _
Closes-worker_step s (WorkerEvent.owner_event now) w h =
    let by = Serves-owner_step s now w.owner w in Closes-same by.same_quarantined by.same_stopping
Closes-worker_step s (WorkerEvent.handler_event outcome) w h = Closes-same refl refl
Closes-worker_step s (WorkerEvent.client_event r now) w h = Closes-same refl refl
Closes-worker_step s (WorkerEvent.expire_queue_event now) w h = Closes-same refl refl
Closes-worker_step s (WorkerEvent.watch_event i r now) w h = elim (Bool-cases (is_overdue r now)) [
  | inl late ↦ rw late (Closes-watched w _)
  | inr early ↦ rw early (Closes-same {w = w} {w' = w} refl refl)
]
Closes-worker_step s (WorkerEvent.close_event now) w h = record {
  still_quarantined = λ a. a;
  still_stopping = λ a. refl;
}
Closes-worker_step s (WorkerEvent.deadline_event none alive) w h =
    elim (Bool-cases (is_gone w.owner)) [
      | inl ended ↦ rw ended (Closes-or w alive)
      | inr runs ↦ rw runs (record { still_quarantined = λ a. refl; still_stopping = λ a. a })
    ]
Closes-worker_step s (WorkerEvent.deadline_event (some i) alive) w h =
    elim (Bool-cases (is_gone w.owner)) [
      | inl ended ↦ rw ended (Closes-or w alive)
      | inr runs ↦ rw runs (Closes-given_up w _)
    ]
Closes-worker_step s (WorkerEvent.restart_event now later) w h = absurd (cc (h))

unfoldable pub all_in_process : List WorkerEvent → Bool
all_in_process [] = true
all_in_process (event ∷ events) = not (is_restart event) && all_in_process events

Closes-run_worker :
    (s : Settings) (events : List WorkerEvent) (w : Worker)
    → all_in_process events ≡ true
    → Closes w (run_worker s events w)
unfolding run_worker all_in_process
Closes-run_worker s [] w h = Closes-same refl refl
Closes-run_worker s (event ∷ events) w h =
    let first = Closes-worker_step s event w (ground (arith, h)) in
    let rest = Closes-run_worker s events (worker_step s event w) (ground (arith, h)) in
    record {
      still_quarantined = λ a. rest.still_quarantined (first.still_quarantined a);
      still_stopping = λ a. rest.still_stopping (first.still_stopping a);
    }

-- What a closed or quarantined worker raises.
abbrev pub refusal : Worker → Error
refusal w = if w.stopping then worker_closed else engine_quarantined

refused :
    (s : Settings) (q : OperationRequest) (i : String) (now : ℕ) (w : Worker)
    → contains s.handlers q.handler_name ≡ true
    → get_by_idempotency_key q.idempotency_key w.db ≡ none
    → (w.stopping || w.quarantined) ≡ true
    → submit s q i now w ≡ (err (refusal w), w)
unfolding submit submitted admissible
refused s q i now w known fresh closed = ground (arith, known, fresh, closed)

-- Once a worker is stopping or quarantined, it admits nothing new for the rest of its process: after
-- any events but a new process, a request for a known handler under a key that no row holds raises
-- the error of a stopping worker, or else that of a quarantined one, and changes nothing.
pub closed-refuses :
    (s : Settings) (w : Worker) (events : List WorkerEvent) (q : OperationRequest) (i : String)
    (now : ℕ)
    → (w.stopping || w.quarantined) ≡ true
    → all_in_process events ≡ true
    → contains s.handlers q.handler_name ≡ true
    → get_by_idempotency_key q.idempotency_key (run_worker s events w).db ≡ none
    → submit s q i now (run_worker s events w)
      ≡ (err (refusal (run_worker s events w)), run_worker s events w)
closed-refuses s w events q i now closed within known fresh =
    refused s q i now (run_worker s events w) known fresh (elim (Bool-cases w.stopping) [
      | inl stops ↦ ground (arith, by.still_stopping stops)
      | inr open_ ↦ ground (arith, by.still_quarantined (ground (arith, closed, open_)))
    ])
  where
    by : Closes w (run_worker s events w)
    by = Closes-run_worker s events w within
