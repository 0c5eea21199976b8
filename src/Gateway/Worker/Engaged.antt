-- ===== src/Gateway/Worker/Engaged.antt =====
-- The operation that the owner is engaged in, along its steps: nothing else is running.
use powerfactory_mcp.Prelude.{
  ℕ, String, ◌≡◌, refl, sym, subst, ◌∙◌, ◌&&◌, Bool, true, false, Option, none, some, List, [], ◌∷◌,
  arith, Bool-cases, inl, inr, eq_iff, is_none, leb,
}
use powerfactory_mcp.Errors.{Error, Result, ok, err}
use powerfactory_mcp.Table.{find, find-fits}
use powerfactory_mcp.Domain.Operation.{OperationState, OperationRecord}
use powerfactory_mcp.Persistence.Database.{Database, transaction, commit, transaction-eq-ok}
use powerfactory_mcp.Persistence.OperationStore.{
  operation_at, asserted, start, get, fail, is_queued, is_running, set_columns, no_updates,
  guarded_update, transition_operation, complete,
}
use powerfactory_mcp.Persistence.OperationStore.Moves.{guarded_update-eq-ok}
use powerfactory_mcp.Persistence.OperationStore.History.{OperationCall, perform}
use powerfactory_mcp.Persistence.OperationStore.History.Rows.{OperationsInv}
use powerfactory_mcp.Persistence.OperationStore.History.Once.{asserted-eq-ok}
use powerfactory_mcp.Gateway.Worker.State.{
  Settings, Worker, Owner, Outcome, waiting, taken, judged, expiring, starting, started, executing,
  running, settling, reconciling, finishing, gone, known_failure, uncertain_failure, returned,
  escaped, is_transition_error,
}
use powerfactory_mcp.Gateway.Worker.OwnerThread.{
  can_call, poll_queue, judge, after_call, begin, failed_or, settle_outcome, owner_step,
}
use powerfactory_mcp.Gateway.Worker.Taking.{perform-OperationsInv}
use powerfactory_mcp.Gateway.Worker.Timed.{is_start}
use powerfactory_mcp.Gateway.Worker.Running.{
  Running, perform-ran_before, start-ran_before, complete-leaves, reconciliation-leaves,
  fail-leaves,
}

-- The owner has started no operation that it has not settled.
abbrev is_idle : Owner → Bool
is_idle waiting = true
is_idle (taken i) = true
is_idle (judged i r) = true
is_idle (expiring i) = true
is_idle (starting i) = true
is_idle (finishing i false) = true
is_idle _ = false

-- The operation that it has started and not yet settled.
abbrev engaged : Owner → Option String
engaged (started i r) = some r.operation_id
engaged (executing i r) = some r.operation_id
engaged (running i r) = some r.operation_id
engaged (settling i r outcome) = some r.operation_id
engaged (reconciling i r error) = some r.operation_id
engaged _ = none

-- Only `current` may be running: nothing is while the owner is idle, and `current` is the operation
-- that it is engaged in.
pub record Serial (o : Owner) (db : Database) : Type 0 where
  pub tables : OperationsInv db
  pub current : String
  pub only : (i : String) → Running i db → (i ≡ current) × (is_idle o ≡ false)
  pub named : (i : String) → engaged o ≡ some i → i ≡ current

pub Serial-perform :
    {o : Owner} (call : OperationCall) (db : Database)
    → is_start call ≡ false
    → Serial o db
    → Serial o (perform call db)
Serial-perform call db other s = record {
  tables = perform-OperationsInv call db s.tables;
  current = s.current;
  only = λ i h. s.only i (perform-ran_before call db s.tables other i h);
  named = s.named;
}

-- The owner goes on, and claims no more.
pub Serial-go :
    (o o' : Owner) {db : Database}
    → (is_idle o ≡ false → is_idle o' ≡ false)
    → ((i : String) → engaged o' ≡ some i → engaged o ≡ some i)
    → Serial o db
    → Serial o' db
Serial-go o o' rests same s = record {
  tables = s.tables;
  current = s.current;
  only = λ i h. ((s.only i h).0, rests (s.only i h).1);
  named = λ i h. s.named i (same i h);
}

-- An idle owner may go anywhere that it is not engaged.
Serial-idle :
    (o o' : Owner) {db : Database}
    → is_idle o ≡ true
    → engaged o' ≡ none
    → Serial o db
    → Serial o' db
Serial-idle o o' idle free s =
    Serial-go o o' (λ busy. absurd (cc (idle, busy))) (λ i h. absurd (cc (free, h))) s

-- The operation that the owner is engaged in is not running any more.
Serial-done :
    (o o' : Owner) (i : String) {db : Database}
    → engaged o ≡ some i
    → engaged o' ≡ none
    → ((r : OperationRecord)
        → find (operation_at i) db.operation_records ≡ some r
        → is_running r.state ≡ false)
    → Serial o db
    → Serial o' db
Serial-done o o' i {db} mine free out s = record {
  tables = s.tables;
  current = s.current;
  only = λ j h. absurd (rests j h);
  named = λ j h. absurd (cc (free, h));
}
  where
    rests : (j : String) → ¬ (Running j db)
    rests j (r, at, runs) =
        let same : j ≡ i = (s.only j (r, at, runs)).0 ∙ sym (s.named i mine) in
        cc (runs, out r (subst (λ x. find (operation_at x) db.operation_records ≡ some r) same at))

abbrev pub SerialWorker : Worker → Type 0
SerialWorker w = Serial w.owner w.db

after_call-free {ℓ} : {A : Type ℓ} (i : String) (x : Result A) → engaged (after_call i x) ≡ none
unfolding after_call
after_call-free i (err e) = refl
after_call-free i (ok a) = refl

-- The owner's steps.
begun-id :
    (i : String) (now : ℕ) (db : Database) {r : OperationRecord}
    → (start i now db).0 ≡ ok r
    → r.operation_id ≡ i
unfolding start transition_operation
begun-id i now db {r} h =
    let update_in = guarded_update i is_queued set (some OperationState.in_flight) in
    let (done, _) = asserted-eq-ok (transaction update_in db) h in
    let (_, read, _) =
      guarded_update-eq-ok i is_queued set (some OperationState.in_flight) db
        (transaction-eq-ok update_in db done) in
    (eq_iff r.operation_id i).0 (find-fits (operation_at i) _ (sym read))
  where
    set : OperationRecord → OperationRecord
    set = set_columns OperationState.in_flight (record no_updates { started_at_ns = some now })

-- A transition error of `start` is raised before anything is written.
refused-start :
    (i : String) (now : ℕ) (db : Database) {e : Error}
    → (start i now db).0 ≡ err e
    → is_transition_error e ≡ true
    → (start i now db).1 ≡ db
unfolding start transition_operation asserted transaction commit guarded_update
refused-start i now db h known = ground (arith, h, known)

Serial-begin :
    (i : String) (now : ℕ) (db : Database) (x : Result OperationRecord)
    → (start i now db).0 ≡ x
    → Serial (starting i) db
    → Serial (begin i x) (start i now db).1
unfolding begin perform
Serial-begin i now db x e s = by_result x e
  where
    mine : (j : String) → Running j (start i now db).1 → j ≡ i
    mine j h = elim (start-ran_before i now db j h) [
      | inl before ↦ absurd (cc ((s.only j before).1))
      | inr same ↦ same
    ]

    tables : OperationsInv (start i now db).1
    tables = perform-OperationsInv (OperationCall.start_call i now) db s.tables

    by_result :
        (y : Result OperationRecord)
        → (start i now db).0 ≡ y
        → Serial (begin i y) (start i now db).1
    by_result (ok r) h = record {
      tables = tables;
      current = i;
      only = λ j a. (mine j a, refl);
      named = λ j a. let known : r.operation_id ≡ i = begun-id i now db h in cc (a, known);
    }
    by_result (err y) h = elim (Bool-cases (is_transition_error y)) [
      | inl known ↦ rw known (record {
        tables = tables;
        current = i;
        only = λ j a.
            let before : Running j db =
              subst (λ d. Running j d) (refused-start i now db h known) a in
            absurd (cc ((s.only j before).1));
        named = λ j a. absurd (cc (a));
      })
      | inr other ↦ rw other (record {
        tables = tables;
        current = i;
        only = λ j a. (mine j a, refl);
        named = λ j a. absurd (cc (a));
      })
    ]

Serial-failed :
    (i : String) (r : OperationRecord) (error : String) (now : ℕ) (db : Database)
    (x : Result OperationRecord)
    → (fail r.operation_id (ok error) now db).0 ≡ x
    → Serial (settling i r (known_failure error)) db
    → Serial (failed_or i r error x) (fail r.operation_id (ok error) now db).1
unfolding failed_or perform
Serial-failed i r error now db (ok r') h s =
    Serial-done (settling i r (known_failure error)) (finishing i false) r.operation_id refl refl
      (λ x at. fail-leaves r.operation_id error now db s.tables x h at)
      (Serial-perform (OperationCall.fail_call r.operation_id (ok error) now) db refl s)
Serial-failed i r error now db (err e) h s =
    let next = Serial-perform (OperationCall.fail_call r.operation_id (ok error) now) db refl s in
    elim (Bool-cases (is_transition_error e)) [
      | inl known ↦ rw known (
          Serial-go (settling i r (known_failure error)) (reconciling i r error) (λ a. a) (λ j a. a)
            next)
      | inr other ↦ rw other (
          Serial-go (settling i r (known_failure error)) (finishing i true) (λ a. refl)
            (λ j a. absurd (cc (a))) next)
    ]

Serial-settle_outcome :
    (i : String) (r : OperationRecord) (outcome : Outcome) (now : ℕ) (w : Worker)
    → Serial (settling i r outcome) w.db
    → SerialWorker (settle_outcome i r outcome now w)
unfolding settle_outcome perform
Serial-settle_outcome i r (known_failure error) now w s = Serial-failed i r error now w.db _ refl s
Serial-settle_outcome i r (uncertain_failure error) now w s =
    Serial-go (settling i r (uncertain_failure error)) (reconciling i r error) (λ a. a) (λ j a. a) s
Serial-settle_outcome i r (returned (err e) error) now w s =
    Serial-go (settling i r (returned (err e) error)) (reconciling i r error) (λ a. a) (λ j a. a) s
Serial-settle_outcome i r (returned (ok text) error) now w s =
    Serial-done (settling i r (returned (ok text) error))
      (after_call i (complete r.operation_id (ok text) now w.db).0) r.operation_id refl
      (after_call-free i _) (λ x at. complete-leaves r.operation_id text now w.db s.tables x at)
      (Serial-perform (OperationCall.complete_call r.operation_id (ok text) now) w.db refl s)
Serial-settle_outcome i r escaped now w s =
    Serial-go (settling i r escaped) (finishing i true) (λ h. refl) (λ j h. absurd (cc (h))) s

judge-free : (i : String) (x : Result OperationRecord) → engaged (judge i x) ≡ none
unfolding judge
judge-free i (err e) = refl
judge-free i (ok r) = elim (Bool-cases (is_queued r.state)) [
  | inl fresh ↦ rw fresh refl
  | inr late ↦ rw late refl
]

Serial-poll_queue :
    (w : Worker) (queue : List String)
    → Serial waiting w.db
    → SerialWorker w
    → SerialWorker (poll_queue w queue)
unfolding poll_queue
Serial-poll_queue w [] s whole = elim (Bool-cases (w.stopping && is_none w.active_operation_id)) [
  | inl ends ↦ rw ends (Serial-idle waiting gone refl refl s)
  | inr stays ↦ rw stays whole
]
Serial-poll_queue w (i ∷ rest) s whole = Serial-idle waiting (taken i) refl refl s

pub Serial-owner_step :
    (s : Settings) (now : ℕ) (o : Owner) (w : Worker)
    → Serial o w.db
    → SerialWorker w
    → SerialWorker (owner_step s now o w)
unfolding owner_step perform
Serial-owner_step s now waiting w a whole = Serial-poll_queue w w.queue a whole
Serial-owner_step s now (taken i) w a whole =
    Serial-idle (taken i) (judge i (get i w.db)) refl (judge-free i _) a
Serial-owner_step s now (judged i r) w a whole =
    elim (Bool-cases (leb r.queue_deadline_at_ns now)) [
      | inl late ↦ rw late (Serial-idle (judged i r) (expiring i) refl refl a)
      | inr early ↦ rw early (Serial-idle (judged i r) (starting i) refl refl a)
    ]
Serial-owner_step s now (expiring i) w a whole =
    Serial-idle (expiring i) _ refl (after_call-free i _)
      (Serial-perform (OperationCall.cancel_call i now) w.db refl a)
Serial-owner_step s now (starting i) w a whole = Serial-begin i now w.db _ refl a
Serial-owner_step s now (started i r) w a whole =
    Serial-go (started i r) (executing i r) (λ h. h) (λ j h. h) a
Serial-owner_step s now (executing i r) w a whole = elim (Bool-cases (can_call s r)) [
  | inl known ↦ rw known (Serial-go (executing i r) (running i r) (λ h. h) (λ j h. h) a)
  | inr unknown ↦
      rw unknown
        (Serial-go (executing i r) (finishing i true) (λ h. refl) (λ j h. absurd (cc (h))) a)
]
Serial-owner_step s now (running i r) w a whole = whole
Serial-owner_step s now (settling i r outcome) w a whole = Serial-settle_outcome i r outcome now w a
Serial-owner_step s now (reconciling i r error) w a whole =
    Serial-done (reconciling i r error) _ r.operation_id refl (after_call-free i _)
      (λ x at. reconciliation-leaves r.operation_id error now w.db a.tables x at)
      (Serial-perform (OperationCall.reconciliation_call r.operation_id (ok error) now) w.db refl a)
Serial-owner_step s now (finishing i true) w a whole =
    Serial-go (finishing i true) gone (λ h. refl) (λ j h. absurd (cc (h))) a
Serial-owner_step s now (finishing i false) w a whole =
    Serial-idle (finishing i false) waiting refl refl a
Serial-owner_step s now gone w a whole = whole
