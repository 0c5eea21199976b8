-- ===== src/Gateway/Worker/Running.antt =====
-- What one call of the store leaves running, seen from the row that is there after it.
use powerfactory_mcp.Prelude.{
  ℕ, ◌≤◌, String, ◌≡◌, refl, sym, ap, subst, ◌∙◌, ◌⊎◌, true, false, not, none, some, is_some, [],
  ◌∷◌, arith, Bool-cases, Option-cases, inl, inr, eq_iff, if◌then◌else◌, nat_eq,
}
use powerfactory_mcp.Errors.{ok}
use powerfactory_mcp.Table.{find, count, update, find-update, find-fits}
use powerfactory_mcp.Table.Counts.{find-of_count, find_unique}
use powerfactory_mcp.Domain.Operation.{OperationState, OperationRecord, is_terminal}
use powerfactory_mcp.Persistence.Database.{
  Database, transaction, commit, checked, transaction-eq-ok,
}
use powerfactory_mcp.Persistence.OperationStore.{
  operation_at, admit, start, asserted, is_queued, is_running, is_answerable, hits, guarded_update,
  transition_operation, set_columns, no_updates, complete, fail, require_reconciliation,
  set_completed,
}
use powerfactory_mcp.Persistence.OperationStore.States.{
  stage, stage_bounds, is_unstarted, running_facts,
}
use powerfactory_mcp.Persistence.OperationStore.Stages.{completed_facts}
use powerfactory_mcp.Persistence.OperationStore.Moves.{guarded_update-eq-ok}
use powerfactory_mcp.Persistence.OperationStore.History.{OperationCall, perform, perform_all}
use powerfactory_mcp.Persistence.OperationStore.History.Rows.{
  OperationsInv, perform_all-Later, perform_all-OperationsInv,
}
use powerfactory_mcp.Persistence.OperationStore.History.Once.{asserted-eq-ok}
use powerfactory_mcp.Gateway.Worker.Calls.{perform-none, guarded-leaves, admit-rows, is_admission}
use powerfactory_mcp.Persistence.OperationStore.Admission.{AdmitRequest}
use powerfactory_mcp.Gateway.Worker.Timed.{is_start, perform-Timed}

-- A state between the first start and the end is a running one.
middle_stage : (s : OperationState) → is_unstarted s ≡ false → stage s ≤ 3 → is_running s ≡ true
middle_stage OperationState.queued a b = absurd (cc (a))
middle_stage OperationState.cancelled_before_start a b = absurd (cc (a))
middle_stage OperationState.in_flight a b = refl
middle_stage OperationState.client_timed_out a b = refl
middle_stage OperationState.completed a b = absurd (omega (arith, b))
middle_stage OperationState.completed_after_client_timeout a b = absurd (omega (arith, b))
middle_stage OperationState.failed a b = absurd (omega (arith, b))
middle_stage OperationState.engine_unresponsive a b = refl
middle_stage OperationState.reconciliation_required a b = absurd (omega (arith, b))

abbrev pub Running : String → Database → Type 0
Running i db =
    (y : OperationRecord) × (find (operation_at i) db.operation_records ≡ some y)
    × (is_running y.state ≡ true)

kept-Running :
    (call : OperationCall) (db : Database)
    → OperationsInv db
    → is_start call ≡ false
    → is_admission call ≡ false
    → (i : String) → Running i (perform call db)
    → Running i db
unfolding perform_all
kept-Running call db inv a b i (r, at, runs) =
    elim (Option-cases (find (operation_at i) db.operation_records)) [
      | inl none_there ↦ absurd (cc (at, perform-none i db none_there call b))
      | inr (y, there) ↦
          let (r', found, later) = perform_all-Later (call ∷ []) db i y there in
          let same : r' ≡ r = ground (arith, found, at) in
          let at_most = subst (λ x. stage y.state ≤ stage x.state) same later.climbs in
          let after = (perform_all-OperationsInv (call ∷ []) db inv).rows i r at in
          let (_, below, _, begun) = running_facts r.state runs in
          let times : not (is_unstarted y.state) ≡ not (is_unstarted r.state) =
            sym (inv.rows i y there).started
            ∙ sym (ap is_some (perform-Timed i db y r there call a b at))
            ∙ after.started in
          (
            y,
            there,
            middle_stage y.state (ground (arith, times, begun)) (omega (arith, at_most, below)),
          )
    ]

admitted-Running :
    (q : AdmitRequest) (j : String) (db : Database) (i : String)
    → Running i (admit q j db).1
    → Running i db
admitted-Running q j db i (r, at, runs) = elim (admit-rows q j db i r at) [
  | inl old ↦ (r, old, runs)
  | inr (new, created, same, fresh) ↦
      absurd (omega (arith, (running_facts r.state runs).0, (stage_bounds r.state).2 fresh))
]

-- An operation that runs after a call other than `start` ran before it.
pub perform-ran_before :
    (call : OperationCall) (db : Database)
    → OperationsInv db
    → is_start call ≡ false
    → (i : String) → Running i (perform call db)
    → Running i db
unfolding perform
perform-ran_before (OperationCall.admit_call q j) db inv a i h = admitted-Running q j db i h
perform-ran_before (OperationCall.start_call j now) db inv a i h = absurd (cc (a))
perform-ran_before (OperationCall.cancel_call j now) db inv a i h =
    kept-Running (OperationCall.cancel_call j now) db inv refl refl i h
perform-ran_before (OperationCall.time_out_call j) db inv a i h =
    kept-Running (OperationCall.time_out_call j) db inv refl refl i h
perform-ran_before (OperationCall.unresponsive_call j) db inv a i h =
    kept-Running (OperationCall.unresponsive_call j) db inv refl refl i h
perform-ran_before (OperationCall.complete_call j text now) db inv a i h =
    kept-Running (OperationCall.complete_call j text now) db inv refl refl i h
perform-ran_before (OperationCall.fail_call j text now) db inv a i h =
    kept-Running (OperationCall.fail_call j text now) db inv refl refl i h
perform-ran_before (OperationCall.reconciliation_call j text now) db inv a i h =
    kept-Running (OperationCall.reconciliation_call j text now) db inv refl refl i h
perform-ran_before (OperationCall.orphans_call now) db inv a i h =
    kept-Running (OperationCall.orphans_call now) db inv refl refl i h
perform-ran_before (OperationCall.cancel_expired_call now) db inv a i h =
    kept-Running (OperationCall.cancel_expired_call now) db inv refl refl i h
perform-ran_before (OperationCall.cancel_all_call now) db inv a i h =
    kept-Running (OperationCall.cancel_all_call now) db inv refl refl i h

-- What runs after a `start` ran before it, or is the operation that was started.
pub start-ran_before :
    (j : String) (now : ℕ) (db : Database) (i : String)
    → Running i (start j now db).1
    → Running i db ⊎ (i ≡ j)
unfolding start transition_operation asserted transaction commit guarded_update
start-ran_before j now db i (r, at, runs) =
    elim (Bool-cases (nat_eq (count (hits j is_queued) db.operation_records) 1)) [
      | inr other ↦ inl (r, ground (arith, other, at), runs)
      | inl one ↦ written (ground (arith, one, at))
    ]
  where
    set : OperationRecord → OperationRecord
    set = set_columns OperationState.in_flight (record no_updates { started_at_ns = some now })

    written :
        find (operation_at i) (update (hits j is_queued) set db.operation_records) ≡ some r
        → Running i db ⊎ (i ≡ j)
    written h =
        let moved =
          find-update (operation_at i) (hits j is_queued) set (λ x hit. refl)
            db.operation_records in
        elim (Option-cases (find (operation_at i) db.operation_records)) [
          | inl none_there ↦ absurd (cc (h, moved, none_there))
          | inr (y, there) ↦
              let e : some (if hits j is_queued y then set y else y) ≡ some r =
                sym (moved ∙ rw there refl) ∙ h in
              let mine =
                (eq_iff y.operation_id i).0
                  (find-fits (operation_at i) db.operation_records there) in
              elim (Bool-cases (hits j is_queued y)) [
                | inl hit ↦ inr (sym mine ∙ (eq_iff y.operation_id j).0 (ground (arith, hit)))
                | inr missed ↦
                    let same : r ≡ y = ground (arith, e, missed) in
                    inl (y, there, subst (λ x. is_running x.state ≡ true) same runs)
              ]
        ]

not_running : (s : OperationState) → is_terminal s ≡ true → is_running s ≡ false
not_running s h = elim (Bool-cases (is_running s)) [
  | inl runs ↦ absurd (cc (h, (running_facts s runs).2))
  | inr rests ↦ rests
]

-- The owner's calls at the end of an operation leave it not running.
module _ (i : String) (text : String) (now : ℕ) (db : Database) (inv : OperationsInv db)
    (r : OperationRecord) where
  pub complete-leaves :
      find (operation_at i) (complete i (ok text) now db).1.operation_records ≡ some r
      → is_running r.state ≡ false
  unfolding complete checked
  complete-leaves at =
      guarded-leaves i is_running (set_completed text now) none db inv (λ x. refl)
        (λ x hit. not_running _ (completed_facts x now x.state).1) r at

  pub reconciliation-leaves :
      find (operation_at i) (require_reconciliation i (ok text) now db).1.operation_records ≡ some r
      → is_running r.state ≡ false
  unfolding require_reconciliation checked transition_operation
  reconciliation-leaves at = guarded-leaves i is_running _ _ db inv (λ x. refl) (λ x hit. refl) r at

  -- `fail` admits no operation that the watchdog gave up, so this holds only when it returns.
  pub fail-leaves :
      {r' : OperationRecord}
      → (fail i (ok text) now db).0 ≡ ok r'
      → find (operation_at i) (fail i (ok text) now db).1.operation_records ≡ some r
      → is_running r.state ≡ false
  unfolding fail checked transition_operation
  fail-leaves {r'} returned at =
      let update_in = guarded_update i is_answerable set (some OperationState.failed) in
      let (done, same) = asserted-eq-ok (transaction update_in db) returned in
      let body = transaction-eq-ok update_in db done in
      let (one, _, wrote) =
        guarded_update-eq-ok i is_answerable set (some OperationState.failed) db body in
      let (y, hit) =
        find-of_count (hits i is_answerable) db.operation_records (omega (arith, one)) in
      let fits = find-fits (hits i is_answerable) db.operation_records hit in
      let found =
        find_unique (operation_at i) (hits i is_answerable) db.operation_records hit
          (ground (arith, fits)) (inv.one_per_id i) in
      let moved =
        find-update (operation_at i) (hits i is_answerable) set (λ x h. refl)
          db.operation_records in
      let now_there : find (operation_at i)
            (asserted (transaction update_in db)).1.operation_records
          ≡ some (set y) =
        ap (λ d. find (operation_at i) d.operation_records) (same ∙ wrote)
        ∙ moved
        ∙ rw (found, fits) refl in
      let it : set y ≡ r = ground (arith, now_there, at) in
      subst (λ x. is_running x.state ≡ false) it refl
    where
      set : OperationRecord → OperationRecord
      set =
          set_columns OperationState.failed
            (record no_updates { error_json = some text; finished_at_ns = some now })
