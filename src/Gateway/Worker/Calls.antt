-- ===== src/Gateway/Worker/Calls.antt =====
-- What one call of the store leaves in the queue, seen from the row that is there after it.
use powerfactory_mcp.Prelude.{
  ℕ, ◌≤◌, suc, String, ◌≡◌, refl, sym, ap, subst, ◌∙◌, ◌⊎◌, ◌==◌, Bool, true, false, Option, none,
  some, [], ◌∷◌, ◌++◌, arith, Bool-cases, Option-cases, inl, inr, eq_iff, nat_eq, if◌then◌else◌,
}
use powerfactory_mcp.Errors.{Result, ok, err}
use powerfactory_mcp.Table.{find, any, count, update, insert, find-append, find-update, find-fits}
use powerfactory_mcp.Table.Counts.{count-find, count_mono}
use powerfactory_mcp.Domain.Operation.{OperationState, OperationRecord}
use powerfactory_mcp.Persistence.Database.{Database, transaction, commit, checked}
use powerfactory_mcp.Persistence.OperationStore.{
  operation_at, admitted_under, operation_clashes, start, cancel_before_start, admit, admit_at,
  asserted, insert_operation, is_queued, hits, guarded_update, transition_operation, set_columns,
  Updates, mark_client_timed_out, mark_engine_unresponsive, complete, fail, require_reconciliation,
  reconcile_orphans, cancel_expired_queued, cancel_all_queued, set_finished,
}
use powerfactory_mcp.Persistence.OperationStore.Admission.{AdmitRequest, check_admit, queued_row}
use powerfactory_mcp.Persistence.OperationStore.States.{stage, stage_bounds}
use powerfactory_mcp.Persistence.OperationStore.History.{OperationCall, perform, perform_all}
use powerfactory_mcp.Persistence.OperationStore.History.Rows.{OperationsInv, perform_all-Later}
use powerfactory_mcp.Persistence.OperationStore.History.Keys.{inserted}

abbrev pub is_admission : OperationCall → Bool
is_admission (OperationCall.admit_call q i) = true
is_admission _ = false

-- A write of rows that keeps their identifiers finds no more rows.
module _ (i : String) (db : Database)
    (gone : find (operation_at i) db.operation_records ≡ none) where
  update-none :
      (p : OperationRecord → Bool) (set : OperationRecord → OperationRecord)
      → ((r : OperationRecord) → (set r).operation_id ≡ r.operation_id)
      → find (operation_at i) (update p set db.operation_records) ≡ none
  update-none p set same =
      find-update (operation_at i) p set (λ r hit. ap (λ x. x == i) (same r)) db.operation_records
      ∙ rw gone refl

  guarded-none :
      (j : String) (expected : OperationState → Bool) (set : OperationRecord → OperationRecord)
      (target : Option OperationState)
      → ((r : OperationRecord) → (set r).operation_id ≡ r.operation_id)
      → find
          (operation_at i)
          (asserted (transaction (guarded_update j expected set target) db)).1.operation_records
        ≡ none
  unfolding asserted transaction commit guarded_update
  guarded-none j expected set target same =
      ground (arith, gone, update-none (hits j expected) set same)

  pub perform-none :
      (call : OperationCall)
      → is_admission call ≡ false
      → find (operation_at i) (perform call db).operation_records ≡ none
  unfolding perform start cancel_before_start mark_client_timed_out mark_engine_unresponsive
      complete fail require_reconciliation reconcile_orphans cancel_expired_queued cancel_all_queued
      transition_operation checked transaction commit asserted
  perform-none (OperationCall.admit_call q j) h = absurd (cc (h))
  perform-none (OperationCall.start_call j now) h = guarded-none j _ _ _ (λ r. refl)
  perform-none (OperationCall.cancel_call j now) h = guarded-none j _ _ _ (λ r. refl)
  perform-none (OperationCall.time_out_call j) h = guarded-none j _ _ _ (λ r. refl)
  perform-none (OperationCall.unresponsive_call j) h = guarded-none j _ _ _ (λ r. refl)
  perform-none (OperationCall.complete_call j (ok text) now) h = guarded-none j _ _ _ (λ r. refl)
  perform-none (OperationCall.complete_call j (err e) now) h = gone
  perform-none (OperationCall.fail_call j (ok text) now) h = guarded-none j _ _ _ (λ r. refl)
  perform-none (OperationCall.fail_call j (err e) now) h = gone
  perform-none (OperationCall.reconciliation_call j (ok text) now) h =
      guarded-none j _ _ _ (λ r. refl)
  perform-none (OperationCall.reconciliation_call j (err e) now) h = gone
  perform-none (OperationCall.orphans_call now) h = update-none _ _ (λ r. refl)
  perform-none (OperationCall.cancel_expired_call now) h = update-none _ _ (λ r. refl)
  perform-none (OperationCall.cancel_all_call now) h = update-none _ _ (λ r. refl)

-- After an update out of some states, whatever it came to, its operation is in none of them.
module _ (i : String) (expected : OperationState → Bool) (set : OperationRecord → OperationRecord)
    (target : Option OperationState) (db : Database) (inv : OperationsInv db)
    (same_id : (r : OperationRecord) → (set r).operation_id ≡ r.operation_id)
    (out : (r : OperationRecord) → expected r.state ≡ true → expected (set r).state ≡ false) where
  pub guarded-leaves :
      (r : OperationRecord)
      → find
          (operation_at i)
          (asserted (transaction (guarded_update i expected set target) db)).1.operation_records
        ≡ some r
      → expected r.state ≡ false
  unfolding asserted transaction commit guarded_update
  guarded-leaves r h = elim (Bool-cases (nat_eq (count (hits i expected) db.operation_records) 1)) [
    | inl one ↦ written r (ground (arith, one, h))
    | inr other ↦ kept r other (ground (arith, other, h))
  ]
    where
      written :
          (x : OperationRecord)
          → find (operation_at i) (update (hits i expected) set db.operation_records) ≡ some x
          → expected x.state ≡ false
      written x at =
          let same =
            find-update (operation_at i) (hits i expected) set
              (λ r' hit. ap (λ x. x == i) (same_id r')) db.operation_records in
          elim (Option-cases (find (operation_at i) db.operation_records)) [
            | inl none_there ↦ absurd (cc (at, same, none_there))
            | inr (y, there) ↦
                let fits = find-fits (operation_at i) db.operation_records there in
                let moved : some (if hits i expected y then set y else y) ≡ some x =
                  sym (same ∙ rw there refl) ∙ at in
                elim (Bool-cases (expected y.state)) [
                  | inl hit ↦
                      let e : set y ≡ x = ground (arith, moved, fits, hit) in
                      subst (λ z. expected z.state ≡ false) e (out y hit)
                  | inr missed ↦
                      let e : y ≡ x = ground (arith, moved, fits, missed) in
                      subst (λ z. expected z.state ≡ false) e missed
                ]
          ]

      kept :
          (x : OperationRecord)
          → nat_eq (count (hits i expected) db.operation_records) 1 ≡ false
          → find (operation_at i) db.operation_records ≡ some x
          → expected x.state ≡ false
      kept x other at = elim (Bool-cases (expected x.state)) [
        | inr out_of_queue ↦ out_of_queue
        | inl still ↦
            let fits = find-fits (operation_at i) db.operation_records at in
            let some_ =
              count-find (operation_at i) (hits i expected) db.operation_records at
                (ground (arith, fits, still)) in
            let at_most =
              count_mono (operation_at i) (hits i expected) (λ r' hit. ground (arith, hit))
                db.operation_records in
            absurd (ground (arith, some_, at_most, inv.one_per_id i, other))
      ]

-- A transition out of the queue.
pub transition-leaves :
    (i : String) (target : OperationState) (updates : Updates) (db : Database)
    → OperationsInv db
    → is_queued target ≡ false
    → (r : OperationRecord)
    → find (operation_at i) (transition_operation i is_queued target updates db).1.operation_records
      ≡ some r
    → is_queued r.state ≡ false
unfolding transition_operation
transition-leaves i target updates db inv out =
    guarded-leaves i is_queued (set_columns target updates) (some target) db inv (λ r. refl)
      (λ r hit. out)

pub cancel_all-leaves :
    (now : ℕ) (db : Database) (i : String) (r : OperationRecord)
    → find (operation_at i) (cancel_all_queued now db).1.operation_records ≡ some r
    → is_queued r.state ≡ false
unfolding cancel_all_queued transaction commit
cancel_all-leaves now db i r at =
    let set = set_finished OperationState.cancelled_before_start now in
    let same =
      find-update (operation_at i) (λ x. is_queued x.state) set (λ r' hit. refl)
        db.operation_records in
    elim (Option-cases (find (operation_at i) db.operation_records)) [
      | inl none_there ↦ absurd (cc (at, same, none_there))
      | inr (y, there) ↦ changed y r (sym (same ∙ rw there refl) ∙ at)
    ]
  where
    changed :
        (y x : OperationRecord)
        → some (
            if is_queued y.state
            then set_finished OperationState.cancelled_before_start now y
            else y)
          ≡ some x
        → is_queued x.state ≡ false
    changed y x moved = elim (Bool-cases (is_queued y.state)) [
      | inl hit ↦
          let e : set_finished OperationState.cancelled_before_start now y ≡ x =
            ground (arith, moved, hit) in
          subst (λ z. is_queued z.state ≡ false) e refl
      | inr missed ↦
          let e : y ≡ x = ground (arith, moved, missed) in
          subst (λ z. is_queued z.state ≡ false) e missed
    ]

-- A row after an `admit` was there before, or is the one that it returns as created.
module _ (q : AdmitRequest) (i : String) (db : Database) (j : String) (r : OperationRecord) where
  abbrev pub Admitted : Result (OperationRecord × Bool) × Database → Type 0
  Admitted x =
      find (operation_at j) x.1.operation_records ≡ some r
      → (find (operation_at j) db.operation_records ≡ some r)
        ⊎ ((new : OperationRecord) × (x.0 ≡ ok (new, true))
            × (new.operation_id ≡ j)
            × (is_queued r.state ≡ true))

  only-id :
      (x : OperationRecord)
      → find (operation_at j) (x ∷ []) ≡ some r
      → (x.operation_id ≡ j) × (x ≡ r)
  unfolding find
  only-id x h = ((eq_iff x.operation_id j).0 (ground (arith, h)), ground (arith, h))

  pub admit-rows : Admitted (admit q i db)
  unfolding admit checked transaction commit asserted admit_at insert_operation insert
  admit-rows = by_checks (check_admit q)
    where
      body : String → Database → Result (Option (OperationRecord × Bool)) × Database
      body payload =
          transaction λ d.
            admit_at q i payload (find (admitted_under q.idempotency_key) d.operation_records) d

      appended :
          (x : OperationRecord)
          → find (operation_at j) (db.operation_records ++ x ∷ []) ≡ some r
          → (find (operation_at j) db.operation_records ≡ some r) ⊎ ((x.operation_id ≡ j) × (x ≡ r))
      appended x h =
          let parts = find-append (operation_at j) db.operation_records (x ∷ []) in
          elim (Option-cases (find (operation_at j) db.operation_records)) [
            | inl none_there ↦ inr (only-id x (cc (h, parts, none_there)))
            | inr (y, there) ↦ inl (cc (h, parts, there))
          ]

      by_key :
          (payload : String) (row : Option OperationRecord)
          → Admitted (asserted (transaction (λ d. admit_at q i payload row d) db))
      by_key payload (some x) h = inl (ground (arith, h))
      by_key payload none h =
          let row = queued_row q i payload (suc db.operation_sequence) in
          elim (Bool-cases (any (operation_clashes row) db.operation_records)) [
            | inl clash ↦ inl (ground (arith, clash, h))
            | inr fresh ↦
                let there = inserted row db.operation_records fresh in
                elim (appended row (ground (arith, fresh, there, h))) [
                  | inl old ↦ inl old
                  | inr (same, it) ↦ inr (
                    row,
                    ground (arith, fresh, there),
                    same,
                    subst (λ x. is_queued x.state ≡ true) it refl,
                  )
                ]
          ]

      by_checks : (x : Result String) → Admitted (asserted (checked x body db))
      by_checks (err e) h = inl h
      by_checks (ok payload) h =
          by_key payload (find (admitted_under q.idempotency_key) db.operation_records) h

first_stage : (s : OperationState) → stage s ≡ 0 → is_queued s ≡ true
first_stage OperationState.queued h = refl
first_stage OperationState.cancelled_before_start h = absurd (omega (arith, h))
first_stage OperationState.in_flight h = absurd (omega (arith, h))
first_stage OperationState.client_timed_out h = absurd (omega (arith, h))
first_stage OperationState.completed h = absurd (omega (arith, h))
first_stage OperationState.completed_after_client_timeout h = absurd (omega (arith, h))
first_stage OperationState.failed h = absurd (omega (arith, h))
first_stage OperationState.engine_unresponsive h = absurd (omega (arith, h))
first_stage OperationState.reconciliation_required h = absurd (omega (arith, h))

-- A row that is queued after a call other than `admit` was queued before it.
pub perform-queued_before :
    (call : OperationCall) (db : Database)
    → is_admission call ≡ false
    → (i : String) (r : OperationRecord)
    → find (operation_at i) (perform call db).operation_records ≡ some r
    → is_queued r.state ≡ true
    → (y : OperationRecord) × (find (operation_at i) db.operation_records ≡ some y)
      × (is_queued y.state ≡ true)
unfolding perform_all
perform-queued_before call db other i r after fresh =
    elim (Option-cases (find (operation_at i) db.operation_records)) [
      | inl none_there ↦ absurd (cc (after, perform-none i db none_there call other))
      | inr (y, there) ↦
          let (r', found, later) = perform_all-Later (call ∷ []) db i y there in
          let same : r' ≡ r = ground (arith, found, after) in
          let at_most = subst (λ x. stage y.state ≤ stage x.state) same later.climbs in
          (y, there, first_stage y.state (omega (arith, at_most, (stage_bounds r.state).2 fresh)))
    ]
