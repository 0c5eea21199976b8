-- ===== src/Gateway/Worker/Settling.antt =====
-- The steps of the owner after a handler has come back.
use powerfactory_mcp.Prelude.{
  ℕ, zero, suc, String, ◌≡◌, refl, sym, subst, ◌⊎◌, inl, inr, Bool, true, false, ◌&&◌, is_none,
  nat_eq, some, List, [], ◌∷◌, arith, Bool-cases,
}
use powerfactory_mcp.Errors.{Error, Result, ok, err}
use powerfactory_mcp.Table.{find, count, find-update}
use powerfactory_mcp.Domain.Operation.{OperationState, OperationRecord, is_terminal}
use powerfactory_mcp.Persistence.Database.{Database, transaction, commit, checked}
use powerfactory_mcp.Persistence.OperationStore.{
  operation_at, is_running, is_answerable, hits, asserted, guarded_update, transition_operation,
  set_columns, no_updates, fail, complete, require_reconciliation,
}
use powerfactory_mcp.Persistence.OperationStore.States.{is_unstarted}
use powerfactory_mcp.Persistence.OperationStore.History.{OperationCall, perform, perform_all}
use powerfactory_mcp.Persistence.OperationStore.History.Rows.{OperationsInv, perform_all-Later}
use powerfactory_mcp.Gateway.Worker.State.{
  Settings, Worker, Owner, Outcome, waiting, taken, judged, expiring, starting, started, executing,
  running, settling, reconciling, finishing, gone, known_failure, uncertain_failure, returned,
  escaped, is_transition_error,
}
use powerfactory_mcp.Gateway.Worker.OwnerThread.{
  can_call, poll_queue, failed_or, settle_outcome, owner_step,
}
use powerfactory_mcp.Gateway.Worker.Taking.{perform-OperationsInv}
use powerfactory_mcp.Gateway.Worker.Running.{complete-leaves, fail-leaves, reconciliation-leaves}
use powerfactory_mcp.Gateway.Worker.Claims.{Begun, Begun-perform_all}

-- The handler came back to `_execute`.
abbrev pub comes_back : Outcome → Bool
comes_back escaped = false
comes_back _ = true

abbrev pub Settled : String → Database → Type 0
Settled i db =
    (r : OperationRecord) × (find (operation_at i) db.operation_records ≡ some r)
    × (is_terminal r.state ≡ true)

-- The owner is about to settle the operation, in at most this many steps.
abbrev pub Due : String → Owner → ℕ → Type 0
Due i (settling j r outcome) (suc (suc n)) = (r.operation_id ≡ i) × (comes_back outcome ≡ true)
Due i (settling j r outcome) (suc zero) = ⊥
Due i (settling j r outcome) zero = ⊥
Due i (reconciling j r error) (suc n) = r.operation_id ≡ i
Due i (reconciling j r error) zero = ⊥
Due i other n = ⊥

pub record Settling (i : String) (n : ℕ) (o : Owner) (db : Database) : Type 0 where
  pub tables : OperationsInv db
  pub begun : Begun i db
  pub reached : Settled i db ⊎ Due i o n

over : (s : OperationState) → is_unstarted s ≡ false → is_running s ≡ false → is_terminal s ≡ true
over OperationState.queued a b = absurd (cc (a))
over OperationState.cancelled_before_start a b = refl
over OperationState.in_flight a b = absurd (cc (b))
over OperationState.client_timed_out a b = absurd (cc (b))
over OperationState.completed a b = refl
over OperationState.completed_after_client_timeout a b = refl
over OperationState.failed a b = refl
over OperationState.engine_unresponsive a b = absurd (cc (b))
over OperationState.reconciliation_required a b = refl

module _ (i : String) where
  -- An operation that was started and does not run is settled.
  pub not_running-Settled :
      (db : Database)
      → Begun i db
      → ((r : OperationRecord)
          → find (operation_at i) db.operation_records ≡ some r
          → is_running r.state ≡ false)
      → Settled i db
  not_running-Settled db (r, at, begun) out = (r, at, over r.state begun (out r at))

  pub Settled-perform :
      (call : OperationCall) (db : Database) → Settled i db → Settled i (perform call db)
  unfolding perform_all
  Settled-perform call db (r, at, ended) =
      let (r', found, later) = perform_all-Later (call ∷ []) db i r at in
      (r', found, subst (λ x. is_terminal x.state ≡ true) (sym (later.frozen ended)) ended)

  pub Begun-perform :
      (call : OperationCall) (db : Database) → Begun i db → Begun i (perform call db)
  unfolding perform_all
  Begun-perform call db b = Begun-perform_all (call ∷ []) db i b

  pub Settling-perform :
      {n : ℕ} {o : Owner} (call : OperationCall) (db : Database)
      → Settling i n o db
      → Settling i n o (perform call db)
  Settling-perform call db s = record {
    tables = perform-OperationsInv call db s.tables;
    begun = Begun-perform call db s.begun;
    reached = elim s.reached [ inl a ↦ inl (Settled-perform call db a) | inr b ↦ inr b ];
  }

-- What the calls of the store keep, a step of the owner keeps.
module _ (P : Database → Type 0)
    (kept : (call : OperationCall) (db : Database) → P db → P (perform call db)) where
  poll_queue-kept : (w : Worker) (queue : List String) → P w.db → P (poll_queue w queue).db
  unfolding poll_queue
  poll_queue-kept w [] p = elim (Bool-cases (w.stopping && is_none w.active_operation_id)) [
    | inl ends ↦ rw ends p
    | inr stays ↦ rw stays p
  ]
  poll_queue-kept w (i ∷ rest) p = p

  settle_outcome-kept :
      (i : String) (r : OperationRecord) (outcome : Outcome) (now : ℕ) (w : Worker)
      → P w.db
      → P (settle_outcome i r outcome now w).db
  unfolding settle_outcome perform
  settle_outcome-kept i r (known_failure error) now w p =
      kept (OperationCall.fail_call r.operation_id (ok error) now) w.db p
  settle_outcome-kept i r (uncertain_failure error) now w p = p
  settle_outcome-kept i r (returned (err e) error) now w p = p
  settle_outcome-kept i r (returned (ok text) error) now w p =
      kept (OperationCall.complete_call r.operation_id (ok text) now) w.db p
  settle_outcome-kept i r escaped now w p = p

  owner_step-kept :
      (s : Settings) (now : ℕ) (o : Owner) (w : Worker) → P w.db → P (owner_step s now o w).db
  unfolding owner_step perform
  owner_step-kept s now waiting w p = poll_queue-kept w w.queue p
  owner_step-kept s now (taken i) w p = p
  owner_step-kept s now (judged i r) w p = p
  owner_step-kept s now (expiring i) w p = kept (OperationCall.cancel_call i now) w.db p
  owner_step-kept s now (starting i) w p = kept (OperationCall.start_call i now) w.db p
  owner_step-kept s now (started i r) w p = p
  owner_step-kept s now (executing i r) w p = elim (Bool-cases (can_call s r)) [
    | inl known ↦ rw known p
    | inr unknown ↦ rw unknown p
  ]
  owner_step-kept s now (running i r) w p = p
  owner_step-kept s now (settling i r outcome) w p = settle_outcome-kept i r outcome now w p
  owner_step-kept s now (reconciling i r error) w p =
      kept (OperationCall.reconciliation_call r.operation_id (ok error) now) w.db p
  owner_step-kept s now (finishing i raised) w p = p
  owner_step-kept s now gone w p = p

abbrev pub less : ℕ → ℕ
less zero = zero
less (suc n) = n

-- A refused failure of a stored operation is a transition error.
fail-refused :
    (i text : String) (now : ℕ) (db : Database) {r : OperationRecord} {e : Error}
    → find (operation_at i) db.operation_records ≡ some r
    → (fail i (ok text) now db).0 ≡ err e
    → is_transition_error e ≡ true
unfolding fail checked transition_operation asserted transaction commit guarded_update
fail-refused i text now db {r} {e} at h =
    let moved =
      find-update (operation_at i) (hits i is_answerable)
        (set_columns OperationState.failed
          (record no_updates { error_json = some text; finished_at_ns = some now }))
        (λ x hit. refl) db.operation_records in
    elim (Bool-cases (nat_eq (count (hits i is_answerable) db.operation_records) 1)) [
      | inl one ↦ absurd (cc (rw (one, moved, at) at h))
      | inr none_hit ↦ ground (arith, h, none_hit, at)
    ]

module _ (i : String) (now : ℕ) (w : Worker) where
  -- The first of the owner's steps.
  fail-Settling :
      (j : String) (r : OperationRecord) (error : String) (n : ℕ)
      → r.operation_id ≡ i
      → OperationsInv w.db
      → Begun r.operation_id w.db
      → (x : Result OperationRecord) → (fail r.operation_id (ok error) now w.db).0 ≡ x
      → Settled r.operation_id (fail r.operation_id (ok error) now w.db).1
        ⊎ Due i (failed_or j r error x) (suc n)
  unfolding failed_or perform
  fail-Settling j r error n same inv (y, at, begun) (ok done) h = inl (
      not_running-Settled r.operation_id (fail r.operation_id (ok error) now w.db).1
        (Begun-perform r.operation_id (OperationCall.fail_call r.operation_id (ok error) now) w.db
          (y, at, begun))
        (λ x there. fail-leaves r.operation_id error now w.db inv x h there))
  fail-Settling j r error n same inv (y, at, begun) (err e) h =
      let refused = fail-refused r.operation_id error now w.db at h in rw refused (inr same)

  settle-Settling :
      (j : String) (r : OperationRecord) (outcome : Outcome) (n : ℕ)
      → r.operation_id ≡ i
      → comes_back outcome ≡ true
      → OperationsInv w.db
      → Begun i w.db
      → Settled i (settle_outcome j r outcome now w).db
        ⊎ Due i (settle_outcome j r outcome now w).owner (suc n)
  unfolding settle_outcome perform
  settle-Settling j r (known_failure error) n same back inv b =
      elim (fail-Settling j r error n same inv (subst (λ x. Begun x w.db) (sym same) b) _ refl) [
        | inl ended ↦
            inl (subst (λ x. Settled x (fail r.operation_id (ok error) now w.db).1) same ended)
        | inr due ↦ inr due
      ]
  settle-Settling j r (uncertain_failure error) n same back inv b = inr same
  settle-Settling j r (returned (err e) error) n same back inv b = inr same
  settle-Settling j r (returned (ok text) error) n same back inv b =
      let after = (complete r.operation_id (ok text) now w.db).1 in
      inl (
        subst (λ x. Settled x after) same
          (not_running-Settled r.operation_id after
            (Begun-perform r.operation_id (OperationCall.complete_call r.operation_id (ok text) now)
              w.db (subst (λ x. Begun x w.db) (sym same) b))
            (λ x there. complete-leaves r.operation_id text now w.db inv x there)))
  settle-Settling j r escaped n same back inv b = absurd (cc (back))

  owner_step-Due :
      (s : Settings) (o : Owner) (n : ℕ)
      → OperationsInv w.db
      → Begun i w.db
      → Due i o n
      → Settled i (owner_step s now o w).db ⊎ Due i (owner_step s now o w).owner (less n)
  unfolding owner_step perform
  owner_step-Due s (settling j r outcome) (suc (suc n)) inv b (same, back) =
      settle-Settling j r outcome n same back inv b
  owner_step-Due s (reconciling j r error) (suc n) inv b same =
      let after = (require_reconciliation r.operation_id (ok error) now w.db).1 in
      inl (
        subst (λ x. Settled x after) same
          (not_running-Settled r.operation_id after
            (Begun-perform r.operation_id
              (OperationCall.reconciliation_call r.operation_id (ok error) now) w.db
              (subst (λ x. Begun x w.db) (sym same) b))
            (λ x there. reconciliation-leaves r.operation_id error now w.db inv x there)))
  owner_step-Due s waiting n inv b due = absurd due
  owner_step-Due s (taken j) n inv b due = absurd due
  owner_step-Due s (judged j r) n inv b due = absurd due
  owner_step-Due s (expiring j) n inv b due = absurd due
  owner_step-Due s (starting j) n inv b due = absurd due
  owner_step-Due s (started j r) n inv b due = absurd due
  owner_step-Due s (executing j r) n inv b due = absurd due
  owner_step-Due s (running j r) n inv b due = absurd due
  owner_step-Due s (finishing j raised) n inv b due = absurd due
  owner_step-Due s gone n inv b due = absurd due
  owner_step-Due s (settling j r outcome) zero inv b due = absurd due
  owner_step-Due s (settling j r outcome) (suc zero) inv b due = absurd due
  owner_step-Due s (reconciling j r error) zero inv b due = absurd due

  pub owner_step-Settling :
      (s : Settings) (n : ℕ)
      → Settling i n w.owner w.db
      → Settling i (less n) (owner_step s now w.owner w).owner (owner_step s now w.owner w).db
  owner_step-Settling s n h = record {
    tables = owner_step-kept OperationsInv perform-OperationsInv s now w.owner w h.tables;
    begun = owner_step-kept (Begun i) (Begun-perform i) s now w.owner w h.begun;
    reached = elim h.reached [
      | inl ended ↦ inl (owner_step-kept (Settled i) (Settled-perform i) s now w.owner w ended)
      | inr due ↦ owner_step-Due s w.owner n h.tables h.begun due
    ];
  }
