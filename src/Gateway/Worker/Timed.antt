-- ===== src/Gateway/Worker/Timed.antt =====
-- What one call of the store leaves of the start times.
use powerfactory_mcp.Prelude.{
  String, ◌≡◌, refl, sym, ap, ◌∙◌, ◌==◌, Bool, true, false, Option, some, arith, Bool-cases, inl,
  inr, if◌then◌else◌, nat_eq,
}
use powerfactory_mcp.Errors.{ok, err}
use powerfactory_mcp.Table.{find, count, update, find-update}
use powerfactory_mcp.Domain.Operation.{OperationState, OperationRecord}
use powerfactory_mcp.Persistence.Database.{Database, transaction, commit, checked}
use powerfactory_mcp.Persistence.OperationStore.{
  operation_at, start, cancel_before_start, asserted, hits, guarded_update, transition_operation,
  mark_client_timed_out, mark_engine_unresponsive, complete, fail, require_reconciliation,
  reconcile_orphans, cancel_expired_queued, cancel_all_queued,
}
use powerfactory_mcp.Persistence.OperationStore.History.{OperationCall, perform}
use powerfactory_mcp.Gateway.Worker.Calls.{is_admission}

abbrev pub is_start : OperationCall → Bool
is_start (OperationCall.start_call i now) = true
is_start _ = false

-- A call other than `start` leaves the start times.
module _ (i : String) (db : Database) (y r : OperationRecord)
    (there : find (operation_at i) db.operation_records ≡ some y) where
  abbrev Timed : Database → Type 0
  Timed db' =
      find (operation_at i) db'.operation_records ≡ some r → r.started_at_ns ≡ y.started_at_ns

  Timed-same : Timed db
  Timed-same at =
      let same : y ≡ r = ground (arith, there, at) in sym (ap (λ x. x.started_at_ns) same)

  update-Timed :
      (p : OperationRecord → Bool) (set : OperationRecord → OperationRecord)
      → ((x : OperationRecord) → (set x).operation_id ≡ x.operation_id)
      → ((x : OperationRecord) → (set x).started_at_ns ≡ x.started_at_ns)
      → Timed (record db { operation_records = update p set db.operation_records })
  update-Timed p set same_id same_time at =
      let moved =
        find-update (operation_at i) p set (λ x hit. ap (λ n. n == i) (same_id x))
          db.operation_records in
      changed (sym (moved ∙ rw there refl) ∙ at)
    where
      changed : some (if p y then set y else y) ≡ some r → r.started_at_ns ≡ y.started_at_ns
      changed e = elim (Bool-cases (p y)) [
        | inl hit ↦
            let same : set y ≡ r = ground (arith, e, hit) in
            sym (ap (λ x. x.started_at_ns) same) ∙ same_time y
        | inr missed ↦
            let same : y ≡ r = ground (arith, e, missed) in sym (ap (λ x. x.started_at_ns) same)
      ]

  guarded-Timed :
      (j : String) (expected : OperationState → Bool) (set : OperationRecord → OperationRecord)
      (target : Option OperationState)
      → ((x : OperationRecord) → (set x).operation_id ≡ x.operation_id)
      → ((x : OperationRecord) → (set x).started_at_ns ≡ x.started_at_ns)
      → Timed (asserted (transaction (guarded_update j expected set target) db)).1
  unfolding asserted transaction commit guarded_update
  guarded-Timed j expected set target same_id same_time at =
      elim (Bool-cases (nat_eq (count (hits j expected) db.operation_records) 1)) [
        | inl one ↦ update-Timed (hits j expected) set same_id same_time (ground (arith, one, at))
        | inr other ↦ Timed-same (ground (arith, other, at))
      ]

  pub perform-Timed :
      (call : OperationCall)
      → is_start call ≡ false
      → is_admission call ≡ false
      → Timed (perform call db)
  unfolding perform start cancel_before_start mark_client_timed_out mark_engine_unresponsive
      complete fail require_reconciliation reconcile_orphans cancel_expired_queued cancel_all_queued
      transition_operation checked transaction commit asserted
  perform-Timed (OperationCall.admit_call q j) a b at = absurd (cc (b))
  perform-Timed (OperationCall.start_call j now) a b at = absurd (cc (a))
  perform-Timed (OperationCall.cancel_call j now) a b at =
      guarded-Timed j _ _ _ (λ x. refl) (λ x. refl) at
  perform-Timed (OperationCall.time_out_call j) a b at =
      guarded-Timed j _ _ _ (λ x. refl) (λ x. refl) at
  perform-Timed (OperationCall.unresponsive_call j) a b at =
      guarded-Timed j _ _ _ (λ x. refl) (λ x. refl) at
  perform-Timed (OperationCall.complete_call j (ok text) now) a b at =
      guarded-Timed j _ _ _ (λ x. refl) (λ x. refl) at
  perform-Timed (OperationCall.complete_call j (err e) now) a b at = Timed-same at
  perform-Timed (OperationCall.fail_call j (ok text) now) a b at =
      guarded-Timed j _ _ _ (λ x. refl) (λ x. refl) at
  perform-Timed (OperationCall.fail_call j (err e) now) a b at = Timed-same at
  perform-Timed (OperationCall.reconciliation_call j (ok text) now) a b at =
      guarded-Timed j _ _ _ (λ x. refl) (λ x. refl) at
  perform-Timed (OperationCall.reconciliation_call j (err e) now) a b at = Timed-same at
  perform-Timed (OperationCall.orphans_call now) a b at =
      update-Timed _ _ (λ x. refl) (λ x. refl) at
  perform-Timed (OperationCall.cancel_expired_call now) a b at =
      update-Timed _ _ (λ x. refl) (λ x. refl) at
  perform-Timed (OperationCall.cancel_all_call now) a b at =
      update-Timed _ _ (λ x. refl) (λ x. refl) at
