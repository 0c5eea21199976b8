-- ===== src/Persistence/OperationStore/Stages.antt =====
-- The stages of an operation: every write of a stored row takes it to a later stage.
use powerfactory_mcp.Prelude.{
  ℕ, ◌+◌, ◌<◌, ◌≤◌, String, ◌≡◌, refl, Bool, true, false, not, leb, some, is_some, arith, ap, sym,
  ◌∙◌, if◌then◌else◌,
}
use powerfactory_mcp.Persistence.OperationStore.States.{
  stage, is_unstarted, queued_facts, running_facts, in_flight_facts, answerable_facts,
}
use powerfactory_mcp.Domain.Operation.{OperationState, OperationRecord, is_terminal}
use powerfactory_mcp.Persistence.OperationStore.{
  set_columns, no_updates, set_completed, set_finished, completed_state, is_queued, is_in_flight,
  is_answerable, is_running,
}

-- The times of a row follow its state, and its version counts at most its stages.
pub record RowInv (r : OperationRecord) : Type 0 where
  pub started : is_some r.started_at_ns ≡ not (is_unstarted r.state)
  pub finished : is_some r.finished_at_ns ≡ is_terminal r.state
  pub bounded : r.version ≤ stage r.state

-- What a write may do to a row: what was admitted stays, the stage grows.
pub record Advances (r r' : OperationRecord) : Type 0 where
  pub same_id : r'.operation_id ≡ r.operation_id
  pub same_key : r'.idempotency_key ≡ r.idempotency_key
  pub same_handler : r'.handler_name ≡ r.handler_name
  pub same_payload : r'.payload_json ≡ r.payload_json
  pub climbs : stage r.state < stage r'.state
  pub begun : is_unstarted r.state ≡ false → is_unstarted r'.state ≡ false
  pub version : r'.version ≡ r.version + 1
  pub times : RowInv r → RowInv r'

later_stage :
    (r r' : OperationRecord)
    → r'.operation_id ≡ r.operation_id
    → r'.idempotency_key ≡ r.idempotency_key
    → r'.handler_name ≡ r.handler_name
    → r'.payload_json ≡ r.payload_json
    → r'.version ≡ r.version + 1
    → stage r.state < stage r'.state
    → (is_unstarted r.state ≡ false → is_unstarted r'.state ≡ false)
    → (RowInv r → is_some r'.started_at_ns ≡ not (is_unstarted r'.state))
    → (RowInv r → is_some r'.finished_at_ns ≡ is_terminal r'.state)
    → Advances r r'
later_stage r r' id key handler payload version climbs begun started finished = record {
  same_id = id;
  same_key = key;
  same_handler = handler;
  same_payload = payload;
  climbs = climbs;
  begun = begun;
  version = version;
  times = λ inv. record {
    started = started inv;
    finished = finished inv;
    bounded = omega (arith, inv.bounded, version, climbs);
  };
}

by_deadline :
    (late : Bool)
    → (stage
          (if late then OperationState.completed_after_client_timeout else OperationState.completed)
        ≡ 4)
      × (is_terminal (
            if late
            then OperationState.completed_after_client_timeout
            else OperationState.completed)
          ≡ true)
      × (is_unstarted (
            if late
            then OperationState.completed_after_client_timeout
            else OperationState.completed)
          ≡ false)
by_deadline true = (refl, refl, refl)
by_deadline false = (refl, refl, refl)

-- Each write, from the states that its method expects.
module _ (r : OperationRecord) where
  pub start-Advances :
      (now : ℕ)
      → is_queued r.state ≡ true
      → Advances r
          (set_columns OperationState.in_flight (record no_updates { started_at_ns = some now }) r)
  start-Advances now h =
      let (at, open_, fresh) = queued_facts r.state h in
      later_stage r _ refl refl refl refl refl (omega (arith, at)) (λ b. refl) (λ inv. refl)
        (λ inv. inv.finished ∙ open_)

  pub cancel-Advances :
      (now : ℕ)
      → is_queued r.state ≡ true
      → Advances r (
          set_columns OperationState.cancelled_before_start
            (record no_updates { finished_at_ns = some now })
            r)
  cancel-Advances now h =
      let (at, open_, fresh) = queued_facts r.state h in
      later_stage r _ refl refl refl refl refl (omega (arith, at)) (λ b. absurd (cc (b, fresh)))
        (λ inv. inv.started ∙ ap not fresh) (λ inv. refl)

  pub cancel_all-Advances :
      (now : ℕ)
      → is_queued r.state ≡ true
      → Advances r (set_finished OperationState.cancelled_before_start now r)
  cancel_all-Advances now h =
      let (at, open_, fresh) = queued_facts r.state h in
      later_stage r _ refl refl refl refl refl (omega (arith, at)) (λ b. absurd (cc (b, fresh)))
        (λ inv. inv.started ∙ ap not fresh) (λ inv. refl)

  pub time_out-Advances :
      is_in_flight r.state ≡ true
      → Advances r (set_columns OperationState.client_timed_out no_updates r)
  time_out-Advances h =
      let (at, runs) = in_flight_facts r.state h in
      let (_, _, open_, fresh) = running_facts r.state runs in
      later_stage r _ refl refl refl refl refl (omega (arith, at)) (λ b. refl)
        (λ inv. inv.started ∙ ap not fresh) (λ inv. inv.finished ∙ open_)

  pub unresponsive-Advances :
      is_answerable r.state ≡ true
      → Advances r (set_columns OperationState.engine_unresponsive no_updates r)
  unresponsive-Advances h =
      let (at, runs) = answerable_facts r.state h in
      let (_, _, open_, fresh) = running_facts r.state runs in
      later_stage r _ refl refl refl refl refl (omega (arith, at)) (λ b. refl)
        (λ inv. inv.started ∙ ap not fresh) (λ inv. inv.finished ∙ open_)

  pub fail-Advances :
      (text : String) (now : ℕ)
      → is_answerable r.state ≡ true
      → Advances r (
          set_columns OperationState.failed
            (record no_updates { error_json = some text; finished_at_ns = some now })
            r)
  fail-Advances text now h =
      let (at, runs) = answerable_facts r.state h in
      let (_, _, open_, fresh) = running_facts r.state runs in
      later_stage r _ refl refl refl refl refl (omega (arith, at)) (λ b. refl)
        (λ inv. inv.started ∙ ap not fresh) (λ inv. refl)

  pub reconcile-Advances :
      (text : String) (now : ℕ)
      → is_running r.state ≡ true
      → Advances r (
          set_columns OperationState.reconciliation_required
            (record no_updates { error_json = some text; finished_at_ns = some now })
            r)
  reconcile-Advances text now h =
      let (_, at, open_, fresh) = running_facts r.state h in
      later_stage r _ refl refl refl refl refl (omega (arith, at)) (λ b. refl)
        (λ inv. inv.started ∙ ap not fresh) (λ inv. refl)

  pub orphan-Advances :
      (now : ℕ)
      → is_running r.state ≡ true
      → Advances r (set_finished OperationState.reconciliation_required now r)
  orphan-Advances now h =
      let (_, at, open_, fresh) = running_facts r.state h in
      later_stage r _ refl refl refl refl refl (omega (arith, at)) (λ b. refl)
        (λ inv. inv.started ∙ ap not fresh) (λ inv. refl)

  pub completed_facts :
      (now : ℕ) (s : OperationState)
      → (stage (completed_state now r s) ≡ 4)
        × (is_terminal (completed_state now r s) ≡ true)
        × (is_unstarted (completed_state now r s) ≡ false)
  completed_facts now OperationState.engine_unresponsive = (refl, refl, refl)
  completed_facts now OperationState.client_timed_out = (refl, refl, refl)
  completed_facts now OperationState.queued = by_deadline (leb r.client_deadline_at_ns now)
  completed_facts now OperationState.cancelled_before_start =
      by_deadline (leb r.client_deadline_at_ns now)
  completed_facts now OperationState.in_flight = by_deadline (leb r.client_deadline_at_ns now)
  completed_facts now OperationState.completed = by_deadline (leb r.client_deadline_at_ns now)
  completed_facts now OperationState.completed_after_client_timeout =
      by_deadline (leb r.client_deadline_at_ns now)
  completed_facts now OperationState.failed = by_deadline (leb r.client_deadline_at_ns now)
  completed_facts now OperationState.reconciliation_required =
      by_deadline (leb r.client_deadline_at_ns now)

  pub complete-Advances :
      (text : String) (now : ℕ) → is_running r.state ≡ true → Advances r (set_completed text now r)
  complete-Advances text now h =
      let (_, at, open_, fresh) = running_facts r.state h in
      let (last_stage, closed, ran) = completed_facts now r.state in
      later_stage r _ refl refl refl refl refl (omega (arith, at, last_stage)) (λ b. ran)
        (λ inv. inv.started ∙ ap not fresh ∙ sym (ap not ran)) (λ inv. sym closed)
