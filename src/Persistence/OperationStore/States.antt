-- ===== src/Persistence/OperationStore/States.antt =====
-- The order of the states of an operation.
use powerfactory_mcp.Prelude.{ℕ, ◌≤◌, ◌≡◌, refl, Bool, true, false, arith}
use powerfactory_mcp.Domain.Operation.{OperationState, is_terminal}
use powerfactory_mcp.Persistence.OperationStore.{is_queued, is_in_flight, is_answerable, is_running}

-- How far an operation is; a terminal state is the last stage.
abbrev pub stage : OperationState → ℕ
stage OperationState.queued = 0
stage OperationState.in_flight = 1
stage OperationState.client_timed_out = 2
stage OperationState.engine_unresponsive = 3
stage _ = 4

-- The operation was never handed to its handler.
abbrev pub is_unstarted : OperationState → Bool
is_unstarted OperationState.queued = true
is_unstarted OperationState.cancelled_before_start = true
is_unstarted _ = false

-- What the tests of the methods admit.
pub queued_facts :
    (s : OperationState)
    → is_queued s ≡ true
    → (stage s ≡ 0) × (is_terminal s ≡ false) × (is_unstarted s ≡ true)
queued_facts OperationState.queued h = (refl, refl, refl)
queued_facts OperationState.cancelled_before_start h = cc
queued_facts OperationState.in_flight h = cc
queued_facts OperationState.client_timed_out h = cc
queued_facts OperationState.completed h = cc
queued_facts OperationState.completed_after_client_timeout h = cc
queued_facts OperationState.failed h = cc
queued_facts OperationState.engine_unresponsive h = cc
queued_facts OperationState.reconciliation_required h = cc

pub running_facts :
    (s : OperationState)
    → is_running s ≡ true
    → (1 ≤ stage s) × (stage s ≤ 3) × (is_terminal s ≡ false) × (is_unstarted s ≡ false)
running_facts OperationState.queued h = cc
running_facts OperationState.cancelled_before_start h = cc
running_facts OperationState.in_flight h = (omega arith, omega arith, refl, refl)
running_facts OperationState.client_timed_out h = (omega arith, omega arith, refl, refl)
running_facts OperationState.completed h = cc
running_facts OperationState.completed_after_client_timeout h = cc
running_facts OperationState.failed h = cc
running_facts OperationState.engine_unresponsive h = (omega arith, omega arith, refl, refl)
running_facts OperationState.reconciliation_required h = cc

pub in_flight_facts :
    (s : OperationState) → is_in_flight s ≡ true → (stage s ≡ 1) × (is_running s ≡ true)
in_flight_facts OperationState.queued h = cc
in_flight_facts OperationState.cancelled_before_start h = cc
in_flight_facts OperationState.in_flight h = (refl, refl)
in_flight_facts OperationState.client_timed_out h = cc
in_flight_facts OperationState.completed h = cc
in_flight_facts OperationState.completed_after_client_timeout h = cc
in_flight_facts OperationState.failed h = cc
in_flight_facts OperationState.engine_unresponsive h = cc
in_flight_facts OperationState.reconciliation_required h = cc

pub answerable_facts :
    (s : OperationState) → is_answerable s ≡ true → (stage s ≤ 2) × (is_running s ≡ true)
answerable_facts OperationState.queued h = cc
answerable_facts OperationState.cancelled_before_start h = cc
answerable_facts OperationState.in_flight h = (omega arith, refl)
answerable_facts OperationState.client_timed_out h = (omega arith, refl)
answerable_facts OperationState.completed h = cc
answerable_facts OperationState.completed_after_client_timeout h = cc
answerable_facts OperationState.failed h = cc
answerable_facts OperationState.engine_unresponsive h = cc
answerable_facts OperationState.reconciliation_required h = cc

-- A terminal state has the last stage, and only the queued one the first.
pub stage_bounds :
    (s : OperationState)
    → (stage s ≤ 4) × (is_terminal s ≡ true → stage s ≡ 4) × (is_queued s ≡ true → stage s ≡ 0)
stage_bounds OperationState.queued = (omega arith, (λ h. cc), (λ h. refl))
stage_bounds OperationState.cancelled_before_start = (omega arith, (λ h. refl), (λ h. cc))
stage_bounds OperationState.in_flight = (omega arith, (λ h. cc), (λ h. cc))
stage_bounds OperationState.client_timed_out = (omega arith, (λ h. cc), (λ h. cc))
stage_bounds OperationState.completed = (omega arith, (λ h. refl), (λ h. cc))
stage_bounds OperationState.completed_after_client_timeout = (omega arith, (λ h. refl), (λ h. cc))
stage_bounds OperationState.failed = (omega arith, (λ h. refl), (λ h. cc))
stage_bounds OperationState.engine_unresponsive = (omega arith, (λ h. cc), (λ h. cc))
stage_bounds OperationState.reconciliation_required = (omega arith, (λ h. refl), (λ h. cc))
