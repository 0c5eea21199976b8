-- ===== src/Persistence/WorkflowStore/Transitions.antt =====
-- `_LEGAL_TRANSITIONS` of persistence/workflow_store.py.
use powerfactory_mcp.Prelude.{String, ◌==◌, Option, none, some, List, [], ◌∷◌, if◌then◌else◌}
use powerfactory_mcp.Domain.Workflow.{WorkflowState}

-- An entry: the command's name, the state that it leaves and the state that it enters.
pub record Transition : Type 0 where
  pub command : String
  pub source : WorkflowState
  pub target : WorkflowState

abbrev from_to : String → WorkflowState → WorkflowState → Transition
from_to name a b = record { command = name; source = a; target = b }

unfoldable pub legal_transitions : List Transition
legal_transitions =
    from_to "start_preview" WorkflowState.new WorkflowState.previewing
    ∷ from_to "record_preview" WorkflowState.previewing WorkflowState.awaiting_authorization
    ∷ from_to "reject_or_expire_preview" WorkflowState.awaiting_authorization
        WorkflowState.abandoned
    ∷ from_to "admit_execution" WorkflowState.awaiting_authorization
        WorkflowState.execution_admission
    ∷ from_to "start_execution" WorkflowState.execution_admission WorkflowState.executing
    ∷ from_to "start_calculation" WorkflowState.executing WorkflowState.calculating
    ∷ from_to "start_verification" WorkflowState.calculating WorkflowState.verifying
    ∷ from_to "complete" WorkflowState.verifying WorkflowState.completed
    ∷ from_to "fail_before_effect" WorkflowState.executing WorkflowState.failed_before_effect
    ∷ from_to "require_reconciliation" WorkflowState.executing WorkflowState.reconciliation_required
    ∷ from_to "recover_no_effect" WorkflowState.reconciliation_required
        WorkflowState.failed_before_effect
    ∷ from_to "quarantine" WorkflowState.reconciliation_required WorkflowState.quarantined
    ∷ from_to "start_rollback_preview" WorkflowState.completed WorkflowState.rollback_previewing
    ∷ from_to "record_rollback_preview" WorkflowState.rollback_previewing
        WorkflowState.awaiting_rollback_authorization
    ∷ from_to "admit_rollback" WorkflowState.awaiting_rollback_authorization
        WorkflowState.rollback_admission
    ∷ from_to "start_rollback" WorkflowState.rollback_admission WorkflowState.rolling_back
    ∷ from_to "start_rollback_verification" WorkflowState.rolling_back
        WorkflowState.rollback_verifying
    ∷ from_to "complete_rollback" WorkflowState.rollback_verifying WorkflowState.rolled_back
    ∷ []

unfoldable pub lookup : String → List Transition → Option Transition
lookup name [] = none
lookup name (t ∷ ts) = if t.command == name then some t else lookup name ts

-- `_LEGAL_TRANSITIONS.get(command_name)`.
unfoldable pub legal_transition : String → Option Transition
unfolding lookup legal_transitions
legal_transition name = lookup name legal_transitions
