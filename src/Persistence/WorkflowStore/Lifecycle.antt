-- ===== src/Persistence/WorkflowStore/Lifecycle.antt =====
-- The graph of `_LEGAL_TRANSITIONS`: a rank that grows along every edge, the states that no edge
-- leaves, and the one edge that leads to execution.
use powerfactory_mcp.Prelude.{
  ℕ, ◌<◌, String, ◌≡◌, refl, Bool, true, false, ◌&&◌, ◌||◌, not, ◌==◌, some, List, [], ◌∷◌, arith,
  ltb, eq_iff,
}
use powerfactory_mcp.Domain.Workflow.{WorkflowState}
use powerfactory_mcp.Persistence.WorkflowStore.Transitions.{
  Transition, legal_transitions, lookup, legal_transition,
}

-- How far a state is from `new`.
abbrev pub rank : WorkflowState → ℕ
rank WorkflowState.new = 0
rank WorkflowState.previewing = 1
rank WorkflowState.awaiting_authorization = 2
rank WorkflowState.abandoned = 3
rank WorkflowState.execution_admission = 3
rank WorkflowState.executing = 4
rank WorkflowState.calculating = 5
rank WorkflowState.reconciliation_required = 5
rank WorkflowState.verifying = 6
rank WorkflowState.failed_before_effect = 6
rank WorkflowState.quarantined = 6
rank WorkflowState.completed = 7
rank WorkflowState.rollback_previewing = 8
rank WorkflowState.awaiting_rollback_authorization = 9
rank WorkflowState.rollback_admission = 10
rank WorkflowState.rolling_back = 11
rank WorkflowState.rollback_verifying = 12
rank WorkflowState.rolled_back = 13

-- The states of a workflow whose work is over.
abbrev pub is_final : WorkflowState → Bool
is_final WorkflowState.abandoned = true
is_final WorkflowState.failed_before_effect = true
is_final WorkflowState.quarantined = true
is_final WorkflowState.rolled_back = true
is_final _ = false

-- The states before the authorization of an execution is admitted, with the end of an unauthorized
-- preview.
abbrev pub is_unadmitted : WorkflowState → Bool
is_unadmitted WorkflowState.new = true
is_unadmitted WorkflowState.previewing = true
is_unadmitted WorkflowState.awaiting_authorization = true
is_unadmitted WorkflowState.abandoned = true
is_unadmitted _ = false

all_of : (Transition → Bool) → List Transition → Bool
all_of p [] = true
all_of p (t ∷ ts) = p t && all_of p ts

lookup_all :
    (p : Transition → Bool) (name : String) (ts : List Transition) {t : Transition}
    → all_of p ts ≡ true
    → lookup name ts ≡ some t
    → (p t ≡ true) × (t.command ≡ name)
unfolding all_of lookup
lookup_all p name [] h e = cc
lookup_all p name (x ∷ ts) {t} h e =
    ground (arith, lookup_all p name ts {t = t}, eq_iff x.command name)

climbs : Transition → Bool
climbs t = ltb (rank t.source) (rank t.target)

-- Every legal transition leads to a higher rank.
pub legal_transition-rank :
    (name : String) {t : Transition}
    → legal_transition name ≡ some t
    → rank t.source < rank t.target
unfolding legal_transition legal_transitions climbs all_of
legal_transition-rank name {t} h =
    ground (arith, (lookup_all climbs name legal_transitions {t = t} refl h).0)

leaves : Transition → Bool
leaves t = not (is_final t.source)

-- No legal transition leaves a final state.
pub legal_transition-source :
    (name : String) {t : Transition} → legal_transition name ≡ some t → is_final t.source ≡ false
unfolding legal_transition legal_transitions leaves all_of
legal_transition-source name {t} h =
    ground (arith, (lookup_all leaves name legal_transitions {t = t} refl h).0)

admits : Transition → Bool
admits t =
    not (is_unadmitted t.source) || is_unadmitted t.target || (t.command == "admit_execution")

-- Only `admit_execution` leads from a state before admission to one behind it.
pub legal_transition-admits :
    (name : String) {t : Transition}
    → legal_transition name ≡ some t
    → is_unadmitted t.source ≡ true
    → is_unadmitted t.target ≡ false
    → (name == "admit_execution") ≡ true
unfolding legal_transition legal_transitions admits all_of
legal_transition-admits name {t} h before after =
    let (p, q) = lookup_all admits name legal_transitions {t = t} refl h in
    ground (
      arith,
      p,
      q,
      before,
      after,
      eq_iff t.command "admit_execution",
      eq_iff name "admit_execution",
    )
