-- ===== src/Persistence/History/Growth.antt =====
-- What only grows along a history: the stored commands and the fencing counters.
use powerfactory_mcp.Prelude.{
  ◌+◌, ◌≤◌, String, ◌≡◌, ap, sym, ◌∙◌, Bool, some, List, [], ◌∷◌, ◌++◌, arith,
}
use mathlib.Core.List.{append-nil}
use powerfactory_mcp.Table.{find, count, find-append}
use powerfactory_mcp.Table.Counts.{count-append}
use powerfactory_mcp.Domain.Workflow.{IdempotentCommandRecord}
use powerfactory_mcp.Persistence.Database.{Database}
use powerfactory_mcp.Persistence.WorkflowStore.Build.{command}
use powerfactory_mcp.Persistence.WorkflowStore.Invariant.{Move, kept, recorded, moved}
use powerfactory_mcp.Persistence.LeaseStore.Invariant.{last}
use powerfactory_mcp.Persistence.LeaseStore.Preservation.{LeaseMove-last}
use powerfactory_mcp.Persistence.History.Steps.{Trail, stop, next}

-- The commands after a move: those before it, and what the move added.
pub Move-commands :
    {db db' : Database}
    → Move db db'
    → (cs : List IdempotentCommandRecord) × (db'.workflow_commands ≡ db.workflow_commands ++ cs)
Move-commands {db} (kept rs e) = ([], e ∙ sym (append-nil db.workflow_commands))
Move-commands {db} (recorded w absent scope rs e) = ([], e ∙ sym (append-nil db.workflow_commands))
Move-commands (moved q ids c a) =
    (command q ids a.row.record_json ∷ [], ap (λ d. d.workflow_commands) a.written)

pub Trail-command :
    {db db' : Database}
    → Trail db db'
    → (p : IdempotentCommandRecord → Bool) (c : IdempotentCommandRecord)
    → find p db.workflow_commands ≡ some c
    → find p db'.workflow_commands ≡ some c
Trail-command stop p c h = h
Trail-command (next {db = db} {db1 = db1} m l t) p c h =
    let (cs, e) = Move-commands m in
    Trail-command t p c (rw e (ground (arith, find-append p db.workflow_commands cs, h)))

pub Trail-count :
    {db db' : Database}
    → Trail db db'
    → (p : IdempotentCommandRecord → Bool)
    → count p db.workflow_commands ≤ count p db'.workflow_commands
Trail-count stop p = omega arith
Trail-count (next {db = db} {db1 = db1} m l t) p =
    let (cs, e) = Move-commands m in
    let more : count p db1.workflow_commands ≡ count p db.workflow_commands + count p cs =
      rw e (count-append p db.workflow_commands cs) in
    omega (arith, more, Trail-count t p)

pub Trail-last : {db db' : Database} → Trail db db' → (d k : String) → last d k db ≤ last d k db'
Trail-last stop d k = omega arith
Trail-last (next {db = db} {db1 = db1} {db2 = db2} m l t) d k =
    omega (arith, LeaseMove-last l d k, Trail-last t d k)
