-- ===== src/Persistence/WorkflowStore/Invariant.antt =====
-- What holds of the workflow tables between two calls, whatever the calls are.
use mathlib.Core.Option
use powerfactory_mcp.Prelude.{
  ◌≢◌, ℕ, ◌≤◌, String, ◌≡◌, refl, ap, ◌∙◌, Bool, true, ◌&&◌, ◌==◌, nat_eq, nat_eq_iff, Option, none,
  some, [], ◌∷◌, ◌++◌, arith, eq_iff, if◌then◌else◌,
}
use powerfactory_mcp.Table.{find, count, update, find-update, find-fits}
use powerfactory_mcp.Domain.Workflow.{WorkflowRecord, IdempotentCommandRecord}
use powerfactory_mcp.Persistence.Database.{Database, WorkflowRow}
use powerfactory_mcp.Persistence.Writers.{command_at}
use powerfactory_mcp.Persistence.WorkflowStore.Request.{TransitionRequest}
use powerfactory_mcp.Persistence.WorkflowStore.Build.{TransitionIds, command}
use powerfactory_mcp.Persistence.WorkflowStore.{workflow_at, new_row, expected_row, advance}
use powerfactory_mcp.Persistence.WorkflowStore.Outcome.{Advanced}

-- What one call, of any store, may do to the workflow tables.
pub data Move (db db' : Database) : Type 0 where
  kept :
      db'.workflow_records ≡ db.workflow_records
      → db'.workflow_commands ≡ db.workflow_commands
      → Move db db'
  recorded :
      (w : WorkflowRecord)
      → find (workflow_at w.workflow_id) db.workflow_records ≡ none
      → w.workflow_version.scope_id ≡ w.workflow_id
      → db'.workflow_records ≡ db.workflow_records ++ new_row w ∷ []
      → db'.workflow_commands ≡ db.workflow_commands
      → Move db db'
  moved :
      (q : TransitionRequest) (ids : TransitionIds) (c : IdempotentCommandRecord)
      → Advanced q ids db c db'
      → Move db db'

-- The columns of a row are those of the record beside them.
pub record IsRow (r : WorkflowRow) : Type 0 where
  pub same_id : r.record_json.workflow_id ≡ r.workflow_id
  pub same_scope : r.record_json.workflow_version.scope_id ≡ r.workflow_id
  pub same_counter : r.record_json.workflow_version.counter ≡ r.workflow_version_counter
  pub same_state : r.record_json.state ≡ r.state

-- A command of the workflow that replaced the version `n`.
abbrev pub replaces : String → ℕ → IdempotentCommandRecord → Bool
replaces workflow_id n c =
    c.workflow_id == workflow_id && nat_eq c.expected_workflow_version.counter n

-- The workflow's version counter, or 0 before it is recorded.
abbrev pub counter_of : Option WorkflowRow → ℕ
counter_of none = 0
counter_of (some r) = r.workflow_version_counter

pub record Inv (db : Database) : Type 0 where
  pub one_row : (w : String) → count (workflow_at w) db.workflow_records ≤ 1
  pub rows :
      (w : String) (r : WorkflowRow) → find (workflow_at w) db.workflow_records ≡ some r → IsRow r
  pub one_per_key : (w key : String) → count (command_at w key) db.workflow_commands ≤ 1
  pub one_per_version : (w : String) (n : ℕ) → count (replaces w n) db.workflow_commands ≤ 1
  pub current_free :
      (w : String) (n : ℕ)
      → counter_of (find (workflow_at w) db.workflow_records) ≤ n
      → count (replaces w n) db.workflow_commands ≡ 0

-- The row of a workflow after a step: the step's own workflow has the advanced row.
module _ {q : TransitionRequest} {ids : TransitionIds} {db db' : Database}
    {c : IdempotentCommandRecord} (a : Advanced q ids db c db') (inv : Inv db) where
  expected : expected_row q a.row ≡ true
  expected = ground (
    arith,
    inv.rows q.workflow_id a.row a.found,
    find-fits (workflow_at q.workflow_id) db.workflow_records a.found,
    nat_eq_iff a.row.workflow_version_counter q.expected_workflow_version.counter,
    ap (λ v. v.counter) a.version,
  )

  pub records_written :
      db'.workflow_records
      ≡ update (expected_row q) (advance q ids a.row.record_json) db.workflow_records
  records_written = ap (λ d. d.workflow_records) a.written

  pub commands_written :
      db'.workflow_commands ≡ db.workflow_commands ++ command q ids a.row.record_json ∷ []
  commands_written = ap (λ d. d.workflow_commands) a.written

  find_written :
      (w : String)
      → find (workflow_at w) db'.workflow_records
        ≡ Option.map
            (λ r. if expected_row q r then advance q ids a.row.record_json r else r)
            (find (workflow_at w) db.workflow_records)
  find_written w = rw records_written (
      find-update (workflow_at w) (expected_row q) (advance q ids a.row.record_json) (λ r _. refl)
        db.workflow_records)

  pub find-advanced :
      find (workflow_at q.workflow_id) db'.workflow_records
      ≡ some (advance q ids a.row.record_json a.row)
  find-advanced = rw (find_written q.workflow_id, a.found) (ground (arith, expected))

  other_kept :
      (w : String) (o : Option WorkflowRow)
      → ((r : WorkflowRow) → o ≡ some r → r.workflow_id ≡ w)
      → q.workflow_id ≢ w
      → Option.map (λ r. if expected_row q r then advance q ids a.row.record_json r else r) o ≡ o
  other_kept w none fits other = refl
  other_kept w (some r) fits other = ground (arith, fits r refl, eq_iff r.workflow_id q.workflow_id)

  -- Every other workflow keeps its row.
  pub find_other :
      (w : String)
      → q.workflow_id ≢ w
      → find (workflow_at w) db'.workflow_records ≡ find (workflow_at w) db.workflow_records
  find_other w other =
      find_written w
      ∙ other_kept w (find (workflow_at w) db.workflow_records)
          (λ r e. (eq_iff r.workflow_id w).0 (find-fits (workflow_at w) db.workflow_records e))
          other
