-- ===== src/Persistence/WorkflowStore/Completion.antt =====
-- A transition whose conditions hold is made: the guarded update hits its one row.
use powerfactory_mcp.Prelude.{
  String, ◌≡◌, refl, ap, ◌∙◌, Bool, true, false, ◌==◌, nat_eq_iff, none, some, [], ◌∷◌, ◌++◌, arith,
  eq_iff,
}
use powerfactory_mcp.Errors.{ok}
use powerfactory_mcp.Table.{find, any, count, update, insert, find-fits}
use powerfactory_mcp.Table.Counts.{count-find, count_mono}
use powerfactory_mcp.Domain.Values.{revision_eq}
use powerfactory_mcp.Domain.Workflow.{
  WorkflowRecord, IdempotentCommandRecord, AuditEvent, state_eq_iff,
}
use powerfactory_mcp.Persistence.Database.{Database, WorkflowRow, commit, bind_ok}
use powerfactory_mcp.Persistence.Writers.{
  command_at, command_clashes, insert_workflow_command, append_workflow_audit_event,
}
use powerfactory_mcp.Persistence.WorkflowStore.Transitions.{Transition}
use powerfactory_mcp.Persistence.WorkflowStore.Request.{TransitionRequest, check_request}
use powerfactory_mcp.Persistence.WorkflowStore.Build.{
  TransitionIds, command, requested_event, transitioned_event, build_transition,
}
use powerfactory_mcp.Persistence.WorkflowStore.{
  workflow_at, advance, workflow_row, expected_row, compare_and_swap, write_transition,
  apply_transition, replay_or_apply, transition,
}
use powerfactory_mcp.Persistence.WorkflowStore.Outcome.{advanced}
use powerfactory_mcp.Persistence.WorkflowStore.Invariant.{Inv}
use powerfactory_mcp.Persistence.WorkflowStore.Idempotency.{transition-at}

abbrev event_at : String → AuditEvent → Bool
event_at event_id e = e.event_id == event_id

-- The one row that the guarded update hits.
one_expected :
    (q : TransitionRequest) (db : Database) (row : WorkflowRow)
    → Inv db
    → find (workflow_at q.workflow_id) db.workflow_records ≡ some row
    → row.record_json.workflow_version ≡ q.expected_workflow_version
    → count (expected_row q) db.workflow_records ≡ 1
one_expected q db row inv found version = omega (
  arith,
  count-find (workflow_at q.workflow_id) (expected_row q) db.workflow_records found hit,
  count_mono (workflow_at q.workflow_id) (expected_row q) (λ r h. ground (arith, h))
      db.workflow_records,
  inv.one_row q.workflow_id,
)
  where
    hit : expected_row q row ≡ true
    hit = ground (
      arith,
      find-fits (workflow_at q.workflow_id) db.workflow_records found,
      (inv.rows q.workflow_id row found).same_counter,
      ap (λ v. v.counter) version,
      nat_eq_iff row.workflow_version_counter q.expected_workflow_version.counter,
    )

-- Each write, where its constraint holds.
command_inserted :
    (c : IdempotentCommandRecord) (db : Database)
    → any (command_clashes c) db.workflow_commands ≡ false
    → insert_workflow_command c db
      ≡ ok (tt, record db { workflow_commands = db.workflow_commands ++ c ∷ [] })
unfolding insert_workflow_command insert
command_inserted c db h = ground (arith, h)

event_appended :
    (e : AuditEvent) (db : Database)
    → any (event_at e.event_id) db.workflow_audit_events ≡ false
    → append_workflow_audit_event e db
      ≡ ok (e, record db { workflow_audit_events = db.workflow_audit_events ++ e ∷ [] })
unfolding append_workflow_audit_event insert
event_appended e db h = ground (arith, h)

version_swapped :
    (q : TransitionRequest) (ids : TransitionIds) (previous : WorkflowRecord) (db : Database)
    → count (expected_row q) db.workflow_records ≡ 1
    → compare_and_swap q ids previous db
      ≡ ok (
        tt,
        record db {
          workflow_records = update (expected_row q) (advance q ids previous) db.workflow_records;
        },
      )
unfolding compare_and_swap
version_swapped q ids previous db h = rw h refl

write_transition-advanced :
    (q : TransitionRequest) (ids : TransitionIds) (previous : WorkflowRecord) (db : Database)
    → any (command_clashes (command q ids previous)) db.workflow_commands ≡ false
    → count (expected_row q) db.workflow_records ≡ 1
    → any (event_at ids.requested_event_id) db.workflow_audit_events ≡ false
    → any
        (event_at ids.transitioned_event_id)
        (db.workflow_audit_events ++ requested_event q ids previous ∷ [])
      ≡ false
    → write_transition q ids previous db ≡ ok (command q ids previous, advanced q ids previous db)
unfolding write_transition
write_transition-advanced q ids previous db unclashed one fresh fresh' =
    bind_ok (insert_workflow_command (command q ids previous)) _ db
      (command_inserted (command q ids previous) db unclashed)
    ∙ bind_ok (compare_and_swap q ids previous) _ db1 (version_swapped q ids previous db1 one)
    ∙ bind_ok (append_workflow_audit_event (requested_event q ids previous)) _ db2
        (event_appended (requested_event q ids previous) db2 fresh)
    ∙ bind_ok (append_workflow_audit_event (transitioned_event q ids previous)) _ db3
        (event_appended (transitioned_event q ids previous) db3 fresh')
  where
    db1 : Database
    db1 = record db { workflow_commands = db.workflow_commands ++ command q ids previous ∷ [] }

    db2 : Database
    db2 = record db1 {
      workflow_records = update (expected_row q) (advance q ids previous) db.workflow_records;
    }

    db3 : Database
    db3 = record db2 {
      workflow_audit_events = db.workflow_audit_events ++ requested_event q ids previous ∷ [];
    }

-- On workflow tables that keep the invariant, a transition is made when its checks pass, no command
-- holds its key, the workflow's row has the expected version, its command leads from the row's
-- state to the target, the values that it builds are valid and its identifiers are new: it returns
-- its command, and its effect is the new row, the command and the two audit events, and no other.
pub transition-completes :
    (q : TransitionRequest) (ids : TransitionIds) (db : Database) (legal : Transition)
    (row : WorkflowRow)
    → Inv db
    → check_request q ≡ ok legal
    → find (command_at q.workflow_id q.idempotency_key) db.workflow_commands ≡ none
    → find (workflow_at q.workflow_id) db.workflow_records ≡ some row
    → row.record_json.workflow_version ≡ q.expected_workflow_version
    → legal.source ≡ row.record_json.state
    → legal.target ≡ q.target_state
    → build_transition q ids row.record_json ≡ ok tt
    → any (command_clashes (command q ids row.record_json)) db.workflow_commands ≡ false
    → any (event_at ids.requested_event_id) db.workflow_audit_events ≡ false
    → any
        (event_at ids.transitioned_event_id)
        (db.workflow_audit_events ++ requested_event q ids row.record_json ∷ [])
      ≡ false
    → transition q ids db ≡ (ok (command q ids row.record_json), advanced q ids row.record_json db)
unfolding replay_or_apply apply_transition workflow_row commit
transition-completes q ids db legal row inv known free found version source target built unclashed
      fresh fresh' =
    transition-at q ids db none known free
    ∙ ground (
      arith,
      found,
      same_version,
      (state_eq_iff legal.source row.record_json.state).1 source,
      (state_eq_iff legal.target q.target_state).1 target,
      built,
      write_transition-advanced q ids row.record_json db unclashed
          (one_expected q db row inv found version) fresh fresh',
    )
  where
    same_version : revision_eq row.record_json.workflow_version q.expected_workflow_version ≡ true
    same_version = ground (
      arith,
      version,
      eq_iff row.record_json.workflow_version.scope_id q.expected_workflow_version.scope_id,
      nat_eq_iff row.record_json.workflow_version.counter q.expected_workflow_version.counter,
    )
