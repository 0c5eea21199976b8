-- ===== src/Scenarios/Workflows.antt =====
-- The theorems on the workflow store, at the calls of one workflow.
use powerfactory_mcp.Persistence.WorkflowStore.Completion.{transition-completes}
use powerfactory_mcp.Persistence.WorkflowStore.Outcome.{advanced}
use powerfactory_mcp.Prelude.{false, ◌==◌, ◌++◌, ◌≡◌, refl, ◌<◌, ◌≤◌, ◌+◌, none, some, [], ◌∷◌}
use powerfactory_mcp.Errors.{
  ok, err, workflow_not_found, workflow_version_conflict, workflow_idempotency_conflict,
}
use powerfactory_mcp.Table.{find, any, count, update, insert}
use powerfactory_mcp.Domain.Values.Checks.{
  require_aware, require_uuid4, require_optional_uuid4, require_optional_text, require_text,
  require_positive, new_revision,
}
use powerfactory_mcp.Domain.Workflow.{IdempotentCommandRecord, WorkflowState, state_eq}
use powerfactory_mcp.Domain.Workflow.Checks.{
  new_workflow_record, new_command_record, new_audit_event,
}
use powerfactory_mcp.Persistence.Database.{
  Database, WorkflowRow, empty, transaction, checked, commit,
}
use powerfactory_mcp.Persistence.Writers.{
  command_clashes, command_at, insert_workflow_command, append_workflow_audit_event,
}
use powerfactory_mcp.Persistence.WorkflowStore.Transitions.{Transition, legal_transition}
use powerfactory_mcp.Persistence.WorkflowStore.Request.{check_request}
use powerfactory_mcp.Persistence.WorkflowStore.Build.{requested_event, command, build_transition}
use powerfactory_mcp.Persistence.WorkflowStore.Lifecycle.{rank}
use powerfactory_mcp.Persistence.WorkflowStore.{
  workflow_at, new_row, advance, workflow_row, insert_record, replay_or_apply, apply_transition,
  write_transition, compare_and_swap, transition, record_workflow,
}
use powerfactory_mcp.Persistence.History.{Call, step, run}
use powerfactory_mcp.Persistence.History.Steps.{Consistent, run-Consistent}
use powerfactory_mcp.Persistence.History.Retries.{
  retry-replays, reuse-conflicts, replaced_version-conflicts,
}
use powerfactory_mcp.Persistence.History.Progress.{
  of_workflow, admission_of, run-climbs, run-final, run-admitted,
}
use powerfactory_mcp.Scenarios.Data.{
  flow, new_flow, preview, ids_first, ids_second, recorded_calls, waiting_flow, abandoned_flow,
  admission,
}

abbrev db : Database
db = run recorded_calls empty

good : Consistent db
good = run-Consistent recorded_calls

run-Consistent_example : Consistent (run recorded_calls empty)
run-Consistent_example = run-Consistent recorded_calls

abbrev first_command : IdempotentCommandRecord
first_command = command (preview "key-1" "digest") ids_first new_flow

first_returns : (transition (preview "key-1" "digest") ids_first db).0 ≡ ok first_command
unfolding run step transition checked check_request require_aware legal_transition transaction
    replay_or_apply find new_workflow_record require_uuid4 require_optional_uuid4
    require_optional_text record_workflow insert_record insert any apply_transition workflow_row
    build_transition new_revision new_command_record new_audit_event require_text write_transition
    insert_workflow_command compare_and_swap count update append_workflow_audit_event commit
    require_positive state_eq
first_returns = refl

retry-replays_example :
    transition
      (preview "key-1" "digest")
      ids_second
      (run [] (step (Call.transition_call (preview "key-1" "digest") ids_first) db))
    ≡ (
      ok first_command,
      run [] (step (Call.transition_call (preview "key-1" "digest") ids_first) db),
    )
retry-replays_example =
    retry-replays (preview "key-1" "digest") ids_first db good [] ids_second first_command
      first_returns

abbrev after_first : Database
after_first = run [] (step (Call.transition_call (preview "key-1" "digest") ids_first) db)

abbrev start_preview : Transition
start_preview = record {
  command = "start_preview";
  source = WorkflowState.new;
  target = WorkflowState.previewing;
}

-- What the concrete tables hold, by computation.
first_facts :
    (find (command_at flow "key-1") db.workflow_commands ≡ none)
    × (find (command_at flow "key-2") after_first.workflow_commands ≡ none)
    × (find (workflow_at flow) db.workflow_records ≡ some (new_row new_flow))
    × (check_request (preview "key-1" "other") ≡ ok start_preview)
    × (check_request (preview "key-2" "digest") ≡ ok start_preview)
    × ((transition (preview "key-1" "digest") ids_first empty).0 ≡ err (workflow_not_found flow))
unfolding run step transition checked check_request require_aware legal_transition transaction
    replay_or_apply find new_workflow_record require_uuid4 require_optional_uuid4
    require_optional_text record_workflow insert_record insert any apply_transition workflow_row
    build_transition new_revision new_command_record new_audit_event require_text write_transition
    insert_workflow_command compare_and_swap count update append_workflow_audit_event commit
    require_positive state_eq
first_facts = (refl, refl, refl, refl, refl, refl)

reuse-conflicts_example :
    transition (preview "key-1" "other") ids_second after_first
    ≡ (err (workflow_idempotency_conflict flow "key-1"), after_first)
reuse-conflicts_example =
    reuse-conflicts (preview "key-1" "digest") ids_first db good [] (preview "key-1" "other")
      ids_second start_preview first_command first_returns first_facts.3 refl refl refl

replaced_version-conflicts_example :
    (row : WorkflowRow) × (find (workflow_at flow) after_first.workflow_records ≡ some row)
    × (0 < row.workflow_version_counter)
    × (transition (preview "key-2" "digest") ids_second after_first ≡ (
      err (
          workflow_version_conflict flow
            (record { scope_id = flow; counter = 0 })
            row.record_json.workflow_version),
      after_first,
    ))
replaced_version-conflicts_example =
    replaced_version-conflicts (preview "key-1" "digest") ids_first db good []
      (preview "key-2" "digest") ids_second start_preview first_command first_returns first_facts.0
      first_facts.4 refl refl first_facts.1

run-climbs_example :
    (row : WorkflowRow) × (find (workflow_at flow) after_first.workflow_records ≡ some row)
    × (row.workflow_version_counter + count (of_workflow flow) db.workflow_commands
        ≡ 0 + count (of_workflow flow) after_first.workflow_commands)
    × (row.workflow_version_counter + 0 ≤ 0 + rank row.state)
unfolding run
run-climbs_example =
    run-climbs (Call.transition_call (preview "key-1" "digest") ids_first ∷ []) db flow
      (new_row new_flow) good first_facts.2

abbrev waiting : Database
waiting = run (Call.record_call waiting_flow ∷ []) empty

abbrev abandoned : Database
abandoned = run (Call.record_call abandoned_flow ∷ []) empty

abbrev admitted : Database
admitted = run (Call.transition_call admission ids_first ∷ []) waiting

later_facts :
    (find (workflow_at flow) abandoned.workflow_records ≡ some (new_row abandoned_flow))
    × (find (workflow_at flow) waiting.workflow_records ≡ some (new_row waiting_flow))
    × (find (workflow_at flow) admitted.workflow_records
        ≡ some (advance admission ids_first waiting_flow (new_row waiting_flow)))
unfolding run step transition checked check_request require_aware legal_transition transaction
    replay_or_apply find new_workflow_record require_uuid4 require_optional_uuid4
    require_optional_text record_workflow insert_record insert any apply_transition workflow_row
    build_transition new_revision new_command_record new_audit_event require_text write_transition
    insert_workflow_command compare_and_swap count update append_workflow_audit_event commit
    require_positive state_eq
later_facts = (refl, refl, refl)

run-final_example :
    find
      (workflow_at flow)
      (run
        (Call.transition_call (preview "key-1" "digest") ids_first ∷ [])
        abandoned).workflow_records
    ≡ some (new_row abandoned_flow)
run-final_example =
    run-final (Call.transition_call (preview "key-1" "digest") ids_first ∷ []) abandoned flow
      (new_row abandoned_flow) (run-Consistent (Call.record_call abandoned_flow ∷ [])) later_facts.0
      refl

run-admitted_example : 1 ≤ count (admission_of flow) admitted.workflow_commands
run-admitted_example =
    run-admitted (Call.transition_call admission ids_first ∷ []) waiting flow (new_row waiting_flow)
      (run-Consistent (Call.record_call waiting_flow ∷ [])) later_facts.1
      (advance admission ids_first waiting_flow (new_row waiting_flow)) refl later_facts.2 refl

build_facts :
    (build_transition (preview "key-1" "digest") ids_first new_flow ≡ ok tt)
    × (any (command_clashes first_command) db.workflow_commands ≡ false)
    × (any (λ e. e.event_id == ids_first.requested_event_id) db.workflow_audit_events ≡ false)
    × (any
          (λ e. e.event_id == ids_first.transitioned_event_id)
          (db.workflow_audit_events
            ++ requested_event (preview "key-1" "digest") ids_first new_flow ∷ [])
        ≡ false)
    × (check_request (preview "key-1" "digest") ≡ ok start_preview)
unfolding run step checked check_request require_aware legal_transition transaction any
    new_workflow_record require_uuid4 require_optional_uuid4 require_optional_text record_workflow
    insert_record insert build_transition new_revision new_command_record new_audit_event
    require_text commit require_positive
build_facts = (refl, refl, refl, refl, refl)

transition-completes_example :
    transition (preview "key-1" "digest") ids_first db
    ≡ (ok first_command, advanced (preview "key-1" "digest") ids_first new_flow db)
transition-completes_example =
    transition-completes (preview "key-1" "digest") ids_first db start_preview (new_row new_flow)
      good.workflows build_facts.4 first_facts.0 first_facts.2 refl refl refl build_facts.0
      build_facts.1 build_facts.2 build_facts.3
