-- ===== src/Persistence/History/Retries.antt =====
-- Retries of `WorkflowStore.transition`, with any calls in between.
use powerfactory_mcp.Prelude.{
  ◌<◌, ◌≤◌, ◌≡◌, refl, ◌∙◌, true, false, ◌&&◌, ◌==◌, nat_eq_iff, Option, none, some, List, arith,
  eq_iff, inl, inr, Bool-cases, ltb,
}
use powerfactory_mcp.Errors.{ok, err, workflow_version_conflict, workflow_idempotency_conflict}
use powerfactory_mcp.Table.{find, count}
use powerfactory_mcp.Table.Counts.{count-find}
use powerfactory_mcp.Domain.Values.{revision_eq}
use powerfactory_mcp.Domain.Workflow.{IdempotentCommandRecord}
use powerfactory_mcp.Persistence.Database.{Database, WorkflowRow}
use powerfactory_mcp.Persistence.Writers.{command_at}
use powerfactory_mcp.Persistence.WorkflowStore.Transitions.{Transition}
use powerfactory_mcp.Persistence.WorkflowStore.Request.{TransitionRequest, check_request}
use powerfactory_mcp.Persistence.WorkflowStore.Build.{TransitionIds}
use powerfactory_mcp.Persistence.WorkflowStore.{workflow_at, transition}
use powerfactory_mcp.Persistence.WorkflowStore.Outcome.{transition-eq-ok}
use powerfactory_mcp.Persistence.WorkflowStore.Invariant.{replaces, counter_of}
use powerfactory_mcp.Persistence.WorkflowStore.Idempotency.{
  StoredFor, transition-StoredFor, transition-again, transition-misused, transition_stale,
}
use powerfactory_mcp.Persistence.History.{Call, step, run}
use powerfactory_mcp.Persistence.History.Steps.{
  Consistent, run-Trail, step-Trail, Trail-Consistent, Trail,
}
use powerfactory_mcp.Persistence.History.Growth.{Trail-command, Trail-count}

module _ (q : TransitionRequest) (ids : TransitionIds) (db : Database) (good : Consistent db)
    (calls : List Call) where
  abbrev pub later : Database
  later = run calls (step (Call.transition_call q ids) db)

  after : Consistent (step (Call.transition_call q ids) db)
  after = Trail-Consistent (step-Trail (Call.transition_call q ids) db good) good

  pub later-Trail : Trail (step (Call.transition_call q ids) db) later
  later-Trail = run-Trail calls (step (Call.transition_call q ids) db) after

  pub later-Consistent : Consistent later
  later-Consistent = Trail-Consistent later-Trail after

  stored_later :
      {c : IdempotentCommandRecord} → (transition q ids db).0 ≡ ok c → StoredFor q later c
  unfolding step
  stored_later {c} h =
      let s = transition-StoredFor q ids db h in
      record {
        legal = s.legal;
        known = s.known;
        stored = Trail-command later-Trail (command_at q.workflow_id q.idempotency_key) c s.stored;
        same_name = s.same_name;
        same_digest = s.same_digest;
      }

  -- From consistent tables, a transition that returned a command returns the same one when it is
  -- retried, whatever calls were made in between and whatever identifiers the retry would draw, and
  -- the retry changes no row.
  pub retry-replays :
      (again : TransitionIds) (c : IdempotentCommandRecord)
      → (transition q ids db).0 ≡ ok c
      → transition q again later ≡ (ok c, later)
  retry-replays again c h = transition-again q again later (stored_later h)

  -- From consistent tables, once a transition has returned, a later call that passes its checks and
  -- reuses the idempotency key for another command name or another request digest raises the
  -- idempotency conflict and changes no row.
  pub reuse-conflicts :
      (other : TransitionRequest) (again : TransitionIds) (legal : Transition)
      (c : IdempotentCommandRecord)
      → (transition q ids db).0 ≡ ok c
      → check_request other ≡ ok legal
      → other.workflow_id ≡ q.workflow_id
      → other.idempotency_key ≡ q.idempotency_key
      → (q.command_name == other.command_name && q.request_digest == other.request_digest) ≡ false
      → transition other again later
        ≡ (err (workflow_idempotency_conflict q.workflow_id q.idempotency_key), later)
  reuse-conflicts other again legal c h known same_workflow same_key differs =
      let s = stored_later h in
      transition-misused other again later {c = c} known (cc (s.stored, same_workflow, same_key))
        (cc (s.same_name, s.same_digest, differs))
      ∙ cc (same_workflow, same_key)

  replaced_once :
      {c : IdempotentCommandRecord}
      → (transition q ids db).0 ≡ ok c
      → find (command_at q.workflow_id q.idempotency_key) db.workflow_commands ≡ none
      → 1
        ≤ count (replaces q.workflow_id q.expected_workflow_version.counter) later.workflow_commands
  unfolding step
  replaced_once {c} h fresh =
      let s = transition-StoredFor q ids db h in
      let made : 1
          ≤ count (replaces q.workflow_id q.expected_workflow_version.counter)
              (transition q ids db).1.workflow_commands =
        count-find (command_at q.workflow_id q.idempotency_key)
          (replaces q.workflow_id q.expected_workflow_version.counter)
          (transition q ids db).1.workflow_commands s.stored fits in
      omega (
        arith,
        made,
        Trail-count later-Trail (replaces q.workflow_id q.expected_workflow_version.counter),
      )
    where
      fits : replaces q.workflow_id q.expected_workflow_version.counter c ≡ true
      fits = elim (transition-eq-ok q ids db h) [
        | inl r ↦ absurd (cc (r.stored, fresh))
        | inr a ↦ ground (
          arith,
          a.recorded,
          eq_iff q.workflow_id q.workflow_id,
          nat_eq_iff q.expected_workflow_version.counter q.expected_workflow_version.counter,
        )
      ]

  counter_beyond :
      (o : Option WorkflowRow)
      → find (workflow_at q.workflow_id) later.workflow_records ≡ o
      → q.expected_workflow_version.counter < counter_of o
      → (row : WorkflowRow) × (find (workflow_at q.workflow_id) later.workflow_records ≡ some row)
        × (q.expected_workflow_version.counter < row.workflow_version_counter)
  counter_beyond none e h = absurd (omega (arith, h))
  counter_beyond (some row) e h = (row, e, h)

  passed :
      {c : IdempotentCommandRecord}
      → (transition q ids db).0 ≡ ok c
      → find (command_at q.workflow_id q.idempotency_key) db.workflow_commands ≡ none
      → q.expected_workflow_version.counter
        < counter_of (find (workflow_at q.workflow_id) later.workflow_records)
  passed h fresh =
      elim (Bool-cases (
        ltb q.expected_workflow_version.counter
          (counter_of (find (workflow_at q.workflow_id) later.workflow_records)))) [
            | inl beyond ↦ ground (arith, beyond)
            | inr within ↦
                let none_left =
                  later-Consistent.workflows.current_free q.workflow_id
                    q.expected_workflow_version.counter (ground (arith, within)) in
                absurd (omega (arith, replaced_once h fresh, none_left))
          ]

  -- No update is lost: from consistent tables, once a transition with a fresh idempotency key has
  -- returned, every later call for the same workflow that passes its checks under a key that no
  -- command holds, and that still expects the version that was replaced, finds the workflow's row
  -- beyond that version, raises a version conflict with the row's version and changes no row.
  pub replaced_version-conflicts :
      (other : TransitionRequest) (again : TransitionIds) (legal : Transition)
      (c : IdempotentCommandRecord)
      → (transition q ids db).0 ≡ ok c
      → find (command_at q.workflow_id q.idempotency_key) db.workflow_commands ≡ none
      → check_request other ≡ ok legal
      → other.workflow_id ≡ q.workflow_id
      → other.expected_workflow_version ≡ q.expected_workflow_version
      → find (command_at other.workflow_id other.idempotency_key) later.workflow_commands ≡ none
      → (row : WorkflowRow) × (find (workflow_at q.workflow_id) later.workflow_records ≡ some row)
        × (q.expected_workflow_version.counter < row.workflow_version_counter)
        × (transition other again later ≡ (
          err (
              workflow_version_conflict q.workflow_id q.expected_workflow_version
                row.record_json.workflow_version),
          later,
        ))
  replaced_version-conflicts other again legal c h fresh known same_workflow same_version free =
      let (row, found, beyond) = counter_beyond _ refl (passed h fresh) in
      let columns = later-Consistent.workflows.rows q.workflow_id row found in
      let stale : revision_eq row.record_json.workflow_version other.expected_workflow_version
          ≡ false =
        ground (
          arith,
          beyond,
          columns.same_counter,
          same_version,
          nat_eq_iff row.record_json.workflow_version.counter q.expected_workflow_version.counter,
        ) in
      (
        row,
        found,
        beyond,
        transition_stale other again later {row = row} known free (cc (found, same_workflow)) stale
            ∙ cc (same_workflow, same_version),
      )
