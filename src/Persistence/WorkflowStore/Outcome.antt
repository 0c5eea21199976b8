-- ===== src/Persistence/WorkflowStore/Outcome.antt =====
-- What a transition that returns has done: it replays a stored command or makes one step.
use powerfactory_mcp.Prelude.{
  subst, sym, ◌⊎◌, String, ◌≡◌, refl, Bool, false, ◌&&◌, nat_eq, nat_eq_iff, Option, none, some, [],
  ◌∷◌, ◌++◌, arith, eq_iff, Bool-cases, inl, inr, ◌∙◌,
}
use powerfactory_mcp.Errors.{Error, ok, value_error, workflow_version_conflict, guard, guard-eq-ok}
use powerfactory_mcp.Table.{find, any, count, update}
use powerfactory_mcp.Domain.Values.{revision_eq_sound, revision_eq}
use powerfactory_mcp.Domain.Workflow.{
  WorkflowRecord, IdempotentCommandRecord, AuditEvent, state_eq, state_eq_iff,
}
use powerfactory_mcp.Persistence.Database.{
  Database, WorkflowRow, Tx, lift, Exec, transaction, transaction-eq-ok, checked-eq-ok, bind-eq-ok,
  lift-eq-ok,
}
use powerfactory_mcp.Persistence.Writers.{
  command_at, command_clashes, insert_workflow_command, append_workflow_audit_event,
  insert_workflow_command-eq-ok, append_workflow_audit_event-eq-ok,
}
use powerfactory_mcp.Persistence.WorkflowStore.Transitions.{Transition, legal_transition}
use powerfactory_mcp.Persistence.WorkflowStore.Request.{TransitionRequest, check_request}
use powerfactory_mcp.Persistence.WorkflowStore.Build.{
  TransitionIds, command, requested_event, transitioned_event, build_transition,
}
use powerfactory_mcp.Persistence.WorkflowStore.{
  workflow_at, workflow_row, expected_row, advance, lost_race, compare_and_swap, write_transition,
  apply_transition, replay_or_apply, transition,
}

-- The database after one step.
abbrev pub advanced : TransitionRequest → TransitionIds → WorkflowRecord → Database → Database
advanced q ids previous db = record db {
  workflow_records = update (expected_row q) (advance q ids previous) db.workflow_records;
  workflow_commands = db.workflow_commands ++ command q ids previous ∷ [];
  workflow_audit_events =
      (db.workflow_audit_events ++ requested_event q ids previous ∷ [])
      ++ transitioned_event q ids previous ∷ [];
}

lost_race-fails :
    (q : TransitionRequest) (db : Database) {r : Unit {0} × Database} → ¬ (lost_race q db ≡ ok r)
unfolding lost_race workflow_row
lost_race-fails q db h = ground arith

compare_and_swap-eq-ok :
    (q : TransitionRequest) (ids : TransitionIds) (previous : WorkflowRecord) (db : Database)
    {u : Unit {0}} {db' : Database}
    → compare_and_swap q ids previous db ≡ ok (u, db')
    → (count (expected_row q) db.workflow_records ≡ 1)
      × (db' ≡ record db {
        workflow_records = update (expected_row q) (advance q ids previous) db.workflow_records;
      })
unfolding compare_and_swap
compare_and_swap-eq-ok q ids previous db {u} {db'} h =
    elim (Bool-cases (nat_eq (count (expected_row q) db.workflow_records) 1)) [
      | inl hit ↦ ((nat_eq_iff _ 1).0 hit, ground arith)
      | inr miss ↦ absurd (lost_race-fails q db (rw (miss, compare_and_swap) at h))
    ]

-- What `write_transition` wrote when it returns.
write_transition-eq-ok :
    (q : TransitionRequest) (ids : TransitionIds) (previous : WorkflowRecord) (db : Database)
    {c : IdempotentCommandRecord} {db' : Database}
    → write_transition q ids previous db ≡ ok (c, db')
    → (c ≡ command q ids previous)
      × (any (command_clashes (command q ids previous)) db.workflow_commands ≡ false)
      × (count (expected_row q) db.workflow_records ≡ 1)
      × (db' ≡ advanced q ids previous db)
unfolding write_transition
write_transition-eq-ok q ids previous db h =
    let (_, db1, e1, h1) = bind-eq-ok (insert_workflow_command c) _ db h in
    let (_, db2, e2, h2) = bind-eq-ok (compare_and_swap q ids previous) _ db1 h1 in
    let (_, db3, e3, h3) = bind-eq-ok (append_workflow_audit_event asked) _ db2 h2 in
    let (_, db4, e4, h4) = bind-eq-ok (append_workflow_audit_event done) _ db3 h3 in
    ground (
      arith,
      insert_workflow_command-eq-ok c db e1,
      compare_and_swap-eq-ok q ids previous db1 e2,
      append_workflow_audit_event-eq-ok asked db2 e3,
      append_workflow_audit_event-eq-ok done db3 e4,
    )
  where
    c : IdempotentCommandRecord
    c = command q ids previous

    asked : AuditEvent
    asked = requested_event q ids previous

    done : AuditEvent
    done = transitioned_event q ids previous

-- A stored command was returned.
pub record Replayed (q : TransitionRequest) (db : Database) (c : IdempotentCommandRecord)
    (db' : Database) : Type 0 where
  pub stored : find (command_at q.workflow_id q.idempotency_key) db.workflow_commands ≡ some c
  pub same_name : c.command_name ≡ q.command_name
  pub same_digest : c.request_digest ≡ q.request_digest
  pub unchanged : db' ≡ db

-- A step was made from the workflow's stored record.
pub record Advanced (q : TransitionRequest) (ids : TransitionIds) (db : Database)
    (c : IdempotentCommandRecord) (db' : Database) : Type 0 where
  pub row : WorkflowRow
  pub legal : Transition
  pub fresh : find (command_at q.workflow_id q.idempotency_key) db.workflow_commands ≡ none
  pub found : find (workflow_at q.workflow_id) db.workflow_records ≡ some row
  pub looked_up : legal_transition q.command_name ≡ some legal
  pub source : legal.source ≡ row.record_json.state
  pub target : legal.target ≡ q.target_state
  pub version : row.record_json.workflow_version ≡ q.expected_workflow_version
  pub unclashed : any (command_clashes (command q ids row.record_json)) db.workflow_commands ≡ false
  pub swapped : count (expected_row q) db.workflow_records ≡ 1
  pub recorded : c ≡ command q ids row.record_json
  pub written : db' ≡ advanced q ids row.record_json db

check_request-looks_up :
    (q : TransitionRequest) {t : Transition}
    → check_request q ≡ ok t
    → legal_transition q.command_name ≡ some t
unfolding check_request
check_request-looks_up q h = ground arith

pub workflow_row-eq-ok :
    (workflow_id : String) (db : Database) {row : WorkflowRow} {db' : Database}
    → workflow_row workflow_id db ≡ ok (row, db')
    → (find (workflow_at workflow_id) db.workflow_records ≡ some row) × (db' ≡ db)
unfolding workflow_row
workflow_row-eq-ok workflow_id db h = ground arith

apply_transition-eq-ok :
    (q : TransitionRequest) (ids : TransitionIds) (legal : Transition) (db : Database)
    {c : IdempotentCommandRecord} {db' : Database}
    → legal_transition q.command_name ≡ some legal
    → find (command_at q.workflow_id q.idempotency_key) db.workflow_commands ≡ none
    → apply_transition q ids legal db ≡ ok (c, db')
    → Advanced q ids db c db'
unfolding apply_transition
apply_transition-eq-ok q ids legal db {c} {db'} known fresh h =
    let (row, db1, e1, h1) = bind-eq-ok (workflow_row q.workflow_id) _ db h in
    let (_, db2, e2, h2) = bind-eq-ok (lift (guard (same_version row) (conflict row))) _ db1 h1 in
    let (_, db3, e3, h3) = bind-eq-ok (lift (guard (same_states row) illegal)) _ db2 h2 in
    let (_, db4, e4, h4) = bind-eq-ok (lift (build_transition q ids row.record_json)) _ db3 h3 in
    let (found, same1) = workflow_row-eq-ok q.workflow_id db e1 in
    let (g2, same2) = lift-eq-ok (guard (same_version row) (conflict row)) db1 e2 in
    let (g3, same3) = lift-eq-ok (guard (same_states row) illegal) db2 e3 in
    let (g4, same4) = lift-eq-ok (build_transition q ids row.record_json) db3 e4 in
    let b2 = guard-eq-ok (same_version row) (conflict row) g2 in
    let b3 = guard-eq-ok (same_states row) illegal g3 in
    let same = same4 ∙ same3 ∙ same2 ∙ same1 in
    let w =
      write_transition-eq-ok q ids row.record_json db
        (subst (λ d. write_transition q ids row.record_json d ≡ ok (c, db')) same h4) in
    record {
      row = row;
      legal = legal;
      fresh = fresh;
      found = found;
      looked_up = known;
      source = ground (arith, b3, state_eq_iff legal.source row.record_json.state);
      target = ground (arith, b3, state_eq_iff legal.target q.target_state);
      version = revision_eq_sound _ _ b2;
      unclashed = w.1;
      swapped = w.2;
      recorded = w.0;
      written = w.3;
    }
  where
    same_version : WorkflowRow → Bool
    same_version row = revision_eq row.record_json.workflow_version q.expected_workflow_version

    same_states : WorkflowRow → Bool
    same_states row =
        state_eq legal.source row.record_json.state && state_eq legal.target q.target_state

    conflict : WorkflowRow → Error
    conflict row =
        workflow_version_conflict q.workflow_id q.expected_workflow_version
          row.record_json.workflow_version

    illegal : Error
    illegal = value_error "workflow command cannot make this transition"

replay_or_apply-eq-ok :
    (q : TransitionRequest) (ids : TransitionIds) (legal : Transition) (db : Database)
    (o : Option IdempotentCommandRecord) {c : IdempotentCommandRecord} {db' : Database}
    → legal_transition q.command_name ≡ some legal
    → find (command_at q.workflow_id q.idempotency_key) db.workflow_commands ≡ o
    → replay_or_apply q ids legal o db ≡ ok (c, db')
    → Replayed q db c db' ⊎ Advanced q ids db c db'
unfolding replay_or_apply
replay_or_apply-eq-ok q ids legal db none known e h =
    inr (apply_transition-eq-ok q ids legal db known e h)
replay_or_apply-eq-ok q ids legal db (some x) known e h = inl (record {
  stored = ground arith;
  same_name = ground (arith, eq_iff x.command_name q.command_name);
  same_digest = ground (arith, eq_iff x.request_digest q.request_digest);
  unchanged = ground arith;
})

-- A transition that returns replays a stored command or makes one step.
pub transition-eq-ok :
    (q : TransitionRequest) (ids : TransitionIds) (db : Database) {c : IdempotentCommandRecord}
    → (transition q ids db).0 ≡ ok c
    → Replayed q db c (transition q ids db).1 ⊎ Advanced q ids db c (transition q ids db).1
unfolding transition
transition-eq-ok q ids db {c} h =
    let (legal, known, run) = checked-eq-ok (check_request q) body db h in
    let returned = transaction-eq-ok (in_transaction legal) db (subst (λ x. x.0 ≡ ok c) run h) in
    subst (λ x. Replayed q db c x.1 ⊎ Advanced q ids db c x.1) (sym run)
      (replay_or_apply-eq-ok q ids legal db _ (check_request-looks_up q known) refl returned)
  where
    in_transaction : Transition → Tx IdempotentCommandRecord
    in_transaction legal db =
        replay_or_apply q ids legal
          (find (command_at q.workflow_id q.idempotency_key) db.workflow_commands) db

    body : Transition → Exec IdempotentCommandRecord
    body legal = transaction (in_transaction legal)
