-- ===== src/Persistence/WorkflowStore/Idempotency.antt =====
-- Idempotency keys and expected versions: a key that a command holds decides the call before the
-- workflow's row is read, and a version that has been replaced is refused.
use powerfactory_mcp.Prelude.{
  ◌≡◌, sym, ap, subst, ◌∙◌, false, ◌&&◌, ◌==◌, Option, none, some, [], ◌∷◌, arith, eq_iff, inl, inr,
}
use powerfactory_mcp.Errors.{ok, err, workflow_version_conflict, workflow_idempotency_conflict}
use powerfactory_mcp.Table.{find, find-append}
use powerfactory_mcp.Domain.Values.{revision_eq}
use powerfactory_mcp.Domain.Workflow.{IdempotentCommandRecord}
use powerfactory_mcp.Persistence.Database.{
  Database, WorkflowRow, transaction, commit, checked, checked-eq-ok,
}
use powerfactory_mcp.Persistence.Writers.{command_at}
use powerfactory_mcp.Persistence.WorkflowStore.Transitions.{Transition}
use powerfactory_mcp.Persistence.WorkflowStore.Request.{TransitionRequest, check_request}
use powerfactory_mcp.Persistence.WorkflowStore.Build.{TransitionIds, command}
use powerfactory_mcp.Persistence.WorkflowStore.Outcome.{Advanced, transition-eq-ok}
use powerfactory_mcp.Persistence.WorkflowStore.{
  workflow_at, workflow_row, replay_or_apply, apply_transition, transition,
}

-- A returned command is stored under the key, with the call's name and digest.
pub record StoredFor (q : TransitionRequest) (db : Database) (c : IdempotentCommandRecord)
    : Type 0 where
  pub legal : Transition
  pub known : check_request q ≡ ok legal
  pub stored : find (command_at q.workflow_id q.idempotency_key) db.workflow_commands ≡ some c
  pub same_name : c.command_name ≡ q.command_name
  pub same_digest : c.request_digest ≡ q.request_digest

Advanced-stored :
    {q : TransitionRequest} {ids : TransitionIds} {db db' : Database} {c : IdempotentCommandRecord}
    → Advanced q ids db c db'
    → find (command_at q.workflow_id q.idempotency_key) db'.workflow_commands ≡ some c
unfolding find
Advanced-stored {q} {ids} {db} {c = c} a = rw (ap (λ d. d.workflow_commands) a.written) (
    ground (
      arith,
      find-append (command_at q.workflow_id q.idempotency_key) db.workflow_commands
          (command q ids a.row.record_json ∷ []),
      a.fresh,
      a.recorded,
      eq_iff q.workflow_id q.workflow_id,
      eq_iff q.idempotency_key q.idempotency_key,
    ))

pub transition-StoredFor :
    (q : TransitionRequest) (ids : TransitionIds) (db : Database) {c : IdempotentCommandRecord}
    → (transition q ids db).0 ≡ ok c
    → StoredFor q (transition q ids db).1 c
unfolding transition
transition-StoredFor q ids db {c} h =
    let (legal, known, run) = checked-eq-ok (check_request q) _ db h in
    elim (transition-eq-ok q ids db h) [
      | inl r ↦ record {
        legal = legal;
        known = known;
        stored =
            subst
              (λ d. find (command_at q.workflow_id q.idempotency_key) d.workflow_commands ≡ some c)
              (sym r.unchanged) r.stored;
        same_name = r.same_name;
        same_digest = r.same_digest;
      }
      | inr a ↦ record {
        legal = legal;
        known = known;
        stored = Advanced-stored a;
        same_name = ap (λ x. x.command_name) a.recorded;
        same_digest = ap (λ x. x.request_digest) a.recorded;
      }
    ]

-- A transition whose checks pass is decided by what its key holds.
pub transition-at :
    (q : TransitionRequest) (ids : TransitionIds) (db : Database) {legal : Transition}
    (o : Option IdempotentCommandRecord)
    → check_request q ≡ ok legal
    → find (command_at q.workflow_id q.idempotency_key) db.workflow_commands ≡ o
    → transition q ids db ≡ commit db (replay_or_apply q ids legal o db)
unfolding transition checked transaction
transition-at q ids db o known e = rw (known, e)

-- The same call again returns the stored command and writes nothing.
pub transition-again :
    (q : TransitionRequest) (ids : TransitionIds) (db : Database) {c : IdempotentCommandRecord}
    → StoredFor q db c
    → transition q ids db ≡ (ok c, db)
unfolding replay_or_apply commit
transition-again q ids db {c} s =
    transition-at q ids db (some c) s.known s.stored
    ∙ ground (
      arith,
      s.same_name,
      s.same_digest,
      eq_iff c.command_name q.command_name,
      eq_iff c.request_digest q.request_digest,
    )

-- Another call under the key is refused.
pub transition-misused :
    (q : TransitionRequest) (ids : TransitionIds) (db : Database) {legal : Transition}
    {c : IdempotentCommandRecord}
    → check_request q ≡ ok legal
    → find (command_at q.workflow_id q.idempotency_key) db.workflow_commands ≡ some c
    → (c.command_name == q.command_name && c.request_digest == q.request_digest) ≡ false
    → transition q ids db
      ≡ (err (workflow_idempotency_conflict q.workflow_id q.idempotency_key), db)
unfolding replay_or_apply commit
transition-misused q ids db {c = c} known stored differs =
    transition-at q ids db (some c) known stored ∙ ground (arith, differs)

-- A new key with a version that is not the row's is refused.
pub transition_stale :
    (q : TransitionRequest) (ids : TransitionIds) (db : Database) {legal : Transition}
    {row : WorkflowRow}
    → check_request q ≡ ok legal
    → find (command_at q.workflow_id q.idempotency_key) db.workflow_commands ≡ none
    → find (workflow_at q.workflow_id) db.workflow_records ≡ some row
    → revision_eq row.record_json.workflow_version q.expected_workflow_version ≡ false
    → transition q ids db ≡ (
      err (
          workflow_version_conflict q.workflow_id q.expected_workflow_version
            row.record_json.workflow_version),
      db,
    )
unfolding replay_or_apply apply_transition workflow_row commit
transition_stale q ids db {legal = legal} {row = row} known fresh found differs =
    transition-at q ids db none known fresh ∙ ground (arith, found, differs)
