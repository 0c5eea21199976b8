-- ===== src/Persistence/History/Progress.antt =====
-- One workflow along a history: its version counts its commands, its state climbs the graph of legal
-- transitions, and it is executed only after an admission.
use powerfactory_mcp.Prelude.{
  ◌+◌, ◌<◌, ◌≤◌, String, ◌≡◌, refl, sym, ap, subst, ◌∙◌, ◌⊎◌, Bool, true, false, ◌&&◌, ◌==◌, some,
  List, [], ◌∷◌, arith, eq_iff, inl, inr, Bool-cases, if◌then◌else◌,
}
use powerfactory_mcp.Table.{find, count, find-append}
use powerfactory_mcp.Table.Counts.{count_added}
use powerfactory_mcp.Domain.Workflow.{IdempotentCommandRecord}
use powerfactory_mcp.Persistence.Database.{Database, WorkflowRow}
use powerfactory_mcp.Persistence.WorkflowStore.Transitions.{Transition, legal_transition}
use powerfactory_mcp.Persistence.WorkflowStore.Request.{TransitionRequest}
use powerfactory_mcp.Persistence.WorkflowStore.Outcome.{Advanced}
use powerfactory_mcp.Persistence.WorkflowStore.Build.{TransitionIds, command}
use powerfactory_mcp.Persistence.WorkflowStore.{workflow_at, new_row, advance}
use powerfactory_mcp.Persistence.WorkflowStore.Invariant.{
  Move, kept, recorded, moved, Inv, find-advanced, find_other, commands_written,
}
use powerfactory_mcp.Persistence.WorkflowStore.Lifecycle.{
  rank, is_final, is_unadmitted, legal_transition-rank, legal_transition-source,
  legal_transition-admits,
}
use powerfactory_mcp.Persistence.History.{Call, run}
use powerfactory_mcp.Persistence.History.Steps.{
  Consistent, Trail, Trail-one, stop, next, run-Trail, Trail-Consistent,
}
use powerfactory_mcp.Persistence.History.Growth.{Trail-count}

-- The commands of a workflow, and those of them that admit its execution.
abbrev pub of_workflow : String → IdempotentCommandRecord → Bool
of_workflow w c = c.workflow_id == w

abbrev pub admission_of : String → IdempotentCommandRecord → Bool
admission_of w c = c.workflow_id == w && c.command_name == "admit_execution"

-- A move that passes the workflow by.
record Passed (w : String) (db db' : Database) (r : WorkflowRow) : Type 0 where
  found : find (workflow_at w) db'.workflow_records ≡ some r
  tally : count (of_workflow w) db'.workflow_commands ≡ count (of_workflow w) db.workflow_commands

-- A move along an edge of the graph.
record Edge (w : String) (db db' : Database) (r : WorkflowRow) : Type 0 where
  row : WorkflowRow
  name : String
  legal : Transition
  found : find (workflow_at w) db'.workflow_records ≡ some row
  known : legal_transition name ≡ some legal
  source : legal.source ≡ r.state
  target : legal.target ≡ row.state
  version : row.workflow_version_counter ≡ r.workflow_version_counter + 1
  tally :
      count (of_workflow w) db'.workflow_commands ≡ count (of_workflow w) db.workflow_commands + 1
  admission : (name == "admit_execution") ≡ true → 1 ≤ count (admission_of w) db'.workflow_commands

module _ {q : TransitionRequest} {ids : TransitionIds} {db db' : Database}
    {c : IdempotentCommandRecord} (inv : Inv db) (a : Advanced q ids db c db') where
  tally_moved :
      (p : IdempotentCommandRecord → Bool)
      → count p db'.workflow_commands
        ≡ count p db.workflow_commands + (if p (command q ids a.row.record_json) then 1 else 0)
  tally_moved p =
      rw (commands_written a inv)
        (count_added p db.workflow_commands (command q ids a.row.record_json))

  moved-Edge : Edge q.workflow_id db db' a.row
  moved-Edge = record {
    row = advance q ids a.row.record_json a.row;
    name = q.command_name;
    legal = a.legal;
    found = find-advanced a inv;
    known = a.looked_up;
    source = a.source ∙ (inv.rows q.workflow_id a.row a.found).same_state;
    target = a.target;
    version = ap (λ n. n + 1) (inv.rows q.workflow_id a.row a.found).same_counter;
    tally =
        ground (arith, tally_moved (of_workflow q.workflow_id), eq_iff q.workflow_id q.workflow_id);
    admission = λ h.
        ground
          (arith, tally_moved (admission_of q.workflow_id), eq_iff q.workflow_id q.workflow_id, h);
  }

  other-Passed :
      (w : String) (r : WorkflowRow)
      → (q.workflow_id == w) ≡ false
      → find (workflow_at w) db.workflow_records ≡ some r
      → Passed w db db' r
  other-Passed w r other h = record {
    found = find_other a inv w (λ e. ground (arith, other, (eq_iff q.workflow_id w).1 e)) ∙ h;
    tally = ground (arith, tally_moved (of_workflow w), other);
  }

Move-row :
    {db db' : Database} (w : String) (r : WorkflowRow)
    → Inv db
    → Move db db'
    → find (workflow_at w) db.workflow_records ≡ some r
    → Passed w db db' r ⊎ Edge w db db' r
Move-row w r inv (kept rs cs) h =
    inl (record { found = rw rs h; tally = ap (count (of_workflow w)) cs })
Move-row {db} w r inv (recorded v absent scope rs cs) h = inl (record {
  found = rw rs (rw (find-append (workflow_at w) db.workflow_records (new_row v ∷ []), h) refl);
  tally = ap (count (of_workflow w)) cs;
})
Move-row {db} {db'} w r inv (moved q ids c a) h = elim (Bool-cases (q.workflow_id == w)) [
  | inl same ↦
      let same_id : q.workflow_id ≡ w = (eq_iff q.workflow_id w).0 same in
      let same_row : a.row ≡ r = ground (arith, a.found, same_id, h) in
      inr (
        subst (λ x. Edge x db db' r) same_id
          (subst (λ x. Edge q.workflow_id db db' x) same_row (moved-Edge inv a)))
  | inr other ↦ inl (other-Passed inv a w r other h)
]

-- What a history has made of a workflow's row.
pub record Progress (w : String) (db db' : Database) (r : WorkflowRow) : Type 0 where
  pub row : WorkflowRow
  pub found : find (workflow_at w) db'.workflow_records ≡ some row
  pub climb :
      row.workflow_version_counter + rank r.state ≤ r.workflow_version_counter + rank row.state
  pub tally :
      row.workflow_version_counter + count (of_workflow w) db.workflow_commands
      ≡ r.workflow_version_counter + count (of_workflow w) db'.workflow_commands
  pub ended : is_final r.state ≡ true → row ≡ r
  pub admitted :
      is_unadmitted r.state ≡ true
      → is_unadmitted row.state ≡ false
      → 1 ≤ count (admission_of w) db'.workflow_commands

Progress-Passed :
    {w : String} {db db1 db2 : Database} {r : WorkflowRow}
    → Passed w db db1 r
    → Progress w db1 db2 r
    → Progress w db db2 r
Progress-Passed p g = record {
  row = g.row;
  found = g.found;
  climb = g.climb;
  tally = ground (arith, g.tally, p.tally);
  ended = g.ended;
  admitted = g.admitted;
}

Progress-Edge :
    {w : String} {db db1 db2 : Database} {r : WorkflowRow} (e : Edge w db db1 r)
    → Trail db1 db2
    → Progress w db1 db2 e.row
    → Progress w db db2 r
Progress-Edge {w} {db} {db1} {db2} {r} e t g = record {
  row = g.row;
  found = g.found;
  climb = omega (arith, g.climb, e.version, rise);
  tally = omega (arith, g.tally, e.tally, e.version);
  ended = λ h. absurd (cc (h, e.source, legal_transition-source e.name e.known));
  admitted = λ before after. elim (Bool-cases (is_unadmitted e.row.state)) [
    | inl still ↦ g.admitted still after
    | inr past ↦ omega (
      arith,
      Trail-count t (admission_of w),
      e.admission (
          legal_transition-admits e.name e.known
            (subst (λ s. is_unadmitted s ≡ true) (sym e.source) before)
            (subst (λ s. is_unadmitted s ≡ false) (sym e.target) past)),
    )
  ];
}
  where
    rise : rank r.state < rank e.row.state
    rise =
        subst (λ s. rank s < rank e.row.state) e.source
          (subst (λ s. rank e.legal.source < rank s) e.target
            (legal_transition-rank e.name e.known))

Trail-Progress :
    {db db' : Database} (w : String) (r : WorkflowRow)
    → Consistent db
    → Trail db db'
    → find (workflow_at w) db.workflow_records ≡ some r
    → Progress w db db' r
Trail-Progress w r good stop h = record {
  row = r;
  found = h;
  climb = omega arith;
  tally = refl;
  ended = λ _. refl;
  admitted = λ before after. cc;
}
Trail-Progress w r good (next m l t) h =
    let then_good = Trail-Consistent (Trail-one m l) good in
    elim (Move-row w r good.workflows m h) [
      | inl p ↦ Progress-Passed p (Trail-Progress w r then_good t p.found)
      | inr e ↦ Progress-Edge e t (Trail-Progress w e.row then_good t e.found)
    ]

module _ (calls : List Call) (db : Database) (w : String) (r : WorkflowRow) (good : Consistent db)
    (stored : find (workflow_at w) db.workflow_records ≡ some r) where
  progress : Progress w db (run calls db) r
  progress = Trail-Progress w r good (run-Trail calls db good) stored

  -- On consistent tables, a recorded workflow keeps its row through any calls of WorkflowStore and
  -- ContextLeaseStore, its version counter grows by the number of its commands that the calls
  -- stored, and by no more than the rank of its state grows, which never falls. Along the longest
  -- path of legal transitions that is 13 times; and none leads from the states of a rollback, which
  -- have ranks above it, to RECONCILIATION_REQUIRED, where workflow-state-machine.md has one.
  pub run-climbs :
      (row : WorkflowRow) × (find (workflow_at w) (run calls db).workflow_records ≡ some row)
      × (row.workflow_version_counter + count (of_workflow w) db.workflow_commands
          ≡ r.workflow_version_counter + count (of_workflow w) (run calls db).workflow_commands)
      × (row.workflow_version_counter + rank r.state ≤ r.workflow_version_counter + rank row.state)
  run-climbs = (progress.row, progress.found, progress.tally, progress.climb)

  -- On consistent tables, a recorded workflow that is abandoned, failed before its effect,
  -- quarantined or rolled back keeps its row as it is, whatever calls of WorkflowStore and
  -- ContextLeaseStore follow: no legal transition leaves these states. For QUARANTINED this is the
  -- code's table and not workflow-state-machine.md, which lets an operator's disposition leave it.
  pub run-final :
      is_final r.state ≡ true → find (workflow_at w) (run calls db).workflow_records ≡ some r
  run-final h = progress.found ∙ ap some (progress.ended h)

  -- On consistent tables, a recorded workflow that was new, previewing, awaiting authorization or
  -- abandoned, and that calls of WorkflowStore and ContextLeaseStore alone have brought to any other
  -- state, has a stored `admit_execution` command. A call of ExecutionAdmissionCoordinator, which
  -- takes a workflow from AWAITING_AUTHORIZATION to EXECUTING under a command of its own,
  -- `admit_execution_and_commit_intent`, is not among these calls.
  pub run-admitted :
      (row : WorkflowRow)
      → is_unadmitted r.state ≡ true
      → find (workflow_at w) (run calls db).workflow_records ≡ some row
      → is_unadmitted row.state ≡ false
      → 1 ≤ count (admission_of w) (run calls db).workflow_commands
  run-admitted row before found after = progress.admitted before (cc (progress.found, found, after))
