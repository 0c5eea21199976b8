-- ===== src/Persistence/WorkflowStore/Preservation.antt =====
-- Every call keeps the invariant of the workflow tables.
use powerfactory_mcp.Prelude.{
  ℕ, ◌≤◌, String, ◌≡◌, refl, sym, ap, ◌∙◌, ◌==◌, nat_eq_iff, none, some, [], ◌∷◌, ◌++◌, arith,
  eq_iff, Bool-cases, inl, inr, if◌then◌else◌,
}
use powerfactory_mcp.Table.{or_else, find, count, find-append, find-fits}
use powerfactory_mcp.Table.Counts.{count_added, count-update, count-none}
use powerfactory_mcp.Domain.Workflow.{WorkflowRecord, IdempotentCommandRecord}
use powerfactory_mcp.Persistence.Database.{Database, WorkflowRow}
use powerfactory_mcp.Persistence.Writers.{command_at}
use powerfactory_mcp.Persistence.WorkflowStore.Request.{TransitionRequest}
use powerfactory_mcp.Persistence.WorkflowStore.Build.{TransitionIds, command}
use powerfactory_mcp.Persistence.WorkflowStore.{workflow_at, new_row, expected_row, advance}
use powerfactory_mcp.Persistence.WorkflowStore.Outcome.{Advanced}
use powerfactory_mcp.Persistence.WorkflowStore.Invariant.{
  Move, kept, recorded, moved, IsRow, replaces, counter_of, Inv, records_written, commands_written,
  find-advanced, find_other,
}

module _ {q : TransitionRequest} {ids : TransitionIds} {db db' : Database}
    {c : IdempotentCommandRecord} (a : Advanced q ids db c db') (inv : Inv db) where
  moved_rows :
      (w : String) (r : WorkflowRow) → find (workflow_at w) db'.workflow_records ≡ some r → IsRow r
  moved_rows w r h = elim (Bool-cases (q.workflow_id == w)) [
    | inl same ↦ ground (
      arith,
      find-advanced a inv,
      (eq_iff q.workflow_id w).0 same,
      inv.rows q.workflow_id a.row a.found,
      find-fits (workflow_at q.workflow_id) db.workflow_records a.found,
      eq_iff a.row.workflow_id q.workflow_id,
    )
    | inr other ↦
        inv.rows w r
          (sym (find_other a inv w (λ e. ground (arith, other, (eq_iff q.workflow_id w).1 e))) ∙ h)
  ]

  moved_keys : (w key : String) → count (command_at w key) db'.workflow_commands ≤ 1
  moved_keys w key = rw (commands_written a inv) (
      ground (
        arith,
        count_added (command_at w key) db.workflow_commands (command q ids a.row.record_json),
        inv.one_per_key w key,
        count-none (command_at q.workflow_id q.idempotency_key) db.workflow_commands a.fresh,
        eq_iff q.workflow_id w,
        eq_iff q.idempotency_key key,
      ))

  row_counter : a.row.workflow_version_counter ≡ q.expected_workflow_version.counter
  row_counter = ground (arith, inv.rows q.workflow_id a.row a.found, ap (λ v. v.counter) a.version)

  moved_versions : (w : String) (n : ℕ) → count (replaces w n) db'.workflow_commands ≤ 1
  moved_versions w n = rw (commands_written a inv) (
      ground (
        arith,
        count_added (replaces w n) db.workflow_commands (command q ids a.row.record_json),
        inv.one_per_version w n,
        inv.current_free w n,
        row_counter,
        a.found,
        eq_iff q.workflow_id w,
        nat_eq_iff q.expected_workflow_version.counter n,
      ))

  moved_free :
      (w : String) (n : ℕ)
      → counter_of (find (workflow_at w) db'.workflow_records) ≤ n
      → count (replaces w n) db'.workflow_commands ≡ 0
  moved_free w n h = rw (commands_written a inv) (elim (Bool-cases (q.workflow_id == w)) [
    | inl same ↦ ground (
      arith,
      count_added (replaces w n) db.workflow_commands (command q ids a.row.record_json),
      inv.current_free w n,
      row_counter,
      a.found,
      inv.rows q.workflow_id a.row a.found,
      find-advanced a inv,
      (eq_iff q.workflow_id w).0 same,
      nat_eq_iff q.expected_workflow_version.counter n,
    )
    | inr other ↦ ground (
      arith,
      count_added (replaces w n) db.workflow_commands (command q ids a.row.record_json),
      inv.current_free w n,
      find_other a inv w (λ e. ground (arith, other, (eq_iff q.workflow_id w).1 e)),
    )
  ])

  moved-Inv : Inv db'
  moved-Inv = record {
    one_row = λ w. rw (records_written a inv) (
        rw
          (count-update (workflow_at w) (expected_row q) (advance q ids a.row.record_json)
            (λ r _. refl) db.workflow_records)
          (inv.one_row w));
    rows = moved_rows;
    one_per_key = moved_keys;
    one_per_version = moved_versions;
    current_free = moved_free;
  }

module _ (db db' : Database) (inv : Inv db) (w : WorkflowRecord)
    (absent : find (workflow_at w.workflow_id) db.workflow_records ≡ none)
    (scope : w.workflow_version.scope_id ≡ w.workflow_id)
    (rows_are : db'.workflow_records ≡ db.workflow_records ++ new_row w ∷ [])
    (commands_are : db'.workflow_commands ≡ db.workflow_commands) where
  find-recorded :
      (k : String)
      → find (workflow_at k) db'.workflow_records
        ≡ or_else
            (find (workflow_at k) db.workflow_records)
            (if w.workflow_id == k then some (new_row w) else none)
  unfolding find
  find-recorded k = rw rows_are (find-append (workflow_at k) db.workflow_records (new_row w ∷ []))

  recorded-Inv : Inv db'
  recorded-Inv = record {
    one_row = λ k. rw rows_are (
        ground (
          arith,
          count_added (workflow_at k) db.workflow_records (new_row w),
          inv.one_row k,
          count-none (workflow_at w.workflow_id) db.workflow_records absent,
          eq_iff w.workflow_id k,
        ));
    rows = λ k r h. ground (arith, find-recorded k, inv.rows k r, scope, h);
    one_per_key = λ k key. rw commands_are (inv.one_per_key k key);
    one_per_version = λ k n. rw commands_are (inv.one_per_version k n);
    current_free =
        λ k n h. rw commands_are (inv.current_free k n (ground (arith, find-recorded k, h)));
  }

-- Every call keeps the invariant.
pub Move-Inv : {db db' : Database} → Move db db' → Inv db → Inv db'
Move-Inv {db} {db'} (kept rs cs) inv = record {
  one_row = λ w. rw rs (inv.one_row w);
  rows = λ w r h. inv.rows w r (rw rs at h);
  one_per_key = λ w key. rw cs (inv.one_per_key w key);
  one_per_version = λ w n. rw cs (inv.one_per_version w n);
  current_free = λ w n h. rw cs (inv.current_free w n (rw rs at h));
}
Move-Inv {db} {db'} (recorded w absent scope rs cs) inv =
    recorded-Inv db db' inv w absent scope rs cs
Move-Inv {db} {db'} (moved q ids c a) inv = moved-Inv a inv
