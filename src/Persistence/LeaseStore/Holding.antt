-- ===== src/Persistence/LeaseStore/Holding.antt =====
-- What `_holder_failure` has shown of a claim and of its lease when it finds no reason.
use powerfactory_mcp.Prelude.{
  String, ◌≡◌, refl, sym, Bool, true, false, not, ◌&&◌, ◌==◌, nat_eq, nat_eq_iff, eq_iff, Option,
  none, some, is_some, arith, Bool-cases, inl, inr, if◌then◌else◌, ◌<◌,
}
use powerfactory_mcp.Errors.{Result, ok, >>=-eq-ok}
use powerfactory_mcp.Table.{find}
use powerfactory_mcp.Domain.Values.{revision_eq_sound, WorkflowVersion, revision_eq, not_after}
use powerfactory_mcp.Domain.Values.Checks.{require_uuid4, require_positive, require_aware}
use powerfactory_mcp.Domain.Lease.{ContextLease, is_held}
use powerfactory_mcp.Persistence.Database.{Database, WorkflowRow}
use powerfactory_mcp.Persistence.WorkflowStore.{workflow_at, version_of}
use powerfactory_mcp.Persistence.LeaseStore.Holder.{
  Claim, VersionCheck, matches, missing, conflicts, check_version, stale_reason, holder_failure,
  version_failure,
}

-- The claim is the holder's, and its workflow has not moved on.
pub record Holds (claim : Claim) (require_no_operation : Bool) (db : Database) (l : ContextLease)
    : Type 0 where
  pub held : is_held l.state ≡ true
  pub token : claim.fencing_token ≡ l.fencing_token
  pub owner : claim.owner_instance_id ≡ l.owner_instance_id
  pub version : claim.workflow_version ≡ l.workflow_version
  pub live : claim.occurred_at.micros < l.expires_at.micros
  pub idle : require_no_operation ≡ true → l.operation_id ≡ none
  pub current_version :
      (row : WorkflowRow) × (find (workflow_at l.workflow_id) db.workflow_records ≡ some row)
      × (version_of l.workflow_id row ≡ l.workflow_version)

check_version-matches :
    (workflow_id : String) (expected : WorkflowVersion) (o : Option WorkflowRow)
    → check_version workflow_id expected o ≡ matches
    → (row : WorkflowRow) × (o ≡ some row) × (version_of workflow_id row ≡ expected)
unfolding check_version
check_version-matches workflow_id expected none h = cc
check_version-matches workflow_id expected (some row) h =
    elim (Bool-cases (revision_eq (version_of workflow_id row) expected)) [
      | inl same ↦ (row, refl, revision_eq_sound (version_of workflow_id row) expected same)
      | inr other ↦ absurd (ground (arith, other, h))
    ]

-- A test that gives no reason was false.
passed_by :
    (test : Bool) (reason : String) (rest : Result (Option String))
    → (if test then ok (some reason) else rest) ≡ ok none
    → (test ≡ false) × (rest ≡ ok none)
passed_by true reason rest h = cc
passed_by false reason rest h = (refl, h)

version_failure-none :
    (workflow_id : String) (v : VersionCheck)
    → version_failure workflow_id v ≡ ok none
    → v ≡ matches
version_failure-none workflow_id matches h = refl
version_failure-none workflow_id missing h = cc
version_failure-none workflow_id (conflicts v) h = cc

stale_reason-Holds :
    (l : ContextLease) (claim : Claim) (require_no_operation : Bool) (db : Database)
    → stale_reason l claim require_no_operation db ≡ ok none
    → Holds claim require_no_operation db l
unfolding stale_reason
stale_reason-Holds l claim require_no_operation db h =
    let (held, h1) = passed_by (not (is_held l.state)) _ _ h in
    let (token, h2) = passed_by (not (nat_eq l.fencing_token claim.fencing_token)) _ _ h1 in
    let (owner, h3) = passed_by (not (l.owner_instance_id == claim.owner_instance_id)) _ _ h2 in
    let (version, h4) =
      passed_by (not (revision_eq l.workflow_version claim.workflow_version)) _ _ h3 in
    let (live, h5) = passed_by (not_after l.expires_at claim.occurred_at) _ _ h4 in
    let (idle, h6) = passed_by (require_no_operation && is_some l.operation_id) _ _ h5 in
    record {
      held = ground (arith, held);
      token = ground (arith, token, nat_eq_iff l.fencing_token claim.fencing_token);
      owner = ground (arith, owner, eq_iff l.owner_instance_id claim.owner_instance_id);
      version =
          sym
            (revision_eq_sound l.workflow_version claim.workflow_version (ground (arith, version)));
      live = ground (arith, live);
      idle = λ required. ground (arith, required, idle);
      current_version =
          check_version-matches l.workflow_id l.workflow_version _
            (version_failure-none l.workflow_id _ h6);
    }

-- The test finds no reason only for the holder.
pub holder_failure-Holds :
    (l : ContextLease) (claim : Claim) (require_no_operation : Bool) (db : Database)
    → holder_failure l claim require_no_operation db ≡ ok none
    → Holds claim require_no_operation db l
unfolding holder_failure
holder_failure-Holds l claim require_no_operation db h =
    let (_, _, h1) = >>=-eq-ok (require_positive claim.fencing_token "fencing_token") _ h in
    let (_, _, h2) = >>=-eq-ok (require_uuid4 claim.owner_instance_id "owner_instance_id") _ h1 in
    let (_, _, h3) = >>=-eq-ok (require_aware claim.occurred_at "occurred_at") _ h2 in
    stale_reason-Holds l claim require_no_operation db h3
