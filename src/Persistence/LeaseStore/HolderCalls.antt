-- ===== src/Persistence/LeaseStore/HolderCalls.antt =====
-- The four calls that a lease's holder makes, as one operation.
use powerfactory_mcp.Prelude.{◌≡◌, String, Bool, true, false, Option, none, some, ◌∙◌, ap}
use powerfactory_mcp.Errors.{ok}
use powerfactory_mcp.Domain.Lease.{ContextLease, LeaseEventType}
use powerfactory_mcp.Persistence.Database.{Database, Tx, Exec}
use powerfactory_mcp.Persistence.LeaseStore.Holder.{Claim, current}
use powerfactory_mcp.Persistence.LeaseStore.Fenced.{
  start_atomic_call, finish_atomic_call, release, release_for_authorization,
}
use powerfactory_mcp.Persistence.LeaseStore.Effects.{set_operation-eq-ok, free_scope-eq-ok}
use powerfactory_mcp.Persistence.LeaseStore.Invariant.{LeaseInv, last}
use powerfactory_mcp.Persistence.LeaseStore.Calls.{current_by_id-current}
use powerfactory_mcp.Persistence.LeaseStore.Holding.{Holds}
use powerfactory_mcp.Persistence.LeaseStore.Admission.{
  Admitted, start_atomic_call-Admitted, finish_atomic_call-Admitted, release_as-Admitted,
}

pub data HolderCall : Type 0 where
  start_of finish_of : String → String → HolderCall
  release_of authorization_of : String → HolderCall

unfoldable pub attempt : HolderCall → Claim → Exec ContextLease
attempt (HolderCall.start_of operation event_id) claim = start_atomic_call claim operation event_id
attempt (HolderCall.finish_of operation event_id) claim =
    finish_atomic_call claim operation event_id
attempt (HolderCall.release_of event_id) claim = release claim event_id
attempt (HolderCall.authorization_of event_id) claim = release_for_authorization claim event_id

-- Whether the call requires that no atomic call is in flight.
abbrev pub wants_idle : HolderCall → Bool
wants_idle (HolderCall.finish_of operation event_id) = false
wants_idle _ = true

-- The lease that a call was admitted to: its scope's, under the claim's token, which is the newest.
pub record Newest (call : HolderCall) (claim : Claim) (db : Database) (next : ContextLease)
    : Type 0 where
  pub l : ContextLease
  pub found : current l.service_scope_digest l.configuration_key db ≡ some l
  pub holds : Holds claim (wants_idle call) db l
  pub newest : claim.fencing_token ≡ last l.service_scope_digest l.configuration_key db
  pub same_digest : next.service_scope_digest ≡ l.service_scope_digest
  pub same_key : next.configuration_key ≡ l.configuration_key

Newest-Admitted :
    (call : HolderCall) (claim : Claim) (db : Database) {next : ContextLease}
    {accept : ContextLease → Tx ContextLease}
    {reason : ContextLease → Option String → Option String} {db' : Database}
    → LeaseInv db
    → (a : Admitted claim (wants_idle call) accept reason db next db')
    → (current a.l.service_scope_digest a.l.configuration_key db ≡ some a.l
        → (next.service_scope_digest ≡ a.l.service_scope_digest)
          × (next.configuration_key ≡ a.l.configuration_key))
    → Newest call claim db next
Newest-Admitted call claim db inv a same =
    let found = current_by_id-current claim.lease_id db inv a.read in
    let (digest, key) = same found in
    record {
      l = a.l;
      found = found;
      holds = a.holds;
      newest = a.holds.token ∙ inv.newest a.l.service_scope_digest a.l.configuration_key a.l found;
      same_digest = digest;
      same_key = key;
    }

-- On lease tables that keep the invariant, a holder's call that returns was made under the newest
-- token of its lease's scope, by the lease's owner, before the lease expired, at its workflow's
-- current version.
pub attempt-Newest :
    (call : HolderCall) (claim : Claim) (db : Database) (next : ContextLease)
    → LeaseInv db
    → (attempt call claim db).0 ≡ ok next
    → Newest call claim db next
unfolding attempt release release_for_authorization
attempt-Newest (HolderCall.start_of operation event_id) claim db next inv h =
    let a = start_atomic_call-Admitted claim operation event_id db h in
    Newest-Admitted (HolderCall.start_of operation event_id) claim db inv a (λ found.
      let made =
        (set_operation-eq-ok a.l claim event_id LeaseEventType.atomic_call_started operation
          (some operation) db found a.body).0 in
      (ap (λ l. l.service_scope_digest) made, ap (λ l. l.configuration_key) made))
attempt-Newest (HolderCall.finish_of operation event_id) claim db next inv h =
    let a = finish_atomic_call-Admitted claim operation event_id db h in
    Newest-Admitted (HolderCall.finish_of operation event_id) claim db inv a (λ found.
      let made =
        (set_operation-eq-ok a.l claim event_id LeaseEventType.atomic_call_finished operation none
          db found a.body).0 in
      (ap (λ l. l.service_scope_digest) made, ap (λ l. l.configuration_key) made))
attempt-Newest (HolderCall.release_of event_id) claim db next inv h =
    let a = release_as-Admitted claim LeaseEventType.released false event_id db h in
    Newest-Admitted (HolderCall.release_of event_id) claim db inv a (λ found.
      let made = (free_scope-eq-ok a.l claim event_id LeaseEventType.released db a.body).0 in
      (ap (λ l. l.service_scope_digest) made, ap (λ l. l.configuration_key) made))
attempt-Newest (HolderCall.authorization_of event_id) claim db next inv h =
    let a =
      release_as-Admitted claim LeaseEventType.released_for_authorization true event_id db h in
    Newest-Admitted (HolderCall.authorization_of event_id) claim db inv a (λ found.
      let made =
        (free_scope-eq-ok a.l claim event_id LeaseEventType.released_for_authorization db
          a.body).0 in
      (ap (λ l. l.service_scope_digest) made, ap (λ l. l.configuration_key) made))
