-- ===== src/Persistence/LeaseStore/Effects.antt =====
-- What the methods of the lease store have written when they return.
use powerfactory_mcp.Prelude.{
  subst, sym, String, ◌≡◌, Option, none, some, List, [], ◌∷◌, ◌++◌, arith,
}
use powerfactory_mcp.Errors.{ok}
use powerfactory_mcp.Table.{update, delete}
use powerfactory_mcp.Domain.Lease.{ContextLease, LeaseState, LeaseEvent, LeaseEventType}
use powerfactory_mcp.Domain.Lease.Checks.{new_context_lease, new_lease_event}
use powerfactory_mcp.Persistence.Database.{Database, lift, bind-eq-ok, lift-eq-ok}
use powerfactory_mcp.Persistence.Writers.{
  lease_at, write_lease_row, append_lease_event, append_lease_event-eq-ok,
}
use powerfactory_mcp.Persistence.LeaseStore.Holder.{Claim, current}
use powerfactory_mcp.Persistence.LeaseStore.Events.{claim_event, append_event}
use powerfactory_mcp.Persistence.LeaseStore.Arguments.{AcquireRequest}
use powerfactory_mcp.Persistence.LeaseStore.Acquire.{AcquireIds, acquire_event, admit_lease}
use powerfactory_mcp.Persistence.LeaseStore.Fenced.{set_operation, delete_lease, free_scope}
use powerfactory_mcp.Persistence.LeaseStore.Expiry.{
  ExpiryNote, expiry_event, expire_idle, expire_in_flight,
}
use powerfactory_mcp.Persistence.LeaseStore.Moves.{write_lease_row_over, write_lease_row_first}

-- The lease table and the event stream after a call; nothing else changes.
abbrev pub with_leases : Database → List ContextLease → List LeaseEvent → Database
with_leases db ls es = record db { context_leases = ls; context_lease_events = es }

pub append_event-eq-ok :
    (e : LeaseEvent) (db : Database) {u : Unit {0}} {db' : Database}
    → append_event e db ≡ ok (u, db')
    → db' ≡ record db { context_lease_events = db.context_lease_events ++ e ∷ [] }
unfolding append_event
append_event-eq-ok e db h =
    let (_, db1, e1, h1) = bind-eq-ok (lift (new_lease_event e)) _ db h in
    let (_, db2, e2, h2) = bind-eq-ok (append_lease_event e) _ db1 h1 in
    ground (arith, lift-eq-ok (new_lease_event e) db e1, append_lease_event-eq-ok e db1 e2)

-- The row of a first lease of its scope, between its two events.
pub admit_lease-eq-ok :
    (q : AcquireRequest) (ids : AcquireIds) (lease : ContextLease) (db : Database)
    {l : ContextLease} {db' : Database}
    → current lease.service_scope_digest lease.configuration_key db ≡ none
    → admit_lease q ids lease db ≡ ok (l, db')
    → (l ≡ lease)
      × (db'
          ≡ with_leases db (db.context_leases ++ lease ∷ []) (
              (db.context_lease_events
                ++ acquire_event q lease ids.attempted_event_id LeaseEventType.acquire_attempted
                  ∷ [])
              ++ acquire_event q lease ids.acquired_event_id LeaseEventType.acquired ∷ []))
unfolding admit_lease current
admit_lease-eq-ok q ids lease db free h =
    let (_, db1, e1, h1) = bind-eq-ok (lift (new_context_lease lease)) _ db h in
    let (_, db2, e2, h2) = bind-eq-ok (append_event attempted) _ db1 h1 in
    let (_, db3, e3, h3) = bind-eq-ok (write_lease_row lease) _ db2 h2 in
    let same = (lift-eq-ok (new_context_lease lease) db e1).1 in
    let still =
      subst (λ d. current digest key d ≡ none) (sym (append_event-eq-ok attempted db1 e2))
        (subst (λ d. current digest key d ≡ none) (sym same) free) in
    let (_, db4, e4, h4) = bind-eq-ok (append_event acquired) _ db3 h3 in
    ground (
      arith,
      lift-eq-ok (new_context_lease lease) db e1,
      append_event-eq-ok attempted db1 e2,
      write_lease_row_first lease db2 still e3,
      append_event-eq-ok acquired db3 e4,
    )
  where
    attempted : LeaseEvent
    attempted = acquire_event q lease ids.attempted_event_id LeaseEventType.acquire_attempted

    acquired : LeaseEvent
    acquired = acquire_event q lease ids.acquired_event_id LeaseEventType.acquired

    digest : String
    digest = lease.service_scope_digest

    key : String
    key = lease.configuration_key

-- A row over the scope's own, and an event.
pub set_operation-eq-ok :
    (l : ContextLease) (claim : Claim) (event_id : String) (kind : LeaseEventType)
    (operation_id : String) (next_operation : Option String) (db : Database) {next : ContextLease}
    {db' : Database}
    → current l.service_scope_digest l.configuration_key db ≡ some l
    → set_operation l claim event_id kind operation_id next_operation db ≡ ok (next, db')
    → (next ≡ record l { operation_id = next_operation })
      × (db'
          ≡ with_leases db
              (update
                (lease_at l.service_scope_digest l.configuration_key)
                (λ r. record l { operation_id = next_operation })
                db.context_leases)
              (db.context_lease_events
                ++ claim_event
                    (record l { operation_id = next_operation })
                    claim
                    event_id
                    kind
                    l.state
                    (some operation_id)
                  ∷ []))
unfolding set_operation current
set_operation-eq-ok l claim event_id kind operation_id next_operation db found h =
    let (_, db1, e1, h1) = bind-eq-ok (lift (new_context_lease changed)) _ db h in
    let (_, db2, e2, h2) = bind-eq-ok (write_lease_row changed) _ db1 h1 in
    let still =
      subst (λ d. current l.service_scope_digest l.configuration_key d ≡ some l)
        (sym (lift-eq-ok (new_context_lease changed) db e1).1) found in
    let (_, db3, e3, h3) = bind-eq-ok (append_event event) _ db2 h2 in
    ground (
      arith,
      lift-eq-ok (new_context_lease changed) db e1,
      write_lease_row_over changed db1 l still e2,
      append_event-eq-ok event db2 e3,
    )
  where
    changed : ContextLease
    changed = record l { operation_id = next_operation }

    event : LeaseEvent
    event = claim_event changed claim event_id kind l.state (some operation_id)

-- An event, and the scope without a row.
pub free_scope-eq-ok :
    (l : ContextLease) (claim : Claim) (event_id : String) (kind : LeaseEventType) (db : Database)
    {next : ContextLease} {db' : Database}
    → free_scope l claim event_id kind db ≡ ok (next, db')
    → (next ≡ l)
      × (db'
          ≡ with_leases db
              (delete (lease_at l.service_scope_digest l.configuration_key) db.context_leases)
              (db.context_lease_events
                ++ claim_event l claim event_id kind LeaseState.available none ∷ []))
unfolding free_scope delete_lease
free_scope-eq-ok l claim event_id kind db h =
    let (_, db1, e1, h1) =
      bind-eq-ok (append_event (claim_event l claim event_id kind LeaseState.available none)) _ db
        h in
    ground (
      arith,
      append_event-eq-ok (claim_event l claim event_id kind LeaseState.available none) db e1,
    )

abbrev pub expired_idle : ContextLease → ContextLease
expired_idle l = record l {
  state = LeaseState.expired;
  recovery_disposition = some "expired before an atomic call was durably started";
}

abbrev pub expired_in_flight : ContextLease → ContextLease
expired_in_flight l = record l {
  state = LeaseState.in_flight_expired;
  recovery_disposition = some "atomic call outcome requires reconciliation";
}

pub expire_idle-eq-ok :
    (l : ContextLease) (note : ExpiryNote) (event_id : String) (db : Database) {next : ContextLease}
    {db' : Database}
    → expire_idle l note event_id db ≡ ok (next, db')
    → (next ≡ expired_idle l)
      × (db'
          ≡ with_leases db
              (delete (lease_at l.service_scope_digest l.configuration_key) db.context_leases)
              (db.context_lease_events ++ expiry_event (expired_idle l) l.state note event_id ∷ []))
unfolding expire_idle delete_lease
expire_idle-eq-ok l note event_id db h =
    let (_, db1, e1, h1) = bind-eq-ok (lift (new_context_lease (expired_idle l))) _ db h in
    let (_, db2, e2, h2) =
      bind-eq-ok (append_event (expiry_event (expired_idle l) l.state note event_id)) _ db1 h1 in
    ground (
      arith,
      lift-eq-ok (new_context_lease (expired_idle l)) db e1,
      append_event-eq-ok (expiry_event (expired_idle l) l.state note event_id) db1 e2,
    )

pub expire_in_flight-eq-ok :
    (l : ContextLease) (note : ExpiryNote) (event_id : String) (db : Database) {next : ContextLease}
    {db' : Database}
    → current l.service_scope_digest l.configuration_key db ≡ some l
    → expire_in_flight l note event_id db ≡ ok (next, db')
    → (next ≡ expired_in_flight l)
      × (db'
          ≡ with_leases db
              (update
                (lease_at l.service_scope_digest l.configuration_key)
                (λ r. expired_in_flight l)
                db.context_leases)
              (db.context_lease_events
                ++ expiry_event (expired_in_flight l) l.state note event_id ∷ []))
unfolding expire_in_flight current
expire_in_flight-eq-ok l note event_id db found h =
    let (_, db1, e1, h1) = bind-eq-ok (lift (new_context_lease (expired_in_flight l))) _ db h in
    let (_, db2, e2, h2) = bind-eq-ok (write_lease_row (expired_in_flight l)) _ db1 h1 in
    let still =
      subst (λ d. current l.service_scope_digest l.configuration_key d ≡ some l)
        (sym (lift-eq-ok (new_context_lease (expired_in_flight l)) db e1).1) found in
    let (_, db3, e3, h3) =
      bind-eq-ok (append_event (expiry_event (expired_in_flight l) l.state note event_id)) _ db2
        h2 in
    ground (
      arith,
      lift-eq-ok (new_context_lease (expired_in_flight l)) db e1,
      write_lease_row_over (expired_in_flight l) db1 l still e2,
      append_event-eq-ok (expiry_event (expired_in_flight l) l.state note event_id) db2 e3,
    )
