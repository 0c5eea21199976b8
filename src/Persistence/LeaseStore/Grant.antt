-- ===== src/Persistence/LeaseStore/Grant.antt =====
-- A free scope is granted: an `acquire` whose conditions hold returns.
use powerfactory_mcp.Prelude.{
  ◌+◌, String, ◌≡◌, refl, ap, ◌∙◌, Bool, false, ◌==◌, Option, none, some, List, [], ◌∷◌, ◌++◌,
  arith,
}
use powerfactory_mcp.Errors.{ok}
use powerfactory_mcp.Table.{find, any, insert, find-append}
use powerfactory_mcp.Domain.Lease.{ContextLease, LeaseEvent, LeaseEventType}
use powerfactory_mcp.Domain.Lease.Checks.{new_context_lease, new_lease_event}
use powerfactory_mcp.Persistence.Database.{
  Database, FenceCounter, lift, transaction, commit, checked, bind_ok,
}
use powerfactory_mcp.Persistence.Writers.{
  counter_at, next_token, set_counter, mint_fencing_token, lease_clashes, put_lease, lease_at,
  write_lease_row, append_lease_event,
}
use powerfactory_mcp.Persistence.LeaseStore.Holder.{current, assert_workflow_version}
use powerfactory_mcp.Persistence.LeaseStore.Events.{append_event}
use powerfactory_mcp.Persistence.LeaseStore.Arguments.{AcquireRequest, check_acquire}
use powerfactory_mcp.Persistence.LeaseStore.Acquire.{
  AcquireIds, new_lease, acquire_event, check_scope, assert_version, admit_lease, acquire_in,
  acquire,
}
use powerfactory_mcp.Persistence.LeaseStore.Moves.{
  last_of, last_token, set_counter_self, same_scope_refl,
}
use powerfactory_mcp.Persistence.LeaseStore.Invariant.{last}

abbrev event_at : String → LeaseEvent → Bool
event_at event_id e = e.event_id == event_id

next_token-last : (o : Option FenceCounter) → next_token o ≡ last_of o + 1
next_token-last none = refl
next_token-last (some c) = refl

event_appended :
    (e : LeaseEvent) (db : Database) {v : LeaseEvent}
    → new_lease_event e ≡ ok v
    → any (event_at e.event_id) db.context_lease_events ≡ false
    → append_event e db
      ≡ ok (tt, record db { context_lease_events = db.context_lease_events ++ e ∷ [] })
unfolding append_event append_lease_event insert
event_appended e db valid fresh = ground (arith, valid, fresh)

first_row_written :
    (l : ContextLease) (db : Database)
    → current l.service_scope_digest l.configuration_key db ≡ none
    → any (lease_clashes l) db.context_leases ≡ false
    → write_lease_row l db ≡ ok (tt, record db { context_leases = db.context_leases ++ l ∷ [] })
unfolding write_lease_row current put_lease
first_row_written l db free unclashed = ground (arith, free, unclashed)

module _ (q : AcquireRequest) (ids : AcquireIds) (db : Database) where
  abbrev granted_lease : ContextLease
  granted_lease = new_lease q ids.lease_id (last q.service_scope_digest q.configuration_key db + 1)

  abbrev attempted : LeaseEvent
  attempted = acquire_event q granted_lease ids.attempted_event_id LeaseEventType.acquire_attempted

  abbrev acquired : LeaseEvent
  acquired = acquire_event q granted_lease ids.acquired_event_id LeaseEventType.acquired

  -- The tables after the grant, with the scope's counters as they are then.
  abbrev granted_tables : List FenceCounter → Database
  granted_tables cs = record db {
    context_lease_fence_counters = cs;
    context_leases = db.context_leases ++ granted_lease ∷ [];
    context_lease_events = (db.context_lease_events ++ attempted ∷ []) ++ acquired ∷ [];
  }

  abbrev advanced_counters : List FenceCounter
  advanced_counters =
      set_counter q.service_scope_digest q.configuration_key
        (last q.service_scope_digest q.configuration_key db + 1)
        (find (counter_at q.service_scope_digest q.configuration_key)
          db.context_lease_fence_counters)
        db.context_lease_fence_counters

  minted :
      mint_fencing_token q.service_scope_digest q.configuration_key db
      ≡ ok (
        last q.service_scope_digest q.configuration_key db + 1,
        record db { context_lease_fence_counters = advanced_counters },
      )
  unfolding mint_fencing_token last_token
  minted =
      ap
        (λ t. ok (
          t,
          record db {
            context_lease_fence_counters =
                set_counter q.service_scope_digest q.configuration_key t
                  (find (counter_at q.service_scope_digest q.configuration_key)
                    db.context_lease_fence_counters)
                  db.context_lease_fence_counters;
          },
        ))
        (next_token-last (
          find (counter_at q.service_scope_digest q.configuration_key)
            db.context_lease_fence_counters))

  module _ (free : current q.service_scope_digest q.configuration_key db ≡ none)
      (version : assert_workflow_version q.workflow_id q.expected_workflow_version db ≡ ok tt)
      (valid : new_context_lease granted_lease ≡ ok granted_lease)
      (unclashed : any (lease_clashes granted_lease) db.context_leases ≡ false)
      (first_event : new_lease_event attempted ≡ ok attempted)
      (second_event : new_lease_event acquired ≡ ok acquired)
      (fresh : any (event_at ids.attempted_event_id) db.context_lease_events ≡ false)
      (fresh' : any (event_at ids.acquired_event_id) (db.context_lease_events ++ attempted ∷ [])
        ≡ false) where
    acquire_in-grants : acquire_in q ids db ≡ ok (granted_lease, granted_tables advanced_counters)
    unfolding acquire_in admit_lease check_scope assert_version current
    acquire_in-grants =
        bind_ok (check_scope q) _ db {a = tt} {db1 = db} (ground (arith, free))
        ∙ bind_ok (assert_version q) _ db {a = tt} {db1 = db} (ground (arith, version))
        ∙ bind_ok (mint_fencing_token q.service_scope_digest q.configuration_key) _ db minted
        ∙ bind_ok (lift (new_context_lease granted_lease)) _ db1 {a = granted_lease} {db1 = db1}
            (ground (arith, valid))
        ∙ bind_ok (append_event attempted) _ db1 (event_appended attempted db1 first_event fresh)
        ∙ bind_ok (write_lease_row granted_lease) _ db2
            (first_row_written granted_lease db2 free unclashed)
        ∙ bind_ok (append_event acquired) _ db3 (event_appended acquired db3 second_event fresh')
      where
        db1 : Database
        db1 = record db { context_lease_fence_counters = advanced_counters }

        db2 : Database
        db2 = record db1 { context_lease_events = db.context_lease_events ++ attempted ∷ [] }

        db3 : Database
        db3 = record db2 { context_leases = db.context_leases ++ granted_lease ∷ [] }

    held_now :
        (cs : List FenceCounter)
        → current q.service_scope_digest q.configuration_key (granted_tables cs)
          ≡ some granted_lease
    unfolding current find
    held_now cs = ground (
      arith,
      free,
      find-append (lease_at q.service_scope_digest q.configuration_key) db.context_leases
          (granted_lease ∷ []),
      same_scope_refl q.service_scope_digest q.configuration_key,
    )

    granted :
        check_acquire q ≡ ok tt
        → acquire q ids db ≡ (ok granted_lease, granted_tables advanced_counters)
    unfolding acquire checked transaction commit
    granted passes = rw (passes, acquire_in-grants) refl

    -- A free scope is granted: when the arguments pass their checks, the scope has no lease, the
    -- workflow is at the expected version, the lease and its two events are valid and their
    -- identifiers new, `acquire` returns the lease under the token that follows the scope's last
    -- one, and leaves the tables with exactly this: the lease is the scope's, its row follows the
    -- others, `acquire_attempted` and `acquired` follow the other events in this order, and the
    -- token is the last one that the scope's counter has given out.
    pub acquire-grants :
        check_acquire q ≡ ok tt
        → (cs : List FenceCounter) × (acquire q ids db ≡ (ok granted_lease, granted_tables cs))
          × (current q.service_scope_digest q.configuration_key (acquire q ids db).1
              ≡ some granted_lease)
          × (last_token q.service_scope_digest q.configuration_key cs
              ≡ last q.service_scope_digest q.configuration_key db + 1)
    acquire-grants passes = (
      advanced_counters,
      granted passes,
      rw (granted passes) (held_now advanced_counters),
      set_counter_self q.service_scope_digest q.configuration_key _ _ _ refl,
    )
