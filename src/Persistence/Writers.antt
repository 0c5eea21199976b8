-- ===== src/Persistence/Writers.antt =====
-- persistence/_transactional_writers.py: the writes that the stores share.
use powerfactory_mcp.Prelude.{
  ℕ, ◌+◌, String, Bool, ◌&&◌, ◌||◌, not, ◌≡◌, arith, false, ◌==◌, if◌then◌else◌, Option, none, some,
  List, [], ◌∷◌, ◌++◌,
}
use powerfactory_mcp.Errors.{ok, err, integrity_error}
use powerfactory_mcp.Table.{find, any, update, insert}
use powerfactory_mcp.Domain.Workflow.{IdempotentCommandRecord, AuditEvent}
use powerfactory_mcp.Domain.Lease.{ContextLease, LeaseEvent}
use powerfactory_mcp.Persistence.Database.{Database, FenceCounter, Tx}

-- WHERE service_scope_digest = ? AND configuration_key = ?
abbrev pub counter_at : String → String → FenceCounter → Bool
counter_at digest key c = c.service_scope_digest == digest && c.configuration_key == key

abbrev pub lease_at : String → String → ContextLease → Bool
lease_at digest key l = l.service_scope_digest == digest && l.configuration_key == key

abbrev pub next_token : Option FenceCounter → ℕ
next_token none = 1
next_token (some c) = c.last_fencing_token + 1

-- The upsert: a stored counter is set, a missing one inserted.
unfoldable pub set_counter :
    String → String → ℕ → Option FenceCounter → List FenceCounter → List FenceCounter
set_counter digest key token none cs =
    cs
    ++ record { service_scope_digest = digest; configuration_key = key; last_fencing_token = token }
      ∷ []
set_counter digest key token (some c) cs =
    update (counter_at digest key) (λ r. record r { last_fencing_token = token }) cs

unfoldable pub mint_fencing_token : String → String → Tx ℕ
unfolding set_counter
mint_fencing_token digest key db =
    let row = find (counter_at digest key) db.context_lease_fence_counters in
    let token = next_token row in
    ok (
      token,
      record db {
        context_lease_fence_counters =
            set_counter digest key token row db.context_lease_fence_counters;
      },
    )

-- `lease_id` is UNIQUE: a row of another scope with the same one refuses the write.
abbrev pub lease_clashes : ContextLease → ContextLease → Bool
lease_clashes lease r =
    r.lease_id == lease.lease_id
    && not (lease_at lease.service_scope_digest lease.configuration_key r)

-- The upsert on the scope: the row of the scope is replaced, a missing one inserted.
unfoldable pub put_lease :
    ContextLease → Option ContextLease → List ContextLease → List ContextLease
put_lease lease none ls = ls ++ lease ∷ []
put_lease lease (some old) ls =
    update (lease_at lease.service_scope_digest lease.configuration_key) (λ r. lease) ls

unfoldable pub write_lease_row : ContextLease → Tx (Unit {0})
unfolding put_lease
write_lease_row lease db =
    let row =
      find (lease_at lease.service_scope_digest lease.configuration_key) db.context_leases in
    if any (lease_clashes lease) db.context_leases
    then err integrity_error
    else ok (tt, record db { context_leases = put_lease lease row db.context_leases })

-- The three writers below only insert; `event_id`, `command_id` and the pair of workflow and
-- idempotency key are UNIQUE.
unfoldable pub append_lease_event : LeaseEvent → Tx LeaseEvent
append_lease_event event db =
    elim (insert (λ r. r.event_id == event.event_id) event db.context_lease_events) [
      | err e ↦ err e
      | ok rows ↦ ok (event, record db { context_lease_events = rows })
    ]

-- WHERE workflow_id = ? AND idempotency_key = ?
abbrev pub command_at : String → String → IdempotentCommandRecord → Bool
command_at workflow_id key c = c.workflow_id == workflow_id && c.idempotency_key == key

abbrev pub command_clashes : IdempotentCommandRecord → IdempotentCommandRecord → Bool
command_clashes command c =
    c.command_id == command.command_id || command_at command.workflow_id command.idempotency_key c

unfoldable pub insert_workflow_command : IdempotentCommandRecord → Tx (Unit {0})
insert_workflow_command command db =
    elim (insert (command_clashes command) command db.workflow_commands) [
      | err e ↦ err e
      | ok rows ↦ ok (tt, record db { workflow_commands = rows })
    ]

unfoldable pub append_workflow_audit_event : AuditEvent → Tx AuditEvent
append_workflow_audit_event event db =
    elim (insert (λ r. r.event_id == event.event_id) event db.workflow_audit_events) [
      | err e ↦ err e
      | ok rows ↦ ok (event, record db { workflow_audit_events = rows })
    ]

-- What each writer wrote when it returns.
pub insert_workflow_command-eq-ok :
    (command : IdempotentCommandRecord) (db : Database) {u : Unit {0}} {db' : Database}
    → insert_workflow_command command db ≡ ok (u, db')
    → (any (command_clashes command) db.workflow_commands ≡ false)
      × (db' ≡ record db { workflow_commands = db.workflow_commands ++ command ∷ [] })
unfolding insert_workflow_command insert
insert_workflow_command-eq-ok command db h = ground arith

pub append_workflow_audit_event-eq-ok :
    (event : AuditEvent) (db : Database) {e : AuditEvent} {db' : Database}
    → append_workflow_audit_event event db ≡ ok (e, db')
    → (e ≡ event)
      × (db' ≡ record db { workflow_audit_events = db.workflow_audit_events ++ event ∷ [] })
unfolding append_workflow_audit_event insert
append_workflow_audit_event-eq-ok event db h = ground arith

pub append_lease_event-eq-ok :
    (event : LeaseEvent) (db : Database) {e : LeaseEvent} {db' : Database}
    → append_lease_event event db ≡ ok (e, db')
    → (e ≡ event)
      × (db' ≡ record db { context_lease_events = db.context_lease_events ++ event ∷ [] })
unfolding append_lease_event insert
append_lease_event-eq-ok event db h = ground arith
