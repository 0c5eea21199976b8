-- ===== src/Persistence/LeaseStore/Expiry.antt =====
-- `ContextLeaseStore.expire`, `expire_due` and `recovery_leases`.
use Prim.Native.String.{compare}
use Prim.Native.Nat.{Ordering}
use powerfactory_mcp.Prelude.{
  ℕ, suc, String, Bool, true, false, ◌&&◌, not, Option, none, some, List, [], ◌∷◌, if◌then◌else◌,
}
use powerfactory_mcp.Errors.{
  Result, ok, err, lease_not_found, lease_cannot_expire, lease_not_expired, refuse,
}
use powerfactory_mcp.Table.{select}
use powerfactory_mcp.Domain.Values.{Datetime, before}
use powerfactory_mcp.Domain.Values.Checks.{require_aware}
use powerfactory_mcp.Domain.Lease.{
  ContextLease, LeaseState, LeaseEvent, LeaseEventType, is_held, is_recovery,
}
use powerfactory_mcp.Domain.Lease.Checks.{new_context_lease}
use powerfactory_mcp.Persistence.Timestamps.{encode_utc_timestamp, timestamp_le}
use powerfactory_mcp.Persistence.Database.{
  Database, Tx, Exec, ◌>>=◌, ◌>>◌, pure, lift, transaction, checked,
}
use powerfactory_mcp.Persistence.Writers.{write_lease_row}
use powerfactory_mcp.Persistence.LeaseStore.Holder.{current}
use powerfactory_mcp.Persistence.LeaseStore.Events.{event_of, append_event}
use powerfactory_mcp.Persistence.LeaseStore.Fenced.{delete_lease}

-- The arguments that describe an expiry.
pub record ExpiryNote : Type 0 where
  pub occurred_at : Datetime
  pub reason : String
  pub evidence_reference : String
  pub correlation_id : Option String

unfoldable pub read_scope : String → String → Tx ContextLease
read_scope digest key db = elim (current digest key db) [
  | none ↦ err (lease_not_found key)
  | some l ↦ ok (l, db)
]

abbrev pub expiry_event : ContextLease → LeaseState → ExpiryNote → String → LeaseEvent
expiry_event next before note event_id =
    event_of next event_id LeaseEventType.expired note.occurred_at before next.state note.reason
      note.evidence_reference none next.operation_id note.correlation_id next.fencing_token

-- Without an atomic call the scope becomes free.
unfoldable pub expire_idle : ContextLease → ExpiryNote → String → Tx ContextLease
expire_idle l note event_id = do
  let next = record l {
    state = LeaseState.expired;
    recovery_disposition = some "expired before an atomic call was durably started";
  }
  _ ← lift (new_context_lease next)
  append_event (expiry_event next l.state note event_id)
  delete_lease l
  pure next

-- With one the row stays, and waits for reconciliation.
unfoldable pub expire_in_flight : ContextLease → ExpiryNote → String → Tx ContextLease
expire_in_flight l note event_id = do
  let next = record l {
    state = LeaseState.in_flight_expired;
    recovery_disposition = some "atomic call outcome requires reconciliation";
  }
  _ ← lift (new_context_lease next)
  write_lease_row next
  append_event (expiry_event next l.state note event_id)
  pure next

unfoldable pub expire_lease : ContextLease → ExpiryNote → String → Option String → Tx ContextLease
expire_lease l note event_id none = expire_idle l note event_id
expire_lease l note event_id (some operation) = expire_in_flight l note event_id

unfoldable pub expire_in : String → String → ExpiryNote → String → Tx ContextLease
expire_in digest key note event_id = do
  l ← read_scope digest key
  lift (refuse (not (is_held l.state)) (lease_cannot_expire l.state))
  lift (refuse (before note.occurred_at l.expires_at) lease_not_expired)
  expire_lease l note event_id l.operation_id

unfoldable pub expire : String → String → ExpiryNote → String → Exec ContextLease
expire digest key note event_id =
    checked (require_aware note.occurred_at "occurred_at")
      λ _. transaction (expire_in digest key note event_id)

-- WHERE state IN (held states) AND expires_at <= ?, on the encoded timestamps.
abbrev pub is_due : Datetime → ContextLease → Bool
is_due occurred_at l =
    is_held l.state
    && timestamp_le (encode_utc_timestamp l.expires_at) (encode_utc_timestamp occurred_at)

-- ORDER BY service_scope_digest, configuration_key.
precedes : ContextLease → ContextLease → Bool
precedes a b = elim (compare a.service_scope_digest b.service_scope_digest) [
  | Ordering.lt ↦ true
  | Ordering.gt ↦ false
  | Ordering.eq ↦ elim (compare a.configuration_key b.configuration_key) [
    | Ordering.gt ↦ false
    | _ ↦ true
  ]
]

insert_ordered : ContextLease → List ContextLease → List ContextLease
unfolding precedes
insert_ordered l [] = l ∷ []
insert_ordered l (m ∷ ms) =
    let rest = insert_ordered l ms in if precedes l m then l ∷ m ∷ ms else m ∷ rest

unfoldable pub order_by_scope : List ContextLease → List ContextLease
unfolding insert_ordered
order_by_scope [] = []
order_by_scope (l ∷ ls) = insert_ordered l (order_by_scope ls)

unfoldable pub due_leases : Datetime → Database → List ContextLease
due_leases occurred_at db = order_by_scope (select (is_due occurred_at) db.context_leases)

unfoldable pub recovery_leases : Database → List ContextLease
recovery_leases db = order_by_scope (select (λ l. is_recovery l.state) db.context_leases)

abbrev pub consed :
    ContextLease → Result (List ContextLease) × Database → Result (List ContextLease) × Database
consed l (err e, db) = (err e, db)
consed l (ok ls, db) = (ok (l ∷ ls), db)

-- The first exception ends the tuple.
abbrev pub followed_by :
    Result ContextLease × Database
    → Exec (List ContextLease)
    → Result (List ContextLease) × Database
followed_by (err e, db) rest = (err e, db)
followed_by (ok l, db) rest = consed l (rest db)

-- Each lease expires in a transaction of its own. `uuids n` is the n-th value of `uuid.uuid4()`.
unfoldable pub expire_each :
    List ContextLease → ExpiryNote → (ℕ → String) → ℕ → Exec (List ContextLease)
expire_each [] note uuids n db = (ok [], db)
expire_each (l ∷ ls) note uuids n db =
    followed_by (expire l.service_scope_digest l.configuration_key note (uuids n) db)
      (expire_each ls note uuids (suc n))

unfoldable pub expire_due : ExpiryNote → (ℕ → String) → Exec (List ContextLease)
expire_due note uuids =
    checked (require_aware note.occurred_at "occurred_at")
      λ _ db. expire_each (due_leases note.occurred_at db) note uuids 0 db
