-- ===== src/Persistence/LeaseStore/Outcomes.antt =====
-- What `expire` and `expire_due` come to: the scope that is freed or kept for recovery, and the leases
-- that the order of the encoded timestamps selects.
use powerfactory_mcp.Prelude.{
  ◌≡◌, ◌≢◌, ◌⊎◌, inl, inr, refl, sym, subst, ap, ℕ, ◌<◌, ◌/◌, ◌%◌, String, true, false, Option,
  none, some, List, ◌∷◌, arith,
}
use powerfactory_mcp.Errors.{ok, err, lease_not_expired}
use powerfactory_mcp.Domain.Values.{Datetime, before}
use powerfactory_mcp.Domain.Values.Checks.{require_aware}
use powerfactory_mcp.Domain.Lease.{ContextLease, is_held}
use powerfactory_mcp.Persistence.Timestamps.{
  encode_suffix, encode_utc_timestamp, text_le, timestamp_le,
}
use powerfactory_mcp.Persistence.Database.{
  Database, transaction, commit, transaction-eq-ok, checked, checked-eq-ok,
}
use powerfactory_mcp.Persistence.LeaseStore.Holder.{current}
use powerfactory_mcp.Persistence.LeaseStore.Expiry.{
  ExpiryNote, read_scope, expire_lease, expire_in, expire, is_due, due_leases, expire_each,
  expire_due,
}
use powerfactory_mcp.Persistence.LeaseStore.Effects.{
  expired_in_flight, expire_idle-eq-ok, expire_in_flight-eq-ok,
}
use powerfactory_mcp.Persistence.LeaseStore.Invariant.{
  current-freed_self, current-replaced_self, current-scope, scope_subst,
}
use powerfactory_mcp.Persistence.LeaseStore.Turnover.{Expired, expire_in-eq-ok}

expire-Expired :
    (digest key : String) (note : ExpiryNote) (event_id : String) (db : Database)
    {next : ContextLease}
    → (expire digest key note event_id db).0 ≡ ok next
    → Expired digest key note event_id db next (expire digest key note event_id db).1
unfolding expire
expire-Expired digest key note event_id db {next} h =
    let (_, _, run) =
      checked-eq-ok (require_aware note.occurred_at "occurred_at")
        (λ _. transaction (expire_in digest key note event_id)) db h in
    let body =
      transaction-eq-ok (expire_in digest key note event_id) db
        (subst (λ x. x.0 ≡ ok next) run h) in
    subst (λ x. Expired digest key note event_id db next x.1) (sym run)
      (expire_in-eq-ok digest key note event_id db body)

-- The scope after the expiry of its lease, by the atomic call that was in flight.
left_by :
    (l : ContextLease) (note : ExpiryNote) (event_id : String) (o : Option String) (db : Database)
    {next : ContextLease} {db' : Database}
    → current l.service_scope_digest l.configuration_key db ≡ some l
    → expire_lease l note event_id o db ≡ ok (next, db')
    → ((o ≡ none) × (current l.service_scope_digest l.configuration_key db' ≡ none))
      ⊎ ((o ≢ none)
          × (current l.service_scope_digest l.configuration_key db' ≡ some (expired_in_flight l)))
unfolding expire_lease
left_by l note event_id none db {db' = db'} found h =
    let (_, wrote) = expire_idle-eq-ok l note event_id db h in
    inl (refl, current-freed_self db db' l (ap (λ d. d.context_leases) wrote))
left_by l note event_id (some operation) db {db' = db'} found h =
    let (_, wrote) = expire_in_flight-eq-ok l note event_id db found h in
    inr (
      (λ e. cc e),
      current-replaced_self db db' l (expired_in_flight l) refl refl
          (ap (λ d. d.context_leases) wrote) found,
    )

-- An `expire` that returns found a held lease whose expiry is not behind the given time; it frees
-- the scope when no atomic call was in flight, and otherwise keeps the lease in the scope as
-- `in_flight_expired`, with its operation, token and owner.
pub expire-outcome :
    (digest key : String) (note : ExpiryNote) (event_id : String) (db : Database)
    (next : ContextLease)
    → (expire digest key note event_id db).0 ≡ ok next
    → (l : ContextLease) × (current digest key db ≡ some l)
      × (is_held l.state ≡ true)
      × (before note.occurred_at l.expires_at ≡ false)
      × (((l.operation_id ≡ none)
            × (current digest key (expire digest key note event_id db).1 ≡ none))
          ⊎ ((l.operation_id ≢ none)
              × (current digest key (expire digest key note event_id db).1
                  ≡ some (expired_in_flight l))))
expire-outcome digest key note event_id db next h =
    let x = expire-Expired digest key note event_id db h in
    (
      x.l,
      x.found,
      x.held,
      x.due,
      scope_subst
          (λ d k.
            ((x.l.operation_id ≡ none)
              × (current d k (expire digest key note event_id db).1 ≡ none))
            ⊎ ((x.l.operation_id ≢ none)
                × (current d k (expire digest key note event_id db).1
                    ≡ some (expired_in_flight x.l))))
          x.l.service_scope_digest x.l.configuration_key digest key
          (current-scope digest key db x.found)
          (left_by x.l note event_id x.l.operation_id db x.own x.body),
    )

-- A whole second is encoded without a fraction, and its text is behind those of the other instants
-- of its second although it is the first of them.
pub timestamp_le_whole :
    (a b : Datetime)
    → a.micros / 1000000 ≡ b.micros / 1000000
    → a.micros % 1000000 ≡ 0
    → b.micros % 1000000 ≢ 0
    → (timestamp_le (encode_utc_timestamp a) (encode_utc_timestamp b) ≡ false)
      × (timestamp_le (encode_utc_timestamp b) (encode_utc_timestamp a) ≡ true)
      × (a.micros < b.micros)
unfolding timestamp_le encode_utc_timestamp encode_suffix text_le
timestamp_le_whole a b same whole fraction = (
  ground (arith, same, whole, fraction),
  ground (arith, same, whole, fraction),
  omega (arith, same, whole, fraction),
)

-- `expire_due` passes over a lease that is due: when its expiry is a whole second and the given time
-- is a later instant of the same second, the lease is not selected, although `expire` would not
-- find it too early.
pub is_due-misses :
    (occurred_at : Datetime) (l : ContextLease)
    → l.expires_at.micros / 1000000 ≡ occurred_at.micros / 1000000
    → l.expires_at.micros % 1000000 ≡ 0
    → occurred_at.micros % 1000000 ≢ 0
    → (is_due occurred_at l ≡ false) × (before occurred_at l.expires_at ≡ false)
is_due-misses occurred_at l same whole fraction =
    let (late, _, behind) = timestamp_le_whole l.expires_at occurred_at same whole fraction in
    (ground (arith, late), ground (arith, behind))

early_expire :
    (l : ContextLease) (note : ExpiryNote) (event_id : String) (db : Database)
    → require_aware note.occurred_at "occurred_at" ≡ ok tt
    → current l.service_scope_digest l.configuration_key db ≡ some l
    → is_held l.state ≡ true
    → before note.occurred_at l.expires_at ≡ true
    → expire l.service_scope_digest l.configuration_key note event_id db
      ≡ (err lease_not_expired, db)
unfolding expire expire_in read_scope checked transaction commit
early_expire l note event_id db aware found held early = ground (arith, aware, found, held, early)

-- When the given time has a zone and the first lease that `expire_due` selects is held, is its
-- scope's and expires only later, which the order of the encoded timestamps admits, the call raises
-- and expires nothing.
pub expire_due-aborts :
    (note : ExpiryNote) (uuids : ℕ → String) (db : Database) (l : ContextLease)
    (rest : List ContextLease)
    → require_aware note.occurred_at "occurred_at" ≡ ok tt
    → due_leases note.occurred_at db ≡ l ∷ rest
    → current l.service_scope_digest l.configuration_key db ≡ some l
    → is_held l.state ≡ true
    → before note.occurred_at l.expires_at ≡ true
    → expire_due note uuids db ≡ (err lease_not_expired, db)
unfolding expire_due expire_each checked
expire_due-aborts note uuids db l rest aware selected found held early =
    rw (aware, selected) (rw (early_expire l note (uuids 0) db aware found held early) refl)
