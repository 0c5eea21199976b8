-- ===== src/Persistence/LeaseStore/Turnover.antt =====
-- The calls that give a scope away and take it back, `acquire`, `expire` and `expire_due`, as moves
-- of the abstract lock service.
use powerfactory_mcp.Prelude.{
  true, false, ℕ, String, ◌≡◌, refl, sym, ap, subst, ◌∙◌, Option, none, some, [], ◌∷◌, ◌++◌, arith,
  not,
}
use powerfactory_mcp.Errors.{refuse-eq-ok, ok, refuse, lease_not_expired, lease_cannot_expire}
use powerfactory_mcp.Domain.Values.{before}
use powerfactory_mcp.Domain.Values.Checks.{require_aware}
use powerfactory_mcp.Domain.Lease.{ContextLease, LeaseEventType, is_held}
use powerfactory_mcp.Persistence.Database.{Database, lift, bind-eq-ok, lift-eq-ok}
use powerfactory_mcp.Persistence.Writers.{mint_fencing_token}
use powerfactory_mcp.Persistence.LeaseStore.Holder.{current, assert_workflow_version}
use powerfactory_mcp.Persistence.LeaseStore.Arguments.{AcquireRequest, check_acquire}
use powerfactory_mcp.Persistence.LeaseStore.Acquire.{
  AcquireIds, new_lease, acquire_event, refuse_busy, check_scope, assert_version, acquire_in,
  acquire,
}
use powerfactory_mcp.Persistence.LeaseStore.Expiry.{
  ExpiryNote, read_scope, expire_lease, expire_in, expire,
}
use powerfactory_mcp.Persistence.LeaseStore.Moves.{
  granted, replaced, freed, Minted, mint_fencing_token-eq-ok, same_scope_eq,
}
use powerfactory_mcp.Persistence.LeaseStore.Effects.{
  admit_lease-eq-ok, expire_idle-eq-ok, expire_in_flight-eq-ok, expired_in_flight,
}
use powerfactory_mcp.Persistence.LeaseStore.Invariant.{current-scope}
use powerfactory_mcp.Persistence.LeaseStore.Calls.{
  SameWorkflows, LeaseCall, LeaseCall-transaction, LeaseCall-checked,
}

refuse_busy-eq-ok :
    (o : Option ContextLease) (db : Database) {u : Unit {0}} {db' : Database}
    → refuse_busy o db ≡ ok (u, db')
    → (o ≡ none) × (db' ≡ db)
refuse_busy-eq-ok none db h = ground arith
refuse_busy-eq-ok (some l) db h = cc

-- What `acquire` has done when its transaction returns.
pub record Acquired (q : AcquireRequest) (ids : AcquireIds) (db : Database) (l : ContextLease)
    (db' : Database) : Type 0 where
  pub token : ℕ
  pub minted_db : Database
  pub free : current q.service_scope_digest q.configuration_key db ≡ none
  pub checked_version : assert_workflow_version q.workflow_id q.expected_workflow_version db ≡ ok tt
  pub minted : Minted q.service_scope_digest q.configuration_key token db minted_db
  pub lease : l ≡ new_lease q ids.lease_id token
  pub leases : db'.context_leases ≡ db.context_leases ++ new_lease q ids.lease_id token ∷ []
  pub counters : db'.context_lease_fence_counters ≡ minted_db.context_lease_fence_counters
  pub events :
      db'.context_lease_events
      ≡ (db.context_lease_events
          ++ acquire_event q
              (new_lease q ids.lease_id token)
              ids.attempted_event_id
              LeaseEventType.acquire_attempted
            ∷ [])
        ++ acquire_event q
            (new_lease q ids.lease_id token)
            ids.acquired_event_id
            LeaseEventType.acquired
          ∷ []
  pub workflows : SameWorkflows db db'

pub acquire_in-eq-ok :
    (q : AcquireRequest) (ids : AcquireIds) (db : Database) {l : ContextLease} {db' : Database}
    → acquire_in q ids db ≡ ok (l, db')
    → Acquired q ids db l db'
unfolding acquire_in check_scope assert_version current
acquire_in-eq-ok q ids db {l} {db'} h =
    let (_, db1, e1, h1) = bind-eq-ok (check_scope q) _ db h in
    let (_, db2, e2, h2) = bind-eq-ok (assert_version q) _ db1 h1 in
    let (token, db3, e3, h3) = bind-eq-ok (mint_fencing_token digest key) _ db2 h2 in
    let (free, same1) = refuse_busy-eq-ok (current digest key db) db e1 in
    let (version, same2) =
      lift-eq-ok (assert_workflow_version q.workflow_id q.expected_workflow_version db1) db1 e2 in
    let same = same2 ∙ same1 in
    let (cs, wrote, minted) =
      mint_fencing_token-eq-ok digest key db
        (subst (λ d. mint_fencing_token digest key d ≡ ok (token, db3)) same e3) in
    let still = subst (λ d. current digest key d ≡ none) (sym wrote) free in
    let (made, done) = admit_lease-eq-ok q ids (new_lease q ids.lease_id token) db3 still h3 in
    record {
      token = token;
      minted_db = db3;
      free = free;
      checked_version =
          subst (λ d. assert_workflow_version q.workflow_id q.expected_workflow_version d ≡ ok tt)
            same1 version;
      minted = minted;
      lease = made;
      leases = ground arith;
      counters = ground arith;
      events = ground arith;
      workflows = record { records = ground arith; commands = ground arith; audits = ground arith };
    }
  where
    digest : String
    digest = q.service_scope_digest

    key : String
    key = q.configuration_key

Acquired-LeaseCall :
    {q : AcquireRequest} {ids : AcquireIds} {db db' : Database} {l : ContextLease}
    → Acquired q ids db l db'
    → LeaseCall db db'
Acquired-LeaseCall {q} {ids} a = record {
  move =
      granted (new_lease q ids.lease_id a.token) a.free
        (record { next = a.minted.next; counters = λ d k. rw a.counters (a.minted.counters d k) })
        a.leases;
  workflows = a.workflows;
}

pub acquire-LeaseCall :
    (q : AcquireRequest) (ids : AcquireIds) (db : Database) → LeaseCall db (acquire q ids db).1
unfolding acquire
acquire-LeaseCall q ids db = LeaseCall-checked (check_acquire q) _ db (λ _.
    LeaseCall-transaction (acquire_in q ids) db
      (λ l db' h. Acquired-LeaseCall (acquire_in-eq-ok q ids db h)))

read_scope-eq-ok :
    (digest key : String) (db : Database) {l : ContextLease} {db' : Database}
    → read_scope digest key db ≡ ok (l, db')
    → (current digest key db ≡ some l) × (db' ≡ db)
unfolding read_scope
read_scope-eq-ok digest key db h = ground arith

expire_lease-LeaseCall :
    (l : ContextLease) (note : ExpiryNote) (event_id : String) (o : Option String) (db : Database)
    {next : ContextLease} {db' : Database}
    → current l.service_scope_digest l.configuration_key db ≡ some l
    → expire_lease l note event_id o db ≡ ok (next, db')
    → LeaseCall db db'
unfolding expire_lease
expire_lease-LeaseCall l note event_id none db found h =
    let wrote = (expire_idle-eq-ok l note event_id db h).1 in
    record {
      move =
          freed l found (ap (λ d. d.context_leases) wrote)
            (ap (λ d. d.context_lease_fence_counters) wrote);
      workflows = record {
        records = ap (λ d. d.workflow_records) wrote;
        commands = ap (λ d. d.workflow_commands) wrote;
        audits = ap (λ d. d.workflow_audit_events) wrote;
      };
    }
expire_lease-LeaseCall l note event_id (some operation) db found h =
    let wrote = (expire_in_flight-eq-ok l note event_id db found h).1 in
    record {
      move =
          replaced l (expired_in_flight l) found refl refl refl (ap (λ d. d.context_leases) wrote)
            (ap (λ d. d.context_lease_fence_counters) wrote);
      workflows = record {
        records = ap (λ d. d.workflow_records) wrote;
        commands = ap (λ d. d.workflow_commands) wrote;
        audits = ap (λ d. d.workflow_audit_events) wrote;
      };
    }

-- What the transaction of `expire` found when it returns.
pub record Expired (digest key : String) (note : ExpiryNote) (event_id : String) (db : Database)
    (next : ContextLease) (db' : Database) : Type 0 where
  pub l : ContextLease
  pub found : current digest key db ≡ some l
  pub own : current l.service_scope_digest l.configuration_key db ≡ some l
  pub held : is_held l.state ≡ true
  pub due : before note.occurred_at l.expires_at ≡ false
  pub body : expire_lease l note event_id l.operation_id db ≡ ok (next, db')

pub expire_in-eq-ok :
    (digest key : String) (note : ExpiryNote) (event_id : String) (db : Database)
    {next : ContextLease} {db' : Database}
    → expire_in digest key note event_id db ≡ ok (next, db')
    → Expired digest key note event_id db next db'
unfolding expire_in
expire_in-eq-ok digest key note event_id db {next} {db'} h =
    let (l, db1, e1, h1) = bind-eq-ok (read_scope digest key) _ db h in
    let (_, db2, e2, h2) =
      bind-eq-ok (lift (refuse (not (is_held l.state)) (lease_cannot_expire l.state))) _ db1 h1 in
    let (_, db3, e3, h3) =
      bind-eq-ok (lift (refuse (before note.occurred_at l.expires_at) lease_not_expired)) _ db2
        h2 in
    let (found, same1) = read_scope-eq-ok digest key db e1 in
    let (g2, same2) =
      lift-eq-ok (refuse (not (is_held l.state)) (lease_cannot_expire l.state)) db1 e2 in
    let (g3, same3) =
      lift-eq-ok (refuse (before note.occurred_at l.expires_at) lease_not_expired) db2 e3 in
    let (p, r) =
      same_scope_eq l.service_scope_digest l.configuration_key digest key
        (current-scope digest key db found) in
    record {
      l = l;
      found = found;
      own =
          subst (λ d. current d l.configuration_key db ≡ some l) (sym p)
            (subst (λ k. current digest k db ≡ some l) (sym r) found);
      held = ground (arith, refuse-eq-ok (not (is_held l.state)) (lease_cannot_expire l.state) g2);
      due = refuse-eq-ok (before note.occurred_at l.expires_at) lease_not_expired g3;
      body =
          subst (λ d. expire_lease l note event_id l.operation_id d ≡ ok (next, db'))
            (same3 ∙ same2 ∙ same1) h3;
    }

pub expire-LeaseCall :
    (digest key : String) (note : ExpiryNote) (event_id : String) (db : Database)
    → LeaseCall db (expire digest key note event_id db).1
unfolding expire
expire-LeaseCall digest key note event_id db =
    LeaseCall-checked (require_aware note.occurred_at "occurred_at") _ db (λ _.
      LeaseCall-transaction (expire_in digest key note event_id) db (λ next db' h.
        let x = expire_in-eq-ok digest key note event_id db h in
        expire_lease-LeaseCall x.l note event_id x.l.operation_id db x.own x.body))
