-- ===== src/Persistence/History/Fencing.antt =====
-- Fencing tokens along a history: every grant of a scope has a larger token than those before it, and
-- a holder that has been followed by another is refused.
use powerfactory_mcp.Prelude.{◌+◌, ◌<◌, ◌≤◌, ◌≡◌, sym, subst, ◌∙◌, ap, arith, List}
use powerfactory_mcp.Errors.{ok}
use powerfactory_mcp.Domain.Lease.{ContextLease}
use powerfactory_mcp.Persistence.Database.{Database, transaction, transaction-eq-ok, checked-eq-ok}
use powerfactory_mcp.Persistence.LeaseStore.Holder.{Claim}
use powerfactory_mcp.Persistence.LeaseStore.Arguments.{AcquireRequest, check_acquire}
use powerfactory_mcp.Persistence.LeaseStore.Acquire.{AcquireIds, acquire_in, acquire}
use powerfactory_mcp.Persistence.LeaseStore.Moves.{same_scope_refl}
use powerfactory_mcp.Persistence.LeaseStore.Invariant.{last}
use powerfactory_mcp.Persistence.LeaseStore.Turnover.{Acquired, acquire_in-eq-ok}
use powerfactory_mcp.Persistence.LeaseStore.HolderCalls.{HolderCall, attempt, attempt-Newest}
use powerfactory_mcp.Persistence.History.{Call, step, run}
use powerfactory_mcp.Persistence.History.Steps.{Consistent, run-Trail, step-Trail, Trail-Consistent}
use powerfactory_mcp.Persistence.History.Growth.{Trail-last}

acquire-Acquired :
    (q : AcquireRequest) (ids : AcquireIds) (db : Database) {l : ContextLease}
    → (acquire q ids db).0 ≡ ok l
    → Acquired q ids db l (acquire q ids db).1
unfolding acquire
acquire-Acquired q ids db {l} h =
    let (_, _, run) = checked-eq-ok (check_acquire q) (λ _. transaction (acquire_in q ids)) db h in
    let body = transaction-eq-ok (acquire_in q ids) db (subst (λ x. x.0 ≡ ok l) run h) in
    subst (λ x. Acquired q ids db l x.1) (sym run) (acquire_in-eq-ok q ids db body)

-- The grant's token is the scope's next one, and its last one afterwards.
pub acquire-token :
    (q : AcquireRequest) (ids : AcquireIds) (db : Database) (l : ContextLease)
    → (acquire q ids db).0 ≡ ok l
    → (l.fencing_token ≡ last q.service_scope_digest q.configuration_key db + 1)
      × (last q.service_scope_digest q.configuration_key (acquire q ids db).1 ≡ l.fencing_token)
acquire-token q ids db l h =
    let a = acquire-Acquired q ids db h in
    let made : l.fencing_token ≡ a.token = ap (λ x. x.fencing_token) a.lease in
    (
      made ∙ a.minted.next,
      rw a.counters (
          ground (
            arith,
            made,
            a.minted.counters q.service_scope_digest q.configuration_key,
            same_scope_refl q.service_scope_digest q.configuration_key,
          )),
    )

module _ (q : AcquireRequest) (ids : AcquireIds) (db : Database) (good : Consistent db)
    (calls : List Call) where
  abbrev pub granted_then : Database
  granted_then = run calls (step (Call.acquire_call q ids) db)

  after : Consistent (step (Call.acquire_call q ids) db)
  after = Trail-Consistent (step-Trail (Call.acquire_call q ids) db good) good

  still_last :
      (l : ContextLease)
      → (acquire q ids db).0 ≡ ok l
      → l.fencing_token ≤ last q.service_scope_digest q.configuration_key granted_then
  unfolding step
  still_last l h =
      let (_, last_now) = acquire-token q ids db l h in
      omega (
        arith,
        last_now,
        Trail-last (run-Trail calls (step (Call.acquire_call q ids) db) after)
            q.service_scope_digest q.configuration_key,
      )

  module _ (q' : AcquireRequest) (ids' : AcquireIds)
      (same_digest : q'.service_scope_digest ≡ q.service_scope_digest)
      (same_key : q'.configuration_key ≡ q.configuration_key) where
    -- Two grants of one scope, from consistent tables and with any calls in between: the later
    -- lease has the larger fencing token.
    pub acquire-fences :
        (l l' : ContextLease)
        → (acquire q ids db).0 ≡ ok l
        → (acquire q' ids' granted_then).0 ≡ ok l'
        → l.fencing_token < l'.fencing_token
    acquire-fences l l' first second =
        let (token, _) = acquire-token q' ids' granted_then l' second in
        let there =
          subst (λ k. l'.fencing_token ≡ last q.service_scope_digest k granted_then + 1) same_key
            (subst (λ d. l'.fencing_token ≡ last d q'.configuration_key granted_then + 1)
              same_digest token) in
        omega (arith, still_last l first, there)

granted_then-Consistent :
    (q : AcquireRequest) (ids : AcquireIds) (db : Database) (good : Consistent db)
    (calls : List Call)
    → Consistent (granted_then q ids db good calls)
granted_then-Consistent q ids db good calls =
    let now = Trail-Consistent (step-Trail (Call.acquire_call q ids) db good) good in
    Trail-Consistent (run-Trail calls (step (Call.acquire_call q ids) db) now) now

-- A process that was paused is fenced out: from consistent tables, once a scope has been granted
-- again, no holder's call (start, finish, release or release for authorization) under the earlier
-- grant's token, or an older one, returns a lease of the scope, however many calls follow.
pub attempt-fenced_out :
    (q q' : AcquireRequest) (ids ids' : AcquireIds) (db : Database) (good : Consistent db)
    (between behind : List Call) (l l' : ContextLease) (call : HolderCall) (claim : Claim)
    (next : ContextLease)
    → q'.service_scope_digest ≡ q.service_scope_digest
    → q'.configuration_key ≡ q.configuration_key
    → (acquire q ids db).0 ≡ ok l
    → (acquire q' ids' (run between (step (Call.acquire_call q ids) db))).0 ≡ ok l'
    → claim.fencing_token ≤ l.fencing_token
    → (attempt call claim (
        run behind
          (step (Call.acquire_call q' ids') (run between (step (Call.acquire_call q ids) db))))).0
      ≡ ok next
    → ¬ (
        (next.service_scope_digest ≡ q.service_scope_digest)
        × (next.configuration_key ≡ q.configuration_key))
attempt-fenced_out q q' ids ids' db good between behind l l' call claim next same_digest same_key
      first second old returned (in_digest, in_key) =
    let good2 = granted_then-Consistent q ids db good between in
    let db2 = run between (step (Call.acquire_call q ids) db) in
    let good3 = granted_then-Consistent q' ids' db2 good2 behind in
    let db3 = run behind (step (Call.acquire_call q' ids') db2) in
    let n = attempt-Newest call claim db3 next good3.leases returned in
    let here : claim.fencing_token ≡ last q'.service_scope_digest q'.configuration_key db3 =
      subst (λ k. claim.fencing_token ≡ last q'.service_scope_digest k db3)
        (sym n.same_key ∙ in_key ∙ sym same_key)
        (subst (λ d. claim.fencing_token ≡ last d n.l.configuration_key db3)
          (sym n.same_digest ∙ in_digest ∙ sym same_digest) n.newest) in
    omega (
      arith,
      old,
      here,
      still_last q' ids' db2 good2 behind l' second,
      acquire-fences q ids db good between q' ids' same_digest same_key l l' first second,
    )
