-- ===== src/Persistence/LeaseStore/Admission.antt =====
-- What a holder's call that returns has done, and the lease that it has read.
use powerfactory_mcp.Prelude.{
  String, ◌≡◌, refl, sym, ap, subst, ◌∙◌, Bool, true, false, not, ◌&&◌, Option, none, some,
}
use powerfactory_mcp.Errors.{Result, ok, err}
use powerfactory_mcp.Domain.Values.{opt_eq}
use powerfactory_mcp.Domain.Values.Checks.{require_uuid4}
use powerfactory_mcp.Domain.Lease.{ContextLease, LeaseEventType}
use powerfactory_mcp.Persistence.Database.{
  Database, Tx, transaction, transaction-eq-ok, checked, checked-eq-ok, bind-eq-ok, lift-eq-ok,
  ◌>>=◌,
}
use powerfactory_mcp.Persistence.LeaseStore.Holder.{Claim, current_by_id, holder_failure}
use powerfactory_mcp.Persistence.LeaseStore.Holding.{Holds, holder_failure-Holds}
use powerfactory_mcp.Persistence.LeaseStore.Events.{append_stale_rejection}
use powerfactory_mcp.Persistence.LeaseStore.Fenced.{
  Verdict, settle, read_lease, read_failure, reject_or, set_operation, start_in, start_atomic_call,
  finish_in, finish_atomic_call, free_scope, release_in, release_as, or_reason, is_preview,
}

settle-eq-ok :
    (x : Result Verdict × Database) {l : ContextLease}
    → (settle x).0 ≡ ok l
    → (x.0 ≡ ok (Verdict.admitted l)) × ((settle x).1 ≡ x.1)
unfolding settle
settle-eq-ok (err e, db) h = cc
settle-eq-ok (ok (Verdict.rejected l reason), db) h = cc
settle-eq-ok (ok (Verdict.admitted l), db) h = (cc, refl)

reject_or-admitted :
    (l : ContextLease) (claim : Claim) (event_id : String) (operation : Option String)
    (accept : Tx ContextLease) (stale : Option String) (db : Database) {next : ContextLease}
    {db' : Database}
    → reject_or l claim event_id operation accept stale db ≡ ok (Verdict.admitted next, db')
    → (stale ≡ none) × (accept db ≡ ok (next, db'))
unfolding reject_or
reject_or-admitted l claim event_id operation accept none db h =
    let (next, db1, e1, h1) = bind-eq-ok accept _ db h in (refl, cc (e1, h1))
reject_or-admitted l claim event_id operation accept (some reason) db h =
    let (u, db1, e1, h1) =
      bind-eq-ok (append_stale_rejection l claim event_id reason operation) _ db h in
    absurd (cc h1)

-- The three calls of a holder have one shape.
abbrev pub fenced_call :
    Claim
    → Bool
    → String
    → Option String
    → (ContextLease → Tx ContextLease)
    → (ContextLease → Option String → Option String)
    → Tx Verdict
fenced_call claim require_no_operation event_id operation accept reason = read_lease claim >>= λ l.
    read_failure l claim require_no_operation >>= λ stale.
    reject_or l claim event_id operation (accept l) (reason l stale)

-- A call that returned: the lease that it read, the claim's admission, and the body that ran.
pub record Admitted (claim : Claim) (require_no_operation : Bool)
    (accept : ContextLease → Tx ContextLease)
    (reason : ContextLease → Option String → Option String) (db : Database) (next : ContextLease)
    (db' : Database) : Type 0 where
  pub l : ContextLease
  pub read : current_by_id claim.lease_id db ≡ ok l
  pub holds : Holds claim require_no_operation db l
  pub unreasoned : reason l none ≡ none
  pub body : accept l db ≡ ok (next, db')

fenced_call-Admitted :
    (claim : Claim) (require_no_operation : Bool) (event_id : String) (operation : Option String)
    (accept : ContextLease → Tx ContextLease)
    (reason : ContextLease → Option String → Option String) (db : Database) {next : ContextLease}
    {db' : Database}
    → ((l : ContextLease) (stale : Option String) → reason l stale ≡ none → stale ≡ none)
    → fenced_call claim require_no_operation event_id operation accept reason db
      ≡ ok (Verdict.admitted next, db')
    → Admitted claim require_no_operation accept reason db next db'
unfolding read_lease read_failure
fenced_call-Admitted claim require_no_operation event_id operation accept reason db {next} {db'}
      strict h =
    let (l, db1, e1, h1) = bind-eq-ok (read_lease claim) _ db h in
    let (stale, db2, e2, h2) = bind-eq-ok (read_failure l claim require_no_operation) _ db1 h1 in
    let (read, same1) = lift-eq-ok (current_by_id claim.lease_id db) db e1 in
    let (failed, same2) = lift-eq-ok (holder_failure l claim require_no_operation db1) db1 e2 in
    let (clear, ran) =
      reject_or-admitted l claim event_id operation (accept l) (reason l stale) db2 h2 in
    let no_reason = strict l stale clear in
    record {
      l = l;
      read = read;
      holds = holder_failure-Holds l claim require_no_operation db (
          subst (λ d. holder_failure l claim require_no_operation d ≡ ok none) same1
            (subst (λ x. holder_failure l claim require_no_operation db1 ≡ ok x) no_reason failed));
      unreasoned = subst (λ x. reason l x ≡ none) no_reason clear;
      body = subst (λ d. accept l d ≡ ok (next, db')) (same2 ∙ same1) ran;
    }

or_reason-none :
    (stale : Option String) (test : Bool) (other : String)
    → or_reason stale test other ≡ none
    → stale ≡ none
or_reason-none none test other h = refl
or_reason-none (some reason) test other h = cc

settled :
    (r : Result (Unit {0})) (m : Tx Verdict) (db : Database) {l : ContextLease}
    → (settle (checked r (λ _. transaction m) db)).0 ≡ ok l
    → m db ≡ ok (Verdict.admitted l, (settle (checked r (λ _. transaction m) db)).1)
settled r m db {l} h =
    let (verdict, same) = settle-eq-ok (checked r (λ _. transaction m) db) h in
    let (_, _, run) = checked-eq-ok r (λ _. transaction m) db verdict in
    subst (λ d. m db ≡ ok (Verdict.admitted l, d)) (sym (same ∙ ap (λ x. x.1) run))
      (transaction-eq-ok m db (subst (λ x. x.0 ≡ ok (Verdict.admitted l)) run verdict))

-- `start_atomic_call` returns only to the holder, with no call in flight.
pub start_atomic_call-Admitted :
    (claim : Claim) (operation_id event_id : String) (db : Database) {next : ContextLease}
    → (start_atomic_call claim operation_id event_id db).0 ≡ ok next
    → Admitted claim true
        (λ l.
          set_operation l claim event_id LeaseEventType.atomic_call_started operation_id
            (some operation_id))
        (λ _ stale. stale)
        db
        next
        (start_atomic_call claim operation_id event_id db).1
unfolding start_atomic_call start_in
start_atomic_call-Admitted claim operation_id event_id db h =
    fenced_call-Admitted claim true event_id none _ _ db (λ l stale none_left. none_left)
      (settled (require_uuid4 operation_id "operation_id") (start_in claim operation_id event_id) db
        h)

-- `finish_atomic_call` returns only to the holder, with this call in flight.
pub finish_atomic_call-Admitted :
    (claim : Claim) (operation_id event_id : String) (db : Database) {next : ContextLease}
    → (finish_atomic_call claim operation_id event_id db).0 ≡ ok next
    → Admitted claim false
        (λ l. set_operation l claim event_id LeaseEventType.atomic_call_finished operation_id none)
        (λ l stale.
          or_reason stale
            (not (opt_eq l.operation_id (some operation_id)))
            "operation_id does not match the durable atomic call")
        db
        next
        (finish_atomic_call claim operation_id event_id db).1
unfolding finish_atomic_call finish_in
finish_atomic_call-Admitted claim operation_id event_id db h =
    fenced_call-Admitted claim false event_id (some operation_id) _ _ db
      (λ l stale.
        or_reason-none stale (not (opt_eq l.operation_id (some operation_id)))
          "operation_id does not match the durable atomic call")
      (settled (require_uuid4 operation_id "operation_id") (finish_in claim operation_id event_id)
        db h)

-- The releases return only to the holder, with no call in flight.
pub release_as-Admitted :
    (claim : Claim) (kind : LeaseEventType) (require_preview : Bool) (event_id : String)
    (db : Database) {next : ContextLease}
    → (release_as claim kind require_preview event_id db).0 ≡ ok next
    → Admitted claim true
        (λ l. free_scope l claim event_id kind)
        (λ l stale.
          or_reason stale
            (require_preview && not (is_preview l.mode))
            "only a preview lease may be released for authorization")
        db
        next
        (release_as claim kind require_preview event_id db).1
unfolding release_as release_in checked
release_as-Admitted claim kind require_preview event_id db h =
    fenced_call-Admitted claim true event_id none _ _ db
      (λ l stale.
        or_reason-none stale (require_preview && not (is_preview l.mode))
          "only a preview lease may be released for authorization")
      (settled (ok tt) (release_in claim kind require_preview event_id) db h)
