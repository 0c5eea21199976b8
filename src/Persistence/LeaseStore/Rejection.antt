-- ===== src/Persistence/LeaseStore/Rejection.antt =====
-- A holder's call that is refused: its rejection is an event of the scope, committed although the
-- call raises.
use powerfactory_mcp.Prelude.{
  ◌≡◌, refl, ◌∙◌, String, Bool, true, false, ◌==◌, Option, none, some, [], ◌∷◌, ◌++◌, arith, not,
  ◌&&◌,
}
use powerfactory_mcp.Errors.{Error, Result, ok, err, lease_fence_rejected}
use powerfactory_mcp.Table.{any, insert}
use powerfactory_mcp.Domain.Values.{opt_eq}
use powerfactory_mcp.Domain.Values.Checks.{require_uuid4}
use powerfactory_mcp.Domain.Lease.{ContextLease, LeaseEvent, LeaseEventType}
use powerfactory_mcp.Domain.Lease.Checks.{new_lease_event}
use powerfactory_mcp.Persistence.Database.{Database, Tx, transaction, commit, checked}
use powerfactory_mcp.Persistence.Writers.{append_lease_event}
use powerfactory_mcp.Persistence.LeaseStore.Holder.{Claim, current_by_id, holder_failure}
use powerfactory_mcp.Persistence.LeaseStore.Events.{
  rejection_event, append_event, append_stale_rejection,
}
use powerfactory_mcp.Persistence.LeaseStore.Fenced.{
  Verdict, settle, read_lease, read_failure, reject_or, start_in, start_atomic_call, finish_in,
  finish_atomic_call, release_in, release_as, release, release_for_authorization, or_reason,
  is_preview, free_scope, set_operation,
}
use powerfactory_mcp.Persistence.LeaseStore.Admission.{fenced_call}
use powerfactory_mcp.Persistence.LeaseStore.HolderCalls.{HolderCall, attempt, wants_idle}

-- The event identifier that the call draws, the operation that its rejection carries, and the check
-- that it makes before its transaction.
abbrev pub event_id_of : HolderCall → String
event_id_of (HolderCall.start_of operation event_id) = event_id
event_id_of (HolderCall.finish_of operation event_id) = event_id
event_id_of (HolderCall.release_of event_id) = event_id
event_id_of (HolderCall.authorization_of event_id) = event_id

abbrev pub rejected_operation : HolderCall → Option String
rejected_operation (HolderCall.finish_of operation event_id) = some operation
rejected_operation _ = none

abbrev pub check_operation : HolderCall → Result (Unit {0})
check_operation (HolderCall.start_of operation event_id) = require_uuid4 operation "operation_id"
check_operation (HolderCall.finish_of operation event_id) = require_uuid4 operation "operation_id"
check_operation _ = ok tt

abbrev pub rejection_of : HolderCall → Claim → ContextLease → String → LeaseEvent
rejection_of call claim l reason =
    rejection_event l claim (event_id_of call) reason (rejected_operation call)

-- The reason for which the call is refused, of what the test of the holder found: `finish` and
-- `release_for_authorization` have a test of their own where it found none.
abbrev pub refusal : HolderCall → ContextLease → Option String → Option String
refusal (HolderCall.finish_of operation event_id) l stale =
    or_reason stale (not (opt_eq l.operation_id (some operation)))
      "operation_id does not match the durable atomic call"
refusal (HolderCall.authorization_of event_id) l stale =
    or_reason stale (not (is_preview l.mode))
      "only a preview lease may be released for authorization"
refusal _ l stale = stale

-- A test that a call does not make.
untested : (stale : Option String) (other : String) → or_reason stale false other ≡ stale
untested (some reason) other = refl
untested none other = refl

-- What the transaction makes of the rejection's event.
append_rejection-ok :
    (l : ContextLease) (claim : Claim) (event_id reason : String) (operation : Option String)
    (db : Database) {e : LeaseEvent}
    → new_lease_event (rejection_event l claim event_id reason operation) ≡ ok e
    → any (λ r. r.event_id == event_id) db.context_lease_events ≡ false
    → append_stale_rejection l claim event_id reason operation db
      ≡ ok (
        tt,
        record db {
          context_lease_events =
              db.context_lease_events ++ rejection_event l claim event_id reason operation ∷ [];
        },
      )
unfolding append_stale_rejection append_event append_lease_event insert
append_rejection-ok l claim event_id reason operation db valid fresh = ground (arith, valid, fresh)

append_rejection-err :
    (l : ContextLease) (claim : Claim) (event_id reason : String) (operation : Option String)
    (db : Database) {e : Error}
    → new_lease_event (rejection_event l claim event_id reason operation) ≡ err e
    → append_stale_rejection l claim event_id reason operation db ≡ err e
unfolding append_stale_rejection append_event
append_rejection-err l claim event_id reason operation db invalid = ground (arith, invalid)

fenced_rejected :
    (claim : Claim) (require_no_operation : Bool) (event_id : String) (operation : Option String)
    (accept : ContextLease → Tx ContextLease)
    (reason_of : ContextLease → Option String → Option String) (db : Database) (l : ContextLease)
    (stale : Option String) (reason : String)
    → current_by_id claim.lease_id db ≡ ok l
    → holder_failure l claim require_no_operation db ≡ ok stale
    → reason_of l stale ≡ some reason
    → (r : Result (Unit {0} × Database))
    → append_stale_rejection l claim event_id reason operation db ≡ r
    → fenced_call claim require_no_operation event_id operation accept reason_of db
      ≡ elim r [ err e ↦ err e | ok (u, db') ↦ ok (Verdict.rejected l reason, db') ]
unfolding read_lease read_failure reject_or
fenced_rejected claim require_no_operation event_id operation accept reason_of db l stale reason
      read failed kept r e =
    ground (arith, read, failed, kept, e)

-- The transaction of each call, and the rejection that it ends with.
abbrev verdict_of : HolderCall → Claim → Tx Verdict
verdict_of (HolderCall.start_of operation event_id) claim = start_in claim operation event_id
verdict_of (HolderCall.finish_of operation event_id) claim = finish_in claim operation event_id
verdict_of (HolderCall.release_of event_id) claim =
    release_in claim LeaseEventType.released false event_id
verdict_of (HolderCall.authorization_of event_id) claim =
    release_in claim LeaseEventType.released_for_authorization true event_id

attempt-verdict :
    (call : HolderCall) (claim : Claim) (db : Database)
    → check_operation call ≡ ok tt
    → attempt call claim db ≡ settle (transaction (verdict_of call claim) db)
unfolding attempt start_atomic_call finish_atomic_call release release_for_authorization release_as
    checked
attempt-verdict (HolderCall.start_of operation event_id) claim db valid = rw valid refl
attempt-verdict (HolderCall.finish_of operation event_id) claim db valid = rw valid refl
attempt-verdict (HolderCall.release_of event_id) claim db valid = refl
attempt-verdict (HolderCall.authorization_of event_id) claim db valid = refl

verdict_rejected :
    (call : HolderCall) (claim : Claim) (db : Database) (l : ContextLease) (stale : Option String)
    (reason : String)
    → current_by_id claim.lease_id db ≡ ok l
    → holder_failure l claim (wants_idle call) db ≡ ok stale
    → refusal call l stale ≡ some reason
    → (r : Result (Unit {0} × Database))
    → append_stale_rejection l claim (event_id_of call) reason (rejected_operation call) db ≡ r
    → verdict_of call claim db
      ≡ elim r [ err e ↦ err e | ok (u, db') ↦ ok (Verdict.rejected l reason, db') ]
unfolding start_in finish_in release_in
verdict_rejected (HolderCall.start_of operation event_id) claim db l stale reason read failed kept r
      e =
    fenced_rejected claim true event_id none
      (λ l.
        set_operation l claim event_id LeaseEventType.atomic_call_started operation
          (some operation))
      (λ l stale. stale) db l stale reason read failed kept r e
verdict_rejected (HolderCall.finish_of operation event_id) claim db l stale reason read failed kept
      r e =
    fenced_rejected claim false event_id (some operation)
      (λ l. set_operation l claim event_id LeaseEventType.atomic_call_finished operation none)
      (λ l stale.
        or_reason stale (not (opt_eq l.operation_id (some operation)))
          "operation_id does not match the durable atomic call")
      db l stale reason read failed kept r e
verdict_rejected (HolderCall.release_of event_id) claim db l stale reason read failed kept r e =
    fenced_rejected claim true event_id none
      (λ l. free_scope l claim event_id LeaseEventType.released)
      (λ l stale.
        or_reason stale (false && not (is_preview l.mode))
          "only a preview lease may be released for authorization")
      db l stale reason read failed (untested stale _ ∙ kept) r e
verdict_rejected (HolderCall.authorization_of event_id) claim db l stale reason read failed kept r
      e =
    fenced_rejected claim true event_id none
      (λ l. free_scope l claim event_id LeaseEventType.released_for_authorization)
      (λ l stale.
        or_reason stale (true && not (is_preview l.mode))
          "only a preview lease may be released for authorization")
      db l stale reason read failed kept r e

module _ (call : HolderCall) (claim : Claim) (db : Database) (l : ContextLease)
    (stale : Option String) (reason : String) (read : current_by_id claim.lease_id db ≡ ok l)
    (failed : holder_failure l claim (wants_idle call) db ≡ ok stale)
    (refused : refusal call l stale ≡ some reason)
    (checked_operation : check_operation call ≡ ok tt) where
  -- A refused call of a holder (start, finish, release or release for authorization) raises the
  -- fence rejection with its reason, and its one effect is the `stale_fence_rejected` event with the
  -- asserted token, which stays stored; this under the condition that the event is valid and its
  -- identifier new. The reason is the one that the test of the holder found, or where it found none
  -- the call's own: another operation than the one in flight for finish, a lease that is not for a
  -- preview for release for authorization.
  pub attempt-rejected :
      (e : LeaseEvent)
      → new_lease_event (rejection_of call claim l reason) ≡ ok e
      → any (λ r. r.event_id == event_id_of call) db.context_lease_events ≡ false
      → attempt call claim db ≡ (
        err (lease_fence_rejected l reason),
        record db {
          context_lease_events = db.context_lease_events ++ rejection_of call claim l reason ∷ [];
        },
      )
  unfolding transaction commit settle
  attempt-rejected e valid fresh =
      attempt-verdict call claim db checked_operation
      ∙ rw
          (verdict_rejected call claim db l stale reason read failed refused _ (
            append_rejection-ok l claim (event_id_of call) reason (rejected_operation call) db valid
              fresh))
          refl

  -- When the event of a call that is refused, for a reason of the test of the holder or of its own,
  -- is not valid, as when the caller's reason and the rejection's
  -- own are together longer than 1024 characters, the call raises the event's error in place of the
  -- fence rejection, and the rejection leaves no event and no other change.
  pub attempt-unrecorded :
      (e : Error)
      → new_lease_event (rejection_of call claim l reason) ≡ err e
      → attempt call claim db ≡ (err e, db)
  unfolding transaction commit settle
  attempt-unrecorded e invalid =
      attempt-verdict call claim db checked_operation
      ∙ rw
          (verdict_rejected call claim db l stale reason read failed refused _ (
            append_rejection-err l claim (event_id_of call) reason (rejected_operation call) db
              invalid))
          refl
