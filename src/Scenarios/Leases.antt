-- ===== src/Scenarios/Leases.antt =====
-- The theorems on the lease store, at the leases of one workflow.
use powerfactory_mcp.Persistence.LeaseStore.Moves.{last_token}
use powerfactory_mcp.Persistence.LeaseStore.Grant.{acquire-grants}
use Prim.Native.String as Text
use powerfactory_mcp.Prelude.{
  false, ◌≡◌, ◌≢◌, ◌⊎◌, refl, ◌<◌, ◌==◌, String, true, false, none, some, List, [], ◌∷◌, ◌++◌,
  arith,
}
use powerfactory_mcp.Errors.{too_long, ok, err, lease_fence_rejected, lease_not_expired}
use powerfactory_mcp.Table.{find, any, count, update, insert, delete, select}
use powerfactory_mcp.Domain.Values.{before}
use powerfactory_mcp.Domain.Values.Checks.{
  require_aware, require_uuid4, require_optional_uuid4, require_optional_text, require_text,
  require_positive,
}
use powerfactory_mcp.Domain.Workflow.Checks.{new_workflow_record}
use powerfactory_mcp.Domain.Lease.{LeaseEvent, LeaseEventType, ContextLease, LeaseState, is_held}
use powerfactory_mcp.Domain.Lease.Checks.{new_context_lease, new_lease_event}
use powerfactory_mcp.Persistence.Database.{
  Database, FenceCounter, empty, transaction, checked, commit,
}
use powerfactory_mcp.Persistence.Timestamps.{
  encode_utc_timestamp, encode_suffix, timestamp_le, text_le,
}
use powerfactory_mcp.Persistence.Writers.{
  lease_clashes, set_counter, mint_fencing_token, put_lease, write_lease_row, append_lease_event,
}
use powerfactory_mcp.Persistence.WorkflowStore.{insert_record, record_workflow}
use powerfactory_mcp.Persistence.LeaseStore.Holder.{
  Claim, current, current_by_id, check_version, assert_workflow_version, stale_reason,
  holder_failure,
}
use powerfactory_mcp.Persistence.LeaseStore.Events.{append_event}
use powerfactory_mcp.Persistence.LeaseStore.Arguments.{check_acquire}
use powerfactory_mcp.Persistence.LeaseStore.Acquire.{
  acquire_event, new_lease, check_scope, assert_version, admit_lease, acquire_in, acquire,
}
use powerfactory_mcp.Persistence.LeaseStore.Fenced.{
  delete_lease, settle, read_lease, read_failure, reject_or, set_operation, start_in,
  start_atomic_call,
}
use powerfactory_mcp.Persistence.LeaseStore.Expiry.{
  read_scope, expire_idle, expire_lease, expire_in, expire, is_due, order_by_scope, due_leases,
  expire_due,
}
use powerfactory_mcp.Persistence.LeaseStore.Effects.{expired_in_flight}
use powerfactory_mcp.Persistence.LeaseStore.HolderCalls.{
  HolderCall, attempt, Newest, attempt-Newest,
}
use powerfactory_mcp.Persistence.LeaseStore.Rejection.{
  rejection_of, attempt-rejected, attempt-unrecorded,
}
use powerfactory_mcp.Persistence.LeaseStore.Outcomes.{
  expire-outcome, is_due-misses, expire_due-aborts,
}
use powerfactory_mcp.Persistence.History.{Call, step, run}
use powerfactory_mcp.Persistence.History.Steps.{Consistent, run-Consistent}
use powerfactory_mcp.Persistence.History.Fencing.{acquire-fences, attempt-fenced_out}
use powerfactory_mcp.Scenarios.Data.{
  flow, new_flow, recorded_calls, uid, grant, grant_ids, claim_on, note_at, at_time,
}

abbrev db : Database
db = run recorded_calls empty

good : Consistent db
good = run-Consistent recorded_calls

-- A grant until the fifth second, its expiry, a grant after it, and a grant of another scope.
abbrev first : ContextLease
first = new_lease (grant "scope" 1000 5000000) (uid "10") 1

abbrev second : ContextLease
second = new_lease (grant "scope" 7000000 9000000) (uid "20") 2

abbrev other : ContextLease
other = new_lease (grant "elsewhere" 1000 9000000) (uid "30") 1

abbrev held : Database
held = step (Call.acquire_call (grant "scope" 1000 5000000) (grant_ids "1")) db

abbrev freed : Database
freed = run (Call.expire_call "scope" "key" (note_at 6000000) (uid "40") ∷ []) held

abbrev again : Database
again =
    run (Call.acquire_call (grant "elsewhere" 1000 9000000) (grant_ids "3") ∷ [])
      (step (Call.acquire_call (grant "scope" 7000000 9000000) (grant_ids "2")) freed)

facts :
    ((acquire (grant "scope" 1000 5000000) (grant_ids "1") db).0 ≡ ok first)
    × ((acquire (grant "scope" 7000000 9000000) (grant_ids "2") freed).0 ≡ ok second)
    × ((attempt (HolderCall.start_of (uid "50") (uid "51")) (claim_on (uid "30") 1 2000) again).0
        ≡ ok (record other { operation_id = some (uid "50") }))
unfolding run step checked transaction commit find any insert count update delete record_workflow
    insert_record new_workflow_record require_aware require_uuid4 require_optional_uuid4
    require_optional_text require_text require_positive acquire check_acquire acquire_in check_scope
    assert_version current assert_workflow_version check_version mint_fencing_token set_counter
    admit_lease new_context_lease append_event new_lease_event append_lease_event write_lease_row
    put_lease expire expire_in read_scope expire_lease expire_idle attempt start_atomic_call settle
    start_in read_lease read_failure current_by_id holder_failure stale_reason reject_or
    set_operation delete_lease
facts = (refl, refl, refl)

acquire-fences_example : 1 < 2
acquire-fences_example =
    acquire-fences (grant "scope" 1000 5000000) (grant_ids "1") db good
      (Call.expire_call "scope" "key" (note_at 6000000) (uid "40") ∷ [])
      (grant "scope" 7000000 9000000) (grant_ids "2") refl refl first second facts.0 facts.1

attempt-fenced_out_example :
    ¬ ((other.service_scope_digest ≡ "scope") × (other.configuration_key ≡ "key"))
attempt-fenced_out_example =
    attempt-fenced_out (grant "scope" 1000 5000000) (grant "scope" 7000000 9000000) (grant_ids "1")
      (grant_ids "2") db good (Call.expire_call "scope" "key" (note_at 6000000) (uid "40") ∷ [])
      (Call.acquire_call (grant "elsewhere" 1000 9000000) (grant_ids "3") ∷ []) first second
      (HolderCall.start_of (uid "50") (uid "51")) (claim_on (uid "30") 1 2000)
      (record other { operation_id = some (uid "50") }) refl refl facts.0 facts.1 (omega arith)
      facts.2

abbrev trace : List Call
trace =
    Call.record_call new_flow ∷ Call.acquire_call (grant "scope" 1000 5000000) (grant_ids "1") ∷ []

abbrev started : ContextLease
started = record first { operation_id = some (uid "50") }

-- A reason of 1024 characters, the longest that an event admits.
abbrev twice : String → String
twice s = Text.◌++◌ s s

abbrev long_reason : String
long_reason = twice (twice (twice (twice (twice (twice "0123456789abcdef")))))

-- The holder's claim on the lease, which has no operation in flight.
abbrev fresh : Claim
fresh = claim_on (uid "10") 1 2000

abbrev other_operation : String
other_operation = "operation_id does not match the durable atomic call"

abbrev long_stale : Claim
long_stale = record (claim_on (uid "10") 2 2000) { reason = long_reason }

abbrev start_it : HolderCall
start_it = HolderCall.start_of (uid "50") (uid "51")

abbrev finish_it : HolderCall
finish_it = HolderCall.finish_of (uid "50") (uid "51")

holder_facts :
    ((attempt start_it (claim_on (uid "10") 1 2000) (run trace empty)).0 ≡ ok started)
    × (current_by_id (uid "10") held ≡ ok first)
    × (holder_failure first fresh false held ≡ ok none)
    × (holder_failure first long_stale true held ≡ ok (some "fencing token is not current"))
    × (require_uuid4 (uid "50") "operation_id" ≡ ok tt)
    × (new_lease_event (rejection_of finish_it fresh first other_operation)
        ≡ ok (rejection_of finish_it fresh first other_operation))
    × (new_lease_event (rejection_of start_it long_stale first "fencing token is not current")
        ≡ err (too_long "LeaseEvent.reason"))
    × (any (λ r. r.event_id == uid "51") held.context_lease_events ≡ false)
unfolding run step checked transaction commit find any insert count update delete record_workflow
    insert_record new_workflow_record require_aware require_uuid4 require_optional_uuid4
    require_optional_text require_text require_positive acquire check_acquire acquire_in check_scope
    assert_version current assert_workflow_version check_version mint_fencing_token set_counter
    admit_lease new_context_lease append_event new_lease_event append_lease_event write_lease_row
    put_lease expire expire_in read_scope expire_lease expire_idle attempt start_atomic_call settle
    start_in read_lease read_failure current_by_id holder_failure stale_reason reject_or
    set_operation delete_lease
holder_facts = (refl, refl, refl, refl, refl, refl, refl, refl)

attempt-Newest_example : Newest start_it (claim_on (uid "10") 1 2000) (run trace empty) started
attempt-Newest_example =
    attempt-Newest start_it (claim_on (uid "10") 1 2000) (run trace empty) started
      (run-Consistent trace).leases holder_facts.0

attempt-rejected_example : attempt finish_it fresh held ≡ (
  err (lease_fence_rejected first other_operation),
  record held {
    context_lease_events =
        held.context_lease_events ++ rejection_of finish_it fresh first other_operation ∷ [];
  },
)
attempt-rejected_example =
    attempt-rejected finish_it fresh held first none other_operation holder_facts.1 holder_facts.2
      refl holder_facts.4 (rejection_of finish_it fresh first other_operation) holder_facts.5
      holder_facts.7

attempt-unrecorded_example :
    attempt start_it long_stale held ≡ (err (too_long "LeaseEvent.reason"), held)
attempt-unrecorded_example =
    attempt-unrecorded start_it long_stale held first (some "fencing token is not current")
      "fencing token is not current" holder_facts.1 holder_facts.3 refl holder_facts.4
      (too_long "LeaseEvent.reason") holder_facts.6

abbrev lapsed : ContextLease
lapsed = record first {
  state = LeaseState.expired;
  recovery_disposition = some "expired before an atomic call was durably started";
}

-- A lease that lasts half a millisecond into the fifth second.
abbrev early : ContextLease
early = new_lease (grant "scope" 1000 5000500) (uid "10") 1

abbrev early_held : Database
early_held = step (Call.acquire_call (grant "scope" 1000 5000500) (grant_ids "1")) db

expiry_facts :
    ((expire "scope" "key" (note_at 6000000) (uid "40") held).0 ≡ ok lapsed)
    × (require_aware (at_time 5000000) "occurred_at" ≡ ok tt)
    × (due_leases (at_time 5000000) early_held ≡ early ∷ [])
    × (current "scope" "key" early_held ≡ some early)
unfolding run step checked transaction commit find any insert count update delete record_workflow
    insert_record new_workflow_record require_aware require_uuid4 require_optional_uuid4
    require_optional_text require_text require_positive acquire check_acquire acquire_in check_scope
    assert_version current assert_workflow_version check_version mint_fencing_token set_counter
    admit_lease new_context_lease append_event new_lease_event append_lease_event write_lease_row
    put_lease expire expire_in read_scope expire_lease expire_idle delete_lease due_leases
    order_by_scope select timestamp_le encode_utc_timestamp encode_suffix text_le
expiry_facts = (refl, refl, refl, refl)

expire-outcome_example :
    (l : ContextLease) × (current "scope" "key" held ≡ some l)
    × (is_held l.state ≡ true)
    × (before (at_time 6000000) l.expires_at ≡ false)
    × (((l.operation_id ≡ none)
          × (current "scope" "key" (expire "scope" "key" (note_at 6000000) (uid "40") held).1
              ≡ none))
        ⊎ ((l.operation_id ≢ none)
            × (current "scope" "key" (expire "scope" "key" (note_at 6000000) (uid "40") held).1
                ≡ some (expired_in_flight l))))
expire-outcome_example =
    expire-outcome "scope" "key" (note_at 6000000) (uid "40") held lapsed expiry_facts.0

is_due-misses_example :
    (is_due (at_time 5000500) first ≡ false) × (before (at_time 5000500) (at_time 5000000) ≡ false)
is_due-misses_example = is_due-misses (at_time 5000500) first refl refl (omega arith)

expire_due-aborts_example :
    expire_due (note_at 5000000) (λ n. uid "40") early_held ≡ (err lease_not_expired, early_held)
expire_due-aborts_example =
    expire_due-aborts (note_at 5000000) (λ n. uid "40") early_held early [] expiry_facts.1
      expiry_facts.2 expiry_facts.3 refl refl

abbrev attempt_event : LeaseEvent
attempt_event =
    acquire_event (grant "scope" 1000 5000000) first (uid "11") LeaseEventType.acquire_attempted

abbrev grant_event : LeaseEvent
grant_event = acquire_event (grant "scope" 1000 5000000) first (uid "12") LeaseEventType.acquired

grant_facts :
    (current "scope" "key" db ≡ none)
    × (assert_workflow_version flow (record { scope_id = flow; counter = 0 }) db ≡ ok tt)
    × (new_context_lease first ≡ ok first)
    × (any (lease_clashes first) db.context_leases ≡ false)
    × (new_lease_event attempt_event ≡ ok attempt_event)
    × (new_lease_event grant_event ≡ ok grant_event)
    × (any (λ e. e.event_id == uid "11") db.context_lease_events ≡ false)
    × (any (λ e. e.event_id == uid "12") (db.context_lease_events ++ attempt_event ∷ []) ≡ false)
    × (check_acquire (grant "scope" 1000 5000000) ≡ ok tt)
unfolding run step checked transaction commit find any insert record_workflow insert_record
    new_workflow_record require_aware require_uuid4 require_optional_uuid4 require_optional_text
    require_text require_positive check_acquire current assert_workflow_version check_version
    new_context_lease new_lease_event last_token
grant_facts = (refl, refl, refl, refl, refl, refl, refl, refl, refl)

acquire-grants_example :
    (cs : List FenceCounter) × (acquire (grant "scope" 1000 5000000) (grant_ids "1") db ≡ (
      ok first,
      record db {
        context_lease_fence_counters = cs;
        context_leases = db.context_leases ++ first ∷ [];
        context_lease_events = (db.context_lease_events ++ attempt_event ∷ []) ++ grant_event ∷ [];
      },
    ))
    × (current "scope" "key" (acquire (grant "scope" 1000 5000000) (grant_ids "1") db).1
        ≡ some first)
    × (last_token "scope" "key" cs ≡ 1)
unfolding run step checked transaction commit find any insert record_workflow insert_record
    new_workflow_record require_aware require_uuid4 require_optional_uuid4 require_optional_text
    require_text require_positive last_token
acquire-grants_example =
    acquire-grants (grant "scope" 1000 5000000) (grant_ids "1") db grant_facts.0 grant_facts.1
      grant_facts.2 grant_facts.3 grant_facts.4 grant_facts.5 grant_facts.6 grant_facts.7
      grant_facts.8
