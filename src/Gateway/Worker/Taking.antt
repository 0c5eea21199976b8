-- ===== src/Gateway/Worker/Taking.antt =====
-- What is queued is on the queue or in the owner's hand, along the owner's steps.
use powerfactory_mcp.Prelude.{
  ℕ, String, ◌≡◌, refl, sym, ap, subst, ◌⊎◌, ◌&&◌, ◌==◌, true, false, Option, none, some, List, [],
  ◌∷◌, ◌++◌, arith, Bool-cases, inl, inr, eq_iff, is_none, leb,
}
use powerfactory_mcp.Errors.{Result, ok, err, operation_not_found}
use powerfactory_mcp.Table.{find, any}
use powerfactory_mcp.Domain.Operation.{OperationRecord}
use powerfactory_mcp.Domain.Inventory.Checks.{contains}
use powerfactory_mcp.Persistence.Database.{Database}
use powerfactory_mcp.Persistence.OperationStore.{
  operation_at, start, cancel_before_start, is_queued, get,
}
use powerfactory_mcp.Persistence.OperationStore.History.{OperationCall, perform, perform_all}
use powerfactory_mcp.Persistence.OperationStore.History.Rows.{
  OperationsInv, perform_all-OperationsInv,
}
use powerfactory_mcp.Gateway.Worker.State.{
  Settings, Worker, Owner, Outcome, waiting, taken, judged, expiring, starting, started, executing,
  running, settling, reconciling, finishing, gone, known_failure, uncertain_failure, returned,
  escaped,
}
use powerfactory_mcp.Gateway.Worker.OwnerThread.{
  can_call, after_call-none, failed_or-none, poll_queue, judge, begin, settle_outcome, owner_step,
}
use powerfactory_mcp.Gateway.Worker.Calls.{is_admission, transition-leaves, perform-queued_before}

-- The operation that the owner has taken from the queue and not yet cancelled or started.
abbrev pub held : Owner → Option String
held (taken i) = some i
held (judged i r) = some i
held (expiring i) = some i
held (starting i) = some i
held _ = none

pub record Waits (queue : List String) (in_hand : Option String) (db : Database) : Type 0 where
  pub tables : OperationsInv db
  pub waits :
      (i : String) (r : OperationRecord)
      → find (operation_at i) db.operation_records ≡ some r
      → is_queued r.state ≡ true
      → (contains queue i ≡ true) ⊎ (in_hand ≡ some i)

abbrev pub WaitsIn : Worker → Type 0
WaitsIn w = Waits w.queue (held w.owner) w.db

pub perform-OperationsInv :
    (call : OperationCall) (db : Database) → OperationsInv db → OperationsInv (perform call db)
unfolding perform_all
perform-OperationsInv call db inv = perform_all-OperationsInv (call ∷ []) db inv

module _ {queue : List String} where
  pub Waits-perform :
      {in_hand : Option String} (call : OperationCall) (db : Database)
      → is_admission call ≡ false
      → Waits queue in_hand db
      → Waits queue in_hand (perform call db)
  Waits-perform call db other w = record {
    tables = perform-OperationsInv call db w.tables;
    waits = λ i r after fresh.
        let (y, there, was) = perform-queued_before call db other i r after fresh in
        w.waits i y there was;
  }

  -- An operation that is not queued may be let go.
  Waits-let_go :
      (i : String) {db : Database} {in_hand : Option String}
      → ((r : OperationRecord)
          → find (operation_at i) db.operation_records ≡ some r
          → is_queued r.state ≡ false)
      → Waits queue (some i) db
      → Waits queue in_hand db
  Waits-let_go i {db} {in_hand} out w = record {
    tables = w.tables;
    waits = λ j r after fresh. elim (w.waits j r after fresh) [
      | inl queued_ ↦ inl queued_
      | inr mine ↦
          let same : j ≡ i = sym (cc (mine)) in
          absurd (
            cc (
              fresh,
              out r (subst (λ x. find (operation_at x) db.operation_records ≡ some r) same after),
            ))
    ];
  }

  pub Waits-same :
      {a b : Option String} {db : Database} → b ≡ a → Waits queue a db → Waits queue b db
  Waits-same {a} {b} {db} e w = subst (λ x. Waits queue x db) (sym e) w

-- The queue as a list of identifiers.
contains-head :
    (i : String) (rest : List String) (j : String)
    → contains (i ∷ rest) j ≡ true
    → (contains rest j ≡ true) ⊎ (some i ≡ some j)
unfolding any
contains-head i rest j h = elim (Bool-cases (i == j)) [
  | inl same ↦ inr (ap some ((eq_iff i j).0 same))
  | inr other ↦ inl (ground (arith, h, other))
]

pub contains-kept :
    (q : List String) (x i : String) → contains q i ≡ true → contains (q ++ x ∷ []) i ≡ true
unfolding any
contains-kept [] x i h = absurd (cc (h))
contains-kept (y ∷ q) x i h = ground (arith, h, contains-kept q x i)

pub contains-new : (q : List String) (x : String) → contains (q ++ x ∷ []) x ≡ true
unfolding any
contains-new [] x = ground (arith, eq_iff x x)
contains-new (y ∷ q) x = ground (arith, contains-new q x)

cancelled-Waits :
    {queue : List String} (i : String) (now : ℕ) (db : Database)
    → Waits queue (some i) db
    → Waits queue none (cancel_before_start i now db).1
unfolding perform cancel_before_start
cancelled-Waits i now db w =
    Waits-let_go i (transition-leaves i _ _ db w.tables refl)
      (Waits-perform (OperationCall.cancel_call i now) db refl w)

started-Waits :
    {queue : List String} (i : String) (now : ℕ) (db : Database)
    → Waits queue (some i) db
    → Waits queue none (start i now db).1
unfolding perform start
started-Waits i now db w =
    Waits-let_go i (transition-leaves i _ _ db w.tables refl)
      (Waits-perform (OperationCall.start_call i now) db refl w)

begin-held : (i : String) (x : Result OperationRecord) → held (begin i x) ≡ none
unfolding begin
begin-held i (err e) = refl
begin-held i (ok r) = refl

judge-Waits :
    {queue : List String} (i : String) (db : Database)
    → Waits queue (some i) db
    → Waits queue (held (judge i (get i db))) db
unfolding judge get
judge-Waits {queue} i db w = by_row (find (operation_at i) db.operation_records) refl
  where
    by_row :
        (o : Option OperationRecord)
        → find (operation_at i) db.operation_records ≡ o
        → Waits queue
            (held (judge i (elim o [ none ↦ err (operation_not_found i) | some r ↦ ok r ])))
            db
    by_row none was = Waits-let_go i (λ r at. absurd (cc (was, at))) w
    by_row (some r) was = elim (Bool-cases (is_queued r.state)) [
      | inl fresh ↦ rw fresh w
      | inr late ↦ rw late (
          Waits-let_go i
            (λ r' at.
              let same : r ≡ r' = ground (arith, was, at) in
              subst (λ x. is_queued x.state ≡ false) same late)
            w)
    ]

poll_queue-Waits :
    (w : Worker) (queue : List String)
    → Waits queue none w.db
    → w.queue ≡ queue
    → WaitsIn w
    → WaitsIn (poll_queue w queue)
unfolding poll_queue
poll_queue-Waits w [] here e whole =
    elim (Bool-cases (w.stopping && is_none w.active_operation_id)) [
      | inl ends ↦ rw ends (subst (λ q. Waits q none w.db) (sym e) here)
      | inr stays ↦ rw stays whole
    ]
poll_queue-Waits w (i ∷ rest) here e whole = record {
  tables = here.tables;
  waits = λ j r at fresh. elim (here.waits j r at fresh) [
    | inl listed ↦ contains-head i rest j listed
    | inr impossible ↦ absurd (cc (impossible))
  ];
}

settle_outcome-Waits :
    (i : String) (r : OperationRecord) (outcome : Outcome) (now : ℕ) (w : Worker)
    → Waits w.queue none w.db
    → WaitsIn (settle_outcome i r outcome now w)
unfolding settle_outcome perform
settle_outcome-Waits i r (known_failure error) now w here =
    Waits-same (failed_or-none held i r error (λ b. refl) refl _)
      (Waits-perform (OperationCall.fail_call r.operation_id (ok error) now) w.db refl here)
settle_outcome-Waits i r (uncertain_failure error) now w here = here
settle_outcome-Waits i r (returned (err e) error) now w here = here
settle_outcome-Waits i r (returned (ok text) error) now w here =
    Waits-same (after_call-none held i (λ b. refl) _)
      (Waits-perform (OperationCall.complete_call r.operation_id (ok text) now) w.db refl here)
settle_outcome-Waits i r escaped now w here = here

pub owner_step-Waits :
    (s : Settings) (now : ℕ) (o : Owner) (w : Worker)
    → Waits w.queue (held o) w.db
    → WaitsIn w
    → WaitsIn (owner_step s now o w)
unfolding owner_step perform
owner_step-Waits s now waiting w here whole = poll_queue-Waits w w.queue here refl whole
owner_step-Waits s now (taken i) w here whole = judge-Waits i w.db here
owner_step-Waits s now (judged i r) w here whole =
    elim (Bool-cases (leb r.queue_deadline_at_ns now)) [
      | inl late ↦ rw late here
      | inr early ↦ rw early here
    ]
owner_step-Waits s now (expiring i) w here whole =
    Waits-same (after_call-none held i (λ b. refl) _) (cancelled-Waits i now w.db here)
owner_step-Waits s now (starting i) w here whole =
    Waits-same (begin-held i _) (started-Waits i now w.db here)
owner_step-Waits s now (started i r) w here whole = here
owner_step-Waits s now (executing i r) w here whole = elim (Bool-cases (can_call s r)) [
  | inl known ↦ rw known here
  | inr unknown ↦ rw unknown here
]
owner_step-Waits s now (running i r) w here whole = whole
owner_step-Waits s now (settling i r outcome) w here whole =
    settle_outcome-Waits i r outcome now w here
owner_step-Waits s now (reconciling i r error) w here whole =
    Waits-same (after_call-none held i (λ b. refl) _) (
      Waits-perform (OperationCall.reconciliation_call r.operation_id (ok error) now) w.db refl
        here)
owner_step-Waits s now (finishing i true) w here whole = here
owner_step-Waits s now (finishing i false) w here whole = here
owner_step-Waits s now gone w here whole = whole
