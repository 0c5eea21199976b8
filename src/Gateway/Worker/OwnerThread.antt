-- ===== src/Gateway/Worker/OwnerThread.antt =====
-- `_owner_main` and `_execute`: one step of the owner thread.
use powerfactory_mcp.Prelude.{
  ℕ, String, Bool, true, false, not, ◌&&◌, ◌==◌, leb, Option, none, some, is_none, List, [], ◌∷◌,
  if◌then◌else◌, ◌≡◌, refl, Bool-cases, inl, inr,
}
use powerfactory_mcp.Errors.{Result, ok, err}
use powerfactory_mcp.Domain.Operation.{OperationRecord}
use powerfactory_mcp.Domain.Inventory.Checks.{contains}
use powerfactory_mcp.Persistence.OperationStore.{
  get, start, cancel_before_start, fail, require_reconciliation, complete, is_queued,
}
use powerfactory_mcp.Gateway.Worker.State.{
  Settings, Worker, Owner, Outcome, waiting, taken, judged, expiring, starting, started, executing,
  running, settling, reconciling, finishing, gone, known_failure, uncertain_failure, returned,
  escaped, is_transition_error,
}

-- The head of the loop: it ends when the worker is stopping and idle, or else it takes what is
-- queued.
unfoldable pub poll_queue : Worker → List String → Worker
poll_queue w [] =
    if w.stopping && is_none w.active_operation_id then record w { owner = gone } else w
poll_queue w (i ∷ rest) = record w { queue = rest; owner = taken i }

-- `continue` unless the row is queued; an exception that is not caught ends the thread.
unfoldable pub judge : String → Result OperationRecord → Owner
judge i (err e) = finishing i true
judge i (ok r) = if is_queued r.state then judged i r else finishing i false

-- A call of the store that catches the transition error.
unfoldable pub after_call {ℓ} : {A : Type ℓ} → String → Result A → Owner
after_call i (err e) = finishing i (not (is_transition_error e))
after_call i (ok r) = finishing i false

unfoldable pub begin : String → Result OperationRecord → Owner
begin i (err e) = finishing i (not (is_transition_error e))
begin i (ok r) = started i r

-- A failure that the store does not admit is reconciled.
unfoldable pub failed_or : String → OperationRecord → String → Result OperationRecord → Owner
failed_or i r error (ok done) = finishing i false
failed_or i r error (err e) =
    if is_transition_error e then reconciling i r error else finishing i true

-- `_execute` comes to call the handler: the name is known, and the payload gets through its round
-- trip. An exception before that ends the thread.
abbrev pub can_call : Settings → OperationRecord → Bool
can_call s r = contains s.handlers r.handler_name && s.encodes r.payload_json

-- What `_execute` does with the outcome of the handler.
unfoldable pub settle_outcome : String → OperationRecord → Outcome → ℕ → Worker → Worker
settle_outcome i r (known_failure error) now w =
    let after = fail r.operation_id (ok error) now w.db in
    record w { db = after.1; owner = failed_or i r error after.0 }
settle_outcome i r (uncertain_failure error) now w = record w { owner = reconciling i r error }
settle_outcome i r (returned (err e) error) now w = record w { owner = reconciling i r error }
settle_outcome i r (returned (ok text) error) now w =
    let after = complete r.operation_id (ok text) now w.db in
    record w { db = after.1; owner = after_call i after.0 }
settle_outcome i r escaped now w = record w { owner = finishing i true }

-- The `finally` of the loop.
abbrev pub cleared : String → Option String → Option String
cleared i none = none
cleared i (some a) = if a == i then none else some a

-- One step of the owner, at a time that its clock reads.
unfoldable pub owner_step : Settings → ℕ → Owner → Worker → Worker
owner_step s now waiting w = poll_queue w w.queue
owner_step s now (taken i) w = record w { owner = judge i (get i w.db) }
owner_step s now (judged i r) w = record w {
  owner = if leb r.queue_deadline_at_ns now then expiring i else starting i;
}
owner_step s now (expiring i) w =
    let after = cancel_before_start i now w.db in
    record w { db = after.1; owner = after_call i after.0 }
owner_step s now (starting i) w =
    let after = start i now w.db in record w { db = after.1; owner = begin i after.0 }
owner_step s now (started i r) w = record w { active_operation_id = some i; owner = executing i r }
owner_step s now (executing i r) w =
    if can_call s r
    then record w { owner = running i r; handled = i ∷ w.handled }
    else record w { owner = finishing i true }
owner_step s now (running i r) w = w
owner_step s now (settling i r outcome) w = settle_outcome i r outcome now w
owner_step s now (reconciling i r error) w =
    let after = require_reconciliation r.operation_id (ok error) now w.db in
    record w { db = after.1; owner = after_call i after.0 }
owner_step s now (finishing i raised) w = record w {
  active_operation_id = cleared i w.active_operation_id;
  owner = if raised then gone else waiting;
}
owner_step s now gone w = w

-- The handler comes back.
unfoldable pub handler_done : Outcome → Owner → Owner
handler_done outcome (running i r) = settling i r outcome
handler_done outcome other = other

-- What holds of every state that a call of the store may lead to holds of the state that it does.
pub after_call-none {ℓ} :
    {A : Type ℓ} (f : Owner → Option String) (i : String)
    → ((raised : Bool) → f (finishing i raised) ≡ none)
    → (x : Result A) → f (after_call i x) ≡ none
unfolding after_call
after_call-none f i ends (err e) = ends (not (is_transition_error e))
after_call-none f i ends (ok a) = ends false

pub failed_or-none :
    (f : Owner → Option String) (i : String) (r : OperationRecord) (error : String)
    → ((raised : Bool) → f (finishing i raised) ≡ none)
    → f (reconciling i r error) ≡ none
    → (x : Result OperationRecord) → f (failed_or i r error x) ≡ none
unfolding failed_or
failed_or-none f i r error ends goes_on (ok a) = ends false
failed_or-none f i r error ends goes_on (err e) = elim (Bool-cases (is_transition_error e)) [
  | inl refused ↦ rw refused goes_on
  | inr raised ↦ rw raised (ends true)
]

pub handler_done-keeps :
    (f : Owner → Option String) (outcome : Outcome) (o : Owner)
    → ((i : String) (r : OperationRecord) → f (settling i r outcome) ≡ f (running i r))
    → f (handler_done outcome o) ≡ f o
unfolding handler_done
handler_done-keeps f outcome waiting same = refl
handler_done-keeps f outcome (taken i) same = refl
handler_done-keeps f outcome (judged i r) same = refl
handler_done-keeps f outcome (expiring i) same = refl
handler_done-keeps f outcome (starting i) same = refl
handler_done-keeps f outcome (started i r) same = refl
handler_done-keeps f outcome (executing i r) same = refl
handler_done-keeps f outcome (running i r) same = same i r
handler_done-keeps f outcome (settling i r done) same = refl
handler_done-keeps f outcome (reconciling i r error) same = refl
handler_done-keeps f outcome (finishing i raised) same = refl
handler_done-keeps f outcome gone same = refl
