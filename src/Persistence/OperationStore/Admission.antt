-- ===== src/Persistence/OperationStore/Admission.antt =====
-- The arguments of `OperationStore.admit`, `_validate_identity`, and the row that it inserts.
use powerfactory_mcp.Prelude.{
  ℕ, ◌+◌, ◌*◌, String, Bool, true, false, ◌&&◌, ◌||◌, ltb, leb, nat_eq, none, List, [], ◌∷◌, length,
  if◌then◌else◌,
}
use powerfactory_mcp.Errors.{Result, value_error, guard, ◌>>◌}
use powerfactory_mcp.Domain.Values.Checks.{codes, require_positive}
use powerfactory_mcp.Domain.Operation.{OperationState, OperationRecord}

-- `payload_json` is what `canonical_json` of the payload returns or raises, and `now_ns` the given
-- time or the clock's.
pub record AdmitRequest : Type 0 where
  pub handler_name : String
  pub payload_json : Result String
  pub idempotency_key : String
  pub queue_deadline_ms : ℕ
  pub client_response_deadline_ms : ℕ
  pub engine_health_threshold_ms : ℕ
  pub now_ns : ℕ

is_lower : ℕ → Bool
is_lower c = leb b'a' c && leb c b'z'

is_name_char : ℕ → Bool
unfolding is_lower
is_name_char c =
    is_lower c || (leb b'0' c && leb c b'9') || nat_eq c b'_' || nat_eq c b'.' || nat_eq c b'-'

all_name_chars : List ℕ → Bool
unfolding is_name_char
all_name_chars [] = true
all_name_chars (c ∷ cs) = is_name_char c && all_name_chars cs

-- `_HANDLER_NAME.fullmatch`.
unfoldable pub is_handler_name : List ℕ → Bool
unfolding is_lower all_name_chars
is_handler_name [] = false
is_handler_name (c ∷ cs) = is_lower c && all_name_chars cs && leb (length cs) 127

-- `len(text.encode("utf-8"))`.
utf8_length : List ℕ → ℕ
utf8_length [] = 0
utf8_length (c ∷ cs) =
    (if ltb c 128 then 1 else if ltb c 2048 then 2 else if ltb c 65536 then 3 else 4)
    + utf8_length cs

-- `_validate_identity`.
unfoldable pub validate_identity : String → String → Result (Unit {0})
unfolding is_handler_name utf8_length
validate_identity handler_name idempotency_key = do
  guard (is_handler_name (codes handler_name))
      (value_error "handler_name must be a lowercase named operation")
  guard (ltb 0 (length (codes idempotency_key)))
      (value_error "idempotency_key must be a non-empty string")
  guard (leb (utf8_length (codes idempotency_key)) 512) (value_error "idempotency_key is too large")

-- The checks of `admit` before its transaction.
unfoldable pub check_admit : AdmitRequest → Result String
check_admit q = do
  validate_identity q.handler_name q.idempotency_key
  require_positive q.queue_deadline_ms "queue_deadline_ms"
  require_positive q.client_response_deadline_ms "client_response_deadline_ms"
  require_positive q.engine_health_threshold_ms "engine_health_threshold_ms"
  q.payload_json

-- The row that is inserted.
abbrev pub queued_row : AdmitRequest → String → String → ℕ → OperationRecord
queued_row q operation_id payload_json sequence = record {
  sequence = sequence;
  operation_id = operation_id;
  idempotency_key = q.idempotency_key;
  handler_name = q.handler_name;
  payload_json = payload_json;
  state = OperationState.queued;
  admitted_at_ns = q.now_ns;
  queue_deadline_at_ns = q.now_ns + q.queue_deadline_ms * 1000000;
  client_deadline_at_ns = q.now_ns + q.client_response_deadline_ms * 1000000;
  engine_health_threshold_ms = q.engine_health_threshold_ms;
  started_at_ns = none;
  finished_at_ns = none;
  result_json = none;
  error_json = none;
  version = 0;
}
