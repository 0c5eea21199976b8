-- ===== src/Gateway/Worker/Clients.antt =====
-- What a turn of a waiting client does to the tables.
use powerfactory_mcp.Prelude.{ℕ, ◌||◌, Bool, true, false, none, some, ltb, if◌then◌else◌}
use powerfactory_mcp.Errors.{Result, ok, err}
use powerfactory_mcp.Domain.Operation.{OperationRecord, is_terminal}
use powerfactory_mcp.Persistence.Database.{Database}
use powerfactory_mcp.Persistence.OperationStore.{mark_client_timed_out, is_in_flight}
use powerfactory_mcp.Gateway.Worker.{client_turn, timed_out, is_given_up}

-- It keeps them, or marks the operation as timed out.
pub client_turn-either :
    (P : Database → Type 0) (r : OperationRecord) (now : ℕ) (db : Database)
    → P db
    → P (mark_client_timed_out r.operation_id db).1
    → P (client_turn r now db).1
unfolding client_turn timed_out
client_turn-either P r now db kept timed =
    by_tests (is_terminal r.state || is_given_up r.state) (ltb now r.client_deadline_at_ns)
      (is_in_flight r.state)
  where
    marked : (x : Result OperationRecord × Database) → P x.1 → P (timed_out x).1
    marked (ok r', db') h = h
    marked (err e, db') h = h

    by_tests :
        (ends early flying : Bool)
        → P
            (if ends
              then (ok (some r), db)
              else if early
              then (ok none, db)
              else if flying
              then timed_out (mark_client_timed_out r.operation_id db)
              else (ok (some r), db)).1
    by_tests true early flying = kept
    by_tests false true flying = kept
    by_tests false false true = marked (mark_client_timed_out r.operation_id db) timed
    by_tests false false false = kept
