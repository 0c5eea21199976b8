-- ===== src/Lib.antt =====
-- A verification library for powerfactory_agent, the agent that lets an MCP client drive a
-- power-system application. The agent is built round durable evidence: every change of the
-- application belongs to a workflow, is authorized, is made under an exclusive lease of the
-- application's context, and is recorded in SQLite before and after it is made. This library
-- models the three stores that the rest stands on,
-- src/powerfactory_agent/persistence/workflow_store.py, lease_store.py and operation_store.py,
-- with the domain records, the shared writers and the transactions below them, the worker that
-- runs durable operations, gateway/worker.py, and the read side: the inventory service of
-- operations/inventory.py over the gateway interface, with the harness gateway of gateway/fake.py
-- as an implementation.
--
-- Which file models what (paths from src/powerfactory_agent):
--   Prelude, Table      shared names; the SQL statements SELECT, UPDATE, DELETE and INSERT over a table
--       as the list of its rows, and the lemmas on them
--   Errors              the exception classes, and results that carry one
--   Domain              domain/values.py, domain/workflow.py, domain/lease.py: a record for a dataclass,
--       new_... for its __post_init__; Domain/Operation has the states and the record of
--       persistence/operation_store.py
--   Persistence/Database     persistence/database.py: the tables as the fields of Database, and
--       transaction, which keeps the rows on return and drops them on an exception
--   Persistence/Timestamps   encode_utc_timestamp of persistence/_transactional_writers.py, and the
--       order that SQLite gives to its texts
--   Persistence/Writers      the other functions of persistence/_transactional_writers.py
--   Persistence/WorkflowStore     WorkflowStore: record_workflow is record, command_of is command, the
--       other methods keep their names; transition is split where the code
--       reads, checks, builds and writes
--   Persistence/LeaseStore   ContextLeaseStore: Acquire, Fenced (start_atomic_call, finish_atomic_call,
--       release, release_for_authorization) and Expiry have the methods, Holder and
--       Events the private helpers; current is lease and _current
--   Persistence/OperationStore    OperationStore, for the serialized owner of the application; Stages
--       has the order of its states, History its sequences of calls
--   Persistence/History      sequences of calls of both stores on one database
--   Domain/Assets, Domain/Inventory     the references, queries and pages of domain/values.py and
--       domain/models.py, and the records of domain/inventory.py; the Checks below
--       them are the __post_init__ methods
--   Operations/Inventory     operations/inventory.py: Scan has _page and _scan, Items the private
--       helpers and the bodies of the loops, Inventory the methods summarize,
--       list_components and lookup; Paging is the interface of a gateway that serves
--       a list in pages, which Traversal, Lookup, Balance and Summaries build on
--   Gateway/Harness     inventory of DeterministicHeadlineHarness of gateway/fake.py with its cursors;
--       Paged shows that it implements Paging
--   Gateway/Worker      gateway/worker.py: State has the attributes and where the owner thread stands,
--       OwnerThread is _owner_main with _execute, Worker the rest; worker_step is one
--       access of a thread to what the threads share, and Events says what the
--       properties of every schedule need
--   Scenarios           the theorems at concrete calls
--
-- How the parts interact. The stores write one database, each method in one immediate
-- transaction, and SQLite lets one writer in at a time: any interleaving of calls of these stores
-- is a sequence of them, a list of Call or OperationCall, and run gives the tables after it.
-- acquire and the test of a holder read the workflow's row, which among the methods of these
-- stores only record and transition write; the operation store has a table of its own. One other
-- component writes the same tables: execution admission (persistence/execution_admission.py)
-- updates workflow_records and writes commands, leases and fence counters. Its calls are not among
-- those of a history, so what is said of any calls is said of those of the modelled stores. What one call may do to the workflow tables is stated by Move,
-- what it may do to the leases by LeaseMove, an abstract lock service with one holder for a scope
-- and tokens that grow, and what it may do to the operations by OperationMove; every method is
-- shown to be such a move, and the invariants are kept by the moves.
--
-- Conventions. A JSON column holds the value that it encodes, so the round trip of
-- serialization.py is assumed, and so is that a typed digest is its text. A datetime is its UTC
-- instant in microseconds with a flag for its time zone. That the nineteen characters of an
-- encoded date and time are in the order of its whole seconds is assumed. The values of uuid.uuid4() and the clock
-- are arguments of the operations, and so is what canonical_json makes of a payload, a result or
-- an error of an operation; whether a stored payload gets through its round trip before the
-- handler is called is the setting encodes of the worker. UNIQUE constraints are the tests of insert and lease_clashes; the
-- foreign keys hold since the methods look the workflow up in the same transaction, or else raise
-- there what the caller sees. Arguments are typed, so the TypeError branches have no counterpart.
-- An exception's message is kept where it names a field or a fixed text. The stores are
-- structurally recursive. The service's scan has fuel, one unit for each page that it reads,
-- since a gateway may answer for ever: a Run is none when the fuel is used up, and else the
-- result. The limit of the traversal and one more unit are enough where a page with a next cursor
-- has an item.
--
-- The gateway's worker runs the operations of the operation store on one owner thread, while
-- clients wait, a watchdog looks after the owner, and close ends it. A schedule is a list of
-- WorkerEvent, one for each access of a thread to the store, the queue or the flags, so every
-- interleaving is a schedule, and so is the end of a process at any point and the start of the
-- next one over its tables. submit and the marking by the watchdog hold the admission lock and
-- are one step each. What a client, the watchdog or close has read before it acts is any value,
-- the clock too. An exception that the owner does not catch ends its thread. handled records the
-- calls of handlers for the theorems; what a handler comes to is in the event, and the text of
-- _failure_evidence always exists, since it is an object of three short strings.
--
-- The inventory service. Its gateway is a function of the query, so two reads of one page within
-- a call agree. The generator of _scan and the body of the loop over it are one loop with the
-- body as an argument: an error of the body ends the scan as it does the method. The signed
-- encoding of a cursor (json, base64, hmac) is the parameter CursorCodec of the harness; that an
-- opened token is the payload that was sealed, and that the token is a valid text, are hypotheses
-- (Serves). The clock of the harness stands still within a traversal, as its default clock does,
-- and what active_context returns is a field of the harness.
--
-- Not modelled: execution admission, the reconciliation, approval, identity, graph and
-- calculation stores, the gateway's owner, the other reads and the changes of the harness, the adapter of the
-- application, the operations on the graph and on calculations, and serialization, which are
-- large and stand on what is here; migrations, configuration, the MCP server and the probes,
-- which are I/O and glue.
pub mod Prelude
pub mod Domain
pub mod Errors
pub mod Table
pub mod Persistence
pub mod Operations
pub mod Gateway
mod Scenarios
