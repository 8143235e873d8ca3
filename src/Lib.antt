-- ===== src/Lib.antt =====
-- A model of the supply exception service under services/: the decisions that may move stock or
-- write to SAP, and the stores that keep them.
--
-- A signal opens a case. Its life is the state machine of services/shared/case_state.py, kept by the
-- case store, with one audit event for each change in the same transaction. An agent, one run at a
-- time, proposes a plan; the verifier checks it against facts that are read again and computes the
-- confidence in it; the routing decides which part may go without approval and who approves the
-- rest; the approval store keeps the parts, their decisions and their deadlines; the execution
-- workflow reserves the stock, saves how to undo each write, and sends the writes to SAP.
--
-- Files and sources:
--   Prelude          shared names, lists, texts, integers and decimals in millionths
--   Storage          DynamoDB as services/shared/dynamo.py and the stores use it: an interface whose
--                    laws are the documented behaviour of conditional writes and transactions;
--                    Storage/Memory meets it with a function from keys to items;
--                    Storage/Values is the conversion of values into items
--   Plan             the actions of services/shared/models.py
--   Case/Status      CaseStatus, _STAGES and services/shared/case_state.py
--   Case/Items       the items of the tables of cases and audit events
--   Case/Audit       services/shared/audit.py: verify_chain, AuditWriter.head and record
--   Case/Store       services/shared/cases.py: CaseStore
--   Case/Runs        services/shared/runs.py: RunStore
--   Execution/Fault, Execution/Journal, Execution/Identity
--                    services/execution/journal.py; the exceptions of services/execution are values
--   Execution/Ledger services/execution/ledger.py
--   Execution/Boundary, Execution/Compensate, Execution/Workflow
--                    services/execution/workflow.py: a call takes the state of the journal, of the
--                    ledger and of the world to a result or an exception and a new state
--   Verify, Verify/Portfolio, Verify/Facts, Verify/Checks
--                    services/verifier/logic.py: verify with its checks and what they are made of
--   Routing/Logic, Routing/Route
--                    services/routing/logic.py: eligible and route
--   Routing/Control  services/routing/store.py, `ControlStore`: Items its stored items, Store its
--                    reads and writes, Save, Tick, Decide and Reallocate its operations, over the
--                    audited writes of Case/Audit and the transitions of Case/Store
--   Optimizer        services/optimizer/solver.py: Problem has _validate, Check _check_result, and
--                    Solver solve; services/optimizer/projection.py: Projection;
--                    services/optimizer/portfolio.py: Portfolio
--   Rules            services/rules: br_02, br_04, br_13, br_15, fr_ing_02 and impact
--   Tests            the theorems at concrete inputs
-- The modules below these files hold their theorems.
--
-- Parameters: DynamoDB, SHA-256 of canonical JSON, CP-SAT, the calls of the protocol Boundary (SAP,
-- approvals, kill switch), the clock, ULIDs, and Python's readings of texts as numbers, instants and
-- durations. Other writers are explicit: sequences of writes or commits, or a function of the state
-- between a read and a transaction; Case/Audit/Commits says which state of such a run a transaction
-- of an audited write is committed on.
--
-- Bounds: `AuditWriter.record` makes five attempts, as the code does, and gives up after them; the
-- loops of the portfolios run on fuel, one step more than there are active cases; all other loops
-- run over lists. A quotient of decimals is an exact fraction, where Python keeps 28 digits.
-- Payloads of audit events, request bodies and case fields that no modelled code reads are left out
-- or kept as texts.
--
-- Not modelled: the gatekeeper, the monitor, and everything that mostly calls other services: agent,
-- API, dialogue, extraction, notifier, interop, infrastructure.

pub mod Prelude
pub mod Storage
pub mod Plan
pub mod Execution
pub mod Case
pub mod Verify
pub mod Routing
pub mod Optimizer
pub mod Rules
mod Tests
