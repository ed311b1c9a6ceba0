-- ===== src/Lib.antt =====
-- A model of the core of the finance-intelligence program, a service that answers questions about
-- the financial reports of banks: it ingests documents, extracts facts from them, and runs analyses
-- whose steps are guarded by policies, budgets and quality gates. The model covers the analysis
-- plane's control logic, parts of the ingestion of documents and the review of facts. Paths are from the repository's
-- root.
--
-- Prelude: what the other modules share. Tests on native numbers and the conditional
-- (Prelude/Tests), lists (Prelude/Lists), calls that may raise (Prelude/Outcome), and texts as code
-- points (Prelude/Ascii).
--
-- Orchestration (services/api/app/orchestration, and what its workers call):
--   StateMachine       state_machine.py: `is_terminal` is TERMINAL_STATES, `is_allowed` the table
--                      VALID_TRANSITIONS, `validate_transition` the method of the same name.
--   Exceptions         exceptions.py: the codes.
--   Store              models/orchestration.py: the rows of jobs and attempts, SELECT and UPDATE.
--   Claims             alembic/versions/031_analysis_job_claim_authority.py: the functions by which
--                      a worker takes, takes over and keeps a job.
--   Clarification      services/clarification_service.py and schemas/clarification.py; the state is
--                      one record of the tables that the session sees. Clarification/Service has
--                      the calls, Clarification/Response the checks on an answer and
--                      Clarification/Expiry the batch that lets questions lapse;
--                      Clarification/Calls are sequences of its calls.
--   EventEngine        event_engine.py: `emit_event` and `replay_events` over the rows of events.
--   CircuitBreaker     circuit_breaker.py, the state of a breaker passed explicitly.
--   Retry              transient_retry.py; the provider is a list of outcomes.
--   Engine             engine.py. Engine has the session and the actions on it, Engine/Plan what a
--                      run is given and the plan, Engine/Run the phases up to the tools,
--                      Engine/Execute the rest and `execute_job` with its handlers. Engine/Steps,
--                      Phases, Tools, Asking, Outcomes and Settled follow the row of the job through
--                      a run; Fenced and Taken are about a job that another worker has.
--   Worker             services/worker/app/analysis_worker.py: polling, the run of a job and its
--                      heartbeat, over the tables of Claims.
--   ToolDedup          tool_dedup.py: the newest invocation of a tool with the same arguments.
--   Budget, PolicyEngine   budget.py and policy_engine.py.
--   Claims and Clarification work on the same rows of jobs, Clarification emits its events through
--   EventEngine and writes its audit rows through Audit. Engine calls Claims, Clarification,
--   EventEngine, PolicyEngine, CircuitBreaker, Budget and ToolDedup. Changes of an
--   analysis job's status are checked by StateMachine, but for the rejection and the failure of a
--   run. Audit gets its rows from Clarification, Lifecycle and Facts.
--
-- Ingestion (services/api/app/services, parsers, and services/worker/app):
--   Lifecycle          services/state_machine.py: the statuses of sessions, versions and ingestion
--                      jobs. The three methods of the service have one body, which is written once,
--                      Lifecycle/Transition `transition`, and instantiated three times.
--   Command            services/worker/app/command_envelope.py: the signed envelope of a command.
--   ValueLocator       parsers/value_locator.py: `locate_in_words` and the cache of a page.
--   CsvParser          parsers/csv_parser.py: CsvParser has the loops over rows and cells,
--                      CsvParser/Document the decoding and `parse`.
--
-- Facts (services/api/app/services/financial_fact_service.py, over models of services/api/app/models):
-- Facts has the tables, Facts/Evidence `_verify_evidence_and_basis`, Facts/Writes the rows that are
-- looked for and written, and Facts/Review the approval, the revision and the rejection of a
-- candidate. Facts/Calls and Facts/Effects say what a call does as steps on the facts and on the
-- candidates; Active, Reviewed, History and Ledger follow the steps, and
-- Support is about the evidence of an approval. A decimal of the database is the
-- whole number of its millionths. The write of a superseded fact goes to the row that the query of
-- the fact in force selects. Facts/Normalization is services/normalization_service.py's
-- `parse_financial_decimal`, over Facts/Decimal, and Facts/Names its canonical names; Facts/Signs
-- is about negative figures. Facts/Cells and
-- Facts/Candidates are services/fact_candidate_service.py, where another
-- session may insert between the queries and the insertion of a call, and Facts/Idempotency is
-- about its unique hash.
--
-- Audit: services/audit_service.py, `sanitize_payload_recursive` and `record_event`.
--
-- Examples: concrete runs, and each theorem below applied to one.
--
-- Conventions. Identifiers and times are natural numbers, tables are lists of rows in the order of
-- insertion, and a call takes and returns the tables that it works on. Where a call raises before it
-- commits, the tables stay as they were. Rows that another transaction has locked are not among
-- the rows that a call is given. Loops are structural recursion over lists or over the number of
-- rounds that the source gives, so no fuel is needed. Texts that the program compares without
-- regard to case are those of ASCII.
--
-- What the source takes from elsewhere is a parameter: hashes, the text of an identifier,
-- `json.dumps`, and the validation by pydantic (`Platform` in Orchestration/Clarification), and the
-- text of a decimal (`FactPlatform` in Facts),
-- `ILIKE` and the value of a numeric column (`CandidatePlatform` in Facts/Cells).
--
-- The tools, the provider, the normaliser and the gates of a run are parameters (`Collaborators` in
-- Orchestration/Engine/Plan).
--
-- Not modelled: the quality gate, the
-- calculations and comparisons, the parsers of PDF and XLSX, the model providers, the HTTP layer,
-- storage, configuration, migrations, and the mobile application.
pub mod Audit
pub mod Examples
pub mod Facts
pub mod Ingestion
pub mod Orchestration
pub mod Prelude
