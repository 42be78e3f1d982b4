-- ===== src/Lib.antt =====
-- The state-keeping core of the cross-border compliance review service, modelled and proved.
--
-- The service reviews a case: materials are uploaded and frozen into snapshots, an agent works on
-- a review task, the result sends the case on, and the approval platform (Feishu) decides it. The
-- agent, its retrieval and its language models are called from outside; what keeps the process
-- right is in the stores and in the lifecycle, which are modelled here.
--
-- Parts and files (paths from the repository's root):
--   * Workflow.antt and Workflow/: law_agent/review/workflow.py. `CASE_TRANSITIONS` is
--     `case_transitions`, `validate_case_transition` and the three tests on a finished review keep
--     their names. Lifecycle has the lifecycle as a relation, Histories sequences of requested
--     changes, Routing the tests on a review, Strip Python's `str.strip`.
--   * Enterprise.antt and Enterprise/: law_agent/review/enterprise_store.py, the class
--     InMemoryEnterpriseStore. Records has its dataclasses and its attributes as `EnterpriseStore`;
--     Materials the methods on materials and snapshots; Tasks enqueueing, leases and claims;
--     Outcomes what a worker reports, answers, retries and superseding. A method is a function of
--     the same name from a store to a result and a store. Events has one event for each method and
--     runs of events in any order; the other files are named for what they prove.
--   * Governance.antt and Governance/: law_agent/review/governance_store.py, the class
--     InMemoryGovernanceStore: approvals and the events that decide them, reports, deliveries.
--   * Remediation.antt and Remediation/: law_agent/review/case_store.py, the methods of
--     InMemoryCaseStore on remediation plans, tasks, submissions and their reviews. The keywords of
--     a new task and of an update are records of optional fields.
--   * Cases.antt and Cases/: law_agent/review/case_store.py, the other methods of
--     InMemoryCaseStore: Accounts has users and sessions, Files cases, events and feedback,
--     Dashboard the summary.
--   * Administration.antt and Administration/: law_agent/review/user_admin.py, the class
--     InMemoryUserAdminStore; `get_user` is `find_user` and `authenticate` is `authenticate_user`.
--   * Assessment.antt and Assessment/: law_agent/review/remediation.py. Guided and Reconcile have the
--     tasks that a review leaves and where they send the case; Packet, Gate and Drafts what a model's
--     assessment and drafts of tasks have to pass; Text Python's `str.find` and slices.
--   * Worker.antt and Worker/: law_agent/review/worker.py. Queue is the protocol of a queue, with
--     what a worker relies on; Run the class ReviewWorker; InMemory the queue that
--     InMemoryEnterpriseStore is.
--   * Postgres.antt and Postgres/: law_agent/review/enterprise_store.py, the class
--     PostgresEnterpriseStore, its methods on review tasks. Rows has the rows of a task and
--     `_review_task`; Reports, Queue and Requests the methods; Events the transactions in sequence;
--     the other files are named for what they prove.
--   * Qa.antt and Qa/: law_agent/review/qa_store.py, the classes QAStore and InMemoryQAStore;
--     `get` is `get_conversation` and `list` is `list_conversations`.
--   * Prelude.antt and Prelude/: dictionaries in the order of insertion, lists, Python's exceptions
--     as values, sorting, Boolean tests. Tests.antt and Tests/: runs on concrete inputs.
--
-- How they interact: a finished review (the payload that `complete_task` stores) is read by
-- `review_requires_retry`, which `retry_task` asks; `next_status_after_review` gives the change of
-- the case's status, which `validate_case_transition` accepts; an approval event gives the
-- decision that such a change carries. A worker drives the store's queue by its claims and reports;
-- a finished review's guided actions go into the remediation plan, whose open tasks hold the case
-- back; an assessment that passes the gate is applied to the submission. The two stores of tasks
-- serve the same callers: the tables of PostgreSQL are read as the tasks of the in-memory store.
--
-- Conventions. Every public method holds the store's one lock for all its body, so a method is one
-- atomic step and an interleaving of threads is a sequence of steps. The clock is an argument, a
-- time is a number of seconds. Identifiers from `uuid4` are arguments; where a theorem needs them
-- new, that is its hypothesis (`IsFresh`). A dictionary is an association list in the order of
-- insertion. A method that raises returns an error and has no effect on the store; so are read also
-- `apply_agent_remediation_assessment` and `review_remediation_submission` on a submission whose task
-- is missing, which they find out after they stored it. The length of a lease is a natural number. A
-- worker's failure names the node of the task as it was claimed. SHA-256 over canonical JSON
-- (`_canonical_hash`, `_payload_hash`), the password hasher and `str.lower` are parameters, as is the
-- JSON text by which the store of questions tells what was changed. No definition runs on fuel:
-- every loop is over a list, but for the worker's three rounds.
--
-- A statement of SQL is translated by what PostgreSQL documents of it: an UPDATE changes the rows
-- that its WHERE clause picks, a failed transaction is rolled back, SKIP LOCKED passes over locked
-- rows. The collation of identifiers and the rows that are locked at a claim are parameters.
--
-- Not modelled: the other Postgres stores, and the materials of PostgresEnterpriseStore (SQL text
-- sent to a database), the HTTP layer, the agent, its prompts and retrieval, the data pipeline,
-- reports as documents, the frontend and the scripts.
pub mod Administration
pub mod Assessment
pub mod Cases
pub mod Enterprise
pub mod Governance
pub mod Postgres
pub mod Prelude
pub mod Qa
pub mod Remediation
pub mod Tests
pub mod Worker
pub mod Workflow
