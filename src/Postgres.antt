-- ===== src/Postgres.antt =====
-- law_agent/review/enterprise_store.py: the class PostgresEnterpriseStore, its queue of tasks.
--
-- Rows has the rows of `review_tasks`, each with those of `review_task_attempts` and
-- `review_task_steps` that name it, and `_review_task`. Reports has the methods by which a worker
-- reports, Queue those by which tasks are enqueued, claimed, taken back, answered and closed. An
-- UPDATE is a change of the rows that its WHERE clause picks; `now()` is an argument. A method is
-- one transaction, and locks the rows that it changes, so that it is one step. The other files are
-- named for what they prove.
pub mod Rows
pub mod Reports
pub mod Queue
pub mod Requests
pub mod Events
pub mod Agree
pub mod Updates
pub mod Refines
pub mod Claims
pub mod Runs
pub mod Cap
pub mod Bounded
