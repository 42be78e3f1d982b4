-- ===== src/Remediation.antt =====
-- law_agent/review/case_store.py: remediation plans, their tasks and the submissions on them.
pub mod Records
pub mod Tasks
pub mod Plans
pub mod Submissions
pub mod Events
pub mod Versions
pub mod Edits
pub mod Reviews
pub mod Settled
pub mod Kept
pub mod Once
