-- ===== src/Governance.antt =====
-- law_agent/review/governance_store.py: the audit of approvals, decision reports and deliveries.
pub mod Records
pub mod Approvals
pub mod Deliveries
pub mod Reports
pub mod Events
pub mod Keeps
pub mod Decisions
pub mod Audit
pub mod Repeats
pub mod Lives
pub mod Digest
pub mod Bound
