-- ===== src/Enterprise.antt =====
-- law_agent/review/enterprise_store.py: frozen inputs of a review and the queue of review tasks.
pub mod Records
pub mod Materials
pub mod Tasks
pub mod Outcomes
pub mod Attempts
pub mod Soundness
pub mod Events
pub mod Queue
pub mod Leases
pub mod Idempotence
pub mod Validity
pub mod Invariant
pub mod Turns
pub mod OneActive
pub mod Retry
pub mod Versions
