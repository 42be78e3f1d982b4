-- ===== src/Cases.antt =====
-- law_agent/review/case_store.py: accounts, cases, their events and feedback, and the dashboard.
pub mod Records
pub mod Accounts
pub mod Files
pub mod Dashboard
pub mod Sessions
pub mod Views
