-- ===== src/Tests.antt =====
-- Runs of the definitions on concrete inputs, and the theorems at inputs that meet their hypotheses.
pub mod Workflow
pub mod Enterprise
pub mod Governance
pub mod Remediation
pub mod Cases
pub mod Administration
pub mod Worker
pub mod Assessment
pub mod Postgres
pub mod Qa
