-- ===== src/Assessment.antt =====
-- law_agent/review/remediation.py: what a review leaves to do, and the gate that an assessment of
-- the work passes.
--
-- Text has Python's `str.find` and slices; Packet what the case can check; Gate
-- `_ground_basis` and `finalize_assessment`; Drafts the drafts of tasks; Guided the tasks that a
-- review gives; Reconcile the plan and the case's next status; Store the in-memory store of
-- assessments. The other files are named for what they prove.
pub mod Text
pub mod Guided
pub mod Drafts
pub mod Packet
pub mod Gate
pub mod Locate
pub mod Grounding
pub mod Trust
pub mod Reconcile
pub mod Sources
pub mod Ranks
pub mod Actions
pub mod Questions
