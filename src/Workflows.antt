-- ===== src/Workflows.antt =====
-- The workflow engine (backend/app/services/workflows.py): stage conditions, the walk through the
-- stages, the decisions of approvers, and what happens to the subject in the end.
pub mod Conditions
pub mod Stripping
pub mod Stages
pub mod Overdue
pub mod Escalation
pub mod Outcomes
pub mod Voting
pub mod Decide
pub mod Settling
pub mod Ballot
pub mod Editing
pub mod Edited
