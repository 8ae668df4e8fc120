-- ===== src/Birthright.antt =====
-- Birthright access (backend/app/services/birthright.py): a policy grants targets to everyone whose
-- attributes meet its rule.
pub mod Rules
pub mod Evaluate
pub mod Reconcile
pub mod Policies
pub mod Preview
pub mod Matching
pub mod Saving
pub mod Additions
pub mod Untouched
pub mod Editing
