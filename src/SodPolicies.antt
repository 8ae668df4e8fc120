-- ===== src/SodPolicies.antt =====
-- The administration of Separation of Duties (backend/app/services/sod.py): policies, the exceptions
-- that accept a conflict for a time, the requests for them, the scan for violations, and what happens
-- when an exception ends.
pub mod Editing
pub mod Violations
pub mod Exceptions
pub mod Requests
pub mod Notices
pub mod Mirror
pub mod Referenced
pub mod Whole
pub mod Known
pub mod History
