-- ===== src/Assignments.antt =====
-- The life of an access assignment (backend/app/services/assignments.py): created, approved or
-- rejected, activated and deactivated, revoked; and the grants that follow from group memberships.
pub mod Create
pub mod Approval
pub mod Revoke
pub mod Mappings
pub mod MappingEdits
pub mod Activate
pub mod Deactivate
pub mod Guards
pub mod Reads
pub mod Conflicts
