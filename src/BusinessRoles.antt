-- ===== src/BusinessRoles.antt =====
-- Business roles (backend/app/services/business_roles.py): bundles of entitlements that are assigned as
-- one.
pub mod Editing
pub mod Assigning
pub mod Mapped
pub mod Unique
pub mod Disjoint
pub mod Edits
