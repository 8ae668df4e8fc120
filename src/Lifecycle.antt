-- ===== src/Lifecycle.antt =====
-- The life of the rows of `access_assignments` across all operations
-- (backend/app/services/assignments.py, backend/app/services/workflows.py,
-- backend/app/services/group_role_mapping.py, backend/app/workers).
pub mod Order
pub mod Keys
pub mod Quiet
pub mod Effects
pub mod Steps
pub mod Retained
pub mod Decisions
pub mod Cascades
pub mod Sweeps
pub mod Activation
pub mod History
pub mod Removal
pub mod Results
