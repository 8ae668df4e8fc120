-- ===== src/Packages.antt =====
-- Access packages (backend/app/services/packages.py): bundles of targets that are assigned together,
-- or that those who are eligible ask for.
pub mod Items
pub mod Editing
pub mod Assigning
pub mod Batches
pub mod Listings
pub mod Owners
pub mod Requests
