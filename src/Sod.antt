-- ===== src/Sod.antt =====
-- The preventive check of the Separation-of-Duties engine (backend/app/services/sod.py): does a grant
-- put a person on both sides of a policy?
mod Holdings
mod Checks
pub mod Specification
pub mod Refinement
pub mod Agreement
pub mod Promise
unfoldable pub use Holdings.{expand, add_holding, add_holdings, direct, resolve_user_holdings}
pub use Holdings.*
unfoldable pub use Checks.{
  settings_or_default, get_sod_notification_settings, side_of_new, side_entitlements, holds_or_held,
  check_side, check_policy, check_policies, check_sod_conflicts,
}
pub use Checks.*
