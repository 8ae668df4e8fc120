-- ===== src/Store.antt =====
-- The database model (backend/app/models/models.py), and sessions over it.
mod Types
mod Rows
mod Running
mod Rules
mod Failing
mod Records
mod Returns
pub use Types.*
pub use Rows.*
unfoldable pub use Running.{
  pure, raise, crash, gets, or_raise, ◌>>=◌, try_else, modify, raise_if, commit, rollback, call,
  create_call, fresh_id, for_each, close,
}
pub use Running.*
pub use Rules.*
unfoldable pub use Failing.{commit_unless, try_any}
pub use Failing.*
pub use Returns.*
unfoldable pub use Records.{record_audit, create_notification}
pub use Records.*
