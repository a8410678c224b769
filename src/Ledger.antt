-- ===== src/Ledger.antt =====
-- execution/persistence.py: `SQLitePositionLedger`, the identities of the positions opened and what
-- is known of their fills and closes. A method is one transaction on the table.
mod Rows
mod Opens
mod Closes
pub mod Lookup
pub mod Calls
pub mod Claimed
pub mod Notices
pub mod Final
mod Tests
unfoldable pub use Rows.*
unfoldable pub use Opens.*
unfoldable pub use Closes.*
