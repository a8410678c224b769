-- ===== src/Store.antt =====
-- execution/persistence.py: `SQLiteIntentRecordStore`. A method is one transaction: it takes the
-- contents of the database file, and gives its result and the contents that it leaves.
mod Rows
mod Tables
mod State
mod Leases
mod Records
pub mod Lookup
pub mod Reads
pub mod Steps
pub mod Forward
pub mod Claims
pub mod Lease
pub mod Exclusion
mod Tests
unfoldable pub use Rows.*
unfoldable pub use Tables.*
unfoldable pub use State.*
unfoldable pub use Leases.*
unfoldable pub use Records.*
