-- ===== src/Safety.antt =====
-- execution/safety.py: the snapshots of execution safety and of risk that processes exchange, and
-- the store that keeps the latest of each.
mod Data
mod Rows
pub mod Roundtrip
mod Tests
unfoldable pub use Data.*
unfoldable pub use Rows.*
