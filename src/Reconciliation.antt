-- ===== src/Reconciliation.antt =====
-- execution/reconciliation.py: the adapters that look for a broker's evidence of an intent whose
-- outcome is unknown. What they read and answer is in Reconciliation/Data.antt and
-- Reconciliation/Evidence.antt, the lookups in Reconciliation/Deriv.antt, Reconciliation/Mt5.antt
-- and Reconciliation/Adapters.antt.
mod Data
pub mod Matches
pub mod Confirmed
pub mod Absence
pub mod Conflict
mod Tests
mod Evidence
mod Deriv
mod Mt5
mod Adapters
unfoldable pub use Data.*
unfoldable pub use Evidence.*
unfoldable pub use Deriv.*
unfoldable pub use Mt5.*
unfoldable pub use Adapters.*
