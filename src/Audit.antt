-- ===== src/Audit.antt =====
-- execution/continuous_reconciliation.py: the audit of the broker's positions against the tracked
-- trades, and the circuit breaker that it trips.
mod Data
mod Tracked
mod Cycle
mod Breaker
pub mod Matching
pub mod Compared
pub mod Clean
pub mod Tripped
pub mod Loop
pub mod Intents
mod Tests
unfoldable pub use Data.*
unfoldable pub use Tracked.*
unfoldable pub use Cycle.*
unfoldable pub use Breaker.*
