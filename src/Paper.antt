-- ===== src/Paper.antt =====
-- execution/paper_contract.py: the deterministic paper venue. The records are in Paper/Data.antt,
-- the engine's operations in Paper/Orders.antt, Paper/Observe.antt and Paper/Authorize.antt, and the
-- gateway over them in Paper/Gateway.antt.
mod Data
mod Orders
mod Observe
mod Authorize
mod Gateway
mod Kept
mod Watched
pub mod Final
pub mod Once
mod Tests
unfoldable pub use Data.*
unfoldable pub use Orders.*
unfoldable pub use Observe.*
unfoldable pub use Authorize.*
unfoldable pub use Gateway.*
