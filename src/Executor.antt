-- ===== src/Executor.antt =====
-- execution/executor.py: `AsyncTradeExecutor`, over the store and a broker that is given by what it
-- answers. The data are in Executor/Data.antt, the broker's positions (execution/trade_manager.py)
-- in Executor/Positions.antt, the methods in Executor/Reconcile.antt, Executor/Send.antt and
-- Executor/Submit.antt.
mod Data
pub mod Guarantee
pub mod Rely
pub mod Once
pub mod AtMostOnce
mod Neighbour
pub mod Allowed
mod Tests
mod Positions
mod Reconcile
mod Send
mod Submit
unfoldable pub use Data.*
unfoldable pub use Positions.*
unfoldable pub use Reconcile.*
unfoldable pub use Send.*
unfoldable pub use Submit.*
