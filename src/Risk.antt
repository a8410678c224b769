-- ===== src/Risk.antt =====
-- The risk package: risk/risk_engine.py in Risk/Engine.antt, risk/simulation_contract.py in
-- Risk/Contract.antt, and risk/position_sizing.py in Risk/Sizing.antt.
mod Engine
mod Contract
mod Sizing
pub mod Daily
pub mod Approved
pub mod Registry
pub mod Bounded
mod Tests
unfoldable pub use Engine.*
unfoldable pub use Contract.*
unfoldable pub use Sizing.*
