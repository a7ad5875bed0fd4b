-- ===== src/Rebalance.antt =====
-- kaupo/sdk/portfolio.py: from target weights to intents. `Rebalance.Plan` has the plan,
-- `Rebalance.Bounds` what it may sell and spend.
mod Plan
pub mod Bounds
mod Tests
unfoldable pub use Plan.*
