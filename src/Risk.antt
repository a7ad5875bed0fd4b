-- ===== src/Risk.antt =====
-- kaupo/risk/manager.py: the guardrails between strategy and venue. `Risk.State` has the
-- configuration, the state and the time-based checks, `Risk.Spot` and `Risk.Perp` assess
-- intents, `Risk.Checkpoint` saves and restores; the other children prove what they keep.
mod State
mod Spot
mod Perp
mod Checkpoint
mod Cases
pub mod Halting
pub mod Streak
pub mod Cooldown
pub mod Sells
pub mod Spending
pub mod Buys
pub mod Exposure
pub mod Restore
mod Tests
unfoldable pub use State.*
unfoldable pub use Spot.*
unfoldable pub use Perp.*
unfoldable pub use Checkpoint.*
