-- ===== src/Portfolio.antt =====
-- The portfolio engine (kaupo/core/portfolio_engine.py). `Portfolio.Steps` has the join of the candles,
-- `Portfolio.State` the state and what a strategy sees, `Portfolio.Loop` what a step does and `Portfolio.Run` the loop; the other
-- children prove what the joined steps hold and what a step keeps.
mod Steps
mod State
mod Loop
mod Run
mod Sorted
pub mod Join
mod Rising
pub mod Exact
pub mod Agree
pub mod Steady
pub mod Whole
mod StepTests
mod Tests
unfoldable pub use Steps.*
unfoldable pub use State.*
unfoldable pub use Loop.*
unfoldable pub use Run.*
