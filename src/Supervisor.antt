-- ===== src/Supervisor.antt =====
-- kaupo/core/supervisor.py: the loop that reconciles the running tasks with the enabled assignments.
-- `Supervisor.State` has the state and what a pass sees, `Supervisor.Rules` the pure rules, `Supervisor.Pass` the
-- loops; `Supervisor.Local` says what one pass does to one assignment, and the other children prove
-- that the loops do just that.
mod State
mod Rules
mod Pass
pub mod Orphans
pub mod Local
pub mod Own
pub mod Slices
pub mod Plans
pub mod Refinement
pub mod Promises
pub mod Reachable
pub mod Watchdog
mod Tests
unfoldable pub use State.*
unfoldable pub use Rules.*
unfoldable pub use Pass.*
