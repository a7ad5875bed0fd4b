-- ===== src/Engine.antt =====
-- kaupo/core/engine.py: the loop that composes the venue, the ledger, the risk manager and a
-- strategy. `Engine.State` has the configuration and the state, `Engine.Parts` and `Engine.Candle` one candle,
-- `Engine.Run` the run; the other children prove what they keep.
mod State
mod Parts
mod Candle
mod Run
pub mod Induction
pub mod Leaving
pub mod Ending
pub mod Booking
pub mod Keeps
pub mod Agree
mod Tests
unfoldable pub use State.*
unfoldable pub use Parts.*
unfoldable pub use Candle.*
unfoldable pub use Run.*
