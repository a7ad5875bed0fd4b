-- ===== src/Paper.antt =====
-- kaupo/venues/paper.py: simulated execution against candles. `Paper.State` has the venue and
-- its queues, `Paper.Fills` turns one order into a fill, `Paper.Candle` has the loops of a
-- candle; the other children prove what they keep.
mod State
mod Fills
mod Candle
pub mod Positions
pub mod Limits
pub mod Exits
pub mod Lifetime
pub mod Void
pub mod Returns
pub mod Modes
mod Tests
unfoldable pub use State.*
unfoldable pub use Fills.*
unfoldable pub use Candle.*
