-- ===== src/Live.antt =====
-- `KrakenVenue` of kaupo/venues/kraken_live.py: orders on the exchange behind the interface of a venue.
-- `Live.State` has the state and what the exchange answers, `Live.Size` the size and the price that are
-- sent, `Live.Orders` the placing of an order, `Live.Candle` what a candle does and `Live.Liquidate` the
-- closing of a position; the other children prove what is sent and what is reported.
mod State
mod Size
mod Orders
mod Candle
mod Liquidate
pub mod Bounds
pub mod Ids
pub mod Fresh
pub mod Once
pub mod Closing
mod Tests
unfoldable pub use State.*
unfoldable pub use Size.*
unfoldable pub use Orders.*
unfoldable pub use Candle.*
unfoldable pub use Liquidate.*
