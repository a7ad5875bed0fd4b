-- ===== src/Reconcile.antt =====
-- kaupo/core/live_reconcile.py: before a live run trades, its books are made to match the exchange.
-- `Reconcile.State` has what the exchange and the database say, `Reconcile.Recover` the search for unrecorded
-- trades, `Reconcile.Check` the drift and the whole reconciliation; the other children prove what it promises.
mod State
mod Recover
mod Check
pub mod Repeat
pub mod Grouping
pub mod Exact
pub mod Match
mod Tests
unfoldable pub use State.*
unfoldable pub use Recover.*
unfoldable pub use Check.*
