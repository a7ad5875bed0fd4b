-- ===== src/Ledger.antt =====
-- kaupo/ledger/ledger.py: cash, positions and the entry log of a run. `Ledger.State` has the
-- record and the bookkeeping methods, `Ledger.Spot` and `Ledger.Perp` the two ways of applying
-- a fill; the other children prove what the methods keep.
mod State
mod Spot
mod Perp
mod Apply
pub mod Effect
pub mod Equity
pub mod Book
pub mod Booked
pub mod Journal
pub mod Agree
pub mod Valid
mod Tests
unfoldable pub use State.*
unfoldable pub use Spot.*
unfoldable pub use Perp.*
unfoldable pub use Apply.*
