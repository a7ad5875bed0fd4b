-- ===== src/Domain.antt =====
-- kaupo/domain.py: the types that every execution mode shares.
--
-- Floats and Decimals are integers of a fixed small unit: prices count ticks, sizes count lots,
-- and an amount of cash counts tick-lots, so that `price * size` is an amount and is exact.
-- A quotient is rounded down to its unit. Rates are integers of basis points.
-- A timestamp is a count of seconds since the epoch, in UTC.
mod Types
mod Intents
mod Totals
unfoldable pub use Types.*
unfoldable pub use Totals.*
unfoldable pub use Intents.*
