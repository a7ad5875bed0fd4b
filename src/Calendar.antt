-- ===== src/Calendar.antt =====
-- kaupo/market_calendar.py: explicit local trading hours. `Calendar.Schedule` has the schedule
-- and its validation, `Calendar.Elapsed` the open time of a window, `Calendar.Bounds` what
-- bounds it.
mod Schedule
mod Elapsed
pub mod Bounds
pub mod Validation
mod Tests
unfoldable pub use Schedule.*
unfoldable pub use Elapsed.*
