-- ===== src/Resume.antt =====
-- kaupo/core/resume.py: a new shadow or live run carries the ledger of its predecessor.
-- `Resume.State` has the rows and what the database answers, `Resume.Prepare` the rules and
-- `prepare_resume`; the other children prove what a resumed run starts from.
mod State
mod Prepare
pub mod Chain
pub mod Guards
mod Tests
unfoldable pub use State.*
unfoldable pub use Prepare.*
