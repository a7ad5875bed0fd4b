-- ===== src/Lib.antt =====
-- Verification library of kaupo, an algorithmic trading platform.
--
-- The program turns candles into trades. A strategy looks at closed candles and returns intents;
-- the risk manager (kaupo/risk/manager.py) approves, resizes or refuses them; a venue
-- (kaupo/venues/paper.py in backtest and shadow runs) holds the orders and fills them on later
-- candles; the ledger (kaupo/ledger/ledger.py) books each fill and is the source of truth for
-- cash, positions and equity; an engine (kaupo/core/engine.py) runs the loop. This library has:
--
-- - Base: what the modules share. Base/Tests has Boolean tests and the conditional, Base/Lists
--   lists measured by native numbers, Base/Int the integers with their order and division
--   rounded down, Base/Dict a Python dict as an association list in insertion order, Base/Keyed dicts with
--   distinct keys and loops over them.
-- - Domain: the enums and dataclasses of kaupo/domain.py.
-- - Ledger: `class Ledger`. Ledger/State has the state, its construction and its readers,
--   Ledger/Spot, Ledger/Perp and Ledger/Apply the operations `apply_fill`, `_apply_fill_perp`,
--   `apply_liquidation_fill` and `apply_funding`. A raised exception is a value of `Outcome`,
--   and leaves the state alone.
-- - Risk: `class RiskManager`. Risk/State has the configuration, the state and the checks that
--   follow time (`on_candle`, `notify_trade_result`), Risk/Spot and Risk/Perp the batch
--   assessment, Risk/Checkpoint `checkpoint` and `restored`.
-- - Paper: `class PaperVenue` of kaupo/venues/paper.py. Paper/State has the queues, Paper/Fills the
--   way from an order to a fill, Paper/Candle the loops of `on_candle`, `liquidate` and
--   `void_fill`. An order is one object in several lists, so a change of it is written to each
--   list that reads what changed. The failed assertion of `_try_limit` is a missing result.
-- - Engine: `class Engine` of kaupo/core/engine.py, which composes the three. Engine/State has its
--   configuration, its state and `_Context`, Engine/Candle `_process_candle`, Engine/Run `run` and
--   `_wind_down`. The strategy is an argument, `none` its exception; what the stop event, the control
--   probe and the funding provider say comes with each candle; what the recorder is told is a list
--   of rows. Engine/Induction has the rule that the theorems about a whole run use.
-- - Supervisor: kaupo/core/supervisor.py, the loop that keeps one run per enabled assignment.
--   Supervisor/Rules has its pure rules (`classify_end`, `reconcile`, `watchdog_is_stale` and the
--   guards of a start), Supervisor/Pass the loops over the dicts of running, killed and failed
--   assignments, Supervisor/Orphans `halt_orphan_runs`. Supervisor/Local is the specification: a state
--   machine for one assignment. Supervisor/Own, Slices, Plans and Refinement carry it over to the loops,
--   by the rule for loops over distinct keys of Base/Keyed, and Supervisor/Reachable has the states
--   that passes and ends of tasks lead to. A pass reads the clock once, and what the database
--   answers is the same throughout a pass. The hash of a configuration is a parameter.
-- - Reconcile: kaupo/core/live_reconcile.py, which compares the books of a live run with the exchange
--   before it starts, with `aggregate_trades` of kaupo/venues/kraken_live.py. Reconcile/Recover has
--   `_recover_missed`, Reconcile/Check `balance_drift`, `_check_drift` and `reconcile_live`. What the
--   exchange and the database answer is a record; order ids are texts and times milliseconds here.
-- - Live: `class KrakenVenue` of kaupo/venues/kraken_live.py. Live/Size has the size and the price that
--   are sent, with `floor_to_step` and `round_price_to_step` of kaupo/venues/kraken_client.py,
--   Live/Orders `submit`, Live/Candle `on_candle` and `cancel_all`, Live/Liquidate `liquidate`. What
--   the calls of the exchange answer is an argument, a list of answers where they are polled. An order,
--   which is a shared object in the program, is looked up by its id, and a change of it is made in every
--   list of the venue.
-- - Portfolio: kaupo/core/portfolio_engine.py, the engine of a run on several pairs. Portfolio/Steps has
--   `joined_steps`; the fuel of its loop is the number of candles, of which every step takes one at
--   least. Portfolio/Loop has `_track` and `_process_step`, with the venue of each pair in a dict, and
--   Portfolio/Run the loop of `run`. `_wind_down` is not modelled.
-- - Resume: kaupo/core/resume.py, what a restarted run carries. Resume/Prepare has `is_resumable`, the
--   walk `_chain_rows` and `prepare_resume`. The walk has fuel for every row of the database and one
--   more step, which is enough as it sees no row twice. The rows of the database are a record.
-- - Calendar: kaupo/market_calendar.py, the trading hours that say when a candle is due.
--   Calendar/Schedule has `TradingSchedule` and its validators, Calendar/Elapsed `open_elapsed`,
--   `candle_due` and `_boundary`, with the time zone database as a parameter.
-- - Rebalance: `plan_rebalance` of kaupo/sdk/portfolio.py, from target weights to intents.
--
-- Numbers. The program computes with floats in its strategies and risk checks and with Decimal in
-- the ledger. Here prices are whole ticks, sizes whole lots and amounts of money tick-lots, all
-- integers without bound; a quotient is rounded down, and each theorem about one states what the
-- rounding may cost. Rates are in basis points. Behaviour that comes from binary rounding is not
-- modelled. Timestamps are seconds, and order ids are numbers from a counter, but for the live venue
-- and its reconciliation.
--
-- Loops run over lists, by structural recursion, so that no fuel is needed, but for the chain walk of
-- Resume and the join of Portfolio. Texts such as the
-- reason of an assessment are constructors. Logging is left out. Not modelled: the database, the
-- network clients, the HTTP interface, the command line and the web interface, which are
-- declarations for third-party libraries or input and output.
pub mod Base
pub mod Calendar
pub mod Domain
pub mod Engine
pub mod Ledger
pub mod Live
pub mod Paper
pub mod Portfolio
pub mod Rebalance
pub mod Reconcile
pub mod Resume
pub mod Risk
pub mod Supervisor
