-- ===== src/Portfolio/State.antt =====
-- `PortfolioEngineConfig`, `_PortfolioContext` and the state of `PortfolioEngine`
-- (kaupo/core/portfolio_engine.py), with what its recorder is told.
use kaupo.Base.{ℕ, ◌+◌, Bool, not, Option, List, [], ◌∷◌, ◌++◌, map, filter, get_or, any, on_some}
use kaupo.Base.Int.{ℤ, pos, ◌+ℤ◌, ◌-ℤ◌, ◌*ℤ◌, eqb_ℤ}
use kaupo.Base.Dict.{Dict, lookup, insert}
use kaupo.Domain.{
  Pair, Candle, Timeframe, Timestamp, Order, Position, OrderIntent, pair_eq, eq_pair, seconds,
}
use kaupo.Ledger.{Ledger, position, equity}
use kaupo.Risk.{RiskManager, RiskState}
use kaupo.Paper.{PaperVenue}
use kaupo.Engine.{RunMode, RunHalt, Row, order_row, push_history, last_n}
use kaupo.Portfolio.Steps.{Step}

pub record PortfolioConfig : Type 0 where
  pub pairs : List Pair
  pub timeframe : Timeframe
  pub lookback : ℕ
  pub mode : RunMode

-- The state of the engine and of the parts it owns. `S` is the state of the strategy.
pub record Portfolio (S : Type 0) : Type 0 where
  pub venues : Dict Pair PaperVenue
  pub risk : RiskManager
  pub ledger : Ledger
  pub strategy : S
  pub clock : Timestamp
  pub history : Dict Pair (List Candle)
  pub last_closes : Dict Pair ℤ
  pub last_candle : Dict Pair Candle
  pub fills : ℕ
  pub kill_reason : RunHalt
  pub last_snapshot_ts : Option Timestamp
  pub rows : List Row

-- How a step ends: normally, or by an exception. Both keep the state.
pub data Progress (S : Type 0) : Type 0 where
  going : Portfolio S → Progress S
  broken : Portfolio S → Progress S

-- What a strategy sees of the engine: `_PortfolioContext`.
pub record PortfolioView : Type 0 where
  pub candles : Step
  pub history : Pair → ℕ → List Candle
  pub now : Timestamp
  pub positions : List (Pair × Position)
  pub cash : ℤ
  pub equity : ℤ

-- A strategy is code of the user: `none` is an exception that it raises.
abbrev pub PortfolioStrategy : Type 0 → Type 0
PortfolioStrategy S = PortfolioView → S → Option (List OrderIntent × S)

-- `pair in self.history`
abbrev pub in_universe : PortfolioConfig → Pair → Bool
in_universe cfg p = any (pair_eq p) cfg.pairs

module _ {S : Type 0} where
  abbrev pub write_row : Row → Portfolio S → Portfolio S
  write_row r e = record e { rows = e.rows ++ r ∷ [] }

  abbrev pub write_orders : List Order → Portfolio S → Portfolio S
  write_orders [] e = e
  write_orders (o ∷ os) e = write_orders os (write_row (order_row o) e)

  -- `self.ledger.equity(self.last_closes)`
  unfoldable pub equity_now : Portfolio S → ℤ
  unfolding equity
  equity_now e = equity (λ p. lookup p e.last_closes) e.ledger

  -- `self.clock.now()`: the close of the step's candles.
  unfoldable pub now : PortfolioConfig → Portfolio S → Timestamp
  now cfg e = e.clock + seconds cfg.timeframe

  -- `_risk_state`
  unfoldable pub risk_state : PortfolioConfig → Portfolio S → RiskState
  unfolding now position equity_now
  risk_state cfg e = record {
    ts = now cfg e;
    cash = e.ledger.cash;
    positions = map (λ (p : Pair). (p, position p e.ledger)) cfg.pairs;
    prices = e.last_closes;
    equity = equity_now e;
  }

  unfoldable pub unrealized_of : List Pair → Portfolio S → ℤ
  unfolding position
  unrealized_of [] e = pos 0
  unrealized_of (p ∷ ps) e =
      let held : Position = position p e.ledger in
      on_some (lookup p e.last_closes) (pos 0) (λ price. held.size *ℤ (price -ℤ held.avg_entry))
      +ℤ unrealized_of ps e

  -- `_append_history`; the candles of a step are of the universe.
  unfoldable pub append_history : PortfolioConfig → Step → Portfolio S → Portfolio S
  unfolding push_history
  append_history cfg [] e = e
  append_history cfg ((p, c) ∷ cs) e = append_history cfg cs (record e {
    history = insert p (push_history cfg.lookback c (get_or (lookup p e.history) [])) e.history;
  })

  -- `_PortfolioContext` at a step.
  unfoldable pub view_at : PortfolioConfig → Step → Portfolio S → PortfolioView
  unfolding last_n now position equity_now
  view_at cfg candles e = record {
    candles = candles;
    history = λ p n. on_some (lookup p e.history) [] (last_n n);
    now = now cfg e;
    positions =
        filter (λ (h : Pair × Position). not (eqb_ℤ h.1.size (pos 0)))
          (map (λ (p : Pair). (p, position p e.ledger)) cfg.pairs);
    cash = e.ledger.cash;
    equity = equity_now e;
  }
