-- ===== src/Engine/State.antt =====
-- `EngineConfig`, `RunResult`, `VirtualClock`, `_Context` and the state of `Engine`
-- (kaupo/core/engine.py), with what its recorder is told.
use text.Mathlib.Text.{◌==◌ as str_eq}
use kaupo.Base.{
  ℕ, zero, suc, ◌+◌, ◌-◌, String, Bool, true, false, Option, none, some, List, [], ◌∷◌, ◌++◌,
  length, if◌then◌else◌,
}
use kaupo.Base.Int.{ℤ}
use kaupo.Domain.{
  Pair, Candle, Timeframe, Timestamp, Order, Fill, Position, OrderIntent, pair_eq, seconds,
}
use kaupo.Ledger.{Ledger, LedgerEntry, position, equity}
use kaupo.Risk.{RiskManager, RiskCheckpoint, HaltReason}
use kaupo.Paper.{PaperVenue}

pub data RunMode : Type 0 where
  backtest shadow live : RunMode

pub data RunStatus : Type 0 where
  running completed halted failed : RunStatus

pub record EngineConfig : Type 0 where
  pub pair : Pair
  pub timeframe : Timeframe
  pub lookback : ℕ
  pub liquidate_end : Bool
  pub instrument : String
  pub mode : RunMode

unfoldable pub is_perp : EngineConfig → Bool
is_perp cfg = str_eq cfg.instrument "perp"

-- `self.run_info.mode in (RunMode.SHADOW, RunMode.LIVE)`
abbrev pub is_kept : RunMode → Bool
is_kept backtest = false
is_kept shadow = true
is_kept live = true

-- What the control probe answers.
pub data Command : Type 0 where
  kill switch pause : Command

-- Why a run ended before its candles did.
pub data RunHalt : Type 0 where
  no_halt stopped_externally killed_by_control switch_requested : RunHalt
  by_risk : HaltReason → RunHalt

-- `record_risk` is told that a candle is under way, or a checkpoint.
pub data RiskRow : Type 0 where
  incomplete : RiskRow
  saved : RiskCheckpoint → RiskRow

-- What the recorder is told, in order.
pub data Row : Type 0 where
  order_row : Order → Row
  fill_row : Fill → Row
  ledger_rows : List LedgerEntry → Row
  equity_row : Timestamp → (equity cash unrealized : ℤ) → Row
  risk_row : RiskRow → Row
  finish_row : RunStatus → Row

-- A funding rate is in units of 1e-8.
pub record FundingPoint : Type 0 where
  pub ts : Timestamp
  pub rate : ℤ

-- What reaches the engine with a candle: whether the stop event is set, what the control probe
-- would answer, and the funding rates that the provider knows at the close.
pub record Tick : Type 0 where
  pub candle : Candle
  pub stopped : Bool
  pub command : Option Command
  pub points : List FundingPoint

-- The state of the engine and of the parts it owns. `S` is the state of the strategy.
pub record Engine (S : Type 0) : Type 0 where
  pub venue : PaperVenue
  pub risk : RiskManager
  pub ledger : Ledger
  pub strategy : S
  pub clock : Option Timestamp
  pub history : List Candle
  pub fills : ℕ
  pub kill_reason : RunHalt
  pub last_snapshot_ts : Option Timestamp
  pub last_funding_ts : Option Timestamp
  pub rows : List Row

-- What a strategy sees of the engine: `_Context`.
pub record View : Type 0 where
  pub candle : Candle
  pub history : ℕ → List Candle
  pub now : Timestamp
  pub position : Position
  pub cash : ℤ
  pub equity : ℤ

-- A strategy is code of the user: `none` is an exception that it raises.
abbrev pub Strategy : Type 0 → Type 0
Strategy S = View → S → Option (List OrderIntent × S)

-- The last `n` items, `list(hist)[-n:]`.
unfoldable pub drop_first {ℓ} : {A : Type ℓ} → ℕ → List A → List A
drop_first zero xs = xs
drop_first (suc n) [] = []
drop_first (suc n) (_ ∷ xs) = drop_first n xs

unfoldable pub last_n {ℓ} : {A : Type ℓ} → ℕ → List A → List A
unfolding drop_first
last_n n xs = drop_first (length xs - n) xs

-- The engine's history is a deque of bounded length.
unfoldable pub push_history : ℕ → Candle → List Candle → List Candle
unfolding last_n
push_history lookback c h = last_n lookback (h ++ c ∷ [])

-- `VirtualClock.now` at a candle: its close.
unfoldable pub close_time : EngineConfig → Candle → Timestamp
close_time cfg c = c.ts + seconds cfg.timeframe

abbrev pub prices_at : EngineConfig → ℤ → Pair → Option ℤ
prices_at cfg price p = if pair_eq p cfg.pair then some price else none

module _ {S : Type 0} where
  abbrev pub write_row : Row → Engine S → Engine S
  write_row r e = record e { rows = e.rows ++ r ∷ [] }

  abbrev pub write_orders : List Order → Engine S → Engine S
  write_orders [] e = e
  write_orders (o ∷ os) e = write_orders os (write_row (order_row o) e)

  -- `self.ledger.equity({self.config.pair: price})`
  unfoldable pub equity_at : EngineConfig → ℤ → Engine S → ℤ
  unfolding equity
  equity_at cfg price e = equity (prices_at cfg price) e.ledger

  -- The context at the close of a candle, which is the last of the history.
  unfoldable pub view_at : EngineConfig → Candle → Engine S → View
  unfolding last_n close_time equity_at position
  view_at cfg c e = record {
    candle = c;
    history = λ n. last_n n e.history;
    now = close_time cfg c;
    position = position cfg.pair e.ledger;
    cash = e.ledger.cash;
    equity = equity_at cfg c.close e;
  }
