-- ===== src/Supervisor/State.antt =====
-- The state of `run_supervisor` and what one pass of its loop reads (kaupo/core/supervisor.py), with
-- `Assignment` (kaupo/data/assignments.py) and `config_hash` (kaupo/core/resume.py).
use text.Mathlib.Text.{◌==◌ as str_eq}
use kaupo.Base.{ℕ, String, Bool, true, false, ◌&&◌, Option, List}
use kaupo.Base.Int.{ℤ, eqb_ℤ}
use kaupo.Base.Dict.{Dict}
use kaupo.Domain.{Timestamp, Timeframe}
use kaupo.Calendar.{TradingSchedule, Zone}
use kaupo.Engine.{RunMode, backtest, shadow, live}

pub data AssetClass : Type 0 where
  currency tokenized_asset : AssetClass

-- The parameters of a strategy are their JSON text.
pub record Assignment : Type 0 where
  pub id : String
  pub strategy_id : String
  pub pair : String
  pub pairs : Option (List String)
  pub timeframe : Timeframe
  pub mode : RunMode
  pub params : String
  pub updated_at : Timestamp
  pub trading_schedule : Option TradingSchedule
  pub taker_fee_bps : Option ℤ
  pub maker_fee_bps : Option ℤ
  pub asset_class : AssetClass

-- What `config_hash` hashes; the class of a currency is left out.
pub record Identity : Type 0 where
  pub asset_class : Option AssetClass
  pub strategy : String
  pub pair : String
  pub pairs : Option (List String)
  pub timeframe : Timeframe
  pub params : String

-- `f"{mode}:{identity}:{fees}"`
pub record RunKey : Type 0 where
  pub mode : RunMode
  pub identity : String
  pub taker_bps : ℤ
  pub maker_bps : ℤ

abbrev pub mode_eq : RunMode → RunMode → Bool
mode_eq backtest backtest = true
mode_eq shadow shadow = true
mode_eq live live = true
mode_eq _ _ = false

abbrev pub key_eq : RunKey → RunKey → Bool
key_eq a b =
    mode_eq a.mode b.mode
    && str_eq a.identity b.identity
    && eqb_ℤ a.taker_bps b.taker_bps
    && eqb_ℤ a.maker_bps b.maker_bps

-- A command of the control channel.
pub data Control : Type 0 where
  kill switch pause resume unknown : Control

-- How far the task of a run is.
pub data Task : Type 0 where
  pending returned raised cancelled : Task

-- `_LiveRun`
pub record LiveRun : Type 0 where
  pub config_hash : RunKey
  pub stop : Bool
  pub task : Task
  pub started_at : Timestamp

-- `_KilledRun`
pub record KilledRun : Type 0 where
  pub run_id : String
  pub started_at : Timestamp
  pub observed_at : Timestamp

-- The newest row of an assignment's runs, with the time of its last equity snapshot.
pub record RunRow : Type 0 where
  pub id : String
  pub started_at : Timestamp
  pub last_snapshot_ts : Option Timestamp

pub record Settings : Type 0 where
  pub live_trading_enabled : Bool
  pub kraken_api_key : String
  pub kraken_api_secret : String
  pub live_max_notional : ℤ

-- What a pass reads: the clock, the settings, the loaded strategies (each with whether it is a
-- portfolio strategy), the enabled assignments of the supervised modes, and what the database answers.
pub record World : Type 0 where
  pub now : Timestamp
  pub restart_backoff : ℕ
  pub zone : Zone
  pub settings : Settings
  pub strategies : Dict String Bool
  pub assignments : List Assignment
  pub latest_run : String → Option RunRow
  pub latest_command : String → Timestamp → Option Control

-- The three dicts of the loop, and the assignments whose run rows the watchdog marks as halted.
pub record Supervisor : Type 0 where
  pub live : Dict String LiveRun
  pub killed : Dict String KilledRun
  pub backoff : Dict String Timestamp
  pub marked : List String
