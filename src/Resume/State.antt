-- ===== src/Resume/State.antt =====
-- The run rows that `kaupo/core/resume.py` reads, what the database answers, and `ResumeState`.
use kaupo.Base.{String, Bool, Option, List}
use kaupo.Base.Int.{ℤ}
use kaupo.Base.Dict.{Dict}
use kaupo.Domain.{Pair, Timestamp, Position, Fill}
use kaupo.Risk.{RiskCheckpoint}
use kaupo.Engine.{RunMode, RunStatus}
use kaupo.Supervisor.{Identity}

-- Why a run halted: the reasons that the rules tell apart, and any other text.
pub data HaltText : Type 0 where
  superseded watchdog_restart stopped_externally other_reason : HaltText

-- `risk_state` of a row: what the validation of a checkpoint makes of it.
pub data StoredRisk : Type 0 where
  damaged : StoredRisk
  valid : RiskCheckpoint → StoredRisk

pub record RunRow : Type 0 where
  pub id : String
  pub mode : RunMode
  pub status : RunStatus
  pub strategy_version : String
  pub started_at : Timestamp
  pub ended_at : Option Timestamp
  pub halt_reason : Option HaltText
  pub identity : Identity
  pub behaviour_hash : Option String
  pub resumed_from : Option String
  pub starting_cash : Option ℤ
  pub chain_started_at : Option Timestamp
  pub quote_baseline : Option ℤ
  pub needs_checkpoint : Bool
  pub risk_state : Option StoredRisk

-- What the database answers, once the stale rows of the slot are superseded: the newest ended
-- row of the slot, the rows by their ids, the halt reason in the audit log, and the fills of runs,
-- oldest first.
pub record Archive : Type 0 where
  pub latest_ended : Option RunRow
  pub rows : Dict String RunRow
  pub recorded_halt : String → Option HaltText
  pub fills_of : List String → List Fill

pub record ResumeState : Type 0 where
  pub predecessor_run_id : String
  pub chain_started_at : Timestamp
  pub cash : ℤ
  pub positions : Dict Pair Position
  pub starting_cash : ℤ
  pub quote_baseline : Option ℤ
  pub risk_checkpoint : Option StoredRisk

-- The run that asks.
pub record Asker : Type 0 where
  pub mode : RunMode
  pub strategy_version : String
  pub behaviour_hash : Option String
  pub identity : Identity
  pub quote_asset : String
