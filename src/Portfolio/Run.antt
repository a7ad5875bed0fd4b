-- ===== src/Portfolio/Run.antt =====
-- The loop of `PortfolioEngine.run` (kaupo/core/portfolio_engine.py). The steps are a list.
use kaupo.Base.{ℕ, ◌+◌, Bool, Option, none, some, List, [], ◌∷◌, ltb, if◌then◌else◌, on_some}
use kaupo.Domain.{Timestamp}
use kaupo.Risk.{RiskCheckpoint, checkpoint}
use kaupo.Engine.{
  is_kept, RunStatus, completed, halted, failed, RunHalt, no_halt, stopped_externally, by_risk,
  incomplete, saved, risk_row, Command, is_killed,
}
use kaupo.Portfolio.Steps.{Step}
use kaupo.Portfolio.State.{
  PortfolioConfig, Portfolio, Progress, going, broken, PortfolioStrategy, write_row, append_history,
}
use kaupo.Portfolio.Loop.{and_then, track, process_step}

-- What reaches the engine with a step: whether the stop event is set, and what the control probe
-- would answer.
pub record StepTick : Type 0 where
  pub ts : Timestamp
  pub candles : Step
  pub stopped : Bool
  pub command : Option Command

-- Where the loop stands when it is left.
pub record PortfolioStop (S : Type 0) : Type 0 where
  pub status : RunStatus
  pub reason : RunHalt
  pub last : Option Step
  pub engine : Portfolio S

module _ {S : Type 0} where
  abbrev pub portfolio_of : Progress S → Portfolio S
  portfolio_of (going e) = e
  portfolio_of (broken e) = e

  -- `record_risk` of a shadow or live run, before a step and after it.
  unfoldable pub write_incomplete : PortfolioConfig → Portfolio S → Portfolio S
  write_incomplete cfg e = if is_kept cfg.mode then write_row (risk_row incomplete) e else e

  unfoldable pub write_checkpoint : PortfolioConfig → Portfolio S → Progress S
  unfolding checkpoint
  write_checkpoint cfg e =
      if is_kept cfg.mode
      then on_some (checkpoint e.risk) (broken e)
          (λ (c : RiskCheckpoint). going (write_row (risk_row (saved c)) e))
      else going e

  -- The body of the loop; the first steps only fill the history and the prices.
  unfoldable pub run_tick :
      PortfolioConfig → PortfolioStrategy S → (warming : Bool) → StepTick → Portfolio S → Progress S
  unfolding track append_history process_step write_incomplete write_checkpoint
  run_tick cfg strategy warming t e =
      let tracked : Portfolio S = track t.ts t.candles e in
      if warming
      then going (append_history cfg t.candles tracked)
      else and_then
          (process_step cfg strategy t.ts t.candles t.command (write_incomplete cfg tracked))
          (write_checkpoint cfg)

  -- What the end of a step asks the loop to do: to stop, or nothing.
  unfoldable pub stop_after : Step → Progress S → Option (PortfolioStop S)
  stop_after cs (broken e) =
      some (record { status = failed; reason = no_halt; last = some cs; engine = e })
  stop_after cs (going e) =
      if is_killed e.kill_reason
      then some (record { status = halted; reason = e.kill_reason; last = some cs; engine = e })
      else if e.risk.halted
      then some (record {
        status = halted;
        reason = by_risk e.risk.halt_reason;
        last = some cs;
        engine = e;
      })
      else none

  -- The loop; `seen` counts the steps so far.
  unfoldable pub run_steps :
      PortfolioConfig
      → PortfolioStrategy S
      → (warmup seen : ℕ) → List StepTick
      → Option Step
      → Portfolio S
      → PortfolioStop S
  unfolding run_tick stop_after
  run_steps cfg strategy warmup seen [] last e = record {
    status = completed;
    reason = no_halt;
    last = last;
    engine = e;
  }
  run_steps cfg strategy warmup seen (t ∷ ts) last e =
      let next : Progress S = run_tick cfg strategy (ltb seen warmup) t e in
      let rest : PortfolioStop S =
        run_steps cfg strategy warmup (seen + 1) ts (some t.candles) (portfolio_of next) in
      if t.stopped
      then record { status = halted; reason = stopped_externally; last = last; engine = e }
      else on_some (stop_after t.candles next) rest (λ (s : PortfolioStop S). s)
