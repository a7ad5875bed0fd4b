-- ===== src/Portfolio/Whole.antt =====
-- A whole portfolio run keeps the venues of all pairs in agreement with its ledger
-- (kaupo/core/portfolio_engine.py).
use kaupo.Base.{ℕ, ◌+◌, Bool, Option, some, List, [], ◌∷◌, ltb, on_some, if_ind, on_some_ind}
use kaupo.Base.Dict.{insert}
use kaupo.Domain.{eq_pair}
use kaupo.Risk.{checkpoint}
use kaupo.Engine.{is_kept, is_killed}
use kaupo.Portfolio.Steps.{Step}
use kaupo.Portfolio.State.{PortfolioConfig, Portfolio, Progress, going, broken, PortfolioStrategy}
use kaupo.Portfolio.Loop.{track_prices, track, process_step}
use kaupo.Portfolio.Run.{
  StepTick, PortfolioStop, portfolio_of, write_incomplete, write_checkpoint, run_tick, stop_after,
  run_steps,
}
use kaupo.Portfolio.Agree.{Agrees, and_then-Agrees}
use kaupo.Portfolio.Steady.{append_history-Agrees, process_step-Agrees}

module _ {S : Type 0} where
  track_prices-Agrees : (cs : Step) (e : Portfolio S) → Agrees e → Agrees (track_prices cs e)
  unfolding track_prices
  track_prices-Agrees [] e agrees = agrees
  track_prices-Agrees ((p, c) ∷ cs) e agrees =
      track_prices-Agrees cs
        (record e {
          last_closes = insert p c.close e.last_closes;
          last_candle = insert p c e.last_candle;
        })
        agrees

  write_checkpoint-Agrees :
      (cfg : PortfolioConfig) (e : Portfolio S)
      → Agrees e
      → Agrees (portfolio_of (write_checkpoint cfg e))
  unfolding write_checkpoint
  write_checkpoint-Agrees cfg e agrees =
      let Q : Progress S → Type 0 = λ r. Agrees (portfolio_of r) in
      if_ind Q (is_kept cfg.mode)
        (λ _. on_some_ind Q (checkpoint e.risk) (λ _. agrees) (λ _ _. agrees)) (λ _. agrees)

  module _ (cfg : PortfolioConfig) (strategy : PortfolioStrategy S) where
    run_tick-Agrees :
        (warming : Bool) (t : StepTick) (e : Portfolio S)
        → Agrees e
        → Agrees (portfolio_of (run_tick cfg strategy warming t e))
    unfolding run_tick track write_incomplete
    run_tick-Agrees warming t e agrees =
        let tracked : Portfolio S = track t.ts t.candles e in
        let tracked_agrees = track_prices-Agrees t.candles (record e { clock = t.ts }) agrees in
        let marked : Portfolio S = write_incomplete cfg tracked in
        let marked_agrees : Agrees marked =
          if_ind Agrees (is_kept cfg.mode) (λ _. tracked_agrees) (λ _. tracked_agrees) in
        if_ind (λ (r : Progress S). Agrees (portfolio_of r)) warming
          (λ _. append_history-Agrees cfg t.candles tracked tracked_agrees)
          (λ _.
            and_then-Agrees (process_step cfg strategy t.ts t.candles t.command marked)
              (write_checkpoint cfg)
              (process_step-Agrees cfg strategy t.ts t.candles t.command marked marked_agrees)
              (write_checkpoint-Agrees cfg))

    stop_after-Agrees :
        (cs : Step) (r : Progress S) (rest : PortfolioStop S)
        → Agrees (portfolio_of r)
        → Agrees rest.engine
        → Agrees (on_some (stop_after cs r) rest (λ (s : PortfolioStop S). s)).engine
    unfolding stop_after
    stop_after-Agrees cs (broken e) rest h _ = h
    stop_after-Agrees cs (going e) rest h k =
        let Q : Option (PortfolioStop S) → Type 0 =
          λ o. Agrees (on_some o rest (λ (s : PortfolioStop S). s)).engine in
        if_ind Q (is_killed e.kill_reason) (λ _. h) (λ _. if_ind Q e.risk.halted (λ _. h) (λ _. k))

    -- A portfolio run on a spot ledger that starts with the same net positions over the venues of all
    -- pairs as in the ledger ends its loop so, for every pair, whatever the strategy, the steps, the stops
    -- and the commands are.
    pub run_steps-Agrees :
        (warmup seen : ℕ) (ts : List StepTick) (last : Option Step) (e : Portfolio S)
        → Agrees e
        → Agrees (run_steps cfg strategy warmup seen ts last e).engine
    unfolding run_steps
    run_steps-Agrees warmup seen [] last e agrees = agrees
    run_steps-Agrees warmup seen (t ∷ ts) last e agrees =
        let next : Progress S = run_tick cfg strategy (ltb seen warmup) t e in
        let next_agrees = run_tick-Agrees (ltb seen warmup) t e agrees in
        if_ind (λ (s : PortfolioStop S). Agrees s.engine) t.stopped (λ _. agrees)
          (λ _.
            stop_after-Agrees t.candles next
              (run_steps cfg strategy warmup (seen + 1) ts (some t.candles) (portfolio_of next))
              next_agrees
              (run_steps-Agrees warmup (seen + 1) ts (some t.candles) (portfolio_of next)
                next_agrees))
