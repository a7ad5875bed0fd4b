-- ===== src/Engine/Induction.antt =====
-- The rule of induction for the loop of a run (kaupo/core/engine.py).
use kaupo.Base.{ℕ, ◌+◌, Bool, Option, some, List, [], ◌∷◌, if_ind, ltb, on_some}
use kaupo.Domain.{Candle}
use kaupo.Engine.State.{EngineConfig, Engine, Strategy, Tick}
use kaupo.Engine.Candle.{Flow, done, thrown}
use kaupo.Engine.Run.{engine_of, Stop, stop_after, run_tick, run_loop, is_killed}

module _ {S : Type 0} (I : Engine S → Type 0) where
  left_after :
      (c : Candle) (flow : Flow S) (rest : Stop S)
      → I (engine_of flow)
      → I rest.engine
      → I (on_some (stop_after c flow) rest (λ (s : Stop S). s)).engine
  unfolding stop_after
  left_after c (thrown e) rest now later = now
  left_after c (done e) rest now later =
      let Q : Option (Stop S) → Type 0 = λ s. I (on_some s rest (λ (s : Stop S). s)).engine in
      if_ind Q (is_killed e.kill_reason) (λ _. now)
        λ _. if_ind Q e.risk.halted (λ _. now) (λ _. later)

  module _ (cfg : EngineConfig) (strategy : Strategy S)
      (step : (warming : Bool) (t : Tick) (e : Engine S)
        → I e
        → I (engine_of (run_tick cfg strategy warming t e))) where
    -- What every candle keeps holds of the engine when the loop is left.
    pub run_loop-keeps :
        (warmup seen : ℕ) (ts : List Tick) (last : Option Candle) (e : Engine S)
        → I e
        → I (run_loop cfg strategy warmup seen ts last e).engine
    unfolding run_loop
    run_loop-keeps warmup seen [] last e now = now
    run_loop-keeps warmup seen (t ∷ ts) last e now =
        let flow : Flow S = run_tick cfg strategy (ltb seen warmup) t e in
        let after = step (ltb seen warmup) t e now in
        if_ind (λ (s : Stop S). I s.engine) t.stopped (λ _. now)
          λ _.
            left_after t.candle flow
              (run_loop cfg strategy warmup (seen + 1) ts (some t.candle) (engine_of flow)) after
              (run_loop-keeps warmup (seen + 1) ts (some t.candle) (engine_of flow) after)
