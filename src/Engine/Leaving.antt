-- ===== src/Engine/Leaving.antt =====
-- When the loop of a run is left, and why (kaupo/core/engine.py).
use kaupo.Base.{
  any, ◌⊎◌, inl, inr, ◌≡◌, refl, ap, ◌∙◌, ℕ, ◌+◌, Bool, true, false, Option, some, List, [], ◌∷◌,
  ◌++◌, length, if_ind, ltb, on_some, if◌then◌else◌, arith,
}
use kaupo.Domain.{Candle}
use kaupo.Engine.State.{
  EngineConfig, Engine, Strategy, Tick, RunStatus, completed, halted, failed, running, RunHalt,
  no_halt, stopped_externally, by_risk,
}
use kaupo.Engine.Candle.{Flow, done, thrown}
use kaupo.Engine.Run.{engine_of, Stop, stop_after, run_tick, run_loop, is_killed, is_completed}

module _ {S : Type 0} (cfg : EngineConfig) (strategy : Strategy S) (warmup : ℕ) where
  -- Where a run goes on with more candles after a stop.
  abbrev pub go_on : ℕ → List Tick → Stop S → Stop S
  go_on seen more s =
      if is_completed s.status then run_loop cfg strategy warmup seen more s.last s.engine else s

  stop_after-go_on :
      (seen : ℕ) (more : List Tick) (c : Candle) (flow : Flow S) (rest : Stop S)
      → on_some (stop_after c flow) (go_on seen more rest) (λ (s : Stop S). s)
        ≡ go_on seen more (on_some (stop_after c flow) rest (λ (s : Stop S). s))
  unfolding stop_after
  stop_after-go_on seen more c (thrown e) rest = refl
  stop_after-go_on seen more c (done e) rest =
      let Q : Option (Stop S) → Type 0 = λ o.
        on_some o (go_on seen more rest) (λ (s : Stop S). s)
        ≡ go_on seen more (on_some o rest (λ (s : Stop S). s)) in
      if_ind Q (is_killed e.kill_reason) (λ _. refl)
        λ _. if_ind Q e.risk.halted (λ _. refl) (λ _. refl)

  go_on-if :
      (seen : ℕ) (more : List Tick) (b : Bool) (s x y : Stop S)
      → s ≡ go_on seen more s
      → x ≡ go_on seen more y
      → (if b then s else x) ≡ go_on seen more (if b then s else y)
  go_on-if seen more true s x y left later = left
  go_on-if seen more false s x y left later = later

  -- A run that the first candles end never looks at later ones, and any other run goes on with them.
  run_loop-append :
      (seen : ℕ) (ts more : List Tick) (last : Option Candle) (e : Engine S)
      → run_loop cfg strategy warmup seen (ts ++ more) last e
        ≡ go_on (seen + length ts) more (run_loop cfg strategy warmup seen ts last e)
  unfolding run_loop
  run_loop-append seen [] more last e =
      ap (λ n. run_loop cfg strategy warmup n more last e) (omega arith)
  run_loop-append seen (t ∷ ts) more last e =
      let flow : Flow S = run_tick cfg strategy (ltb seen warmup) t e in
      let rest : Stop S =
        run_loop cfg strategy warmup (seen + 1) ts (some t.candle) (engine_of flow) in
      let later = run_loop-append (seen + 1) ts more (some t.candle) (engine_of flow) in
      let counted = ap (λ n. go_on n more rest) (omega arith) in
      go_on-if (seen + length (t ∷ ts)) more t.stopped _ _ _ refl (
        ap (λ s'. on_some (stop_after t.candle flow) s' (λ (s : Stop S). s)) (later ∙ counted)
        ∙ stop_after-go_on (seen + length (t ∷ ts)) more t.candle flow rest)

-- Nothing in the state asks for the end of the run.
abbrev pub IsGoing : {S : Type 0} → Engine S → Type 0
IsGoing e = (is_killed e.kill_reason ≡ false) × (e.risk.halted ≡ false)

-- Why a run was left, by the candles that it was given and the state that it is in.
abbrev pub Explains : {S : Type 0} → List Tick → RunStatus → RunHalt → Engine S → Type 0
Explains ts completed reason e =
    (reason ≡ no_halt) × IsGoing e × (any (λ (t : Tick). t.stopped) ts ≡ false)
Explains ts halted reason e =
    ((reason ≡ stopped_externally) × (any (λ (t : Tick). t.stopped) ts ≡ true))
    ⊎ ((reason ≡ e.kill_reason) × (is_killed e.kill_reason ≡ true))
    ⊎ ((reason ≡ by_risk e.risk.halt_reason) × (e.risk.halted ≡ true))
Explains ts failed reason e = reason ≡ no_halt
Explains ts running reason e = true ≡ false

module _ {S : Type 0} where
  abbrev pub IsExplained : List Tick → Stop S → Type 0
  IsExplained ts s = Explains ts s.status s.reason s.engine

  Explains-later :
      (t : Tick) (ts : List Tick) (status : RunStatus) (reason : RunHalt) (e : Engine S)
      → t.stopped ≡ false
      → Explains ts status reason e
      → Explains (t ∷ ts) status reason e
  Explains-later t ts completed reason e go (r, g, none_stopped) = (r, g, rw (go) none_stopped)
  Explains-later t ts halted reason e go (inl (r, stopped)) = inl (r, rw (go) stopped)
  Explains-later t ts halted reason e go (inr why) = inr why
  Explains-later t ts failed reason e go h = h
  Explains-later t ts running reason e go h = h

  stop_after-IsExplained :
      (t : Tick) (ts : List Tick) (flow : Flow S) (rest : Stop S)
      → t.stopped ≡ false
      → (IsGoing (engine_of flow) → IsExplained ts rest)
      → IsExplained (t ∷ ts) (on_some (stop_after t.candle flow) rest (λ (s : Stop S). s))
  unfolding stop_after
  stop_after-IsExplained t ts (thrown e) rest go later = refl
  stop_after-IsExplained t ts (done e) rest go later =
      let Q : Option (Stop S) → Type 0 =
        λ o. IsExplained (t ∷ ts) (on_some o rest (λ (s : Stop S). s)) in
      if_ind Q (is_killed e.kill_reason) (λ killed. inr (inl (refl, killed)))
        λ alive.
          if_ind Q e.risk.halted (λ halt. inr (inr (refl, halt)))
            λ unhalted.
              Explains-later t ts rest.status rest.reason rest.engine go (later (alive, unhalted))

  run_loop-IsExplained :
      (cfg : EngineConfig) (strategy : Strategy S) (warmup seen : ℕ) (ts : List Tick)
      (last : Option Candle) (e : Engine S)
      → IsGoing e
      → IsExplained ts (run_loop cfg strategy warmup seen ts last e)
  unfolding run_loop
  run_loop-IsExplained cfg strategy warmup seen [] last e going = (refl, going, refl)
  run_loop-IsExplained cfg strategy warmup seen (t ∷ ts) last e going =
      let flow : Flow S = run_tick cfg strategy (ltb seen warmup) t e in
      if_ind (IsExplained (t ∷ ts)) t.stopped (λ stopped. inl (refl, rw (stopped) refl))
        λ go.
          stop_after-IsExplained t ts flow
            (run_loop cfg strategy warmup (seen + 1) ts (some t.candle) (engine_of flow)) go
            (run_loop-IsExplained cfg strategy warmup (seen + 1) ts (some t.candle)
              (engine_of flow))

  -- A run that starts neither killed nor halted by the risk manager is left for a reason that its state
  -- bears out: it is completed only where no stop was asked for at any candle and neither a command nor the
  -- risk manager has halted it, it is halted only for the stop, the command or the halt that it names, and a
  -- failed run names none. Once it is halted or failed, it never looks at the candles that follow.
  pub run_loop-leaves :
      (cfg : EngineConfig) (strategy : Strategy S) (warmup seen : ℕ) (ts more : List Tick)
      (last : Option Candle) (e : Engine S)
      → IsGoing e
      → IsExplained ts (run_loop cfg strategy warmup seen ts last e)
        × (is_completed (run_loop cfg strategy warmup seen ts last e).status ≡ false
            → run_loop cfg strategy warmup seen (ts ++ more) last e
              ≡ run_loop cfg strategy warmup seen ts last e)
  run_loop-leaves cfg strategy warmup seen ts more last e going =
      let s : Stop S = run_loop cfg strategy warmup seen ts last e in
      let n : ℕ = seen + length ts in
      (
        run_loop-IsExplained cfg strategy warmup seen ts last e going,
        λ over.
            run_loop-append cfg strategy warmup seen ts more last e
            ∙ ap (λ b. if b then run_loop cfg strategy warmup n more s.last s.engine else s) over,
      )
