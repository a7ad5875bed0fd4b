-- ===== src/Engine/Tests.antt =====
-- A run on three hourly candles of BTC: the first warms up, the strategy buys 2 lots at each later close.
use kaupo.Base.{
  true, ap, ℕ, ◌≡◌, refl, ◌+◌, false, Option, none, some, List, [], ◌∷◌, ◌++◌, length,
  if◌then◌else◌, ◌==◌,
}
use kaupo.Base.Int.{ℤ, pos, ◌+ℤ◌, ◌-ℤ◌, ◌*ℤ◌, ◌/ℤ◌, neg, abs, min_ℤ, max_ℤ}
use kaupo.Domain.{seconds, Pair, h1, buy, market, pair_eq}
use kaupo.Ledger.{new_ledger, position}
use kaupo.Risk.{RiskConfig, fresh}
use kaupo.Paper.{on_candle, run_candle, market_step, limit_step, protection_step, skip, new_venue}
use kaupo.Engine.{
  process_candle, is_perp, EngineConfig, backtest, Engine, Tick, Strategy, no_halt, Stop, run_loop,
  conclude, is_completed, failed, Command, kill, halted, killed_by_control, stopped_externally,
}
use kaupo.Engine.Agree.{Agrees, run_loop-Agrees}
use kaupo.Engine.Leaving.{IsExplained, run_loop-leaves}
use kaupo.Engine.Ending.{IsWoundDown, Ends, conclude-Ends}

abbrev btc : Pair
btc = record { base = "BTC"; quote = "EUR" }

abbrev config : EngineConfig
config = record {
  pair = btc;
  timeframe = h1;
  lookback = 3;
  liquidate_end = false;
  instrument = "spot";
  mode = backtest;
}

abbrev rails : RiskConfig
rails = record {
  max_position_quote = pos 1000;
  max_gross_exposure_quote = pos 2000;
  max_daily_loss_quote = pos 200;
  min_order_quote = pos 10;
  max_consecutive_losses = 2;
  cooldown_candles = 12;
  leverage = pos 10_000;
  instrument = "spot";
  taker_fee_bps = pos 80;
  slippage_bps = pos 5;
  price_cushion_bps = pos 100;
}

-- Two lots at every close; the state counts the calls, and the fourth one raises.
abbrev buyer : Strategy ℕ
buyer view n =
    if n == 3
    then none
    else some (
      record {
        pair = view.candle.pair;
        side = buy;
        size = pos 2;
        order_type = market;
        limit_price = none;
        stop_loss = none;
        take_profit = none;
      }
          ∷ [],
      n + 1,
    )

abbrev start : Engine ℕ
unfolding new_venue fresh new_ledger
start = record {
  venue = new_venue (pos 80) (pos 40) (pos 5) skip 1;
  risk = fresh rails;
  ledger = new_ledger "EUR" (pos 1000) 0 none false;
  strategy = 0;
  clock = none;
  history = [];
  fills = 0;
  kill_reason = no_halt;
  last_snapshot_ts = none;
  last_funding_ts = none;
  rows = [];
}

abbrev tick : ℕ → ℤ → Option Command → Tick
tick ts price command = record {
  candle = record {
    pair = btc;
    timeframe = h1;
    ts = ts;
    open_price = price;
    high = price;
    low = price;
    close = price;
    volume = pos 1;
  };
  stopped = false;
  command = command;
  points = [];
}

abbrev ticks : List Tick
ticks = tick 0 (pos 100) none ∷ tick 3600 (pos 100) none ∷ tick 7200 (pos 110) none ∷ []

abbrev killed : List Tick
killed = tick 10_800 (pos 120) (some kill) ∷ []

abbrev end : Stop ℕ
unfolding run_loop
end = run_loop config buyer 1 0 (ticks ++ killed) none start

program : Unit {0}
unfolding start run_loop process_candle on_candle run_candle market_step limit_step protection_step
    seconds pair_eq ◌+ℤ◌ ◌-ℤ◌ ◌*ℤ◌ ◌/ℤ◌ neg abs min_ℤ max_ℤ position
program = tt

-- Both orders were filled, and the kill command ended the run.
end_state :
    (end.status ≡ halted)
    × (end.reason ≡ killed_by_control)
    × (end.engine.fills ≡ 2)
    × ((position btc end.engine.ledger).size ≡ pos 4)
    × (length end.engine.history ≡ 3)
unfolding program
end_state = (refl, refl, refl, refl, refl)

run_loop-Agrees_example : Agrees (run_loop config buyer 1 0 (ticks ++ killed) none start).engine
unfolding position is_perp start
run_loop-Agrees_example =
    run_loop-Agrees config buyer refl 1 0 (ticks ++ killed) none start (refl, λ p. refl)

-- The kill command ends the run, and a second kill is never looked at.
run_loop-leaves_example :
    IsExplained (ticks ++ killed) (run_loop config buyer 1 0 (ticks ++ killed) none start)
    × (is_completed (run_loop config buyer 1 0 (ticks ++ killed) none start).status ≡ false
        → run_loop config buyer 1 0 ((ticks ++ killed) ++ killed) none start
          ≡ run_loop config buyer 1 0 (ticks ++ killed) none start)
unfolding start
run_loop-leaves_example =
    run_loop-leaves config buyer 1 0 (ticks ++ killed) killed none start (refl, refl)

-- A run that is stopped from outside while an order waits for its candle.
abbrev stopping : Tick
stopping = record (tick 7200 (pos 110) none) { stopped = true }

abbrev interrupted : Stop ℕ
unfolding run_loop
interrupted =
    run_loop config buyer 1 0 (tick 0 (pos 100) none ∷ tick 3600 (pos 100) none ∷ stopping ∷ [])
      none start

interrupted_open :
    (interrupted.status ≡ halted)
    × (interrupted.reason ≡ stopped_externally)
    × (length interrupted.engine.venue.market_queue ≡ 1)
unfolding program
interrupted_open = (refl, refl, refl)

conclude-Ends_example :
    (e' : Engine ℕ) × IsWoundDown interrupted.status interrupted.engine e'
    × Ends config interrupted e' interrupted.status (conclude config interrupted)
conclude-Ends_example = conclude-Ends config interrupted (ap is_completed interrupted_open.0)

-- The fourth call of the strategy raises.
abbrev crashed : Stop ℕ
unfolding run_loop
crashed = run_loop config buyer 0 0 (ticks ++ (tick 10_800 (pos 120) none ∷ [])) none start

crashed_failed : crashed.status ≡ failed
unfolding program
crashed_failed = refl
