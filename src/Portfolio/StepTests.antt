-- ===== src/Portfolio/StepTests.antt =====
-- A portfolio run of two pairs whose strategy buys 2 lots of each pair of a step.
use kaupo.Base.{List, ℕ, ◌≡◌, refl, ◌+◌, false, none, some, [], ◌∷◌, map}
use kaupo.Base.Int.{pos, ◌+ℤ◌, ◌-ℤ◌, ◌*ℤ◌, ◌/ℤ◌, neg, min_ℤ}
use kaupo.Domain.{seconds, Pair, Candle, Timestamp, h1, buy, market, pair_eq, OrderIntent}
use kaupo.Ledger.{new_ledger, position}
use kaupo.Risk.{RiskConfig, fresh}
use kaupo.Paper.{
  PaperVenue, skip, new_venue, on_candle, run_candle, market_step, limit_step, protection_step,
}
use kaupo.Engine.{backtest, no_halt}
use kaupo.Portfolio.{PortfolioConfig, Portfolio, PortfolioStrategy, Step, track, process_step}
use kaupo.Portfolio.Agree.{Agrees}
use kaupo.Portfolio.Run.{portfolio_of, StepTick, run_steps}
use kaupo.Portfolio.Whole.{run_steps-Agrees}

abbrev btc : Pair
btc = record { base = "BTC"; quote = "EUR" }

abbrev ada : Pair
ada = record { base = "ADA"; quote = "EUR" }

abbrev config : PortfolioConfig
config = record { pairs = ada ∷ btc ∷ []; timeframe = h1; lookback = 3; mode = backtest }

abbrev rails : RiskConfig
rails = record {
  max_position_quote = pos 1000;
  max_gross_exposure_quote = pos 2000;
  max_daily_loss_quote = pos 200;
  min_order_quote = pos 10;
  max_consecutive_losses = 2;
  cooldown_candles = 12;
  leverage = pos 10_000;
  instrument = "spot";
  taker_fee_bps = pos 80;
  slippage_bps = pos 5;
  price_cushion_bps = pos 100;
}

abbrev two_lots : Pair × Candle → OrderIntent
two_lots c = record {
  pair = c.0;
  side = buy;
  size = pos 2;
  order_type = market;
  limit_price = none;
  stop_loss = none;
  take_profit = none;
}

abbrev buyer : PortfolioStrategy ℕ
buyer view n = some (map two_lots view.candles, n + 1)

abbrev candle : Pair → Timestamp → Candle
candle p ts = record {
  pair = p;
  timeframe = h1;
  ts = ts;
  open_price = pos 50;
  high = pos 60;
  low = pos 40;
  close = pos 50;
  volume = pos 9;
}

abbrev venue : PaperVenue
unfolding new_venue
venue = new_venue (pos 80) (pos 40) (pos 5) skip 1

abbrev start : Portfolio ℕ
unfolding fresh new_ledger
start = record {
  venues = (ada, venue) ∷ (btc, venue) ∷ [];
  risk = fresh rails;
  ledger = new_ledger "EUR" (pos 1000) 0 none false;
  strategy = 0;
  clock = 0;
  history = [];
  last_closes = [];
  last_candle = [];
  fills = 0;
  kill_reason = no_halt;
  last_snapshot_ts = none;
  rows = [];
}

abbrev both : Timestamp → Step
both ts = (ada, candle ada ts) ∷ (btc, candle btc ts) ∷ []

abbrev one : Step
one = (btc, candle btc 3600) ∷ []

-- The orders of the first step, of which the second one fills that of BTC.
abbrev after_one : Portfolio ℕ
after_one = portfolio_of (process_step config buyer 0 (both 0) none (track 0 (both 0) start))

abbrev after_two : Portfolio ℕ
after_two = portfolio_of (process_step config buyer 3600 one none (track 3600 one after_one))

program : Unit {0}
unfolding process_step track start venue pair_eq on_candle run_candle market_step limit_step
    protection_step seconds ◌+ℤ◌ ◌-ℤ◌ ◌*ℤ◌ ◌/ℤ◌ neg min_ℤ position
program = tt

filled_btc : ((position btc after_two.ledger).size ≡ pos 2) × (after_two.fills ≡ 1)
unfolding program
filled_btc = (refl, refl)

abbrev ticks : List StepTick
ticks =
    record { ts = 0; candles = both 0; stopped = false; command = none }
    ∷ record { ts = 3600; candles = one; stopped = false; command = none }
    ∷ []

run_steps-Agrees_example : Agrees (run_steps config buyer 0 0 ticks none start).engine
unfolding start venue position ◌+ℤ◌
run_steps-Agrees_example = run_steps-Agrees config buyer 0 0 ticks none start (refl, λ p. refl)
