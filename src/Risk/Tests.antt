-- ===== src/Risk/Tests.antt =====
-- The guardrails on a concrete book: 4 lots of BTC at 100 ticks and 1000 of cash.
use kaupo.Base.{◌≡◌, refl, ◌-◌, true, false, none, some, List, [], ◌∷◌, All, arith, map}
use kaupo.Base.Int.{ℤ, pos, negsuc, ◌+ℤ◌, ◌-ℤ◌, ◌*ℤ◌, ◌/ℤ◌, ◌≤ℤ◌, ◌<ℤ◌, neg, abs, min_ℤ, max_ℤ}
use kaupo.Base.Dict.{Dict}
use kaupo.Domain.{Pair, Position, OrderIntent, Side, buy, sell, market, pair_eq, market_value}
use kaupo.Risk.{
  RiskConfig, RiskState, RiskManager, fresh, Assessment, is_rejected, assess_spot, assess_from,
  assess_one, fold_in, price_for, gross_value, cost_bps, day_of, floor_equity, on_candle,
  assess_perp_one, sizes_of, cap_quote, gross_other, approved, no_note,
}
use kaupo.Risk.Halting.{watch, unhalted_new_day, halted_for_good}
use kaupo.Risk.Streak.{lose, cooldown_after_losses}
use kaupo.Risk.Cooldown.{warmed, cooldown_gates_buys}
use kaupo.Risk.Sells.{sold_size, sold_size-le-held}
use kaupo.Risk.Spending.{bought_by, bought_of, total_by}
use kaupo.Risk.Buys.{bought-le-cash, bought-le-gross, bought_of-le-position}
use kaupo.Risk.Exposure.{IsCapped, assess_perp_one-within}
use kaupo.Risk.Restore.{candle, trade, observe_all, Restores, restored-checkpoint}

abbrev config : RiskConfig
config = record {
  max_position_quote = pos 1000;
  max_gross_exposure_quote = pos 2000;
  max_daily_loss_quote = pos 200;
  min_order_quote = pos 10;
  max_consecutive_losses = 2;
  cooldown_candles = 12;
  leverage = pos 10_000;
  instrument = "spot";
  taker_fee_bps = pos 80;
  slippage_bps = pos 5;
  price_cushion_bps = pos 100;
}

abbrev btc : Pair
btc = record { base = "BTC"; quote = "EUR" }

abbrev book : Dict Pair Position
book = (btc, record { pair = btc; size = pos 4; avg_entry = pos 90; entry_ts = some 60 }) ∷ []

-- The state at the close of a candle, with the price of BTC.
abbrev state : (ts price : ℤ) → RiskState
state ts price = record {
  ts = elim ts [ pos n ↦ n | negsuc _ ↦ 0 ];
  cash = pos 1000;
  positions = book;
  prices = (btc, price) ∷ [];
  equity = pos 1400;
}

abbrev now : RiskState
now = state (pos 3600) (pos 100)

abbrev intent : Side → ℤ → OrderIntent
intent side size = record {
  pair = btc;
  side = side;
  size = size;
  order_type = market;
  limit_price = none;
  stop_loss = none;
  take_profit = none;
}

abbrev manager : RiskManager
unfolding fresh
manager = fresh config

abbrev batch : List OrderIntent
batch = intent sell (pos 3) ∷ intent buy (pos 4) ∷ intent sell (pos 3) ∷ intent buy (pos 4) ∷ []

program : Unit {0}
unfolding assess_spot assess_from assess_one fold_in pair_eq fresh ◌+ℤ◌ ◌-ℤ◌ ◌*ℤ◌ ◌/ℤ◌ neg abs min_ℤ
    max_ℤ
program = tt

-- The second sale is cut to the lot that is left, and the second buy to the pair's cap.
batch_sizes :
    map (λ (a : Assessment). a.size) (assess_spot manager batch now)
    ≡ pos 3 ∷ pos 4 ∷ pos 1 ∷ pos 2 ∷ []
unfolding program
batch_sizes = refl

sold_size-le-held_example : sold_size btc (assess_spot manager batch now) ≤ℤ pos 4
unfolding pair_eq
sold_size-le-held_example = sold_size-le-held manager batch now btc (omega arith)

bought-le-cash_example : total_by (bought_by now) (assess_spot manager batch now) ≤ℤ pos 1000
unfolding cost_bps ◌+ℤ◌ fresh
bought-le-cash_example = bought-le-cash manager batch now (omega arith) (omega arith)

batch_within_gross :
    gross_value now book +ℤ total_by (bought_by now) (assess_spot manager batch now) ≤ℤ pos 2000
unfolding gross_value market_value pair_eq ◌+ℤ◌ ◌*ℤ◌ fresh
batch_within_gross = bought-le-gross manager batch now (omega arith)

batch_within_position :
    market_value
        (record { pair = btc; size = pos 4; avg_entry = pos 90; entry_ts = some 60 })
        (pos 100)
      +ℤ total_by (bought_of btc now) (assess_spot manager batch now)
    ≤ℤ pos 1000
unfolding price_for market_value pair_eq ◌*ℤ◌ fresh
batch_within_position =
    bought_of-le-position manager batch now btc (pos 100)
      ((λ _. refl), ((λ _. refl), ((λ _. refl), ((λ _. refl), tt)))) (omega arith)

-- The day before, the floor was last seen at 1400.
abbrev overnight : RiskManager
overnight = record manager { day = some 0; last_floor = some (pos 1400) }

abbrev morning : RiskState
morning = state (pos 90_000) (pos 100)

abbrev noon : RiskState
noon = state (pos 130_000) (pos 60)

clock : Unit {0}
unfolding on_candle watch day_of floor_equity pair_eq fresh ◌+ℤ◌ ◌-ℤ◌ ◌*ℤ◌ ◌/ℤ◌ neg min_ℤ
clock = tt

-- A floor of 1360 in the morning, and of 1240 at noon: both above 1200.
unhalted_new_day_example :
    All (λ (t : RiskState). pos 1400 -ℤ pos 200 <ℤ floor_equity t) (morning ∷ noon ∷ [])
unfolding clock
unhalted_new_day_example =
    unhalted_new_day morning (noon ∷ []) overnight (ground arith) refl (refl, tt) refl

halted_stays : (on_candle noon (watch (morning ∷ []) (record manager { halted = true }))).0 ≡ false
halted_stays = halted_for_good (morning ∷ []) noon (record manager { halted = true }) refl

cooldown_after_losses_example :
    ((watch (morning ∷ []) (lose (negsuc 4 ∷ negsuc 0 ∷ []) manager)).cooldown_remaining ≡ 12 - 1)
    × ((lose (negsuc 4 ∷ negsuc 0 ∷ []) manager).consecutive_losses ≡ 0)
unfolding fresh
cooldown_after_losses_example =
    cooldown_after_losses (negsuc 4 ∷ negsuc 0 ∷ []) (morning ∷ []) manager
      (omega arith, (omega arith, tt)) refl refl (omega arith)

abbrev cooling : RiskManager
cooling = record manager { cooldown_remaining = 3 }

sells_in_cooldown :
    All
      (λ (a : Assessment). a.intent.side ≡ buy → is_rejected a.decision ≡ true)
      (assess_spot cooling (intent sell (pos 1) ∷ []) now)
    × (All (λ (i : OrderIntent). i.side ≡ sell) (intent sell (pos 1) ∷ [])
        → assess_spot cooling (intent sell (pos 1) ∷ []) now
          ≡ assess_spot (warmed cooling) (intent sell (pos 1) ∷ []) now)
sells_in_cooldown = cooldown_gates_buys cooling (intent sell (pos 1) ∷ []) now (omega arith)

restored-checkpoint_example :
    Restores config
      (observe_all (candle morning ∷ trade (negsuc 4) ∷ candle noon ∷ []) (fresh config))
restored-checkpoint_example =
    restored-checkpoint config (candle morning ∷ trade (negsuc 4) ∷ candle noon ∷ [])

assess_perp_one-within_example :
    IsCapped manager
      (intent sell (pos 30))
      now
      (sizes_of book)
      (pos 100)
      (assess_perp_one manager (intent sell (pos 30)) now (sizes_of book))
unfolding price_for sizes_of cap_quote gross_other pair_eq ◌+ℤ◌ ◌-ℤ◌ ◌*ℤ◌ abs min_ℤ max_ℤ fresh
assess_perp_one-within_example =
    assess_perp_one-within manager (intent sell (pos 30)) now (sizes_of book) (pos 100)
      (omega arith) refl (omega arith)

-- From a position of 15, which is over the cap, selling 1 is enlarged to selling 5, and approved.
over_cap_sells_more :
    assess_perp_one manager (intent sell (pos 1)) now ((btc, pos 15) ∷ [])
    ≡ record { intent = intent sell (pos 1); decision = approved; note = no_note; size = pos 5 }
unfolding assess_perp_one price_for cap_quote gross_other pair_eq fresh ◌+ℤ◌ ◌-ℤ◌ ◌*ℤ◌ ◌/ℤ◌ neg abs
    min_ℤ max_ℤ
over_cap_sells_more = refl
