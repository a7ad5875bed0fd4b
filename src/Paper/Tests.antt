-- ===== src/Paper/Tests.antt =====
-- The venue on concrete candles: taker fee 80 bps, maker fee 40 bps, slippage 5 bps.
use kaupo.Base.{
  ◌↔◌, ℕ, ◌≡◌, refl, true, not, Option, none, some, List, [], ◌∷◌, ◌++◌, map, filter, All, arith,
  length, if◌then◌else◌,
}
use kaupo.Base.Int.{ℤ, pos, ◌+ℤ◌, ◌-ℤ◌, ◌*ℤ◌, ◌/ℤ◌, ◌≤ℤ◌, neg, abs, min_ℤ, max_ℤ}
use kaupo.Base.Dict.{lookup}
use kaupo.Domain.{
  Pair, Candle, Order, OrderType, Side, buy, sell, market, limit, h1, seconds, open_status, Fill,
  pair_eq, eq_pair, eq_order_id, total, check_price, maker, taker,
}
use kaupo.Paper.{
  PaperVenue, skip, Armed, new_venue, submit, on_candle, run_candle, market_step, limit_step,
  protection_step, market_one, limit_one, protection_one, limit_result, void_fill, track_position,
  not_of, as_taker, as_maker,
}
use kaupo.Paper.Positions.{traded, run_candle-traded}
use kaupo.Paper.Limits.{IsRanged, AreLimitFills, limit_step-fills}
use kaupo.Paper.Exits.{protection_step-long}
use kaupo.Paper.Lifetime.{executes, Executes, id_of, order_id_of, limit_step-orders}
use kaupo.Paper.Void.{refused, void_fill-track_position}
use kaupo.Paper.Modes.{under, opens_through, charge, limit_result-under}
use kaupo.Paper.Returns.{submit_all, on_candle-submit_all}

abbrev btc : Pair
btc = record { base = "BTC"; quote = "EUR" }

-- An order posted at the first candle.
abbrev order : Side → OrderType → ℤ → Option ℤ → (stop profit : Option ℤ) → (order_id : ℕ) → Order
order side kind size price stop profit order_id = record {
  pair = btc;
  side = side;
  order_type = kind;
  size = size;
  limit_price = price;
  stop_loss = stop;
  take_profit = profit;
  id = order_id;
  status = open_status;
  created_ts = 0;
  filled_price = none;
  filled_ts = none;
  fee = pos 0;
  taker_or_maker = none;
  fee_currency = none;
}

abbrev candle_at : (ts : ℕ) → (open_price high low : ℤ) → Candle
candle_at ts open_price high low = record {
  pair = btc;
  timeframe = h1;
  ts = ts;
  open_price = open_price;
  high = high;
  low = low;
  close = open_price;
  volume = pos 1;
}

abbrev next : Candle
next = candle_at 3600 (pos 10_000) (pos 10_400) (pos 9_000)

abbrev orders : List Order
orders =
    order buy market (pos 4) none (some (pos 9_500)) none 1
    ∷ order buy limit (pos 2) (some (pos 9_800)) none none 2
    ∷ order sell limit (pos 3) (some (pos 10_500)) none none 3
    ∷ order buy limit (pos 1) (some (pos 10_100)) none none 4
    ∷ []

abbrev venue : PaperVenue
unfolding new_venue
venue = new_venue (pos 80) (pos 40) (pos 5) skip 100

abbrev rested : PaperVenue
unfolding submit_all submit
rested = submit_all orders venue

program : Unit {0}
unfolding submit_all submit new_venue on_candle run_candle market_step limit_step protection_step
    market_one limit_one protection_one limit_result
program = tt

-- The market order fills at the open and its slippage, one limit at its price; the limit out of
-- reach and the one that would have taken liquidity expire.
candle_results :
    (map order_id_of (run_candle next rested).0 ≡ 1 ∷ 2 ∷ [])
    × (map (λ (f : Fill). f.price) (run_candle next rested).0 ≡ pos 10_005 ∷ pos 9_800 ∷ [])
    × (map id_of (run_candle next rested).1.expired ≡ 3 ∷ 4 ∷ [])
unfolding program rested venue pair_eq ◌+ℤ◌ ◌-ℤ◌ ◌*ℤ◌ ◌/ℤ◌ neg abs min_ℤ max_ℤ seconds
candle_results = (refl, refl, refl)

next-IsRanged : IsRanged next
next-IsRanged = record { above = omega arith; below = omega arith }

run_candle-traded_example :
    total btc (run_candle next rested).1.positions
    ≡ total btc rested.positions +ℤ traded btc (run_candle next rested).0
run_candle-traded_example = run_candle-traded btc next rested

limit_step-fills_example : AreLimitFills next rested.limit_open (limit_step next rested).0
limit_step-fills_example = limit_step-fills next rested next-IsRanged

limit_step-orders_example :
    (map order_id_of (limit_step next rested).0
      ≡ map id_of (filter (executes skip next) rested.limit_open))
    × (map id_of (limit_step next rested).1.expired
        ≡ map id_of rested.expired
          ++ map id_of (filter (λ o. not (executes skip next o)) rested.limit_open))
    × ((limit_step next rested).1.limit_open ≡ [])
    × ((o : Order) → (executes skip next o ≡ true) ↔ Executes skip next o)
unfolding rested venue
limit_step-orders_example = limit_step-orders next rested

on_candle-submit_all_example :
    on_candle next (submit_all orders venue) ≡ some (run_candle next (submit_all orders venue))
unfolding venue check_price
on_candle-submit_all_example =
    on_candle-submit_all next orders venue refl (refl, (refl, (refl, (refl, tt))))

-- A venue that holds 5 lots under two stops of 4 lots each.
abbrev entry : (order_id : ℕ) → Order
entry order_id = order buy market (pos 4) none (some (pos 9_500)) none order_id

abbrev stopped : PaperVenue
unfolding new_venue
stopped = record venue {
  positions = (btc, pos 5) ∷ [];
  protections =
      (entry 1, record { stop_loss = some (pos 9_500); take_profit = none })
      ∷ (entry 2, record { stop_loss = some (pos 9_600); take_profit = none })
      ∷ [];
}

-- The second exit is cut to the lot that is left.
exit_sizes : map (λ (f : Fill). f.size) (protection_step next stopped).0 ≡ pos 4 ∷ pos 1 ∷ []
unfolding program stopped pair_eq ◌+ℤ◌ ◌-ℤ◌ ◌*ℤ◌ ◌/ℤ◌ neg abs min_ℤ max_ℤ
exit_sizes = refl

protection_step-long_example : pos 0 ≤ℤ total btc (protection_step next stopped).1.positions
unfolding pair_eq stopped
protection_step-long_example =
    protection_step-long next stopped btc (omega arith, (omega arith, tt)) (omega arith)

-- A tight stop that fires after a wide one is kept closes the whole position, and the wide stop
-- stays armed on a flat pair.
abbrev stale : PaperVenue
stale = record stopped {
  positions = (btc, pos 4) ∷ [];
  protections =
      (entry 1, record { stop_loss = some (pos 8_000); take_profit = none })
      ∷ (entry 2, record { stop_loss = some (pos 9_600); take_profit = none })
      ∷ [];
}

stale_stop :
    (total btc (protection_step next stale).1.positions ≡ pos 0)
    × (length (protection_step next stale).1.protections ≡ 1)
unfolding program stopped pair_eq ◌+ℤ◌ ◌-ℤ◌ ◌*ℤ◌ ◌/ℤ◌ neg abs min_ℤ max_ℤ
stale_stop = (refl, refl)

abbrev refused_fill : Fill
refused_fill = record {
  order_id = 1;
  pair = btc;
  side = buy;
  ts = 3600;
  price = pos 10_005;
  size = pos 4;
  fee = pos 320;
  taker_or_maker = none;
  fee_currency = none;
}

void_fill-track_position_example :
    (total btc (void_fill refused_fill (track_position refused_fill rested)).positions
      ≡ total btc rested.positions)
    × (lookup 1 (void_fill refused_fill (track_position refused_fill rested)).orders
        ≡ some (refused (entry 1)))
    × All
        (λ (a : Armed). not_of 1 a ≡ true)
        (void_fill refused_fill (track_position refused_fill rested)).protections
    × All
        (λ (a : Armed). not_of 1 a ≡ true)
        (void_fill refused_fill (track_position refused_fill rested)).newly_armed
unfolding rested venue
void_fill-track_position_example = void_fill-track_position refused_fill rested btc refl refl refl

-- The limit of order 4 is above the open, and would have taken liquidity.
abbrev crossing : Order
crossing = order buy limit (pos 1) (some (pos 10_100)) none none 4

limit_result-under_example :
    (limit_result (under as_maker rested) crossing next
      ≡ charge rested.maker_bps maker (limit_result (under as_maker rested) crossing next))
    × (limit_result (under as_taker rested) crossing next ≡ (
        if opens_through crossing next
        then charge rested.taker_bps taker (limit_result (under as_maker rested) crossing next)
        else limit_result (under as_maker rested) crossing next))
    × (limit_result (under skip rested) crossing next ≡ (
        if opens_through crossing next
        then none
        else limit_result (under as_maker rested) crossing next))
limit_result-under_example = limit_result-under rested crossing next
