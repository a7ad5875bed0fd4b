-- ===== src/Rebalance/Tests.antt =====
-- 4 lots of BTC at 100 ticks and 600 of cash: half to BTC, half to ETH at 20 ticks.
use kaupo.Base.{◌≡◌, refl, none, some, [], ◌∷◌, arith}
use kaupo.Base.Int.{ℤ, pos, ◌+ℤ◌, ◌-ℤ◌, ◌*ℤ◌, ◌/ℤ◌, neg, abs, min_ℤ}
use kaupo.Base.Dict.{Dict}
use kaupo.Domain.{Pair, pair_eq, Candle, h1, buy, post_init}
use kaupo.Rebalance.{Context, plan, plan_rebalance, make_plan, draft, take_buys, new_intent}
use kaupo.Rebalance.Bounds.{IfPlanned, IsAffordable, plan_rebalance-IsAffordable}

abbrev btc : Pair
btc = record { base = "BTC"; quote = "EUR" }

abbrev eth : Pair
eth = record { base = "ETH"; quote = "EUR" }

abbrev candle_of : Pair → ℤ → Candle
candle_of pair close = record {
  pair = pair;
  timeframe = h1;
  ts = 3600;
  open_price = close;
  high = close;
  low = close;
  close = close;
  volume = pos 1;
}

abbrev ctx : Context
ctx = record {
  candles = (btc, candle_of btc (pos 100)) ∷ (eth, candle_of eth (pos 20)) ∷ [];
  history = λ _. none;
  equity = pos 1000;
  cash = pos 600;
  positions =
      (btc, record { pair = btc; size = pos 4; avg_entry = pos 90; entry_ts = some 60 }) ∷ [];
}

abbrev targets : Dict Pair ℤ
targets = (eth, pos 5000) ∷ (btc, pos 5000) ∷ []

half_and_half :
    plan_rebalance targets ctx (pos 10) (pos 0)
    ≡ plan (record {
      sells = [];
      buys = new_intent btc buy (pos 1) ∷ new_intent eth buy (pos 25) ∷ [];
    })
unfolding plan_rebalance make_plan draft take_buys pair_eq post_init ◌+ℤ◌ ◌-ℤ◌ ◌*ℤ◌ ◌/ℤ◌ neg abs
    min_ℤ
half_and_half = refl

plan_rebalance-IsAffordable_example :
    IfPlanned (IsAffordable ctx) (plan_rebalance targets ctx (pos 10) (pos 0))
plan_rebalance-IsAffordable_example =
    plan_rebalance-IsAffordable targets ctx (pos 10) (pos 0) (omega arith)
