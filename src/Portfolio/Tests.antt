-- ===== src/Portfolio/Tests.antt =====
-- Two pairs, of which one has no candle at the second time.
use kaupo.Base.{◌≡◌, refl, [], ◌∷◌, All, arith}
use kaupo.Base.Int.{pos}
use kaupo.Domain.{Pair, Candle, Timestamp, h1, pair_eq}
use kaupo.Portfolio.{Queues, joined_steps}
use kaupo.Portfolio.Join.{steps_of, joined_steps-queues}
use kaupo.Portfolio.Exact.{IsAscending, IsExact, joined_steps-IsExact}

abbrev btc : Pair
btc = record { base = "BTC"; quote = "EUR" }

abbrev ada : Pair
ada = record { base = "ADA"; quote = "EUR" }

abbrev candle : Pair → Timestamp → Candle
candle p ts = record {
  pair = p;
  timeframe = h1;
  ts = ts;
  open_price = pos 1;
  high = pos 1;
  low = pos 1;
  close = pos 1;
  volume = pos 1;
}

abbrev candles : Queues
candles =
    (btc, candle btc 0 ∷ candle btc 3600 ∷ candle btc 7200 ∷ [])
    ∷ (ada, candle ada 0 ∷ candle ada 7200 ∷ [])
    ∷ []

-- Within a step the pairs are in order of their text.
three_steps :
    joined_steps candles
    ≡ (0, (ada, candle ada 0) ∷ (btc, candle btc 0) ∷ [])
      ∷ (3600, (btc, candle btc 3600) ∷ [])
      ∷ (7200, (ada, candle ada 7200) ∷ (btc, candle btc 7200) ∷ [])
      ∷ []
unfolding joined_steps
three_steps = refl

joined_steps-queues_example :
    steps_of ada (joined_steps candles) ≡ candle ada 0 ∷ candle ada 7200 ∷ []
unfolding pair_eq
joined_steps-queues_example = joined_steps-queues candles ada (refl, (refl, tt))

joined_steps-IsExact_example :
    IsAscending (joined_steps candles) × All (IsExact candles) (joined_steps candles)
unfolding pair_eq
joined_steps-IsExact_example =
    joined_steps-IsExact candles (refl, (refl, tt))
      ((omega arith, (omega arith, tt)), ((omega arith, tt), tt))
