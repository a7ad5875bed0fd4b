-- ===== src/Engine/Parts.antt =====
-- The helpers of `Engine._process_candle` that do not see the engine (kaupo/core/engine.py).
use kaupo.Base.{
  Bool, true, false, not, ◌&&◌, ◌||◌, none, List, [], ◌∷◌, any, if◌then◌else◌, ◌==◌, on_some,
}
use kaupo.Base.Int.{ℤ, pos, ◌*ℤ◌, ◌/ℤ◌, neg, eqb_ℤ}
use kaupo.Domain.{Candle, Timestamp, Order, OrderId, Fill, OrderIntent, on_side, open_status}
use kaupo.Ledger.{Ledger, Outcome, applied, raised, apply_funding}
use kaupo.Risk.{RiskManager, notify_trade_result}
use kaupo.Paper.{PaperVenue, get_order}
use kaupo.Engine.State.{EngineConfig, is_perp, FundingPoint, close_time}

abbrev pub is_empty {ℓ} : {A : Type ℓ} → List A → Bool
is_empty [] = true
is_empty (_ ∷ _) = false

-- A SELL closes a trade; on a perp run any fill with realized PnL does.
unfoldable pub notify_fill : EngineConfig → Fill → ℤ → RiskManager → RiskManager
unfolding is_perp notify_trade_result
notify_fill cfg f realized m =
    if on_side f.side false true || is_perp cfg && not (eqb_ℤ realized (pos 0))
    then notify_trade_result realized m
    else m

-- `_orders_touched`: the orders of the fills that the venue still knows, each once.
unfoldable pub orders_touched : List OrderId → List Fill → PaperVenue → List Order
unfolding get_order
orders_touched seen [] v = []
orders_touched seen (f ∷ fs) v =
    let later : List Order = orders_touched seen fs v in
    on_some (get_order f.order_id v) later λ o.
      let rest : List Order = orders_touched (o.id ∷ seen) fs v in
      if any (λ i. i == o.id) seen then later else o ∷ rest

-- The payment of a funding event; a positive rate means that longs pay.
unfoldable pub charge_points : ℤ → ℤ → List FundingPoint → Ledger → Ledger
unfolding apply_funding
charge_points size close [] l = l
charge_points size close (p ∷ ps) l =
    charge_points size close ps
      (apply_funding p.ts (neg size *ℤ close *ℤ p.rate /ℤ pos 100_000_000) none l)

abbrev pub last_ts : Timestamp → List FundingPoint → Timestamp
last_ts ts [] = ts
last_ts ts (p ∷ ps) = last_ts p.ts ps

unfoldable pub liquidation_fill : EngineConfig → Candle → Order → Fill
unfolding close_time
liquidation_fill cfg c o = record {
  order_id = o.id;
  pair = cfg.pair;
  side = o.side;
  ts = close_time cfg c;
  price = c.close;
  size = o.size;
  fee = o.fee;
  taker_or_maker = none;
  fee_currency = none;
}

abbrev pub ledger_after : Ledger → Outcome → Ledger
ledger_after l (applied _ l') = l'
ledger_after l (raised _) = l

-- `_order_from`
unfoldable pub order_from : OrderIntent → ℤ → Timestamp → OrderId → Order
order_from i size ts order_id = record {
  pair = i.pair;
  side = i.side;
  order_type = i.order_type;
  size = size;
  limit_price = i.limit_price;
  stop_loss = i.stop_loss;
  take_profit = i.take_profit;
  id = order_id;
  status = open_status;
  created_ts = ts;
  filled_price = none;
  filled_ts = none;
  fee = pos 0;
  taker_or_maker = none;
  fee_currency = none;
}
