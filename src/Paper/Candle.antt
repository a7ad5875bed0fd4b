-- ===== src/Paper/Candle.antt =====
-- `PaperVenue.on_candle`, `liquidate` and `void_fill` (kaupo/venues/paper.py).
use kaupo.Base.{
  ◌+◌, Bool, not, ◌||◌, Option, none, some, List, [], ◌∷◌, ◌++◌, all, is_some, filter, each,
  if◌then◌else◌, on_some, ltb, ◌==◌,
}
use kaupo.Base.Int.{ℤ, pos, ◌-ℤ◌, abs, min_ℤ, max_ℤ, leb_ℤ, ltb_ℤ}
use kaupo.Base.Dict.{insert, lookup, erase}
use kaupo.Domain.{
  Candle, Pair, Order, OrderId, market, Fill, Side, buy, sell, Tier, maker, taker, on_side,
  open_status, rejected, total, eq_pair, eq_order_id, seconds,
}
use kaupo.Paper.State.{PaperVenue, Armed, write, cancel, prune_orders}
use kaupo.Paper.Fills.{
  slipped, make_fill, fill_market, skips_as_marketable, try_limit, delta_of, track_position,
  take_fill,
}

-- Step 1: market orders fill at the open.
unfoldable pub market_one : Candle → Order → PaperVenue → List Fill × PaperVenue
unfolding fill_market take_fill
market_one c o v = let r : Order × Fill = fill_market v o c in (r.1 ∷ [], take_fill r v)

-- "Only the immediately following period can execute this limit."
unfoldable pub is_late : Order → Candle → Bool
is_late o c = ltb (o.created_ts + seconds c.timeframe) c.ts

unfoldable pub expire : Order → PaperVenue → PaperVenue
unfolding write
expire o v =
    let v' : PaperVenue = write (cancel o) v in record v' { expired = v'.expired ++ cancel o ∷ [] }

-- What becomes of a resting limit order: its fill, or nothing.
unfoldable pub limit_result : PaperVenue → Order → Candle → Option (Order × Fill)
unfolding is_late skips_as_marketable try_limit
limit_result v o c =
    if is_late o c then none else if skips_as_marketable v o c then none else try_limit v o c

-- Step 2: limit orders fill when the candle touches them, or expire at its close.
unfoldable pub limit_one : Candle → Order → PaperVenue → List Fill × PaperVenue
unfolding limit_result take_fill expire
limit_one c o v =
    on_some (limit_result v o c) ([], expire o v) (λ (r : Order × Fill). (r.1 ∷ [], take_fill r v))

abbrev pub opposite : Side → Side
opposite side = on_side side sell buy

-- The order of an exit; its size is clamped to the position that remains.
unfoldable pub exit_order : PaperVenue → Order → Candle → Order
exit_order v o c = record {
  pair = o.pair;
  side = opposite o.side;
  order_type = market;
  size = min_ℤ o.size (total o.pair v.positions);
  limit_price = none;
  stop_loss = none;
  take_profit = none;
  id = v.next_id;
  status = open_status;
  created_ts = c.ts;
  filled_price = none;
  filled_ts = none;
  fee = pos 0;
  taker_or_maker = none;
  fee_currency = none;
}

unfoldable pub stop_hit : Side → ℤ → Candle → Bool
stop_hit side stop c = on_side side (leb_ℤ c.low stop) (leb_ℤ stop c.high)

unfoldable pub profit_hit : Side → ℤ → Candle → Bool
profit_hit side profit c = on_side side (leb_ℤ profit c.high) (leb_ℤ c.low profit)

-- The price, rate and tier of an exit: "stop-loss first (conservative on ties)".
unfoldable pub stop_terms : PaperVenue → Armed → Candle → Option (ℤ × ℤ × Tier)
unfolding stop_hit slipped
stop_terms v (o, prot) c = on_some prot.stop_loss none λ stop.
    if stop_hit o.side stop c
    then some (slipped v (min_ℤ stop c.open_price) (opposite o.side), v.taker_bps, taker)
    else none

unfoldable pub profit_terms : PaperVenue → Armed → Candle → Option (ℤ × ℤ × Tier)
unfolding profit_hit
profit_terms v (o, prot) c = on_some prot.take_profit none λ profit.
    if profit_hit o.side profit c
    then some (max_ℤ profit c.open_price, v.maker_bps, maker)
    else none

unfoldable pub exit_terms : PaperVenue → Armed → Candle → Option (ℤ × ℤ × Tier)
unfolding stop_terms profit_terms
exit_terms v a c = elim (stop_terms v a c) [ some t ↦ some t | none ↦ profit_terms v a c ]

-- `_check_protection`: the exit that triggers, if one does. An id that is not stored is taken
-- again.
unfoldable pub check_protection : PaperVenue → Armed → Candle → Option (Order × Fill)
unfolding exit_order exit_terms make_fill
check_protection v a c =
    on_some (exit_terms v a c) none
      (λ (t : ℤ × ℤ × Tier). some (make_fill (exit_order v a.0 c) c.ts t.0 t.1 t.2))

-- A new order of the venue's own, as its fill leaves it.
unfoldable pub register : Order → PaperVenue → PaperVenue
register o v = record v {
  orders = insert o.id o v.orders;
  new_orders = v.new_orders ++ o ∷ [];
  next_id = v.next_id + 1;
}

unfoldable pub register_exit : Armed → Order → PaperVenue → PaperVenue
unfolding register
register_exit a x v = record (register x v) { prot_by_exit = insert x.id a v.prot_by_exit }

unfoldable pub take_exit : Armed → Order × Fill → PaperVenue → PaperVenue
unfolding register_exit track_position
take_exit a (x, f) v = track_position f (register_exit a x v)

-- Step 3: the protections that stood before the loop; those that remain are collected beside
-- the venue.
unfoldable pub protection_one :
    Candle → Armed → List Armed × PaperVenue → List Fill × (List Armed × PaperVenue)
unfolding check_protection take_exit
protection_one c a (kept, v) =
    if leb_ℤ (total a.0.pair v.positions) (pos 0)
    then ([], (kept, v))
    else on_some (check_protection v a c) ([], (kept ++ a ∷ [], v))
        (λ (r : Order × Fill). (r.1 ∷ [], (kept, take_exit a r v)))

-- The three steps, each on the state that the one before it leaves.
unfoldable pub market_step : Candle → PaperVenue → List Fill × PaperVenue
unfolding prune_orders market_one
market_step c v =
    let pruned : PaperVenue = prune_orders v in
    each (market_one c) pruned.market_queue (record pruned { market_queue = [] })

unfoldable pub limit_step : Candle → PaperVenue → List Fill × PaperVenue
unfolding limit_one
limit_step c v = each (limit_one c) v.limit_open (record v { limit_open = [] })

unfoldable pub protection_step : Candle → PaperVenue → List Fill × PaperVenue
unfolding protection_one
protection_step c v =
    let (fs, (kept, v')) = each (protection_one c) v.protections ([], v) in
    (fs, record v' { protections = kept ++ v'.newly_armed; newly_armed = [] })

unfoldable pub run_candle : Candle → PaperVenue → List Fill × PaperVenue
run_candle c v =
    let (fs, v1) = market_step c v in
    let (gs, v2) = limit_step c v1 in let (hs, v3) = protection_step c v2 in (fs ++ gs ++ hs, v3)

-- The assertion of `_try_limit`, which only late orders do not reach.
unfoldable pub is_priced : Candle → Order → Bool
unfolding is_late
is_priced c o = is_late o c || is_some o.limit_price

-- `none` is a failed assertion, which ends the run; no step before it changes `limit_open`.
unfoldable pub on_candle : Candle → PaperVenue → Option (List Fill × PaperVenue)
on_candle c v = if all (is_priced c) v.limit_open then some (run_candle c v) else none

unfoldable pub liquidate : Pair → ℤ → Candle → PaperVenue → Fill × PaperVenue
unfolding slipped make_fill register track_position
liquidate pair size c v =
    let side : Side = if ltb_ℤ (pos 0) size then sell else buy in
    let order : Order = record {
      pair = pair;
      side = side;
      order_type = market;
      size = abs size;
      limit_price = none;
      stop_loss = none;
      take_profit = none;
      id = v.next_id;
      status = open_status;
      created_ts = c.ts;
      filled_price = none;
      filled_ts = none;
      fee = pos 0;
      taker_or_maker = none;
      fee_currency = none;
    } in
    let (o, f) = make_fill order c.ts (slipped v c.close side) v.taker_bps taker in
    (f, track_position f (register o v))

abbrev pub not_of : OrderId → Armed → Bool
not_of order_id (o, _) = not (o.id == order_id)

-- "a voided entry must not leave its stop/take-profit armed"
unfoldable pub reject_order : OrderId → PaperVenue → PaperVenue
unfolding write
reject_order order_id v = on_some (lookup order_id v.orders) v λ o.
    record (write
      (record o { status = rejected; filled_price = none; filled_ts = none; fee = pos 0 }) v) {
        protections = filter (not_of o.id) v.protections;
        newly_armed = filter (not_of o.id) v.newly_armed;
      }

-- "a voided protection EXIT must re-arm the entry's protection"
unfoldable pub rearm : OrderId → PaperVenue → PaperVenue
rearm order_id v =
    let popped : PaperVenue = record v { prot_by_exit = erase order_id v.prot_by_exit } in
    on_some (lookup order_id v.prot_by_exit) popped
      λ a. record popped { protections = v.protections ++ a ∷ [] }

unfoldable pub void_fill : Fill → PaperVenue → PaperVenue
void_fill f v = rearm f.order_id (
    reject_order f.order_id
      (record v { positions = insert f.pair (total f.pair v.positions -ℤ delta_of f) v.positions }))
