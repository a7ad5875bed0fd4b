-- ===== src/Paper/Fills.antt =====
-- How an order becomes a fill (kaupo/venues/paper.py).
use kaupo.Base.{
  Bool, true, false, not, ◌&&◌, ◌||◌, Option, none, some, [], ◌∷◌, ◌++◌, filter, if◌then◌else◌,
  on_some,
}
use kaupo.Base.Int.{ℤ, pos, ◌+ℤ◌, ◌-ℤ◌, ◌*ℤ◌, ◌/ℤ◌, neg, min_ℤ, max_ℤ, leb_ℤ}
use kaupo.Base.Dict.{insert}
use kaupo.Domain.{
  Candle, Pair, Order, OrderStatus, filled, open_status, cancelled, rejected, Fill, Side, Tier,
  Timestamp, maker, taker, on_side, truthy, total, eq_pair, pair_eq,
}
use kaupo.Paper.State.{PaperVenue, MarketableLimit, as_taker, skip, Protection, Armed, write}

unfoldable pub is_marketable_at_posting : Side → (limit_price open_price : ℤ) → Bool
is_marketable_at_posting side limit_price open_price =
    on_side side (leb_ℤ open_price limit_price) (leb_ℤ limit_price open_price)

-- `_slipped`
unfoldable pub slipped : PaperVenue → ℤ → Side → ℤ
slipped v price side =
    on_side side (price *ℤ (pos 10_000 +ℤ v.slip_bps) /ℤ pos 10_000)
      (price *ℤ (pos 10_000 -ℤ v.slip_bps) /ℤ pos 10_000)

-- The order as `_make_fill` leaves it.
unfoldable pub filled_order : Order → Timestamp → (price bps : ℤ) → Tier → Order
filled_order o ts price bps tier = record o {
  status = filled;
  filled_price = some price;
  filled_ts = some ts;
  fee = price *ℤ o.size *ℤ bps /ℤ pos 10_000;
  taker_or_maker = some tier;
  fee_currency = some o.pair.quote;
}

-- `_make_fill`: the order as it is now, and the fill.
unfoldable pub make_fill : Order → Timestamp → (price bps : ℤ) → Tier → Order × Fill
unfolding filled_order
make_fill o ts price bps tier =
    let o' : Order = filled_order o ts price bps tier in
    (
      o',
      record {
        order_id = o.id;
        pair = o.pair;
        side = o.side;
        ts = ts;
        price = price;
        size = o.size;
        fee = o'.fee;
        taker_or_maker = some tier;
        fee_currency = some o.pair.quote;
      },
    )

unfoldable pub fill_market : PaperVenue → Order → Candle → Order × Fill
unfolding make_fill slipped
fill_market v o c = make_fill o c.ts (slipped v c.open_price o.side) v.taker_bps taker

abbrev pub is_skip : MarketableLimit → Bool
is_skip skip = true
is_skip _ = false

-- `_skips_as_marketable`
unfoldable pub skips_as_marketable : PaperVenue → Order → Candle → Bool
unfolding is_marketable_at_posting
skips_as_marketable v o c =
    is_skip v.marketable_limit
    && on_some o.limit_price false (λ l. is_marketable_at_posting o.side l c.open_price)

abbrev pub is_as_taker : MarketableLimit → Bool
is_as_taker as_taker = true
is_as_taker _ = false

-- `_limit_fee_rate`
unfoldable pub limit_fee_rate : PaperVenue → Side → ℤ → Candle → ℤ × Tier
unfolding is_marketable_at_posting
limit_fee_rate v side l c =
    if is_as_taker v.marketable_limit && is_marketable_at_posting side l c.open_price
    then (v.taker_bps, taker)
    else (v.maker_bps, maker)

-- The range of the candle reaches the limit.
unfoldable pub touches : Side → ℤ → Candle → Bool
touches side l c = on_side side (leb_ℤ c.low l) (leb_ℤ l c.high)

unfoldable pub limit_fill_price : Side → ℤ → Candle → ℤ
limit_fill_price side l c = on_side side (min_ℤ l c.open_price) (max_ℤ l c.open_price)

-- `_try_limit` of an order with a limit price; its assertion is in `on_candle`.
unfoldable pub try_limit : PaperVenue → Order → Candle → Option (Order × Fill)
unfolding limit_fee_rate touches limit_fill_price make_fill
try_limit v o c = on_some o.limit_price none λ l.
    let (bps, tier) = limit_fee_rate v o.side l c in
    if touches o.side l c
    then some (make_fill o c.ts (limit_fill_price o.side l c) bps tier)
    else none

-- The signed size of a fill.
unfoldable pub delta_of : Fill → ℤ
delta_of f = on_side f.side f.size (neg f.size)

abbrev pub not_on : Pair → Armed → Bool
not_on p (o, _) = not (pair_eq o.pair p)

-- `_track_position`
unfoldable pub track_position : Fill → PaperVenue → PaperVenue
unfolding delta_of
track_position f v =
    let size : ℤ = total f.pair v.positions +ℤ delta_of f in
    let moved : PaperVenue = record v { positions = insert f.pair size v.positions } in
    if leb_ℤ size (pos 0)
    then record moved {
      protections = filter (not_on f.pair) v.protections;
      newly_armed = filter (not_on f.pair) v.newly_armed;
    }
    else moved

abbrev pub is_filled : OrderStatus → Bool
is_filled filled = true
is_filled open_status = false
is_filled cancelled = false
is_filled rejected = false

-- `_arm_protection`
unfoldable pub arm_protection : Order → PaperVenue → PaperVenue
arm_protection o v =
    let prot : Protection = record { stop_loss = o.stop_loss; take_profit = o.take_profit } in
    if on_side o.side true false
      && is_filled o.status
      && (truthy o.stop_loss || truthy o.take_profit)
    then record v { newly_armed = v.newly_armed ++ (o, prot) ∷ [] }
    else v

-- What the market and limit loops do with a fill.
unfoldable pub take_fill : Order × Fill → PaperVenue → PaperVenue
unfolding write track_position arm_protection
take_fill (o, f) v = arm_protection o (track_position f (write o v))
