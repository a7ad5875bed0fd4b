-- ===== src/Paper/Modes.antt =====
-- What the three treatments of marketable limits change.
use kaupo.Base.{◌≡◌, Bool, false, Option, none, some, on_some, if◌then◌else◌, arith}
use kaupo.Base.Int.{ℤ, pos, ◌*ℤ◌, ◌/ℤ◌, leb_ℤ}
use kaupo.Domain.{Candle, Order, Fill, Tier, maker, taker, on_side}
use kaupo.Paper.State.{PaperVenue, MarketableLimit, as_maker, as_taker, skip}
use kaupo.Paper.Fills.{
  is_marketable_at_posting, skips_as_marketable, limit_fee_rate, touches, limit_fill_price,
  try_limit, make_fill,
}
use kaupo.Paper.Candle.{is_late, limit_result}

abbrev pub under : MarketableLimit → PaperVenue → PaperVenue
under mode v = record v { marketable_limit = mode }

-- The candle opens at the limit or through it: a buy would pay the open, a sell would get it.
abbrev pub opens_through : Order → Candle → Bool
opens_through o c =
    on_some o.limit_price false (λ l. on_side o.side (leb_ℤ c.open_price l) (leb_ℤ l c.open_price))

-- A fill and its order with the fee of a rate, in basis points of the traded value, and its tier.
abbrev pub charged : (bps : ℤ) → Tier → Order × Fill → Order × Fill
charged bps tier r =
    let fee : ℤ = r.1.price *ℤ r.1.size *ℤ bps /ℤ pos 10_000 in
    (
      record r.0 { fee = fee; taker_or_maker = some tier },
      record r.1 { fee = fee; taker_or_maker = some tier },
    )

abbrev pub charge : (bps : ℤ) → Tier → Option (Order × Fill) → Option (Order × Fill)
charge bps tier none = none
charge bps tier (some r) = some (charged bps tier r)

-- Under the maker model every fill of a resting limit is charged the maker rate on its value. As a taker the
-- same orders get the same fills, order and all, but that one whose limit the candle opens at or
-- through is charged the taker rate on its value. Skipping drops exactly those orders, and changes nothing about
-- the others.
pub limit_result-under :
    (v : PaperVenue) (o : Order) (c : Candle)
    → let made = limit_result (under as_maker v) o c in
      (made ≡ charge v.maker_bps maker made)
      × (limit_result (under as_taker v) o c
          ≡ (if opens_through o c then charge v.taker_bps taker made else made))
      × (limit_result (under skip v) o c ≡ (if opens_through o c then none else made))
unfolding limit_result is_late skips_as_marketable try_limit limit_fee_rate touches limit_fill_price
    make_fill is_marketable_at_posting
limit_result-under v o c = ground arith
