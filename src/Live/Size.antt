-- ===== src/Live/Size.antt =====
-- `floor_to_step` and `round_price_to_step` (kaupo/venues/kraken_client.py), `_size_for_exchange` and
-- `_round_limit_price` (kaupo/venues/kraken_live.py).
use kaupo.Base.{not, ◌&&◌, Option, some, if◌then◌else◌, on_some}
use kaupo.Base.Int.{ℤ, pos, ◌+ℤ◌, ◌-ℤ◌, ◌*ℤ◌, ◌/ℤ◌, leb_ℤ, ltb_ℤ, eqb_ℤ}
use kaupo.Domain.{Side, on_side}
use kaupo.Live.State.{LiveOrder, MarketMeta, KrakenVenue}

-- A size is not negative, so that rounding towards zero is rounding down.
unfoldable pub floor_to_step : (size step : ℤ) → ℤ
floor_to_step size step = if leb_ℤ step (pos 0) then size else size /ℤ step *ℤ step

-- A buy is rounded down and a sell up.
unfoldable pub round_price_to_step : (price step : ℤ) → Side → ℤ
round_price_to_step price step side =
    if leb_ℤ step (pos 0)
    then price
    else on_side side (price /ℤ step *ℤ step) ((price +ℤ step -ℤ pos 1) /ℤ step *ℤ step)

-- Why an order is not sent.
pub data Skip : Type 0 where
  no_price no_market rounds_to_zero below_amount below_cost bad_limit : Skip

pub data Sized : Type 0 where
  send : ℤ → Sized
  skip : Skip → Sized

-- The notional cap.
unfoldable pub capped : (size price max_notional : ℤ) → ℤ
capped size price max_notional =
    if ltb_ℤ max_notional (size *ℤ price) then max_notional /ℤ price else size

-- The size by the exchange's rules.
unfoldable pub checked_size : MarketMeta → (size price : ℤ) → Sized
unfolding floor_to_step
checked_size meta size price =
    let sized : ℤ = floor_to_step size meta.amount_step in
    if leb_ℤ sized (pos 0)
    then skip rounds_to_zero
    else if not (eqb_ℤ meta.min_amount (pos 0)) && ltb_ℤ sized meta.min_amount
    then skip below_amount
    else if not (eqb_ℤ meta.min_cost (pos 0)) && ltb_ℤ (sized *ℤ price) meta.min_cost
    then skip below_cost
    else send sized

-- The price that the notional is reckoned with.
abbrev pub reference_price : LiveOrder → KrakenVenue → Option ℤ
reference_price o v = on_some o.limit_price v.last_price some

-- `_size_for_exchange`
unfoldable pub size_for_exchange : Option MarketMeta → LiveOrder → KrakenVenue → Sized
unfolding capped checked_size
size_for_exchange market o v = on_some (reference_price o v) (skip no_price) λ price.
    if leb_ℤ price (pos 0)
    then skip no_price
    else on_some market (skip no_market)
        λ meta. checked_size meta (capped o.size price v.max_notional) price
