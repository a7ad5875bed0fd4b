-- ===== src/Live/Orders.antt =====
-- `submit`, `_skip` and `_round_limit_price` of `KrakenVenue` (kaupo/venues/kraken_live.py). Alerts are
-- left out.
use text.Mathlib.Text.{◌==◌ as str_eq}
use kaupo.Base.{
  List, map, ℕ, ◌+◌, ◌*◌, String, Bool, true, false, Option, none, some, [], ◌∷◌, ◌++◌, leb,
  if◌then◌else◌, on_some,
}
use kaupo.Base.Int.{ℤ, pos, leb_ℤ}
use kaupo.Base.Dict.{insert}
use kaupo.Domain.{OrderType, market, limit, OrderStatus, cancelled, rejected, seconds, eq_string}
use kaupo.Live.State.{
  LiveOrder, MarketMeta, Placing, placed, post_only_rejected, call_failed, Answers, KrakenVenue,
}
use kaupo.Live.Size.{Skip, bad_limit, no_market, send, skip, round_price_to_step, size_for_exchange}

-- An order is one object, which the lists of the venue share.
abbrev pub with_order : LiveOrder → List LiveOrder → List LiveOrder
with_order o listed = map (λ (p : LiveOrder). if str_eq p.id o.id then o else p) listed

abbrev pub write_order : LiveOrder → KrakenVenue → KrakenVenue
write_order o v = record v {
  orders = insert o.id o v.orders;
  expired = with_order o v.expired;
  new_orders = with_order o v.new_orders;
}

-- An order that is not on the exchange, with its status; it is reported as expired.
unfoldable pub retire : OrderStatus → LiveOrder → KrakenVenue → KrakenVenue
retire status o v =
    let gone : LiveOrder = record o { status = status } in
    let written : KrakenVenue = write_order gone v in
    record written { expired = written.expired ++ gone ∷ [] }

abbrev pub is_limit : OrderType → Bool
is_limit limit = true
is_limit market = false

pub data Rounded : Type 0 where
  keeps : LiveOrder → Rounded
  dies : Skip → Rounded

-- `_round_limit_price`
unfoldable pub round_limit_price : Option MarketMeta → LiveOrder → Rounded
unfolding round_price_to_step
round_limit_price rules o =
    if is_limit o.order_type
    then on_some o.limit_price (keeps o) (λ price.
      on_some rules (dies no_market) (λ (meta : MarketMeta).
        let rounded : ℤ = round_price_to_step price meta.price_step o.side in
        if leb_ℤ rounded (pos 0)
        then dies bad_limit
        else keeps (record o { limit_price = some rounded })))
    else keeps o

-- The order is on the exchange.
unfoldable pub track : LiveOrder → String → ℤ → KrakenVenue → KrakenVenue
track o txid sized v = record (write_order (record o { exchange_order_id = some txid }) v) {
  open_orders = insert o.id (record { txid = txid; placed_size = sized }) v.open_orders;
  order_by_txid = insert txid o.id v.order_by_txid;
}

-- The end of the period after the decision, at which the exchange ends a limit order.
unfoldable pub expiry_of : LiveOrder → KrakenVenue → Option ℕ
expiry_of o v =
    if is_limit o.order_type then some (o.created_ts + 2 * seconds v.timeframe * 1000) else none

unfoldable pub take_answer : LiveOrder → ℤ → Placing → KrakenVenue → KrakenVenue
unfolding track retire
take_answer o sized (placed txid) v = track o txid sized v
take_answer o sized post_only_rejected v = retire cancelled o v
take_answer o sized call_failed v = retire rejected o v

-- The order is sent, unless it has expired already.
unfoldable pub send_order : Answers → LiveOrder → ℤ → KrakenVenue → KrakenVenue
unfolding expiry_of take_answer retire
send_order x o sized v =
    let sent : KrakenVenue = take_answer o sized (x.create_order o sized (expiry_of o v)) v in
    on_some (expiry_of o v) sent
      λ expires_at. if leb expires_at x.now then retire cancelled o v else sent

unfoldable pub submit_rounded : Answers → Rounded → LiveOrder → KrakenVenue → KrakenVenue
unfolding size_for_exchange send_order retire
submit_rounded x (dies _) o v = retire rejected o v
submit_rounded x (keeps rounded) o v = elim (size_for_exchange x.market rounded v) [
  | skip _ ↦ retire rejected rounded v
  | send sized ↦ send_order x rounded sized (write_order rounded v)
]

-- `submit`
unfoldable pub submit : Answers → LiveOrder → KrakenVenue → KrakenVenue
unfolding round_limit_price submit_rounded
submit x o v = submit_rounded x (round_limit_price x.market o) o (write_order o v)
