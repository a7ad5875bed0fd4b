-- ===== src/Live/Liquidate.antt =====
-- `liquidate` of `KrakenVenue` (kaupo/venues/kraken_live.py): a market order, and polls until a trade of
-- it is seen. The warnings about trades of other orders are left out.
use text.Mathlib.Text.{◌==◌ as str_eq}
use kaupo.Base.{
  ℕ, suc, String, Option, none, some, List, [], ◌∷◌, ◌++◌, filter, if◌then◌else◌, on_some,
}
use kaupo.Base.Int.{ℤ, pos, negsuc, ltb_ℤ}
use kaupo.Base.Dict.{insert}
use kaupo.Domain.{buy, sell, market, open_status, rejected, eq_string}
use kaupo.Reconcile.{ExchangeTrade, LiveFill}
use kaupo.Live.State.{
  LiveOrder, Placing, placed, post_only_rejected, call_failed, Answers, KrakenVenue,
}
use kaupo.Live.Size.{Sized, send, skip, size_for_exchange}
use kaupo.Live.Orders.{write_order, retire}
use kaupo.Live.Candle.{poll_trades, fills_from}

-- What `liquidate` returns, or the error that it raises.
pub data Liquidated : Type 0 where
  closed : LiveFill → Liquidated
  not_placeable not_placed no_trades : Liquidated

abbrev pub size_of : ℤ → ℤ
size_of (pos n) = pos n
size_of (negsuc n) = pos (suc n)

-- The order that closes a signed size: a positive one is sold.
abbrev pub closing_order : (id : String) (size : ℤ) (ts : ℕ) → LiveOrder
closing_order id size ts = record {
  id = id;
  side = if ltb_ℤ (pos 0) size then sell else buy;
  order_type = market;
  size = size_of size;
  limit_price = none;
  created_ts = ts;
  status = open_status;
  exchange_order_id = none;
  filled_price = none;
  filled_ts = none;
  fee = pos 0;
  taker_or_maker = none;
  fee_currency = none;
}

abbrev pub first : List LiveFill → Option LiveFill
first [] = none
first (f ∷ _) = some f

-- The fills of one order.
abbrev pub fills_of : String → List LiveFill → List LiveFill
fills_of id fills = filter (λ (f : LiveFill). str_eq f.order_id id) fills

-- The polls, each with what the exchange answers to it, until one has a fill of the order.
unfoldable pub await_fill : List Answers → String → KrakenVenue → Liquidated × KrakenVenue
unfolding poll_trades fills_from
await_fill [] id v = (no_trades, v)
await_fill (x ∷ xs) id v =
    let polled : List ExchangeTrade × KrakenVenue = poll_trades x v in
    let told : List LiveFill × KrakenVenue = fills_from polled.0 polled.1 in
    let later : Liquidated × KrakenVenue = await_fill xs id told.1 in
    on_some (first (fills_of id told.0)) later (λ f. (closed f, told.1))

-- The order is written, and its trades are looked for.
abbrev pub ready : LiveOrder → (close : ℤ) → KrakenVenue → KrakenVenue
ready o close v =
    let written : KrakenVenue = write_order o v in
    record written { new_orders = written.new_orders ++ o ∷ []; last_price = some close }

abbrev pub watching : LiveOrder → (txid : String) → KrakenVenue → KrakenVenue
watching o txid w = record (write_order (record o { exchange_order_id = some txid }) w) {
  order_by_txid = insert txid o.id w.order_by_txid;
}

unfoldable pub await_placed :
    List Answers → LiveOrder → Placing → KrakenVenue → Liquidated × KrakenVenue
unfolding await_fill
await_placed xs o (placed txid) w = await_fill xs o.id (watching o txid w)
await_placed xs o post_only_rejected w = (not_placed, w)
await_placed xs o call_failed w = (not_placed, w)

unfoldable pub close_with :
    Answers → List Answers → LiveOrder → Sized → KrakenVenue → Liquidated × KrakenVenue
unfolding await_placed retire
close_with x xs o (skip _) w = (not_placeable, retire rejected o w)
close_with x xs o (send sized) w = await_placed xs o (x.create_order o sized none) w

-- `liquidate`, with the id of the order that it makes and the answers to at most
-- `LIQUIDATION_POLL_ATTEMPTS` polls.
unfoldable pub liquidate :
    Answers
    → List Answers
    → (id : String) (size : ℤ) (ts : ℕ) (close : ℤ) → KrakenVenue
    → Liquidated × KrakenVenue
unfolding size_for_exchange close_with
liquidate x xs id size ts close v =
    let o : LiveOrder = closing_order id size ts in
    let w : KrakenVenue = ready o close v in close_with x xs o (size_for_exchange x.market o w) w
