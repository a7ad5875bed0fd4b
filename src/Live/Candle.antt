-- ===== src/Live/Candle.antt =====
-- `on_candle`, `_poll_trades`, `_fills_from`, `_finalize`, `_prune_orders`, `cancel_all` and the drains of
-- `KrakenVenue` (kaupo/venues/kraken_live.py).
use text.Mathlib.Text.{◌==◌ as str_eq}
use kaupo.Base.{
  ℕ, String, Bool, true, false, not, ◌||◌, Option, none, some, List, [], ◌∷◌, ◌++◌, map, filter,
  any, for_each, ◌==◌, if◌then◌else◌, on_some,
}
use kaupo.Base.Int.{ℤ, pos}
use kaupo.Base.Dict.{Dict, lookup, insert, contains}
use kaupo.Domain.{market, OrderStatus, open_status, filled, cancelled, eq_string}
use kaupo.Reconcile.{
  ExchangeTrade, LiveFill, Group, aggregate_trades, unattributed_order_id, by_txid, newest,
}
use kaupo.Live.State.{LiveOrder, Tracked, Answers, KrakenVenue}
use kaupo.Live.Orders.{write_order, retire}

abbrev pub is_seen : List String → ExchangeTrade → Bool
is_seen seen t = any (str_eq t.id) seen

abbrev pub ids_of : List ExchangeTrade → List String
ids_of ts = map (λ (t : ExchangeTrade). t.id) ts

abbrev pub at_cursor : Option ℕ → ℕ → Bool
at_cursor none ts = false
at_cursor (some c) ts = ts == c

-- The cursor after fresh trades, of which there is one.
unfoldable pub advance : ExchangeTrade → List ExchangeTrade → KrakenVenue → KrakenVenue
advance t ts v =
    let last : ℕ = newest t.ts ts in
    if at_cursor v.trades_cursor_ms last
    then record v { seen_at_cursor = v.seen_at_cursor ++ ids_of (t ∷ ts) }
    else record v {
      trades_cursor_ms = some last;
      seen_at_cursor = ids_of (filter (λ (t : ExchangeTrade). t.ts == last) (t ∷ ts));
    }

unfoldable pub take_fresh : List ExchangeTrade → KrakenVenue → KrakenVenue
unfolding advance
take_fresh [] v = v
take_fresh (t ∷ ts) v = advance t ts v

-- `_poll_trades`: the trades since the cursor that were not seen.
unfoldable pub poll_trades : Answers → KrakenVenue → List ExchangeTrade × KrakenVenue
unfolding take_fresh
poll_trades x v =
    on_some (x.my_trades v.trades_cursor_ms) ([], v)
      λ trades.
        let fresh : List ExchangeTrade =
          filter (λ (t : ExchangeTrade). not (is_seen v.seen_at_cursor t)) trades in
        (fresh, take_fresh fresh v)

-- `_apply_fill_to_order`
unfoldable pub apply_fill_to_order : LiveOrder → LiveFill → LiveOrder
apply_fill_to_order o f = record o {
  status = filled;
  filled_price = some f.price;
  filled_ts = some f.ts;
  fee = f.fee;
  taker_or_maker = f.taker_or_maker;
  fee_currency = f.fee_currency;
}

-- `_adopt_unattributed`
unfoldable pub adopt_unattributed : String → Group → KrakenVenue → LiveFill × KrakenVenue
unfolding unattributed_order_id aggregate_trades apply_fill_to_order
adopt_unattributed txid (t, ts) v =
    let order_id : String = unattributed_order_id txid in
    let f : LiveFill = aggregate_trades order_id v.pair t ts in
    let o : LiveOrder =
      apply_fill_to_order
        (record {
          id = order_id;
          side = f.side;
          order_type = market;
          size = f.size;
          limit_price = none;
          created_ts = f.ts;
          status = open_status;
          exchange_order_id = some txid;
          filled_price = none;
          filled_ts = none;
          fee = pos 0;
          taker_or_maker = none;
          fee_currency = none;
        })
        f in
    let written : KrakenVenue = write_order o v in
    (
      f,
      record written {
        order_by_txid = insert txid order_id v.order_by_txid;
        new_orders = written.new_orders ++ o ∷ [];
      },
    )

unfoldable pub fill_of_group : String × Group → KrakenVenue → LiveFill × KrakenVenue
unfolding adopt_unattributed aggregate_trades apply_fill_to_order
fill_of_group (txid, (t, ts)) v =
    on_some (lookup txid v.order_by_txid) (adopt_unattributed txid (t, ts) v) λ order_id.
      let f : LiveFill = aggregate_trades order_id v.pair t ts in
      (f, on_some (lookup order_id v.orders) v (λ o. write_order (apply_fill_to_order o f) v))

unfoldable pub fills_of_groups : Dict String Group → KrakenVenue → List LiveFill × KrakenVenue
unfolding fill_of_group
fills_of_groups [] v = ([], v)
fills_of_groups (g ∷ gs) v =
    let first : LiveFill × KrakenVenue = fill_of_group g v in
    let rest : List LiveFill × KrakenVenue = fills_of_groups gs first.1 in
    (first.0 ∷ rest.0, rest.1)

-- `_fills_from`
unfoldable pub fills_from : List ExchangeTrade → KrakenVenue → List LiveFill × KrakenVenue
unfolding by_txid fills_of_groups
fills_from trades v = fills_of_groups (by_txid trades []) v

abbrev pub is_filled : LiveOrder → Bool
is_filled o = elim o.status [ OrderStatus.filled ↦ true | _ ↦ false ]

-- One order of a candle: it is still open, filled, or expired.
unfoldable pub finalize_one :
    (still_open : Dict String Tracked) → String × Tracked → KrakenVenue → KrakenVenue
unfolding retire
finalize_one still_open (order_id, _) v =
    on_some (lookup order_id v.orders) v
      λ o. if contains order_id still_open || is_filled o then v else retire cancelled o v

-- `_finalize`
unfoldable pub finalize : (still_open : Dict String Tracked) → KrakenVenue → KrakenVenue
unfolding finalize_one
finalize still_open v = record (for_each (finalize_one still_open) v.open_orders v) {
  open_orders = still_open;
}

-- `_cancel_tracked`: the orders whose cancel failed.
unfoldable pub cancel_tracked : Answers → KrakenVenue → Dict String Tracked
cancel_tracked x v = filter (λ (o : String × Tracked). not (x.cancel_order o.1.txid)) v.open_orders

abbrev pub is_closed : OrderStatus → Bool
is_closed filled = true
is_closed cancelled = true
is_closed _ = false

-- `_prune_orders`
unfoldable pub prune_orders : KrakenVenue → KrakenVenue
prune_orders v =
    let kept : Dict String LiveOrder =
      filter (λ (o : String × LiveOrder). contains o.0 v.open_orders || not (is_closed o.1.status))
        v.orders in
    record v {
      orders = kept;
      order_by_txid =
          filter
            (λ (o : String × String).
              any (λ (l : String × Tracked). str_eq o.0 l.1.txid) v.open_orders
              || contains o.1 kept)
            v.order_by_txid;
    }

-- `on_candle`: cancel what is open, then read the trades.
unfoldable pub on_candle : Answers → (close : ℤ) → KrakenVenue → List LiveFill × KrakenVenue
unfolding prune_orders cancel_tracked poll_trades fills_from finalize
on_candle x close v =
    let pruned : KrakenVenue = prune_orders (record v { last_price = some close }) in
    let still_open : Dict String Tracked = cancel_tracked x pruned in
    let polled : List ExchangeTrade × KrakenVenue = poll_trades x pruned in
    let told : List LiveFill × KrakenVenue = fills_from polled.0 polled.1 in
    (told.0, finalize still_open told.1)

unfoldable pub drain_new_orders : KrakenVenue → List LiveOrder × KrakenVenue
drain_new_orders v = (v.new_orders, record v { new_orders = [] })

unfoldable pub drain_expired : KrakenVenue → List LiveOrder × KrakenVenue
drain_expired v = (v.expired, record v { expired = [] })

-- The tracked orders of `cancel_all`, each cancelled.
unfoldable pub cancel_open : Dict String Tracked → KrakenVenue → List LiveOrder × KrakenVenue
cancel_open [] v = ([], v)
cancel_open ((order_id, _) ∷ more) v =
    let rest : List LiveOrder × KrakenVenue = cancel_open more v in
    on_some (lookup order_id v.orders) rest λ o.
      let gone : LiveOrder = record o { status = cancelled } in
      let later : List LiveOrder × KrakenVenue = cancel_open more (write_order gone v) in
      (gone ∷ later.0, later.1)

-- `cancel_all`; the sweep of orders that are not tracked calls the exchange and changes no state.
unfoldable pub cancel_all : KrakenVenue → List LiveOrder × KrakenVenue
unfolding cancel_open
cancel_all v =
    let told : List LiveOrder × KrakenVenue = cancel_open v.open_orders v in
    (told.0, record told.1 { open_orders = [] })
