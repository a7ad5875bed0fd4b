-- ===== src/Paper/State.antt =====
-- `class PaperVenue` of kaupo/venues/paper.py: its state, the queues and what reads them.
-- An order is an object that several lists share: `write` shows a change of it in each list
-- whose orders are read again for what changes. The lists of protections read only what an
-- order was submitted with.
use text.Mathlib.Text.{◌==◌ as str_eq}
use kaupo.Base.{
  String, Bool, true, false, not, Option, none, some, List, [], ◌∷◌, ◌++◌, map, filter,
  if◌then◌else◌, ◌==◌,
}
use kaupo.Base.Int.{ℤ}
use kaupo.Base.Dict.{Dict, lookup, insert}
use kaupo.Domain.{
  Pair, Order, OrderId, OrderType, OrderStatus, market, limit, open_status, filled, cancelled,
  rejected, eq_order_id,
}

-- How a limit that is marketable at posting is treated.
pub data MarketableLimit : Type 0 where
  as_maker as_taker skip : MarketableLimit

-- The check of `__init__`; `none` is the ValueError.
unfoldable pub parse_marketable_limit : String → Option MarketableLimit
parse_marketable_limit v =
    if str_eq v "maker"
    then some as_maker
    else if str_eq v "taker"
    then some as_taker
    else if str_eq v "skip"
    then some skip
    else none

pub record Protection : Type 0 where
  pub stop_loss : Option ℤ
  pub take_profit : Option ℤ

-- The entry order of a protection, and its levels.
abbrev pub Armed : Type 0
Armed = Order × Protection

-- The rates are in basis points. `next_id` is the id of the next order that the venue creates.
pub record PaperVenue : Type 0 where
  pub taker_bps : ℤ
  pub maker_bps : ℤ
  pub slip_bps : ℤ
  pub marketable_limit : MarketableLimit
  pub market_queue : List Order
  pub limit_open : List Order
  pub expired : List Order
  pub protections : List Armed
  pub newly_armed : List Armed
  pub prot_by_exit : Dict OrderId Armed
  pub orders : Dict OrderId Order
  pub new_orders : List Order
  pub positions : Dict Pair ℤ
  pub next_id : OrderId

-- `__init__`
unfoldable pub new_venue :
    (taker_bps maker_bps slip_bps : ℤ) → MarketableLimit → OrderId → PaperVenue
new_venue taker_bps maker_bps slip_bps mode next_id = record {
  taker_bps = taker_bps;
  maker_bps = maker_bps;
  slip_bps = slip_bps;
  marketable_limit = mode;
  market_queue = [];
  limit_open = [];
  expired = [];
  protections = [];
  newly_armed = [];
  prot_by_exit = [];
  orders = [];
  new_orders = [];
  positions = [];
  next_id = next_id;
}

abbrev pub is_market : OrderType → Bool
is_market market = true
is_market limit = false

unfoldable pub submit : Order → PaperVenue → PaperVenue
submit o v =
    let known : PaperVenue = record v { orders = insert o.id o v.orders } in
    if is_market o.order_type
    then record known { market_queue = v.market_queue ++ o ∷ [] }
    else record known { limit_open = v.limit_open ++ o ∷ [] }

unfoldable pub get_order : OrderId → PaperVenue → Option Order
get_order order_id v = lookup order_id v.orders

unfoldable pub drain_new_orders : PaperVenue → List Order × PaperVenue
drain_new_orders v = (v.new_orders, record v { new_orders = [] })

unfoldable pub drain_expired : PaperVenue → List Order × PaperVenue
drain_expired v = (v.expired, record v { expired = [] })

-- One object, seen from a list or from the dict of orders.
abbrev pub written : Order → Order → Order
written o x = if x.id == o.id then o else x

abbrev pub written_at : Order → OrderId × Order → OrderId × Order
written_at o (k, x) = (k, written o x)

unfoldable pub write : Order → PaperVenue → PaperVenue
write o v = record v {
  orders = map (written_at o) v.orders;
  new_orders = map (written o) v.new_orders;
  expired = map (written o) v.expired;
}

unfoldable pub write_all : List Order → PaperVenue → PaperVenue
unfolding write
write_all [] v = v
write_all (o ∷ os) v = write_all os (write o v)

abbrev pub cancel : Order → Order
cancel o = record o { status = cancelled }

unfoldable pub cancel_all : PaperVenue → List Order × PaperVenue
unfolding write_all
cancel_all v =
    let gone : List Order = map cancel (v.market_queue ++ v.limit_open) in
    (gone, record (write_all gone v) { market_queue = []; limit_open = []; protections = [] })

-- FILLED or CANCELLED
abbrev pub is_pruned : OrderStatus → Bool
is_pruned filled = true
is_pruned cancelled = true
is_pruned open_status = false
is_pruned rejected = false

-- `_prune_orders`
unfoldable pub prune_orders : PaperVenue → PaperVenue
prune_orders v = record v { orders = filter (λ (_, o). not (is_pruned o.status)) v.orders }
