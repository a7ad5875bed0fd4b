-- ===== src/Reconcile/State.antt =====
-- `ExchangeTrade` (kaupo/venues/kraken_client.py), the fills and orders that reconciliation writes
-- (kaupo/core/live_reconcile.py), and what the exchange and the database answer. Order ids are texts
-- here, and times are in milliseconds.
use kaupo.Base.{ℕ, String, Option, List}
use kaupo.Base.Int.{ℤ}
use kaupo.Base.Dict.{Dict}
use kaupo.Domain.{Pair, Side}

pub record ExchangeTrade : Type 0 where
  pub id : String
  pub txid : String
  pub ts : ℕ
  pub side : Side
  pub price : ℤ
  pub size : ℤ
  pub fee : ℤ
  pub fee_currency : String
  pub taker_or_maker : Option String

pub record LiveFill : Type 0 where
  pub order_id : String
  pub pair : Pair
  pub side : Side
  pub ts : ℕ
  pub price : ℤ
  pub size : ℤ
  pub fee : ℤ
  pub taker_or_maker : Option String
  pub fee_currency : Option String

-- The order row of a recovered fill, a filled market order.
pub record RecoveredOrder : Type 0 where
  pub pair : Pair
  pub side : Side
  pub size : ℤ
  pub reason : String
  pub id : String
  pub created_ts : ℕ
  pub exchange_order_id : String
  pub filled_price : ℤ
  pub filled_ts : ℕ
  pub fee : ℤ

-- What the exchange answers; balances that cannot be read are `none`.
pub record Exchange : Type 0 where
  pub open_order_ids : List String
  pub my_trades : ℤ → List ExchangeTrade
  pub balances : Option (Dict String ℤ)

-- What the database answers: the newest recorded fill of a live run, the order that a txid belongs
-- to, and the filled size on record of an order.
pub record Books : Type 0 where
  pub last_fill_ts : Option ℕ
  pub order_of : String → Option String
  pub recorded : String → Option ℤ

pub record ReconcileResult : Type 0 where
  pub missed : List (RecoveredOrder × LiveFill)
  pub balances : Dict String ℤ
  pub trades_cursor_ms : ℕ
  pub seen_trade_ids : List String
