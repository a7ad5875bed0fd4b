-- ===== src/Live/State.antt =====
-- The state of `KrakenVenue` (kaupo/venues/kraken_live.py), the orders that it tracks, and what
-- the exchange answers to its calls. Times are in milliseconds, order ids are texts.
use kaupo.Base.{ℕ, String, Bool, Option, List}
use kaupo.Base.Int.{ℤ}
use kaupo.Base.Dict.{Dict}
use kaupo.Domain.{Pair, Side, OrderType, OrderStatus, Timeframe}
use kaupo.Reconcile.{ExchangeTrade}

pub record LiveOrder : Type 0 where
  pub id : String
  pub side : Side
  pub order_type : OrderType
  pub size : ℤ
  pub limit_price : Option ℤ
  pub created_ts : ℕ
  pub status : OrderStatus
  pub exchange_order_id : Option String
  pub filled_price : Option ℤ
  pub filled_ts : Option ℕ
  pub fee : ℤ
  pub taker_or_maker : Option String
  pub fee_currency : Option String

pub record MarketMeta : Type 0 where
  pub amount_step : ℤ
  pub price_step : ℤ
  pub min_amount : ℤ
  pub min_cost : ℤ

-- `_LiveOrder`; the order itself is looked up by its id.
pub record Tracked : Type 0 where
  pub txid : String
  pub placed_size : ℤ

-- How the exchange answers to an order.
pub data Placing : Type 0 where
  placed : (txid : String) → Placing
  post_only_rejected call_failed : Placing

-- What the exchange answers while one operation runs, a failed call being `none` or `false`.
pub record Answers : Type 0 where
  pub now : ℕ
  pub market : Option MarketMeta
  pub create_order : LiveOrder → (sized : ℤ) → (expires_at : Option ℕ) → Placing
  pub cancel_order : String → Bool
  pub my_trades : Option ℕ → Option (List ExchangeTrade)

pub record KrakenVenue : Type 0 where
  pub pair : Pair
  pub timeframe : Timeframe
  pub max_notional : ℤ
  pub orders : Dict String LiveOrder
  pub open_orders : Dict String Tracked
  pub order_by_txid : Dict String String
  pub expired : List LiveOrder
  pub new_orders : List LiveOrder
  pub last_price : Option ℤ
  pub trades_cursor_ms : Option ℕ
  pub seen_at_cursor : List String
