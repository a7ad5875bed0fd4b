-- ===== src/Domain/Types.antt =====
-- The enums and dataclasses of kaupo/domain.py.
use text.Mathlib.Text.{◌==◌ as str_eq}
use text.Mathlib.TextEquality.{eq_iff}
use kaupo.Base.{
  ℕ, String, ◌≡◌, refl, ◌↔◌, ◌⊎◌, inl, inr, Bool, true, false, ◌&&◌, Option, none, some, arith,
  ==_iff, ◌==◌, if◌then◌else◌,
}
use kaupo.Base.Int.{ℤ, pos, ◌*ℤ◌, eqb_ℤ}
use kaupo.Base.Dict.{Eq}

-- `uuid4().hex` never repeats; ids are numbers from a counter.
abbrev pub OrderId : Type 0
OrderId = ℕ

abbrev pub Timestamp : Type 0
Timestamp = ℕ

pub data Timeframe : Type 0 where
  m1 m5 m15 m30 h1 h4 d1 : Timeframe

-- `Timeframe.seconds`
unfoldable pub seconds : Timeframe → ℕ
seconds m1 = 60
seconds m5 = 300
seconds m15 = 900
seconds m30 = 1800
seconds h1 = 3600
seconds h4 = 14400
seconds d1 = 86400

-- `Timeframe.value`
unfoldable pub timeframe_value : Timeframe → String
timeframe_value m1 = "1m"
timeframe_value m5 = "5m"
timeframe_value m15 = "15m"
timeframe_value m30 = "30m"
timeframe_value h1 = "1h"
timeframe_value h4 = "4h"
timeframe_value d1 = "1d"

-- `Timeframe.parse`; `none` is the ValueError.
unfoldable pub parse_timeframe : String → Option Timeframe
parse_timeframe v =
    if str_eq v "1m"
    then some m1
    else if str_eq v "5m"
    then some m5
    else if str_eq v "15m"
    then some m15
    else if str_eq v "30m"
    then some m30
    else if str_eq v "1h"
    then some h1
    else if str_eq v "4h"
    then some h4
    else if str_eq v "1d"
    then some d1
    else none

pub record Pair : Type 0 where
  pub base : String
  pub quote : String

unfoldable pub pair_eq : Pair → Pair → Bool
pair_eq a b = str_eq a.base b.base && str_eq a.quote b.quote

pub pair_eq_iff : (a b : Pair) → (pair_eq a b ≡ true) ↔ (a ≡ b)
unfolding pair_eq
pair_eq_iff a b = ground (arith, eq_iff a.base b.base, eq_iff a.quote b.quote)

instance abbrev pub eq_pair : Eq Pair
eq_pair = record { beq = pair_eq; beq_iff = pair_eq_iff }

instance abbrev pub eq_string : Eq String
eq_string = record { beq = str_eq; beq_iff = eq_iff }

instance abbrev pub eq_order_id : Eq ℕ
eq_order_id = record { beq = ◌==◌; beq_iff = ==_iff }

pub record Candle : Type 0 where
  pub pair : Pair
  pub timeframe : Timeframe
  pub ts : Timestamp
  pub open_price : ℤ
  pub high : ℤ
  pub low : ℤ
  pub close : ℤ
  pub volume : ℤ

pub data Side : Type 0 where
  buy sell : Side

-- `x if side is Side.BUY else y`
abbrev pub on_side {ℓ} : {A : Type ℓ} → Side → A → A → A
on_side buy x y = x
on_side sell x y = y

pub on_side_ind {ℓ κ} :
    {A : Type ℓ} (Q : A → Type κ) (s : Side) {x y : A}
    → (s ≡ buy → Q x)
    → (s ≡ sell → Q y)
    → Q (on_side s x y)
on_side_ind Q buy f g = f refl
on_side_ind Q sell f g = g refl

pub Side-cases : (s : Side) → (s ≡ buy) ⊎ (s ≡ sell)
Side-cases buy = inl refl
Side-cases sell = inr refl

pub data OrderType : Type 0 where
  market limit : OrderType

pub data OrderStatus : Type 0 where
  open_status filled cancelled rejected : OrderStatus

-- The fee tier of a fill, "maker" or "taker".
pub data Tier : Type 0 where
  maker taker : Tier

pub record Order : Type 0 where
  pub pair : Pair
  pub side : Side
  pub order_type : OrderType
  pub size : ℤ
  pub limit_price : Option ℤ
  pub stop_loss : Option ℤ
  pub take_profit : Option ℤ
  pub id : OrderId
  pub status : OrderStatus
  pub created_ts : Timestamp
  pub filled_price : Option ℤ
  pub filled_ts : Option Timestamp
  pub fee : ℤ
  pub taker_or_maker : Option Tier
  pub fee_currency : Option String

pub record Fill : Type 0 where
  pub order_id : OrderId
  pub pair : Pair
  pub side : Side
  pub ts : Timestamp
  pub price : ℤ
  pub size : ℤ
  pub fee : ℤ
  pub taker_or_maker : Option Tier
  pub fee_currency : Option String

-- `Fill.quote_amount`
unfoldable pub quote_amount : Fill → ℤ
quote_amount f = f.price *ℤ f.size

pub record Position : Type 0 where
  pub pair : Pair
  pub size : ℤ
  pub avg_entry : ℤ
  pub entry_ts : Option Timestamp

-- `Position(pair=pair)`
abbrev pub flat : Pair → Position
flat p = record { pair = p; size = pos 0; avg_entry = pos 0; entry_ts = none }

-- `Position.market_value`
unfoldable pub market_value : Position → ℤ → ℤ
market_value p price = p.size *ℤ price

-- The truth of a `float | None`: neither None nor 0.0.
abbrev pub truthy : Option ℤ → Bool
truthy none = false
truthy (some x) = if eqb_ℤ x (pos 0) then false else true
