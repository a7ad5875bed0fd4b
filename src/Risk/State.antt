-- ===== src/Risk/State.antt =====
-- `RiskConfig`, `RiskState`, `RiskManager` and its time-based checks (kaupo/risk/manager.py).
use text.Mathlib.Text.{◌==◌ as str_eq}
use kaupo.Base.{
  ℕ, ◌+◌, ◌-◌, ◌/◌, String, Bool, true, false, not, ◌||◌, Option, none, some, List, [], ◌∷◌, ◌++◌,
  if◌then◌else◌, ltb, leb, ◌==◌, get_or, length,
}
use kaupo.Base.Int.{ℤ, pos, ◌+ℤ◌, ◌-ℤ◌, ◌*ℤ◌, neg, min_ℤ, ltb_ℤ, leb_ℤ, eqb_ℤ}
use kaupo.Base.Dict.{Dict, lookup}
use kaupo.Domain.{Pair, Position, Side, Timestamp, eq_pair, market_value}

-- Rates are in basis points; `leverage` too, so that 1x is 10_000.
pub record RiskConfig : Type 0 where
  pub max_position_quote : ℤ
  pub max_gross_exposure_quote : ℤ
  pub max_daily_loss_quote : ℤ
  pub min_order_quote : ℤ
  pub max_consecutive_losses : ℕ
  pub cooldown_candles : ℕ
  pub leverage : ℤ
  pub instrument : String
  pub taker_fee_bps : ℤ
  pub slippage_bps : ℤ
  pub price_cushion_bps : ℤ

pub data ConfigError : Type 0 where
  leverage_not_one unknown_instrument : ConfigError

-- `RiskConfig.__post_init__`: `none` is acceptance.
unfoldable pub config_error : RiskConfig → Option ConfigError
config_error c =
    if not (eqb_ℤ c.leverage (pos 10_000))
    then some leverage_not_one
    else if str_eq c.instrument "spot" || str_eq c.instrument "perp"
    then none
    else some unknown_instrument

-- `cost_rate`, in basis points
unfoldable pub cost_bps : RiskConfig → ℤ
cost_bps c = c.taker_fee_bps +ℤ c.slippage_bps +ℤ c.price_cushion_bps

pub record RiskState : Type 0 where
  pub ts : Timestamp
  pub cash : ℤ
  pub positions : Dict Pair Position
  pub prices : Dict Pair ℤ
  pub equity : ℤ

-- Why an intent is refused; the program writes these as text.
pub data RejectReason : Type 0 where
  no_price no_position below_minimum over_cap ledger_rejected foreign_pair : RejectReason
  cooling_down : ℕ → RejectReason

-- The text of `halt_reason`: empty, or what the rail that halted the run writes.
pub data HaltReason : Type 0 where
  no_reason liquidated : HaltReason
  daily_loss : (floor day_start : ℤ) → HaltReason

pub record RiskManager : Type 0 where
  pub config : RiskConfig
  pub halted : Bool
  pub halt_reason : HaltReason
  pub day : Option ℕ
  pub day_start_floor : ℤ
  pub last_floor : Option ℤ
  pub consecutive_losses : ℕ
  pub cooldown_remaining : ℕ
  pub rejections : List (Side × Pair × RejectReason)

-- `RiskManager(config)`
unfoldable pub fresh : RiskConfig → RiskManager
fresh c = record {
  config = c;
  halted = false;
  halt_reason = no_reason;
  day = none;
  day_start_floor = pos 0;
  last_floor = none;
  consecutive_losses = 0;
  cooldown_remaining = 0;
  rejections = [];
}

-- `deque(maxlen=1000).append`: a full deque drops its oldest entry.
abbrev pub max_rejections : ℕ
max_rejections = 1000

unfoldable pub drop_oldest {ℓ} : {A : Type ℓ} → List A → List A
drop_oldest [] = []
drop_oldest (_ ∷ xs) = xs

unfoldable pub push_rejection : Side × Pair × RejectReason → RiskManager → RiskManager
unfolding drop_oldest
push_rejection r m = record m {
  rejections =
      (if ltb (length m.rejections) max_rejections then m.rejections else drop_oldest m.rejections)
      ++ r ∷ [];
}

-- `_floor_equity`
floor_from : RiskState → ℤ → Dict Pair Position → ℤ
unfolding market_value
floor_from s acc [] = acc
floor_from s acc ((pair, p) ∷ d) =
    floor_from s
      (acc
        +ℤ min_ℤ (p.avg_entry *ℤ p.size) (market_value p (get_or (lookup pair s.prices) (pos 0))))
      d

unfoldable pub floor_equity : RiskState → ℤ
unfolding floor_from
floor_equity s = floor_from s s.cash s.positions

-- The calendar day of a UTC timestamp; the program keeps it as (year, month, day).
unfoldable pub day_of : Timestamp → ℕ
day_of ts = ts / 86_400

abbrev same_day : Option ℕ → ℕ → Bool
same_day none d = false
same_day (some e) d = e == d

-- "A new day starts at the last observed floor."
unfoldable pub roll_day : ℕ → ℤ → RiskManager → RiskManager
roll_day d floor m =
    if same_day m.day d
    then m
    else record m { day = some d; day_start_floor = get_or m.last_floor floor }

unfoldable pub check_loss : ℤ → RiskManager → RiskManager
check_loss floor m =
    if leb_ℤ (floor -ℤ m.day_start_floor) (neg m.config.max_daily_loss_quote)
    then record m { halted = true; halt_reason = daily_loss floor m.day_start_floor }
    else m

-- `RiskManager.on_candle`: the new state, and whether the run may continue.
unfoldable pub on_candle : RiskState → RiskManager → Bool × RiskManager
unfolding floor_equity day_of roll_day check_loss
on_candle s m =
    let floor : ℤ = floor_equity s in
    let rolled : RiskManager = roll_day (day_of s.ts) floor m in
    let cooled : RiskManager = record rolled {
      last_floor = some floor;
      cooldown_remaining = rolled.cooldown_remaining - 1;
    } in
    let m' : RiskManager = check_loss floor cooled in (not m'.halted, m')

-- `RiskManager.notify_trade_result`
unfoldable pub notify_trade_result : ℤ → RiskManager → RiskManager
notify_trade_result pnl m =
    let losses : ℕ = m.consecutive_losses + 1 in
    if ltb_ℤ pnl (pos 0)
    then (if leb m.config.max_consecutive_losses losses
        then record m { cooldown_remaining = m.config.cooldown_candles; consecutive_losses = 0 }
        else record m { consecutive_losses = losses })
    else if ltb_ℤ (pos 0) pnl
    then record m { consecutive_losses = 0 }
    else m
