-- ===== src/Risk/Spot.antt =====
-- `RiskManager.assess` of a spot run (kaupo/risk/manager.py).
use kaupo.Base.{
  ltb, Bool, true, false, not, ◌&&◌, Option, List, [], ◌∷◌, if◌then◌else◌, get_or, on_some,
}
use kaupo.Base.Int.{ℤ, pos, ◌+ℤ◌, ◌-ℤ◌, ◌*ℤ◌, ◌/ℤ◌, min_ℤ, ltb_ℤ, leb_ℤ}
use kaupo.Base.Dict.{Dict, lookup, insert}
use kaupo.Domain.{Pair, Position, on_side, OrderIntent, eq_pair, flat, market_value, truthy, total}
use kaupo.Risk.State.{
  RiskConfig, RiskState, RiskManager, RejectReason, no_price, no_position, below_minimum,
  cooling_down, cost_bps, push_rejection,
}

pub data Decision : Type 0 where
  approved resized rejected : Decision

-- The `reason` text of an assessment.
pub data Note : Type 0 where
  no_note clamped_to_position clamped_to_budget clamped_to_cap : Note
  refused : RejectReason → Note

pub record Assessment : Type 0 where
  pub intent : OrderIntent
  pub decision : Decision
  pub note : Note
  pub size : ℤ

-- What `_reject` returns; `record_rejection` below is the append that it makes.
unfoldable pub reject : OrderIntent → RejectReason → Assessment
reject i r = record { intent = i; decision = rejected; note = refused r; size = pos 0 }

abbrev pub is_rejected : Decision → Bool
is_rejected rejected = true
is_rejected _ = false

record_rejection : Assessment → RiskManager → RiskManager
unfolding push_rejection
record_rejection a m = elim a.note [
  | refused r ↦ push_rejection (a.intent.side, a.intent.pair, r) m
  | _ ↦ m
]

-- What the loop of `assess` has folded so far.
pub record Running : Type 0 where
  pub cash_left : ℤ
  pub exposure_added : Dict Pair ℤ
  pub sold : Dict Pair ℤ

-- `intent.limit_price or state.prices.get(intent.pair)`
unfoldable pub price_for : OrderIntent → RiskState → Option ℤ
price_for i s = if truthy i.limit_price then i.limit_price else lookup i.pair s.prices

abbrev pub sum_values : Dict Pair ℤ → ℤ
sum_values [] = pos 0
sum_values ((_, x) ∷ d) = x +ℤ sum_values d

-- The market value of every position, at the last known prices.
unfoldable pub gross_value : RiskState → Dict Pair Position → ℤ
unfolding market_value
gross_value s [] = pos 0
gross_value s ((pair, p) ∷ d) =
    market_value p (get_or (lookup pair s.prices) (pos 0)) +ℤ gross_value s d

-- `size < intent.size * 0.999`
unfoldable pub shrunk : ℤ → ℤ → Bool
shrunk size wanted = ltb_ℤ (pos 1000 *ℤ size) (pos 999 *ℤ wanted)

unfoldable pub assess_sell : RiskConfig → OrderIntent → RiskState → Running → ℤ → Assessment
unfolding reject
assess_sell cfg i s r price =
    let p : Position = get_or (lookup i.pair s.positions) (flat i.pair) in
    let remaining : ℤ = p.size -ℤ total i.pair r.sold in
    let size : ℤ = min_ℤ i.size remaining in
    let full_exit : Bool = leb_ℤ p.size size in
    if leb_ℤ size (pos 0)
    then reject i no_position
    else if not full_exit && ltb_ℤ (size *ℤ price) cfg.min_order_quote
    then reject i below_minimum
    else if ltb_ℤ size i.size
    then record { intent = i; decision = resized; note = clamped_to_position; size = size }
    else record { intent = i; decision = approved; note = no_note; size = size }

-- The three caps of a buy, in quote currency.
unfoldable pub headroom_pair : RiskConfig → OrderIntent → RiskState → Running → ℤ → ℤ
unfolding market_value
headroom_pair cfg i s r price =
    cfg.max_position_quote
    -ℤ market_value (get_or (lookup i.pair s.positions) (flat i.pair)) price
    -ℤ total i.pair r.exposure_added

unfoldable pub headroom_gross : RiskConfig → RiskState → Running → ℤ
unfolding gross_value
headroom_gross cfg s r =
    cfg.max_gross_exposure_quote -ℤ (gross_value s s.positions +ℤ sum_values r.exposure_added)

-- `cash_left / (1 + cost_rate)`
unfoldable pub affordable : RiskConfig → ℤ → ℤ
unfolding cost_bps
affordable cfg cash_left = cash_left *ℤ pos 10_000 /ℤ (pos 10_000 +ℤ cost_bps cfg)

unfoldable pub budget_for : RiskConfig → OrderIntent → RiskState → Running → ℤ → ℤ
unfolding headroom_pair headroom_gross affordable
budget_for cfg i s r price =
    min_ℤ (min_ℤ (headroom_pair cfg i s r price) (headroom_gross cfg s r))
      (affordable cfg r.cash_left)

unfoldable pub assess_buy : RiskConfig → OrderIntent → RiskState → Running → ℤ → Assessment
unfolding reject budget_for shrunk
assess_buy cfg i s r price =
    let budget : ℤ = budget_for cfg i s r price in
    let size : ℤ = if ltb_ℤ (pos 0) budget then min_ℤ i.size (budget /ℤ price) else pos 0 in
    if ltb_ℤ (size *ℤ price) cfg.min_order_quote
    then reject i below_minimum
    else if shrunk size i.size
    then record { intent = i; decision = resized; note = clamped_to_budget; size = size }
    else record { intent = i; decision = approved; note = no_note; size = size }

unfoldable pub assess_priced : RiskManager → OrderIntent → RiskState → Running → ℤ → Assessment
unfolding reject assess_buy assess_sell
assess_priced m i s r price =
    if leb_ℤ price (pos 0)
    then reject i no_price
    else on_side i.side
        (if ltb 0 m.cooldown_remaining
          then reject i (cooling_down m.cooldown_remaining)
          else assess_buy m.config i s r price)
        (assess_sell m.config i s r price)

-- `_assess_one`
unfoldable pub assess_one : RiskManager → OrderIntent → RiskState → Running → Assessment
unfolding assess_priced price_for
assess_one m i s r =
    on_some (price_for i s) (reject i no_price) (λ price. assess_priced m i s r price)

-- What an assessment adds to the running state: nothing, if it is a rejection.
unfoldable pub fold_in : Assessment → RiskState → Running → Running
unfolding price_for
fold_in a s r =
    let i : OrderIntent = a.intent in
    let value : ℤ = a.size *ℤ get_or (price_for i s) (pos 0) in
    if is_rejected a.decision
    then r
    else on_side i.side
        (record r {
          cash_left = r.cash_left -ℤ value;
          exposure_added = insert i.pair (total i.pair r.exposure_added +ℤ value) r.exposure_added;
        })
        (record r { sold = insert i.pair (total i.pair r.sold +ℤ a.size) r.sold })

-- The loop of `assess`.
unfoldable pub assess_from : RiskManager → List OrderIntent → RiskState → Running → List Assessment
unfolding assess_one fold_in
assess_from m [] s r = []
assess_from m (i ∷ is) s r =
    let a : Assessment = assess_one m i s r in a ∷ assess_from m is s (fold_in a s r)

abbrev pub start : RiskState → Running
start s = record { cash_left = s.cash; exposure_added = []; sold = [] }

unfoldable pub assess_spot : RiskManager → List OrderIntent → RiskState → List Assessment
unfolding assess_from
assess_spot m is s = assess_from m is s (start s)

-- The rejections that the batch appends to the manager's deque.
unfoldable pub record_all : List Assessment → RiskManager → RiskManager
unfolding record_rejection
record_all [] m = m
record_all (a ∷ as') m = record_all as' (record_rejection a m)
