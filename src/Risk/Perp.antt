-- ===== src/Risk/Perp.antt =====
-- `RiskManager._assess_perp` and the choice of `assess` by instrument (kaupo/risk/manager.py).
use text.Mathlib.Text.{◌==◌ as str_eq}
use kaupo.Base.{ltb, Bool, not, ◌&&◌, ◌||◌, on_some, List, [], ◌∷◌, if◌then◌else◌, get_or}
use kaupo.Base.Int.{ℤ, pos, ◌+ℤ◌, ◌-ℤ◌, ◌*ℤ◌, ◌/ℤ◌, neg, abs, min_ℤ, max_ℤ, ltb_ℤ, leb_ℤ, eqb_ℤ}
use kaupo.Base.Dict.{Dict, lookup, insert, contains}
use kaupo.Domain.{Pair, Position, OrderIntent, on_side, eq_pair, pair_eq, total}
use kaupo.Risk.State.{
  RiskConfig, RiskState, RiskManager, no_price, below_minimum, over_cap, cooling_down,
}
use kaupo.Risk.Spot.{
  Assessment, approved, resized, no_note, clamped_to_cap, is_rejected, reject, price_for, shrunk,
  assess_spot, record_all,
}

-- `{pair: pos.size for pair, pos in state.positions.items()}`
unfoldable pub sizes_of : Dict Pair Position → Dict Pair ℤ
sizes_of [] = []
sizes_of ((pair, p) ∷ d) = (pair, p.size) ∷ sizes_of d

-- The absolute values of the other pairs: those with a running size, and those without one.
running_gross : Pair → RiskState → Dict Pair ℤ → ℤ
running_gross own s [] = pos 0
running_gross own s ((pair, size) ∷ d) =
    (if pair_eq pair own then pos 0 else abs size *ℤ get_or (lookup pair s.prices) (pos 0))
    +ℤ running_gross own s d

idle_gross : Pair → RiskState → Dict Pair ℤ → Dict Pair Position → ℤ
idle_gross own s resulting [] = pos 0
idle_gross own s resulting ((pair, p) ∷ d) =
    (if pair_eq pair own || contains pair resulting
      then pos 0
      else abs p.size *ℤ get_or (lookup pair s.prices) (pos 0))
    +ℤ idle_gross own s resulting d

unfoldable pub gross_other : Pair → RiskState → Dict Pair ℤ → ℤ
unfolding running_gross idle_gross
gross_other own s resulting =
    running_gross own s resulting +ℤ idle_gross own s resulting s.positions

unfoldable pub cap_quote : RiskConfig → OrderIntent → RiskState → Dict Pair ℤ → ℤ
unfolding gross_other
cap_quote cfg i s resulting =
    min_ℤ cfg.max_position_quote (cfg.max_gross_exposure_quote -ℤ gross_other i.pair s resulting)

unfoldable pub cap_size : RiskConfig → OrderIntent → RiskState → Dict Pair ℤ → ℤ → ℤ
unfolding cap_quote
cap_size cfg i s resulting price = max_ℤ (cap_quote cfg i s resulting) (pos 0) /ℤ price

-- "the delta window that keeps |current + d| inside the caps"
unfoldable pub clamp_delta : (delta cap current : ℤ) → ℤ
clamp_delta delta cap current = min_ℤ (max_ℤ delta (neg cap -ℤ current)) (cap -ℤ current)

-- The wrong way, or nowhere: the caps leave no room in the wanted direction.
abbrev pub no_room : (delta d : ℤ) → Bool
no_room delta d = ltb_ℤ (pos 0) delta && leb_ℤ d (pos 0) || ltb_ℤ delta (pos 0) && leb_ℤ (pos 0) d

-- The margin of 1e-12 on `increases` is below the unit of a size.
unfoldable pub assess_delta : RiskManager → OrderIntent → (current delta d price : ℤ) → Assessment
unfolding reject shrunk
assess_delta m i current delta d price =
    let size : ℤ = abs d in
    if no_room delta d
    then reject i over_cap
    else if ltb 0 m.cooldown_remaining && ltb_ℤ (abs current) (abs (current +ℤ d))
    then reject i (cooling_down m.cooldown_remaining)
    else if ltb_ℤ (size *ℤ price) m.config.min_order_quote && not (eqb_ℤ (current +ℤ d) (pos 0))
    then reject i below_minimum
    else if shrunk size i.size
    then record { intent = i; decision = resized; note = clamped_to_cap; size = size }
    else record { intent = i; decision = approved; note = no_note; size = size }

unfoldable pub signed_size : OrderIntent → ℤ → ℤ
signed_size i size = on_side i.side size (neg size)

unfoldable pub assess_perp_priced :
    RiskManager → OrderIntent → RiskState → Dict Pair ℤ → ℤ → Assessment
unfolding reject cap_size clamp_delta assess_delta signed_size
assess_perp_priced m i s resulting price =
    let current : ℤ = total i.pair resulting in
    let delta : ℤ = signed_size i i.size in
    let d : ℤ = clamp_delta delta (cap_size m.config i s resulting price) current in
    if leb_ℤ price (pos 0) then reject i no_price else assess_delta m i current delta d price

-- `_assess_perp_one`
unfoldable pub assess_perp_one : RiskManager → OrderIntent → RiskState → Dict Pair ℤ → Assessment
unfolding assess_perp_priced price_for
assess_perp_one m i s resulting =
    on_some (price_for i s) (reject i no_price) (λ price. assess_perp_priced m i s resulting price)

unfoldable pub fold_perp : Assessment → Dict Pair ℤ → Dict Pair ℤ
unfolding signed_size
fold_perp a resulting =
    let pair : Pair = a.intent.pair in
    if is_rejected a.decision
    then resulting
    else insert pair (total pair resulting +ℤ signed_size a.intent a.size) resulting

-- The loop of `_assess_perp`.
pub assess_perp_from : RiskManager → List OrderIntent → RiskState → Dict Pair ℤ → List Assessment
unfolding assess_perp_one fold_perp
assess_perp_from m [] s resulting = []
assess_perp_from m (i ∷ is) s resulting =
    let a : Assessment = assess_perp_one m i s resulting in
    a ∷ assess_perp_from m is s (fold_perp a resulting)

-- `RiskManager.assess`: the assessments, and the manager with the rejections on record.
unfoldable pub assess : RiskManager → List OrderIntent → RiskState → List Assessment × RiskManager
unfolding assess_spot assess_perp_from sizes_of record_all
assess m is s =
    let as' : List Assessment =
      if str_eq m.config.instrument "perp"
      then assess_perp_from m is s (sizes_of s.positions)
      else assess_spot m is s in
    (as', record_all as' m)
