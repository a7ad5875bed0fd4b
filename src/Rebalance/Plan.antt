-- ===== src/Rebalance/Plan.antt =====
-- `_last_price` and `plan_rebalance` of kaupo/sdk/portfolio.py. Weights and the buffer are in
-- basis points, so that the tolerance of 1e-9 on the sum of the weights is below their unit.
use Prim.Native.String.{compare, ◌++◌ as append}
use Prim.Native.Nat.{Ordering}
use kaupo.Base.{
  String, Bool, true, false, not, ◌&&◌, Option, none, some, is_some, List, [], ◌∷◌, ◌++◌, all, any,
  get_or, on_some, if◌then◌else◌,
}
use kaupo.Base.Int.{ℤ, pos, ◌+ℤ◌, ◌-ℤ◌, ◌*ℤ◌, ◌/ℤ◌, neg, abs, min_ℤ, ltb_ℤ, leb_ℤ, eqb_ℤ}
use kaupo.Base.Dict.{Dict, lookup}
use kaupo.Domain.{
  Pair, pair_eq, eq_pair, Candle, Position, flat, Side, buy, sell, market, OrderIntent, post_init,
  total,
}

-- What the strategy's context answers: this step's candles, the last candle of a pair's history,
-- and the account.
pub record Context : Type 0 where
  pub candles : Dict Pair Candle
  pub history : Pair → Option Candle
  pub equity : ℤ
  pub cash : ℤ
  pub positions : Dict Pair Position

pub record RebalancePlan : Type 0 where
  pub sells : List OrderIntent
  pub buys : List OrderIntent

pub data PlanError : Type 0 where
  weight_out_of_range weights_above_one negative_minimum buffer_out_of_range refused_intent :
      PlanError

pub data Planned : Type 0 where
  plan : RebalancePlan → Planned
  failed : PlanError → Planned

-- `_last_price`
unfoldable pub last_price : Context → Pair → Option ℤ
last_price ctx pair =
    on_some (lookup pair ctx.candles)
      (on_some (ctx.history pair) none (λ (c : Candle). some c.close))
      (λ (c : Candle). some c.close)

-- `str(pair)`
unfoldable pub pair_text : Pair → String
pair_text p = append p.base (append "/" p.quote)

abbrev is_before : String → String → Bool
is_before a b = elim (compare a b) [ Ordering.lt ↦ true | _ ↦ false ]

-- A set as a sorted list without repetition.
unfoldable pub insert_pair : Pair → List Pair → List Pair
unfolding pair_text
insert_pair p [] = p ∷ []
insert_pair p (q ∷ qs) =
    if pair_eq p q
    then q ∷ qs
    else if is_before (pair_text p) (pair_text q)
    then p ∷ q ∷ qs
    else q ∷ insert_pair p qs

unfoldable pub add_keys {ℓ} : {V : Type ℓ} → Dict Pair V → List Pair → List Pair
unfolding insert_pair
add_keys [] ps = ps
add_keys ((p, _) ∷ d) ps = insert_pair p (add_keys d ps)

-- A pair to buy, for how much, at which price.
abbrev pub Candidate : Type 0
Candidate = Pair × ℤ × ℤ

pub record Draft : Type 0 where
  pub sells : List OrderIntent
  pub candidates : List Candidate

abbrev pub new_intent : Pair → Side → ℤ → OrderIntent
new_intent pair side size = record {
  pair = pair;
  side = side;
  size = size;
  order_type = market;
  limit_price = none;
  stop_loss = none;
  take_profit = none;
}

-- "Trade to the nearest boundary"; nothing inside the band.
unfoldable pub buffered : (target_value buffer buffer_value delta : ℤ) → Option ℤ
buffered target_value buffer buffer_value delta =
    if ltb_ℤ (pos 0) target_value && ltb_ℤ (pos 0) buffer
    then if leb_ℤ (abs delta) buffer_value
      then none
      else if ltb_ℤ (pos 0) delta
      then some (delta -ℤ buffer_value)
      else some (delta +ℤ buffer_value)
    else some delta

unfoldable pub draft_trade :
    Pair → Position → (price target_value min_trade delta : ℤ) → Draft → Draft
draft_trade pair p price target_value min_trade delta d =
    if eqb_ℤ target_value (pos 0) && ltb_ℤ (pos 0) p.size
    then record d { sells = d.sells ++ new_intent pair sell p.size ∷ [] }
    else if ltb_ℤ delta (pos 0) && leb_ℤ min_trade (neg delta)
    then record d {
      sells = d.sells ++ new_intent pair sell (min_ℤ p.size (neg delta /ℤ price)) ∷ [];
    }
    else if leb_ℤ min_trade delta
    then record d { candidates = d.candidates ++ (pair, delta, price) ∷ [] }
    else d

abbrev pub position_in : Context → Pair → Position
position_in ctx pair = get_or (lookup pair ctx.positions) (flat pair)

unfoldable pub draft_priced :
    Dict Pair ℤ → Context → (min_trade buffer : ℤ) → Pair → ℤ → Draft → Draft
unfolding buffered draft_trade
draft_priced targets ctx min_trade buffer pair price d =
    let p : Position = position_in ctx pair in
    let target_value : ℤ = total pair targets *ℤ ctx.equity /ℤ pos 10_000 in
    let buffer_value : ℤ = buffer *ℤ ctx.equity /ℤ pos 10_000 in
    if leb_ℤ price (pos 0)
    then d
    else on_some (buffered target_value buffer buffer_value (target_value -ℤ p.size *ℤ price)) d
        (λ delta. draft_trade pair p price target_value min_trade delta d)

-- One pair of the loop.
unfoldable pub draft_pair : Dict Pair ℤ → Context → (min_trade buffer : ℤ) → Pair → Draft → Draft
unfolding last_price draft_priced
draft_pair targets ctx min_trade buffer pair d =
    on_some (last_price ctx pair) d
      (λ price. draft_priced targets ctx min_trade buffer pair price d)

unfoldable pub draft_pairs :
    Dict Pair ℤ → Context → (min_trade buffer : ℤ) → List Pair → Draft → Draft
unfolding draft_pair
draft_pairs targets ctx min_trade buffer [] d = d
draft_pairs targets ctx min_trade buffer (p ∷ ps) d =
    draft_pairs targets ctx min_trade buffer ps (draft_pair targets ctx min_trade buffer p d)

-- The buys, from the cash that is left.
unfoldable pub take_buys : (min_trade cash_left : ℤ) → List Candidate → List OrderIntent
take_buys min_trade cash_left [] = []
take_buys min_trade cash_left ((pair, wanted, price) ∷ cs) =
    let value : ℤ = min_ℤ wanted cash_left in
    let enough : Bool = leb_ℤ min_trade value in
    let rest : List OrderIntent =
      take_buys min_trade (if enough then cash_left -ℤ value else cash_left) cs in
    if enough then new_intent pair buy (value /ℤ price) ∷ rest else rest

abbrev pub sum_weights : Dict Pair ℤ → ℤ
sum_weights [] = pos 0
sum_weights ((_, w) ∷ d) = w +ℤ sum_weights d

abbrev pub is_weight : Pair × ℤ → Bool
is_weight (_, w) = leb_ℤ (pos 0) w && leb_ℤ w (pos 10_000)

unfoldable pub check_arguments : Dict Pair ℤ → (min_trade buffer : ℤ) → Option PlanError
check_arguments targets min_trade buffer =
    if not (all is_weight targets)
    then some weight_out_of_range
    else if ltb_ℤ (pos 10_000) (sum_weights targets)
    then some weights_above_one
    else if ltb_ℤ min_trade (pos 0)
    then some negative_minimum
    else if not (leb_ℤ (pos 0) buffer && ltb_ℤ buffer (pos 10_000))
    then some buffer_out_of_range
    else none

unfoldable pub draft : Dict Pair ℤ → Context → (min_trade buffer : ℤ) → Draft
unfolding draft_pairs add_keys
draft targets ctx min_trade buffer =
    draft_pairs targets ctx min_trade buffer (add_keys ctx.positions (add_keys targets []))
      (record { sells = []; candidates = [] })

-- The two lists of a plan; each intent passes its own validation or the plan fails.
unfoldable pub make_plan : Dict Pair ℤ → Context → (min_trade buffer : ℤ) → RebalancePlan
unfolding draft take_buys
make_plan targets ctx min_trade buffer =
    let d : Draft = draft targets ctx min_trade buffer in
    record { sells = d.sells; buys = take_buys min_trade ctx.cash d.candidates }

unfoldable pub plan_rebalance : Dict Pair ℤ → Context → (min_trade buffer : ℤ) → Planned
unfolding check_arguments
plan_rebalance targets ctx min_trade buffer =
    let made : RebalancePlan = make_plan targets ctx min_trade buffer in
    on_some (check_arguments targets min_trade buffer)
      (if leb_ℤ ctx.equity (pos 0)
        then plan (record { sells = []; buys = [] })
        else if any (λ i. is_some (post_init i)) (made.sells ++ made.buys)
        then failed refused_intent
        else plan made)
      (λ e. failed e)
