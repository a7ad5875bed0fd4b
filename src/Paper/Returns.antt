-- ===== src/Paper/Returns.antt =====
-- When a candle is worked off without a failed assertion.
use kaupo.Base.{
  ◌≡◌, refl, sym, subst, true, false, none, some, is_some, List, [], ◌∷◌, All, All-append, all,
  arith, if_ind,
}
use kaupo.Domain.{Candle, Order, eq_order_id, check_price}
use kaupo.Paper.State.{PaperVenue, is_market, submit}
use kaupo.Paper.Candle.{is_priced, on_candle, run_candle}

-- The orders that a run submits.
unfoldable pub submit_all : List Order → PaperVenue → PaperVenue
submit_all [] v = v
submit_all (o ∷ os) v = submit_all os (submit o v)

abbrev HasPrice : Order → Type 0
HasPrice o = is_some o.limit_price ≡ true

check_price-HasPrice :
    (o : Order)
    → check_price o.order_type o.limit_price ≡ none
    → is_market o.order_type ≡ false
    → HasPrice o
unfolding check_price
check_price-HasPrice o ok resting = ground arith

submit-HasPrice :
    (o : Order) (v : PaperVenue)
    → check_price o.order_type o.limit_price ≡ none
    → All HasPrice v.limit_open
    → All HasPrice (submit o v).limit_open
unfolding submit
submit-HasPrice o v ok h =
    if_ind (λ (w : PaperVenue). All HasPrice w.limit_open) (is_market o.order_type) (λ _. h)
      (λ resting.
        All-append HasPrice v.limit_open (o ∷ []) h (check_price-HasPrice o ok resting, tt))

submit_all-HasPrice :
    (os : List Order) (v : PaperVenue)
    → All (λ (o : Order). check_price o.order_type o.limit_price ≡ none) os
    → All HasPrice v.limit_open
    → All HasPrice (submit_all os v).limit_open
unfolding submit_all
submit_all-HasPrice [] v _ h = h
submit_all-HasPrice (o ∷ os) v (ok, oks) h =
    submit_all-HasPrice os (submit o v) oks (submit-HasPrice o v ok h)

all-priced : (c : Candle) (os : List Order) → All HasPrice os → all (is_priced c) os ≡ true
unfolding is_priced
all-priced c [] _ = refl
all-priced c (o ∷ os) (h, hs) = rw (h, all-priced c os hs) (ground arith)

-- The assertion on limit prices cannot fail: on a venue without resting limits, after any orders
-- whose prices pass the validation of intents, the next candle returns its fills and state.
pub on_candle-submit_all :
    (c : Candle) (os : List Order) (v : PaperVenue)
    → v.limit_open ≡ []
    → All (λ (o : Order). check_price o.order_type o.limit_price ≡ none) os
    → on_candle c (submit_all os v) ≡ some (run_candle c (submit_all os v))
unfolding on_candle
on_candle-submit_all c os v fresh valid =
    let start : All HasPrice v.limit_open = subst (All HasPrice) (sym fresh) tt in
    rw (all-priced c (submit_all os v).limit_open (submit_all-HasPrice os v valid start)) refl
