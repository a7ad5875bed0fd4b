-- ===== src/Paper/Limits.antt =====
-- What a limit order gets: its limit or better, and only when the candle reaches it.
use kaupo.Base.{
  ◌≡◌, refl, true, Option, none, some, List, [], All, All-append, All-Mem, Mem, subst, false,
  each-keeps, IsComposed, if_ind, on_some_ind,
}
use kaupo.Base.Int.{ℤ, ◌≤ℤ◌, leb_ℤ-true, min_ℤ_parts, max_ℤ_parts, int_laws}
use kaupo.Domain.{Candle, Order, Fill, Side, buy, sell}
use kaupo.Paper.State.{PaperVenue}
use kaupo.Paper.Fills.{touches, limit_fill_price, try_limit, make_fill, skips_as_marketable}
use kaupo.Paper.Candle.{limit_one, limit_result, limit_step, is_late}

-- The range of a candle holds its open.
pub record IsRanged (c : Candle) : Type 0 where
  pub above : c.low ≤ℤ c.open_price
  pub below : c.open_price ≤ℤ c.high

-- A buy no dearer than its limit, a sell no cheaper, at a price that the candle reached.
abbrev pub IsWithin : Candle → Side → (l price : ℤ) → Type 0
IsWithin c buy l price = (price ≤ℤ l) × (c.low ≤ℤ price) × (price ≤ℤ c.high)
IsWithin c sell l price = (l ≤ℤ price) × (c.low ≤ℤ price) × (price ≤ℤ c.high)

touched-IsWithin :
    (c : Candle) (side : Side) (l : ℤ)
    → IsRanged c
    → touches side l c ≡ true
    → IsWithin c side l (limit_fill_price side l c)
unfolding touches limit_fill_price
touched-IsWithin c buy l range hit =
    let parts = min_ℤ_parts l c.open_price in
    let reached = leb_ℤ-true c.low l hit in
    let above = range.above in
    let below = range.below in (omega int_laws, omega int_laws, omega int_laws)
touched-IsWithin c sell l range hit =
    let parts = max_ℤ_parts l c.open_price in
    let reached = leb_ℤ-true l c.high hit in
    let above = range.above in
    let below = range.below in (omega int_laws, omega int_laws, omega int_laws)

-- The fill of a resting order: the whole of it, within its limit, and the limit was reached.
abbrev pub IsLimitFill : Candle → Order → Fill → Type 0
IsLimitFill c o f =
    (f.order_id ≡ o.id)
    × (f.pair ≡ o.pair)
    × (f.side ≡ o.side)
    × (f.size ≡ o.size)
    × (is_late o c ≡ false)
    × ((l : ℤ) × (o.limit_price ≡ some l) × IsWithin c o.side l f.price)

abbrev LimitFilled : Candle → Order → Option (Order × Fill) → Type 0
LimitFilled c o none = Unit
LimitFilled c o (some r) = IsLimitFill c o r.1

limit_result-LimitFilled :
    (c : Candle) (v : PaperVenue) (o : Order) → IsRanged c → LimitFilled c o (limit_result v o c)
unfolding limit_result try_limit make_fill
limit_result-LimitFilled c v o range =
    if_ind (LimitFilled c o) (is_late o c) (λ _. tt)
      λ timely.
        if_ind (LimitFilled c o) (skips_as_marketable v o c) (λ _. tt)
          λ _.
            on_some_ind (LimitFilled c o) o.limit_price (λ _. tt)
              λ l e.
                if_ind (LimitFilled c o) (touches o.side l c)
                  (λ hit.
                    (refl, refl, refl, refl, timely, (l, e, touched-IsWithin c o.side l range hit)))
                  (λ _. tt)

module _ (c : Candle) (os : List Order) where
  -- Each fill is that of an order of the list.
  abbrev pub AreLimitFills : List Fill → Type 0
  AreLimitFills = All (λ f. (o : Order) × Mem o os × IsLimitFill c o f)

  limit_one-AreLimitFills :
      (o : Order) (v : PaperVenue) → IsRanged c → Mem o os → AreLimitFills (limit_one c o v).0
  unfolding limit_one
  limit_one-AreLimitFills o v range m =
      let got : LimitFilled c o (limit_result v o c) = limit_result-LimitFilled c v o range in
      on_some_ind (λ (r : List Fill × PaperVenue). AreLimitFills r.0) (limit_result v o c) (λ _. tt)
        (λ r e. ((o, m, subst (LimitFilled c o) e got), tt))

  AreLimitFills-IsComposed : IsComposed (λ (v : PaperVenue) fs (v' : PaperVenue). AreLimitFills fs)
  AreLimitFills-IsComposed = record {
    idle = λ v. tt;
    compose =
        λ {fs} {gs} a b. All-append (λ f. (o : Order) × Mem o os × IsLimitFill c o f) fs gs a b;
  }

-- Each fill of the limit step is the whole of a resting order that is not late, for its pair and
-- side, at a price within the candle's range that is the order's limit or better.
pub limit_step-fills :
    (c : Candle) (v : PaperVenue) → IsRanged c → AreLimitFills c v.limit_open (limit_step c v).0
unfolding limit_step
limit_step-fills c v range =
    each-keeps (limit_one c) (AreLimitFills-IsComposed c v.limit_open)
      (λ o w m. limit_one-AreLimitFills c v.limit_open o w range m) v.limit_open
      (record v { limit_open = [] }) (All-Mem v.limit_open)
