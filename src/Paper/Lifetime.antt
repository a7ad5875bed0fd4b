-- ===== src/Paper/Lifetime.antt =====
-- A limit order lives for one candle: it fills on it or expires with it.
use kaupo.Base.{
  ◌+◌, ◌≤◌, ◌↔◌, leb, ◌≡◌, refl, sym, ap, ◌∙◌, Bool, true, false, not, ◌&&◌, Option, none, some,
  is_some, on_some, List, [], ◌∷◌, ◌++◌, map, filter, each, arith, if_ind, on_some_ind, subst,
  Bool-cases, inl, inr, ==_iff,
}
use mathlib.Core.List.{append_assoc, append-nil}
use kaupo.Base.Int.{ℤ, ◌≤ℤ◌, ◌<ℤ◌, leb_ℤ, ltb_ℤ}
use kaupo.Domain.{Side, buy, sell, seconds, Candle, Order, OrderId, Fill, eq_order_id}
use kaupo.Paper.State.{
  PaperVenue, MarketableLimit, skip, as_maker, as_taker, write, written, cancel,
}
use kaupo.Paper.Fills.{
  is_marketable_at_posting, skips_as_marketable, touches, try_limit, make_fill, take_fill,
  track_position, arm_protection,
}
use kaupo.Paper.Candle.{is_late, expire, limit_result, limit_one, limit_step}

-- The candle trades at the limit: a buy at or below it, a sell at or above it.
abbrev pub Reaches : Candle → Side → (l : ℤ) → Type 0
Reaches c buy l = c.low ≤ℤ l
Reaches c sell l = l ≤ℤ c.high

-- The limit takes no liquidity at the open of the candle.
abbrev pub Rests : Candle → Side → (l : ℤ) → Type 0
Rests c buy l = l <ℤ c.open_price
Rests c sell l = c.open_price <ℤ l

-- What the venue asks of an order beside the candle's range.
abbrev pub Admits : MarketableLimit → Candle → Side → (l : ℤ) → Type 0
Admits skip c side l = Rests c side l
Admits as_maker c side l = Unit
Admits as_taker c side l = Unit

-- A candle fills a resting limit if it opens at most one period after the decision candle, trades at the
-- limit, and, where the venue skips marketable limits, does not open through it.
abbrev pub Executes : MarketableLimit → Candle → Order → Type 0
Executes mode c o =
    (l : ℤ) × (o.limit_price ≡ some l)
    × (c.ts ≤ o.created_ts + seconds c.timeframe)
    × Reaches c o.side l
    × Admits mode c o.side l

-- The same as a test.
abbrev admits : MarketableLimit → Candle → Side → (l : ℤ) → Bool
admits skip c buy l = ltb_ℤ l c.open_price
admits skip c sell l = ltb_ℤ c.open_price l
admits as_maker c side l = true
admits as_taker c side l = true

abbrev reaches : Candle → Side → (l : ℤ) → Bool
reaches c buy l = leb_ℤ c.low l
reaches c sell l = leb_ℤ l c.high

unfoldable pub executes : MarketableLimit → Candle → Order → Bool
executes mode c o = on_some o.limit_price false (λ l.
    leb c.ts (o.created_ts + seconds c.timeframe) && reaches c o.side l && admits mode c o.side l)

abbrev pub id_of : Order → OrderId
id_of o = o.id

abbrev pub order_id_of : Fill → OrderId
order_id_of f = f.order_id

limit_result-executes :
    (v : PaperVenue) (o : Order) (c : Candle)
    → is_some (limit_result v o c) ≡ executes v.marketable_limit c o
unfolding limit_result is_late touches is_marketable_at_posting skips_as_marketable try_limit
    executes
limit_result-executes v o c = ground arith

reaches_iff : (c : Candle) (side : Side) (l : ℤ) → (reaches c side l ≡ true) ↔ Reaches c side l
reaches_iff c buy l = ground arith
reaches_iff c sell l = ground arith

admits_iff :
    (mode : MarketableLimit) (c : Candle) (side : Side) (l : ℤ)
    → (admits mode c side l ≡ true) ↔ Admits mode c side l
admits_iff skip c buy l = ground arith
admits_iff skip c sell l = ground arith
admits_iff as_maker c side l = ((λ _. tt), (λ _. refl))
admits_iff as_taker c side l = ((λ _. tt), (λ _. refl))

both_true : (a b : Bool) → (a && b) ≡ true → (a ≡ true) × (b ≡ true)
both_true a b h = ground arith

-- The test says what a candle executes.
executes_iff :
    (mode : MarketableLimit) (c : Candle) (o : Order)
    → (executes mode c o ≡ true) ↔ Executes mode c o
unfolding executes
executes_iff mode c o = (
  λ h.
      on_some_ind (λ (b : Bool). b ≡ true → Executes mode c o) o.limit_price (λ _ no_limit. cc)
        (λ l known held.
          let (front, admitted) =
            both_true (leb c.ts (o.created_ts + seconds c.timeframe) && reaches c o.side l)
              (admits mode c o.side l) held in
          let (timely, reached) =
            both_true (leb c.ts (o.created_ts + seconds c.timeframe)) (reaches c o.side l) front in
          (
            l,
            known,
            ground arith,
            (reaches_iff c o.side l).0 reached,
            (admits_iff mode c o.side l).0 admitted,
          ))
        h,
  λ (l, known, timely, reached, admitted).
      let due : leb c.ts (o.created_ts + seconds c.timeframe) ≡ true = ground arith in
      rw (known, due, (reaches_iff c o.side l).1 reached, (admits_iff mode c o.side l).1 admitted)
        refl,
)

-- A write keeps the ids of a list.
id_of-written : (o x : Order) → (written o x).id ≡ x.id
id_of-written o x = ground (arith, ==_iff x.id o.id)

ids-written : (o : Order) (xs : List Order) → map id_of (map (written o) xs) ≡ map id_of xs
ids-written o [] = refl
ids-written o (x ∷ xs) = rw (id_of-written o x, ids-written o xs) refl

map-append : (xs ys : List Order) → map id_of (xs ++ ys) ≡ map id_of xs ++ map id_of ys
map-append [] ys = refl
map-append (x ∷ xs) ys = ap (λ l. x.id ∷ l) (map-append xs ys)

order_ids-append :
    (xs ys : List Fill) → map order_id_of (xs ++ ys) ≡ map order_id_of xs ++ map order_id_of ys
order_ids-append [] ys = refl
order_ids-append (x ∷ xs) ys = ap (λ l. x.order_id ∷ l) (order_ids-append xs ys)

-- The bookkeeping of a fill touches neither the mode nor the lists of expired and open limits.
track_position-expired :
    (f : Fill) (v : PaperVenue)
    → ((track_position f v).marketable_limit ≡ v.marketable_limit)
      × ((track_position f v).expired ≡ v.expired)
      × ((track_position f v).limit_open ≡ v.limit_open)
unfolding track_position
track_position-expired f v = ground arith

arm_protection-expired :
    (o : Order) (v : PaperVenue)
    → ((arm_protection o v).marketable_limit ≡ v.marketable_limit)
      × ((arm_protection o v).expired ≡ v.expired)
      × ((arm_protection o v).limit_open ≡ v.limit_open)
unfolding arm_protection
arm_protection-expired o v = ground arith

take_fill-expired :
    (r : Order × Fill) (v : PaperVenue)
    → ((take_fill r v).marketable_limit ≡ v.marketable_limit)
      × (map id_of (take_fill r v).expired ≡ map id_of v.expired)
      × ((take_fill r v).limit_open ≡ v.limit_open)
unfolding take_fill write
take_fill-expired (o, f) v =
    let w : PaperVenue = write o v in
    let tracked = track_position-expired f w in
    let armed = arm_protection-expired o (track_position f w) in
    (
      armed.0 ∙ tracked.0,
      ap (map id_of) (armed.1 ∙ tracked.1) ∙ ids-written o v.expired,
      armed.2 ∙ tracked.2,
    )

-- A fill carries the id of its order.
abbrev Carries : Order → Option (Order × Fill) → Type 0
Carries o none = Unit
Carries o (some r) = r.1.order_id ≡ o.id

limit_result-Carries : (v : PaperVenue) (o : Order) (c : Candle) → Carries o (limit_result v o c)
unfolding limit_result try_limit make_fill
limit_result-Carries v o c =
    if_ind (Carries o) (is_late o c) (λ _. tt)
      λ _.
        if_ind (Carries o) (skips_as_marketable v o c) (λ _. tt)
          λ _.
            on_some_ind (Carries o) o.limit_price (λ _. tt)
              λ l _. if_ind (Carries o) (touches o.side l c) (λ _. refl) (λ _. tt)

module _ (mode : MarketableLimit) (c : Candle) where
  abbrev executed : List Order → List Order
  executed = filter (executes mode c)

  abbrev lapsed : List Order → List Order
  lapsed = filter (λ o. not (executes mode c o))

  -- What working off the orders does: those that execute are filled, the others expire.
  record IsSettled (os : List Order) (v : PaperVenue) (fs : List Fill) (v' : PaperVenue)
      : Type 0 where
    same_mode : v'.marketable_limit ≡ v.marketable_limit
    same_open : v'.limit_open ≡ v.limit_open
    filled_ids : map order_id_of fs ≡ map id_of (executed os)
    expired_ids : map id_of v'.expired ≡ map id_of v.expired ++ map id_of (lapsed os)

  filter_split :
      (p : Order → Bool) (o : Order) (os : List Order)
      → map id_of (filter p (o ∷ os)) ≡ map id_of (filter p (o ∷ [])) ++ map id_of (filter p os)
  filter_split p o os = elim (Bool-cases (p o)) [
    | inl holds ↦ rw holds refl
    | inr fails ↦ rw fails refl
  ]

  IsSettled-compose :
      {o : Order} {os : List Order} {fs gs : List Fill} {v v' v'' : PaperVenue}
      → IsSettled (o ∷ []) v fs v'
      → IsSettled os v' gs v''
      → IsSettled (o ∷ os) v (fs ++ gs) v''
  IsSettled-compose {o} {os} {fs} {gs} {v} {v'} {v''} a b = record {
    same_mode = b.same_mode ∙ a.same_mode;
    same_open = b.same_open ∙ a.same_open;
    filled_ids =
        order_ids-append fs gs
        ∙ ap (λ l. l ++ map order_id_of gs) a.filled_ids
        ∙ ap (λ l. map id_of (executed (o ∷ [])) ++ l) b.filled_ids
        ∙ sym (filter_split (executes mode c) o os);
    expired_ids =
        b.expired_ids
        ∙ ap (λ l. l ++ map id_of (lapsed os)) a.expired_ids
        ∙ append_assoc (map id_of v.expired) (map id_of (lapsed (o ∷ []))) (map id_of (lapsed os))
        ∙ ap (λ l. map id_of v.expired ++ l)
            (sym (filter_split (λ o. not (executes mode c o)) o os));
  }

  limit_one-IsSettled :
      (o : Order) (v : PaperVenue)
      → v.marketable_limit ≡ mode
      → IsSettled (o ∷ []) v (limit_one c o v).0 (limit_one c o v).1
  unfolding limit_one expire write
  limit_one-IsSettled o v e =
      let spec = limit_result-executes v o c in
      let carried = limit_result-Carries v o c in
      on_some_ind (λ (r : List Fill × PaperVenue). IsSettled (o ∷ []) v r.0 r.1)
        (limit_result v o c)
        (λ gone.
          let idle : executes mode c o ≡ false =
            ap (λ m. executes m c o) (sym e) ∙ sym spec ∙ ap is_some gone in
          record {
            same_mode = refl;
            same_open = refl;
            filled_ids = rw idle refl;
            expired_ids = rw idle (
                map-append (map (written (cancel o)) v.expired) (cancel o ∷ [])
                ∙ ap (λ l. l ++ o.id ∷ []) (ids-written (cancel o) v.expired));
          })
        (λ r got.
          let busy : executes mode c o ≡ true =
            ap (λ m. executes m c o) (sym e) ∙ sym spec ∙ ap is_some got in
          let own : r.1.order_id ≡ o.id = subst (Carries o) got carried in
          let quiet = take_fill-expired r v in
          record {
            same_mode = quiet.0;
            same_open = quiet.2;
            filled_ids = rw busy (ap (λ i. i ∷ []) own);
            expired_ids = rw busy (quiet.1 ∙ sym (append-nil (map id_of v.expired)));
          })

  limits-IsSettled :
      (os : List Order) (v : PaperVenue)
      → v.marketable_limit ≡ mode
      → IsSettled os v (each (limit_one c) os v).0 (each (limit_one c) os v).1
  limits-IsSettled [] v e = record {
    same_mode = refl;
    same_open = refl;
    filled_ids = refl;
    expired_ids = sym (append-nil (map id_of v.expired));
  }
  limits-IsSettled (o ∷ os) v e =
      let first = limit_one-IsSettled o v e in
      IsSettled-compose first (limits-IsSettled os (limit_one c o v).1 (first.same_mode ∙ e))

-- One candle is all that a limit order gets: of the resting orders, in their order, exactly those
-- that the candle executes are filled, all others are added to the expired ones, and none rests. A candle
-- executes an order exactly if it opens at most one period after the decision candle, trades at the limit
-- and, where marketable limits are skipped, does not open at the limit or through it.
pub limit_step-orders :
    (c : Candle) (v : PaperVenue)
    → let r = limit_step c v in
      (map order_id_of r.0 ≡ map id_of (filter (executes v.marketable_limit c) v.limit_open))
      × (map id_of r.1.expired
          ≡ map id_of v.expired
            ++ map id_of (filter (λ o. not (executes v.marketable_limit c o)) v.limit_open))
      × (r.1.limit_open ≡ [])
      × ((o : Order) → (executes v.marketable_limit c o ≡ true) ↔ Executes v.marketable_limit c o)
unfolding limit_step
limit_step-orders c v =
    let settled =
      limits-IsSettled v.marketable_limit c v.limit_open (record v { limit_open = [] }) refl in
    (settled.filled_ids, settled.expired_ids, settled.same_open, executes_iff v.marketable_limit c)
