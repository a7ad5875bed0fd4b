-- ===== src/Live/Tests.antt =====
-- A venue with a cap of 1000 and lots of 5, and two polls of overlapping trades.
use text.Mathlib.Text.{◌==◌ as str_eq}
use kaupo.Base.{
  subst, ap, ◌≤◌, Bool, get_or, Bool-cases, inl, inr, ◌≡◌, refl, ℕ, String, true, Option, none,
  some, List, [], ◌∷◌, map, All, arith, if◌then◌else◌, leb, filter,
}
use kaupo.Base.Int.{ℤ, pos, ◌+ℤ◌, ◌-ℤ◌, ◌*ℤ◌, ◌/ℤ◌}
use kaupo.Domain.{buy, market, open_status, h1}
use kaupo.Reconcile.{ExchangeTrade}
use kaupo.Live.{
  LiveOrder, MarketMeta, Answers, KrakenVenue, placed, size_for_exchange, send, ids_of, poll_trades,
  fills_from, liquidate, closing_order, ready,
}
use kaupo.Live.Bounds.{OnSend, IsSendable, size_for_exchange-IsSendable}
use kaupo.Live.Closing.{Closes, liquidate-Closes}
use kaupo.Live.Fresh.{IsHonest}
use kaupo.Live.Once.{IsOnce, polled, polled-IsOnce}

abbrev venue : KrakenVenue
venue = record {
  pair = record { base = "BTC"; quote = "EUR" };
  timeframe = h1;
  max_notional = pos 1000;
  orders = [];
  open_orders = [];
  order_by_txid = [];
  expired = [];
  new_orders = [];
  last_price = some (pos 30);
  trades_cursor_ms = some 100;
  seen_at_cursor = "t0" ∷ [];
}

abbrev rules : MarketMeta
rules = record { amount_step = pos 5; price_step = pos 1; min_amount = pos 10; min_cost = pos 0 }

abbrev order : ℤ → LiveOrder
order size = record {
  id = "o1";
  side = buy;
  order_type = market;
  size = size;
  limit_price = none;
  created_ts = 0;
  status = open_status;
  exchange_order_id = none;
  filled_price = none;
  filled_ts = none;
  fee = pos 0;
  taker_or_maker = none;
  fee_currency = none;
}

-- 60 at a price of 30 is over the cap: 33 is what it pays for, and 30 is a whole number of lots.
capped_order : size_for_exchange (some rules) (order (pos 60)) venue ≡ send (pos 30)
unfolding size_for_exchange ◌+ℤ◌ ◌-ℤ◌ ◌*ℤ◌ ◌/ℤ◌
capped_order = refl

size_for_exchange-IsSendable_example :
    OnSend
      (IsSendable rules (order (pos 60)) venue.max_notional (pos 30))
      (size_for_exchange (some rules) (order (pos 60)) venue)
size_for_exchange-IsSendable_example =
    size_for_exchange-IsSendable rules (order (pos 60)) venue (pos 30) refl

abbrev trade : String → ℕ → ExchangeTrade
trade id ts = record {
  id = id;
  txid = "OA";
  ts = ts;
  side = buy;
  price = pos 30;
  size = pos 5;
  fee = pos 1;
  fee_currency = "EUR";
  taker_or_maker = none;
}

-- The exchange's account: "t0" and "t1" at 100, "t2" at 200.
abbrev ts_of : String → ℕ
ts_of id = if str_eq id "t2" then 200 else 100

abbrev is_listed : Option ℕ → ExchangeTrade → Bool
is_listed none t = true
is_listed (some c) t = leb c t.ts

-- The exchange lists its trades from the cursor on.
abbrev account : List ExchangeTrade → Answers
account trades = record {
  now = 150;
  market = some rules;
  create_order = λ _ _ _. placed "OA";
  cancel_order = λ _. true;
  my_trades = λ cursor. some (filter (is_listed cursor) trades);
}

abbrev early : List ExchangeTrade
early = trade "t0" 100 ∷ trade "t1" 100 ∷ []

abbrev late : List ExchangeTrade
late = trade "t0" 100 ∷ trade "t1" 100 ∷ trade "t2" 200 ∷ []

abbrev polls : List Answers
polls = account early ∷ account late ∷ []

batches : map ids_of (polled polls venue) ≡ ("t1" ∷ []) ∷ ("t2" ∷ []) ∷ []
unfolding poll_trades
batches = refl

listed-late :
    (cursor : Option ℕ) (t : ExchangeTrade)
    → is_listed cursor t ≡ true
    → (c : ℕ) → cursor ≡ some c
    → c ≤ t.ts
listed-late none t h c at = cc
listed-late (some d) t h c at = let same : d ≡ c = ap (λ o. get_or o 0) at in ground arith

account-IsHonest :
    (trades : List ExchangeTrade)
    → All (λ (t : ExchangeTrade). t.ts ≡ ts_of t.id) trades
    → IsHonest ts_of (account trades)
account-IsHonest trades timed = record {
  from_cursor = λ cursor answer answered.
      subst
        (All (λ (t : ExchangeTrade). (t.ts ≡ ts_of t.id) × ((c : ℕ) → cursor ≡ some c → c ≤ t.ts)))
        (ap (λ o. get_or o []) answered) (listed cursor trades timed);
}
  where
    listed :
        (cursor : Option ℕ) (ts : List ExchangeTrade)
        → All (λ (t : ExchangeTrade). t.ts ≡ ts_of t.id) ts
        → All
            (λ (t : ExchangeTrade). (t.ts ≡ ts_of t.id) × ((c : ℕ) → cursor ≡ some c → c ≤ t.ts))
            (filter (is_listed cursor) ts)
    listed cursor [] _ = tt
    listed cursor (t ∷ ts) (time, rest) = elim (Bool-cases (is_listed cursor t)) [
      | inl shown ↦ rw (shown) ((time, listed-late cursor t shown), listed cursor ts rest)
      | inr hidden ↦ rw (hidden) (listed cursor ts rest)
    ]

polled-IsOnce_example : IsOnce [] (polled polls venue)
polled-IsOnce_example = polled-IsOnce ts_of polls venue (
  account-IsHonest early (refl, (refl, tt)),
  (account-IsHonest late (refl, (refl, (refl, tt))), tt),
)

-- The first poll lists nothing, the second the trades of the order.
abbrev closing_polls : List Answers
closing_polls = account [] ∷ account late ∷ []

liquidate-Closes_example :
    Closes "o9" (liquidate (account late) closing_polls "o9" (pos 20) 7 (pos 30) venue)
unfolding size_for_exchange ◌+ℤ◌ ◌-ℤ◌ ◌*ℤ◌ ◌/ℤ◌ poll_trades fills_from
liquidate-Closes_example =
    liquidate-Closes (account late) closing_polls "o9" (pos 20) 7 (pos 30) venue (pos 20) "OA" refl
      refl refl

-- A position of 60 at 30 is over the cap of 1000, and no more than the capped size is closed.
closed_capped :
    size_for_exchange
      (some rules)
      (closing_order "o9" (pos 60) 7)
      (ready (closing_order "o9" (pos 60) 7) (pos 30) venue)
    ≡ send (pos 30)
unfolding size_for_exchange ◌+ℤ◌ ◌-ℤ◌ ◌*ℤ◌ ◌/ℤ◌
closed_capped = refl
