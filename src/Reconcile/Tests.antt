-- ===== src/Reconcile/Tests.antt =====
-- Two trades of an order that is recorded in part, and a trade of an unknown order.
use text.Mathlib.Text.{◌==◌ as str_eq}
use text.Mathlib.TextLemmas.{append_cancel_left}
use kaupo.Base.{if◌then◌else◌, ◌≡◌, refl, String, true, none, some, List, [], ◌∷◌, arith, map}
use kaupo.Base.Int.{ℤ, pos, ◌+ℤ◌, ◌-ℤ◌, ◌*ℤ◌, ◌/ℤ◌, ◌≤ℤ◌, max_ℤ}
use kaupo.Domain.{Pair, buy}
use kaupo.Reconcile.{
  ExchangeTrade, Books, Exchange, Request, recover_missed, reconcile_live, target_of, LiveFill,
  RecoveredOrder,
}
use kaupo.Reconcile.Repeat.{record_fills, on_record, recover_missed-repeat}
use kaupo.Reconcile.Exact.{recover_missed-exact}
use kaupo.Reconcile.Grouping.{traded_on}
use kaupo.Reconcile.Match.{IsMatched, OnAgreed, reconcile_live-matches}

abbrev btc : Pair
btc = record { base = "BTC"; quote = "EUR" }

abbrev trade : (id txid : String) → (price size : ℤ) → ExchangeTrade
trade id txid price size = record {
  id = id;
  txid = txid;
  ts = 5000;
  side = buy;
  price = price;
  size = size;
  fee = pos 4;
  fee_currency = "EUR";
  taker_or_maker = some "maker";
}

abbrev trades : List ExchangeTrade
trades =
    trade "t1" "OB" (pos 100) (pos 2)
    ∷ trade "t2" "OA" (pos 90) (pos 1)
    ∷ trade "t3" "OB" (pos 103) (pos 4)
    ∷ []

-- No order of the platform has these txids, and 4 of the 6 lots of "OB" are on record.
abbrev books : Books
books = record {
  last_fill_ts = some 4000;
  order_of = λ _. none;
  recorded = λ k. if str_eq k "kraken-OB" then some (pos 4) else none;
}

program : Unit {0}
unfolding recover_missed target_of ◌+ℤ◌ ◌-ℤ◌ ◌*ℤ◌ ◌/ℤ◌
program = tt

-- The trade of "OA", and the two lots of "OB" at the average price and a third of the fees.
recovered :
    (map (λ (m : RecoveredOrder × LiveFill). m.1.order_id) (recover_missed books btc trades)
      ≡ "kraken-OA" ∷ "kraken-OB" ∷ [])
    × (map (λ (m : RecoveredOrder × LiveFill). m.1.size) (recover_missed books btc trades)
        ≡ pos 1 ∷ pos 2 ∷ [])
    × (map (λ (m : RecoveredOrder × LiveFill). m.1.price) (recover_missed books btc trades)
        ≡ pos 90 ∷ pos 102 ∷ [])
    × (map (λ (m : RecoveredOrder × LiveFill). m.1.fee) (recover_missed books btc trades)
        ≡ pos 4 ∷ pos 2 ∷ [])
unfolding program
recovered = (refl, refl, refl, refl)

books_nonneg : (k : String) → pos 0 ≤ℤ on_record books k
books_nonneg k = ground arith

recover_missed-repeat_example :
    recover_missed (record_fills (recover_missed books btc trades) books) btc trades ≡ []
recover_missed-repeat_example = recover_missed-repeat books btc trades books_nonneg

prefix_injective : (j k : String) → target_of books j ≡ target_of books k → j ≡ k
unfolding target_of
prefix_injective j k e = append_cancel_left "kraken-" j k e

recover_missed-exact_example :
    on_record (record_fills (recover_missed books btc trades) books) (target_of books "OB")
    ≡ max_ℤ (on_record books (target_of books "OB")) (traded_on "OB" trades)
recover_missed-exact_example =
    recover_missed-exact books btc books_nonneg prefix_injective "OB" trades

abbrev exchange : Exchange
exchange = record {
  open_order_ids = "OC" ∷ [];
  my_trades = λ _. trades;
  balances = some (("BTC", pos 7) ∷ ("EUR", pos 900) ∷ []);
}

abbrev request : Request
request = record {
  pair = btc;
  positions =
      (btc, record { pair = btc; size = pos 4; avg_entry = pos 100; entry_ts = some 60 }) ∷ [];
  cash = pos 500;
  history_since = some 3000;
  check_quote = true;
  quote_baseline = some (pos 1000);
  starting_cash = some (pos 300);
  now = 9000;
  base_tolerance = pos 0;
  quote_tolerance = pos 1;
}

reconcile_live-matches_example :
    OnAgreed
      (λ result. IsMatched request result.balances result.missed)
      (reconcile_live exchange books request).1
reconcile_live-matches_example = reconcile_live-matches exchange books request
