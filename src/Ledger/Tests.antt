-- ===== src/Ledger/Tests.antt =====
-- The ledger on concrete fills: 3 lots bought at 100 ticks for a fee of 2, then 2 sold at 120.
use kaupo.Base.{◌≡◌, refl, Option, false, none, some, List, [], ◌∷◌, inr, arith}
use kaupo.Base.Int.{ℤ, pos, negsuc, ◌+ℤ◌, ◌-ℤ◌, ◌*ℤ◌, ◌/ℤ◌, ◌≤ℤ◌, ◌<ℤ◌, neg, abs, min_ℤ}
use kaupo.Domain.{Pair, Fill, Side, buy, sell, pair_eq, quote_amount}
use kaupo.Ledger.{
  Ledger, OnApplied, applied, raised, insufficient_funds, position, equity, position_value,
  equity_from, new_ledger, apply_fill, apply_spot, apply_fill_perp,
}
use kaupo.Ledger.Effect.{size_change}
use kaupo.Ledger.Equity.{apply_fill-equity}
use kaupo.Ledger.Book.{book_value, apply_fill-book_value}
use kaupo.Ledger.Valid.{IsFair, IsSolvent, apply_fill-IsSolvent}
use kaupo.Ledger.Agree.{apply_fill_perp-eq-apply_spot}
use kaupo.Ledger.Journal.{Event, fill_event, funding_event, drain_event, run, run_balances}
use kaupo.Ledger.Booked.{total_of}

abbrev btc : Pair
btc = record { base = "BTC"; quote = "EUR" }

abbrev fill_of : Side → ℤ → ℤ → ℤ → Fill
fill_of side price size fee = record {
  order_id = 7;
  pair = btc;
  side = side;
  ts = 3600;
  price = price;
  size = size;
  fee = fee;
  taker_or_maker = none;
  fee_currency = none;
}

abbrev first_buy : Fill
first_buy = fill_of buy (pos 100) (pos 3) (pos 2)

abbrev part_sale : Fill
part_sale = fill_of sell (pos 120) (pos 2) (pos 2)

-- Two lots held since the first hour, at 90 ticks.
abbrev holding : Ledger
holding = record {
  quote = "EUR";
  cash = pos 1000;
  perp = false;
  positions =
      (btc, record { pair = btc; size = pos 2; avg_entry = pos 90; entry_ts = some 1800 }) ∷ [];
  entries = [];
  realized_pnl = pos 0;
}

abbrev market : Pair → Option ℤ
market _ = some (pos 110)

program : Unit {0}
unfolding apply_fill position pair_eq ◌+ℤ◌ ◌-ℤ◌ ◌*ℤ◌ ◌/ℤ◌ neg abs min_ℤ equity equity_from
    position_value
program = tt

-- The equity of 1000 + 2 · 110 loses the fee of 2 and gains 3 · (110 - 100).
equity_after_buy : OnApplied (λ _ l. equity market l ≡ pos 1248) (apply_fill first_buy holding)
unfolding program
equity_after_buy = refl

realized_by_sale : OnApplied (λ r l. r ≡ pos 58) (apply_fill part_sale holding)
unfolding program
realized_by_sale = refl

too_dear : apply_fill (fill_of buy (pos 400) (pos 3) (pos 0)) holding ≡ raised insufficient_funds
unfolding program
too_dear = refl

apply_fill-equity_example :
    OnApplied
      (λ _ l.
        equity market l
        ≡ equity market holding +ℤ size_change first_buy *ℤ (pos 110 -ℤ pos 100) -ℤ pos 2)
      (apply_fill first_buy holding)
apply_fill-equity_example = apply_fill-equity market first_buy holding refl (omega arith)

apply_fill-book_value_example :
    OnApplied
      (λ r l.
        (book_value l ≤ℤ book_value holding +ℤ r)
        × (book_value holding +ℤ r <ℤ book_value l +ℤ ((position btc holding).size +ℤ pos 3)))
      (apply_fill first_buy holding)
unfolding position pair_eq
apply_fill-book_value_example =
    apply_fill-book_value first_buy holding refl (omega arith) (omega arith)

first_buy-IsFair : IsFair first_buy
unfolding quote_amount ◌*ℤ◌
first_buy-IsFair = record {
  some_size = omega arith;
  fee_nonneg = omega arith;
  fee_le = omega arith;
}

holding-IsSolvent : IsSolvent holding
holding-IsSolvent = record { cash_nonneg = omega arith; holdings = (inr (omega arith, refl), tt) }

apply_fill-IsSolvent_example : OnApplied (λ _ l. IsSolvent l) (apply_fill first_buy holding)
apply_fill-IsSolvent_example =
    apply_fill-IsSolvent first_buy holding first_buy-IsFair holding-IsSolvent refl

apply_fill_perp-eq-apply_spot_example :
    OnApplied
      (λ r l. apply_fill_perp false part_sale holding ≡ applied r l)
      (apply_spot part_sale holding)
unfolding position pair_eq
apply_fill_perp-eq-apply_spot_example =
    apply_fill_perp-eq-apply_spot part_sale (omega arith) holding (omega arith)

-- A fill, a refused one, a funding payment of 5 and a drain.
abbrev history : List Event
history =
    fill_event first_buy
    ∷ fill_event (fill_of buy (pos 400) (pos 3) (pos 0))
    ∷ drain_event
    ∷ funding_event 7200 (negsuc 4) none
    ∷ fill_event part_sale
    ∷ []

run_balances_example :
    let (l, posted) = run history (new_ledger "EUR" (pos 1000) 0 none false, []) in
    l.cash ≡ total_of "EUR" posted +ℤ total_of "EUR" l.entries
run_balances_example =
    run_balances "EUR" (pos 1000) 0 none false history tt (refl, (refl, (tt, (tt, (refl, tt)))))
