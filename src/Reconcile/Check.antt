-- ===== src/Reconcile/Check.antt =====
-- `balance_drift`, `_check_drift` and `reconcile_live` (kaupo/core/live_reconcile.py).
use kaupo.Base.{
  ℕ, String, Bool, ◌&&◌, Option, none, some, List, [], ◌∷◌, ◌++◌, if◌then◌else◌, ltb, get_or,
  on_some, is_some,
}
use kaupo.Base.Int.{ℤ, pos, ◌+ℤ◌, ◌-ℤ◌, ◌*ℤ◌, neg, abs, ltb_ℤ}
use kaupo.Base.Dict.{Dict, lookup, insert}
use kaupo.Domain.{Pair, on_side, Position, eq_pair, eq_string}
use kaupo.Reconcile.State.{
  ExchangeTrade, LiveFill, RecoveredOrder, Books, Exchange, ReconcileResult,
}
use kaupo.Reconcile.Recover.{recover_missed, newest, map_trades}

-- `_cash_delta`: buys spend, sells receive.
unfoldable pub cash_delta : LiveFill → ℤ
cash_delta f = on_side f.side (neg (f.price *ℤ f.size +ℤ f.fee)) (f.price *ℤ f.size -ℤ f.fee)

abbrev pub size_delta : LiveFill → ℤ
size_delta f = on_side f.side f.size (neg f.size)

-- The sum over recovered fills.
abbrev pub sum_missed : (LiveFill → ℤ) → List (RecoveredOrder × LiveFill) → ℤ
sum_missed f [] = pos 0
sum_missed f ((_, x) ∷ xs) = f x +ℤ sum_missed f xs

-- `_with_missed`
unfoldable pub with_missed :
    Pair → Dict Pair Position → List (RecoveredOrder × LiveFill) → Dict Pair Position
with_missed pair positions missed =
    let current : Option Position = lookup pair positions in
    insert pair
      (record {
        pair = pair;
        size = on_some current (pos 0) (λ (p : Position). p.size) +ℤ sum_missed size_delta missed;
        avg_entry = on_some current (pos 0) (λ (p : Position). p.avg_entry);
        entry_ts = on_some current none (λ (p : Position). p.entry_ts);
      })
      positions

-- `balance_drift`: what the exchange holds beyond the books, in base and in quote.
unfoldable pub balance_drift :
    Dict String ℤ → Pair → Dict Pair Position → (cash : ℤ) → (expected_quote : Option ℤ) → ℤ × ℤ
balance_drift balances pair positions cash expected_quote = (
  get_or (lookup pair.base balances) (pos 0)
      -ℤ on_some (lookup pair positions) (pos 0) (λ (p : Position). p.size),
  get_or (lookup pair.quote balances) (pos 0) -ℤ get_or expected_quote cash,
)

pub data Problem : Type 0 where
  base_off quote_off : ℤ → Problem

pub data Refusal : Type 0 where
  no_balances : Refusal
  disagree : List Problem → Refusal

-- `_check_drift`: the problems that refuse the start.
unfoldable pub check_drift :
    (base_drift quote_drift : ℤ)
    → (check_quote : Bool) → (base_tolerance quote_tolerance : ℤ) → List Problem
check_drift base_drift quote_drift check_quote base_tolerance quote_tolerance =
    (if ltb_ℤ base_tolerance (abs base_drift) then base_off base_drift ∷ [] else [])
    ++ (if check_quote && ltb_ℤ quote_tolerance (abs quote_drift)
        then quote_off quote_drift ∷ []
        else [])

-- `reconcile_live`: the arguments of a run.
pub record Request : Type 0 where
  pub pair : Pair
  pub positions : Dict Pair Position
  pub cash : ℤ
  pub history_since : Option ℕ
  pub check_quote : Bool
  pub quote_baseline : Option ℤ
  pub starting_cash : Option ℤ
  pub now : ℕ
  pub base_tolerance : ℤ
  pub quote_tolerance : ℤ

pub data Outcome : Type 0 where
  refused : Refusal → Outcome
  agreed_books : ReconcileResult → Outcome

-- `max(history_since, recorded_until)`
abbrev pub since_of : ℕ → Option ℕ → ℕ
since_of history_since none = history_since
since_of history_since (some until) = if ltb history_since until then until else history_since

-- The trades to look at; a run without a chain recovers no history.
unfoldable pub trades_of : Exchange → Books → Request → List ExchangeTrade
trades_of x books r =
    on_some r.history_since []
      λ since. x.my_trades (pos (since_of since books.last_fill_ts) -ℤ pos 1000)

unfoldable pub cursor_of : Books → Request → List ExchangeTrade → ℕ
cursor_of books r [] = on_some r.history_since r.now λ since. since_of since books.last_fill_ts
cursor_of books r (t ∷ ts) = newest t.ts ts

-- The quote that the books imply: the baseline and the cash movement on record.
unfoldable pub expected_quote : Request → (carried_cash : ℤ) → Option ℤ
expected_quote r carried_cash = on_some r.quote_baseline none λ baseline.
    on_some r.starting_cash none λ starting. some (baseline +ℤ (carried_cash -ℤ starting))

-- The problems of the balances, with the recovered fills folded into the books.
unfoldable pub problems_of :
    Request → Dict String ℤ → List (RecoveredOrder × LiveFill) → List Problem
unfolding with_missed cash_delta balance_drift check_drift expected_quote
problems_of r balances missed =
    let carried : Dict Pair Position = with_missed r.pair r.positions missed in
    let carried_cash : ℤ = r.cash +ℤ sum_missed cash_delta missed in
    let expected : Option ℤ = expected_quote r carried_cash in
    let drift : ℤ × ℤ = balance_drift balances r.pair carried carried_cash expected in
    check_drift drift.0 drift.1 (r.check_quote && is_some expected) r.base_tolerance
      r.quote_tolerance

-- How it ends, by the problems.
unfoldable pub outcome_of : ReconcileResult → List Problem → Outcome
outcome_of result [] = agreed_books result
outcome_of result (p ∷ ps) = refused (disagree (p ∷ ps))

-- `reconcile_live`: the orders that it cancels, and how it ends.
unfoldable pub reconcile_live : Exchange → Books → Request → List String × Outcome
unfolding trades_of cursor_of recover_missed problems_of outcome_of
reconcile_live x books r =
    let trades : List ExchangeTrade = trades_of x books r in
    let missed : List (RecoveredOrder × LiveFill) = recover_missed books r.pair trades in
    (
      x.open_order_ids,
      on_some x.balances (refused no_balances) λ balances.
          outcome_of
            (record {
              missed = missed;
              balances = balances;
              trades_cursor_ms = cursor_of books r trades;
              seen_trade_ids = map_trades (λ (t : ExchangeTrade). t.id) trades;
            })
            (problems_of r balances missed),
    )
