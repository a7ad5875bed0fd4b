-- ===== src/Ledger/Journal.antt =====
-- The entry log accounts for every change of cash. `Event` is what a run may do to its ledger,
-- and the entries that `drain_entries` hands out are kept beside it, as the engine persists them.
use text.Mathlib.Text.{◌==◌ as str_eq}
use text.Mathlib.TextPositions.{eq_refl}
use kaupo.Base.{
  String, ◌≡◌, refl, subst, some, get_or, All-filter, Bool, true, false, none, Option, List, [],
  ◌∷◌, ◌++◌, All,
}
use kaupo.Base.Int.{ℤ, ◌+ℤ◌, int_laws}
use kaupo.Base.Dict.{Dict}
use kaupo.Domain.{Pair, Fill, Timestamp, OrderId, Position}
use kaupo.Ledger.State.{
  Ledger, LedgerEntry, Outcome, OnApplied, applied, raised, record_entry, record_carried, carry_in,
  new_ledger, drain_entries,
}
use kaupo.Ledger.Perp.{apply_liquidation_fill}
use kaupo.Ledger.Apply.{apply_fill, apply_funding}
use kaupo.Ledger.Booked.{
  apply_fill_perp-IsBooked, apply_fill-IsBooked, total_of, total_of-append, IsBooked,
  apply_funding-IsBooked,
}

-- What a run does to its ledger.
pub data Event : Type 0 where
  fill_event liquidation_event : Fill → Event
  funding_event : Timestamp → ℤ → Option OrderId → Event
  drain_event : Event

-- A fill whose base is the quote asset itself would be booked on both legs.
abbrev pub HasOwnBase : String → Event → Type 0
HasOwnBase quote (fill_event f) = str_eq f.pair.base quote ≡ false
HasOwnBase quote (liquidation_event f) = str_eq f.pair.base quote ≡ false
HasOwnBase quote (funding_event _ _ _) = Unit
HasOwnBase quote drain_event = Unit

-- An exception leaves the ledger as it was.
abbrev after : Ledger → Outcome → Ledger
after l (applied _ l') = l'
after l (raised _) = l

-- The ledger and the entries persisted so far.
abbrev pub Books : Type 0
Books = Ledger × List LedgerEntry

pub step : Event → Books → Books
step (fill_event f) (l, posted) = (after l (apply_fill f l), posted)
step (liquidation_event f) (l, posted) = (after l (apply_liquidation_fill f l), posted)
step (funding_event ts amount ref_id) (l, posted) = (apply_funding ts amount ref_id l, posted)
step drain_event (l, posted) = let (entries, l') = drain_entries l in (l', posted ++ entries)

pub run : List Event → Books → Books
run [] b = b
run (e ∷ es) b = run es (step e b)

-- Cash is the sum of everything that was ever booked on the quote asset.
abbrev pub IsBalanced : String → Books → Type 0
IsBalanced quote (l, posted) =
    (l.quote ≡ quote) × (l.cash ≡ total_of quote posted +ℤ total_of quote l.entries)

-- A booked change keeps the balance.
booked-IsBalanced :
    (l l' : Ledger) (posted : List LedgerEntry)
    → IsBooked l l'
    → IsBalanced l.quote (l, posted)
    → IsBalanced l.quote (l', posted)
booked-IsBalanced l l' posted b (_, sum) = (b.same_quote, omega (int_laws, b.booked))

after-IsBalanced :
    (l : Ledger) (posted : List LedgerEntry) (o : Outcome)
    → OnApplied (λ _ l'. IsBooked l l') o
    → IsBalanced l.quote (l, posted)
    → IsBalanced l.quote (after l o, posted)
after-IsBalanced l posted (applied r l') b h = booked-IsBalanced l l' posted b h
after-IsBalanced l posted (raised _) b h = h

step-IsBalanced :
    (e : Event) (l : Ledger) (posted : List LedgerEntry)
    → HasOwnBase l.quote e
    → IsBalanced l.quote (l, posted)
    → IsBalanced l.quote (step e (l, posted))
unfolding step drain_entries apply_liquidation_fill
step-IsBalanced (fill_event f) l posted own h =
    after-IsBalanced l posted _ (apply_fill-IsBooked f l own) h
step-IsBalanced (liquidation_event f) l posted own h =
    after-IsBalanced l posted _ (apply_fill_perp-IsBooked f l own true) h
step-IsBalanced (funding_event ts amount ref_id) l posted own h =
    booked-IsBalanced l _ posted (apply_funding-IsBooked ts amount ref_id l) h
step-IsBalanced drain_event l posted own (same, sum) =
    (same, unfold total_of in rw (total_of-append l.quote posted l.entries) (omega int_laws))

run-IsBalanced :
    (quote : String) (es : List Event) (b : Books)
    → All (HasOwnBase quote) es
    → IsBalanced quote b
    → IsBalanced quote (run es b)
unfolding run
run-IsBalanced quote [] b own h = h
run-IsBalanced quote (e ∷ es) (l, posted) (own, owns) (same, sum) =
    run-IsBalanced quote es (step e (l, posted)) owns (
      subst (λ q. HasOwnBase q e → IsBalanced q (l, posted) → IsBalanced q (step e (l, posted)))
        same (step-IsBalanced e l posted) own (same, sum))

-- No position is held in the quote asset.
abbrev pub HasOwnBases : String → Dict Pair Position → Type 0
HasOwnBases quote = All (λ (e : Pair × Position). str_eq e.0.base quote ≡ false)

record_carried-IsBalanced :
    (ts : Timestamp) (d : Dict Pair Position) (l : Ledger)
    → HasOwnBases l.quote d
    → IsBalanced l.quote (l, [])
    → IsBalanced l.quote (record_carried ts d l, [])
unfolding record_carried
record_carried-IsBalanced ts [] l own h = h
record_carried-IsBalanced ts ((p, v) ∷ d) l (own, owns) (same, sum) =
    record_carried-IsBalanced ts d (record_entry ts p.base v.size carry_in none l) owns
      (refl, rw (total_of-append l.quote l.entries) (unfold total_of in rw own (omega int_laws)))

new_ledger-IsBalanced :
    (quote : String) (cash : ℤ) (ts : Timestamp) (positions : Option (Dict Pair Position))
    (perp : Bool)
    → HasOwnBases quote (get_or positions [])
    → IsBalanced quote (new_ledger quote cash ts positions perp, [])
unfolding new_ledger total_of
new_ledger-IsBalanced quote cash ts none perp own = (refl, rw (eq_refl quote) (omega int_laws))
new_ledger-IsBalanced quote cash ts (some d) perp own =
    record_carried-IsBalanced ts _ _ (All-filter _ _ d own)
      (refl, rw (eq_refl quote) (omega int_laws))

-- From a fresh or a resumed ledger, through any sequence of fills (accepted or refused),
-- liquidations, funding payments and drains, cash is the sum of all amounts that were ever
-- booked on the quote asset: those persisted and those still in the log.
pub run_balances :
    (quote : String) (cash : ℤ) (ts : Timestamp) (positions : Option (Dict Pair Position))
    (perp : Bool) (es : List Event)
    → HasOwnBases quote (get_or positions [])
    → All (HasOwnBase quote) es
    → let (l, posted) = run es (new_ledger quote cash ts positions perp, []) in
      l.cash ≡ total_of quote posted +ℤ total_of quote l.entries
run_balances quote cash ts positions perp es bases own =
    (run-IsBalanced quote es (new_ledger quote cash ts positions perp, []) own
      (new_ledger-IsBalanced quote cash ts positions perp bases)).1
