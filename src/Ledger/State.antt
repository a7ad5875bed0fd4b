-- ===== src/Ledger/State.antt =====
-- The state of `class Ledger` (kaupo/ledger/ledger.py), its construction and its readers.
use text.Mathlib.Text.{◌==◌ as str_eq}
use kaupo.Base.{
  ◌≡◌, refl, String, Bool, not, Option, none, some, List, [], ◌∷◌, ◌++◌, if◌then◌else◌, get_or,
  filter,
}
use kaupo.Base.Int.{ℤ, pos, ◌+ℤ◌, ◌*ℤ◌, eqb_ℤ}
use kaupo.Base.Dict.{Dict, lookup}
use kaupo.Domain.{Pair, Position, Timestamp, OrderId, flat, eq_pair}

-- The reasons that the ledger writes into its log.
pub data Reason : Type 0 where
  deposit carry_in trade funding : Reason

pub record LedgerEntry : Type 0 where
  pub ts : Timestamp
  pub asset : String
  pub amount : ℤ
  pub balance_after : ℤ
  pub reason : Reason
  pub ref_id : Option OrderId

pub record Ledger : Type 0 where
  pub quote : String
  pub cash : ℤ
  pub perp : Bool
  pub positions : Dict Pair Position
  pub entries : List LedgerEntry
  pub realized_pnl : ℤ

-- The exceptions of `apply_fill`.
pub data LedgerError : Type 0 where
  insufficient_funds insufficient_position : LedgerError

-- The outcome of `apply_fill`: the realized PnL with the new state, or what was raised. Every
-- `raise` stands above the first assignment, so that an exception leaves the state alone.
pub data Outcome : Type 0 where
  applied : ℤ → Ledger → Outcome
  raised : LedgerError → Outcome

-- What holds of the result and the new state, if no exception was raised.
abbrev pub OnApplied : (ℤ → Ledger → Type 0) → Outcome → Type 0
OnApplied P (applied r l) = P r l
OnApplied P (raised _) = Unit

pub OnApplied-self : (o : Outcome) → OnApplied (λ r l. o ≡ applied r l) o
OnApplied-self (applied r l) = refl
OnApplied-self (raised _) = tt

pub OnApplied-map :
    {P Q : ℤ → Ledger → Type 0} (o : Outcome)
    → ((r : ℤ) (l : Ledger) → P r l → Q r l)
    → OnApplied P o
    → OnApplied Q o
OnApplied-map (applied r l) f h = f r l h
OnApplied-map (raised _) f h = tt

-- `self._positions.get(pair, Position(pair=pair))`
unfoldable pub position : Pair → Ledger → Position
position p l = get_or (lookup p l.positions) (flat p)

first_with_base : String → Dict Pair Position → Option Position
first_with_base asset [] = none
first_with_base asset ((p, v) ∷ d) = if str_eq p.base asset then some v else first_with_base asset d

unfoldable pub position_for : String → Ledger → Position
unfolding first_with_base
position_for asset l =
    get_or (first_with_base asset l.positions) (flat (record { base = asset; quote = l.quote }))

-- `_record`
unfoldable pub record_entry : Timestamp → String → ℤ → Reason → Option OrderId → Ledger → Ledger
unfolding position_for
record_entry ts asset amount reason ref_id l = record l {
  entries =
      l.entries
      ++ record {
        ts = ts;
        asset = asset;
        amount = amount;
        balance_after = if str_eq asset l.quote then l.cash else (position_for asset l).size;
        reason = reason;
        ref_id = ref_id;
      }
        ∷ [];
}

-- `{… if pos.size != 0}`, in the constructor and in `open_positions`
unfoldable pub nonzero_positions : Dict Pair Position → Dict Pair Position
nonzero_positions = filter (λ (_, v). not (eqb_ℤ v.size (pos 0)))

unfoldable pub open_positions : Ledger → Dict Pair Position
unfolding nonzero_positions
open_positions l = nonzero_positions l.positions

-- The carry-in entries of a resumed run.
unfoldable pub record_carried : Timestamp → Dict Pair Position → Ledger → Ledger
unfolding record_entry
record_carried ts [] l = l
record_carried ts ((p, v) ∷ d) l =
    record_carried ts d (record_entry ts p.base v.size carry_in none l)

-- `__init__`; `positions` is None for a fresh run.
unfoldable pub new_ledger : String → ℤ → Timestamp → Option (Dict Pair Position) → Bool → Ledger
unfolding record_entry record_carried nonzero_positions
new_ledger quote cash ts positions perp =
    let carried : Dict Pair Position = nonzero_positions (get_or positions []) in
    let start : Ledger = record {
      quote = quote;
      cash = cash;
      perp = perp;
      positions = carried;
      entries = [];
      realized_pnl = pos 0;
    } in
    elim positions [
      | none ↦ record_entry ts quote cash deposit none start
      | some _ ↦ record_carried ts carried (record_entry ts quote cash carry_in none start)
    ]

-- `equity`
unfoldable pub position_value : (Pair → Option ℤ) → Pair × Position → ℤ
position_value prices (p, v) = elim (prices p) [
  | none ↦ pos 0
  | some price ↦ if eqb_ℤ v.size (pos 0) then pos 0 else v.size *ℤ price
]

unfoldable pub equity_from : (Pair → Option ℤ) → ℤ → Dict Pair Position → ℤ
unfolding position_value
equity_from prices acc [] = acc
equity_from prices acc (e ∷ d) = equity_from prices (acc +ℤ position_value prices e) d

unfoldable pub equity : (Pair → Option ℤ) → Ledger → ℤ
unfolding equity_from
equity prices l = equity_from prices l.cash l.positions

-- `drain_entries`
unfoldable pub drain_entries : Ledger → List LedgerEntry × Ledger
drain_entries l = (l.entries, record l { entries = [] })
