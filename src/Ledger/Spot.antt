-- ===== src/Ledger/Spot.antt =====
-- `Ledger.apply_fill` of a spot run (kaupo/ledger/ledger.py).
use kaupo.Base.{Bool, none, some, if◌then◌else◌}
use kaupo.Base.Int.{ℤ, pos, ◌+ℤ◌, ◌-ℤ◌, ◌*ℤ◌, ◌/ℤ◌, neg, ltb_ℤ, eqb_ℤ}
use kaupo.Base.Dict.{insert}
use kaupo.Domain.{Position, Fill, on_side, quote_amount, eq_pair}
use kaupo.Ledger.State.{
  Ledger, Outcome, applied, raised, insufficient_funds, insufficient_position, trade, position,
  record_entry,
}

-- The cost basis after a buy holds the entry fee.
unfoldable pub bought : Fill → Position → Position
unfolding quote_amount
bought f p =
    let new_size : ℤ = p.size +ℤ f.size in
    record p {
      entry_ts = if eqb_ℤ p.size (pos 0) then some f.ts else p.entry_ts;
      avg_entry =
          if ltb_ℤ (pos 0) new_size
          then (p.size *ℤ p.avg_entry +ℤ quote_amount f +ℤ f.fee) /ℤ new_size
          else pos 0;
      size = new_size;
    }

unfoldable pub sold : Fill → Position → Position
sold f p =
    let left : ℤ = p.size -ℤ f.size in
    let closed : Bool = eqb_ℤ left (pos 0) in
    record p {
      size = left;
      avg_entry = if closed then pos 0 else p.avg_entry;
      entry_ts = if closed then none else p.entry_ts;
    }

-- The two log entries that every fill leaves: the cash leg, then the asset leg.
unfoldable pub record_trade : Fill → ℤ → ℤ → Ledger → Ledger
unfolding record_entry
record_trade f cash_leg asset_leg l =
    record_entry f.ts f.pair.base asset_leg trade (some f.order_id)
      (record_entry f.ts l.quote cash_leg trade (some f.order_id) l)

unfoldable pub apply_buy : Fill → Ledger → Outcome
unfolding position bought quote_amount record_trade
apply_buy f l =
    let cost : ℤ = quote_amount f +ℤ f.fee in
    if ltb_ℤ l.cash cost
    then raised insufficient_funds
    else applied (pos 0) (
        record_trade f (neg cost) f.size (record l {
          cash = l.cash -ℤ cost;
          positions = insert f.pair (bought f (position f.pair l)) l.positions;
        }))

unfoldable pub apply_sell : Fill → Ledger → Outcome
unfolding position sold quote_amount record_trade
apply_sell f l =
    let p : Position = position f.pair l in
    let proceeds : ℤ = quote_amount f -ℤ f.fee in
    let realized : ℤ = f.size *ℤ (f.price -ℤ p.avg_entry) -ℤ f.fee in
    if ltb_ℤ p.size f.size
    then raised insufficient_position
    else applied realized (
        record_trade f proceeds (neg f.size) (record l {
          cash = l.cash +ℤ proceeds;
          positions = insert f.pair (sold f p) l.positions;
          realized_pnl = l.realized_pnl +ℤ realized;
        }))

unfoldable pub apply_spot : Fill → Ledger → Outcome
unfolding apply_buy apply_sell
apply_spot f l = on_side f.side (apply_buy f l) (apply_sell f l)
