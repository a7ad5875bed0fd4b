-- ===== src/Ledger/Perp.antt =====
-- `Ledger._apply_fill_perp` (kaupo/ledger/ledger.py): positions may be short, and one fill may
-- close a position and open the opposite one.
use kaupo.Base.{Bool, true, none, some, not, ◌&&◌, if◌then◌else◌}
use kaupo.Base.Int.{ℤ, pos, ◌+ℤ◌, ◌-ℤ◌, ◌*ℤ◌, ◌/ℤ◌, neg, abs, min_ℤ, ltb_ℤ, eqb_ℤ}
use kaupo.Base.Dict.{insert}
use kaupo.Domain.{Position, Fill, on_side, quote_amount, eq_pair}
use kaupo.Ledger.State.{Ledger, Outcome, applied, raised, insufficient_funds, position}
use kaupo.Ledger.Spot.{record_trade}

-- A position while a fill is worked off: what it has realized, and what is left of the fill.
pub record Partial : Type 0 where
  pub held : Position
  pub realized : ℤ
  pub remaining : ℤ

-- `fee * (part / total)`; the product is taken first, so that the unit is kept.
unfoldable pub fee_share : Fill → ℤ → ℤ
fee_share f part = f.fee *ℤ part /ℤ f.size

-- `if pos.size == 0: …`
unfoldable pub reset_flat : Position → Position
reset_flat p = if eqb_ℤ p.size (pos 0) then record p { avg_entry = pos 0; entry_ts = none } else p

-- "close long first"
unfoldable pub close_long : Fill → Position → Partial
unfolding fee_share reset_flat
close_long f p =
    let closing : ℤ = min_ℤ f.size p.size in
    if ltb_ℤ (pos 0) p.size
    then record {
      held = reset_flat (record p { size = p.size -ℤ closing });
      realized = closing *ℤ (f.price -ℤ p.avg_entry) -ℤ fee_share f closing;
      remaining = f.size -ℤ closing;
    }
    else record { held = p; realized = pos 0; remaining = f.size }

-- "open or add to the short"
unfoldable pub open_short : Fill → Partial → Position
unfolding fee_share
open_short f w =
    let p : Position = w.held in
    let old : ℤ = abs p.size in
    if ltb_ℤ (pos 0) w.remaining
    then record p {
      entry_ts = if eqb_ℤ p.size (pos 0) then some f.ts else p.entry_ts;
      avg_entry =
          (old *ℤ p.avg_entry +ℤ w.remaining *ℤ f.price -ℤ fee_share f w.remaining)
          /ℤ (old +ℤ w.remaining);
      size = p.size -ℤ w.remaining;
    }
    else p

-- "cover the short first"
unfoldable pub cover_short : Fill → Position → Partial
unfolding fee_share reset_flat
cover_short f p =
    let covering : ℤ = min_ℤ f.size (neg p.size) in
    if ltb_ℤ p.size (pos 0)
    then record {
      held = reset_flat (record p { size = p.size +ℤ covering });
      realized = covering *ℤ (p.avg_entry -ℤ f.price) -ℤ fee_share f covering;
      remaining = f.size -ℤ covering;
    }
    else record { held = p; realized = pos 0; remaining = f.size }

-- "open or add to the long"
unfoldable pub open_long : Fill → Partial → Position
unfolding fee_share
open_long f w =
    let p : Position = w.held in
    let new_size : ℤ = p.size +ℤ w.remaining in
    if ltb_ℤ (pos 0) w.remaining
    then record p {
      entry_ts = if eqb_ℤ p.size (pos 0) then some f.ts else p.entry_ts;
      avg_entry =
          (p.size *ℤ p.avg_entry +ℤ w.remaining *ℤ f.price +ℤ fee_share f w.remaining) /ℤ new_size;
      size = new_size;
    }
    else p

-- What both branches write at their ends.
unfoldable pub settle : Fill → ℤ → ℤ → ℤ → Position → Ledger → Outcome
unfolding record_trade
settle f cash_leg asset_leg realized held l = applied realized (
    record_trade f cash_leg asset_leg (record l {
      cash = l.cash +ℤ cash_leg;
      positions = insert f.pair held l.positions;
      realized_pnl = l.realized_pnl +ℤ realized;
    }))

unfoldable pub sell_perp : Fill → Ledger → Outcome
unfolding position close_long open_short quote_amount settle
sell_perp f l =
    let w : Partial = close_long f (position f.pair l) in
    settle f (quote_amount f -ℤ f.fee) (neg f.size) w.realized (open_short f w) l

unfoldable pub buy_perp : Bool → Fill → Ledger → Outcome
unfolding position cover_short open_long quote_amount settle
buy_perp force f l =
    let w : Partial = cover_short f (position f.pair l) in
    let cost : ℤ = quote_amount f +ℤ f.fee in
    if not force && ltb_ℤ l.cash cost
    then raised insufficient_funds
    else settle f (neg cost) f.size w.realized (open_long f w) l

unfoldable pub apply_fill_perp : Bool → Fill → Ledger → Outcome
unfolding buy_perp sell_perp
apply_fill_perp force f l = on_side f.side (buy_perp force f l) (sell_perp f l)

-- `apply_liquidation_fill`
unfoldable pub apply_liquidation_fill : Fill → Ledger → Outcome
unfolding apply_fill_perp
apply_liquidation_fill f l = apply_fill_perp true f l
