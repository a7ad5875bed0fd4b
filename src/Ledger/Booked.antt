-- ===== src/Ledger/Booked.antt =====
-- What one change of the ledger books on the quote asset (kaupo/ledger/ledger.py).
use text.Mathlib.Text.{◌==◌ as str_eq}
use text.Mathlib.TextPositions.{eq_refl}
use kaupo.Base.{
  String, ◌≡◌, refl, ap, ◌∙◌, Bool, false, not, ◌&&◌, Option, List, [], ◌∷◌, ◌++◌, if_ind,
  if◌then◌else◌,
}
use kaupo.Base.Int.{ℤ, pos, ◌+ℤ◌, ◌-ℤ◌, ltb_ℤ, int_laws}
use kaupo.Base.Dict.{Dict}
use kaupo.Domain.{Pair, Fill, Timestamp, OrderId, Position, on_side_ind, quote_amount}
use kaupo.Ledger.State.{Ledger, LedgerEntry, Outcome, OnApplied, position}
use kaupo.Ledger.Spot.{record_trade, apply_buy, apply_sell, apply_spot}
use kaupo.Ledger.Perp.{settle, buy_perp, sell_perp, apply_fill_perp}
use kaupo.Ledger.Apply.{apply_fill, apply_funding}

-- The sum of the amounts booked on one asset.
unfoldable pub total_of : String → List LedgerEntry → ℤ
total_of asset [] = pos 0
total_of asset (e ∷ es) = (if str_eq e.asset asset then e.amount else pos 0) +ℤ total_of asset es

pub total_of-append :
    (a : String) (xs ys : List LedgerEntry) → total_of a (xs ++ ys) ≡ total_of a xs +ℤ total_of a ys
unfolding total_of
total_of-append a [] ys = omega int_laws
total_of-append a (x ∷ xs) ys = let rest = total_of-append a xs ys in omega int_laws

-- The new state books its change of cash, and nothing else, on the quote asset.
pub record IsBooked (l l' : Ledger) : Type 0 where
  pub same_quote : l'.quote ≡ l.quote
  pub booked : total_of l.quote l'.entries ≡ total_of l.quote l.entries +ℤ (l'.cash -ℤ l.cash)

record_trade-total_of :
    (f : Fill) (cash_leg asset_leg : ℤ) (k : Ledger)
    → str_eq f.pair.base k.quote ≡ false
    → total_of k.quote (record_trade f cash_leg asset_leg k).entries
      ≡ total_of k.quote k.entries +ℤ cash_leg
unfolding record_trade
record_trade-total_of f cash_leg asset_leg k other =
    rw (total_of-append, total_of-append)
      (unfold total_of in rw (other, eq_refl k.quote) (omega int_laws))

module _ (f : Fill) (l : Ledger) (other : str_eq f.pair.base l.quote ≡ false) where
  abbrev BookedAfter : Outcome → Type 0
  BookedAfter = OnApplied (λ _ l'. IsBooked l l')

  -- The two entries of a trade book the change of cash, whatever else was assigned before them.
  record_trade-IsBooked :
      (cash cash_leg asset_leg realized_pnl : ℤ) (positions : Dict Pair Position)
      → cash ≡ l.cash +ℤ cash_leg
      → IsBooked l (
          record_trade f cash_leg asset_leg
            (record l { cash = cash; positions = positions; realized_pnl = realized_pnl }))
  unfolding record_trade
  record_trade-IsBooked cash cash_leg asset_leg realized_pnl positions e =
      let k : Ledger = record l {
        cash = cash;
        positions = positions;
        realized_pnl = realized_pnl;
      } in
      record {
        same_quote = refl;
        booked =
            record_trade-total_of f cash_leg asset_leg k other
            ∙ ap (λ c. total_of l.quote l.entries +ℤ c) (omega int_laws);
      }

  apply_buy-IsBooked : BookedAfter (apply_buy f l)
  unfolding apply_buy
  apply_buy-IsBooked =
      if_ind BookedAfter (ltb_ℤ l.cash (quote_amount f +ℤ f.fee)) (λ _. tt)
        (λ _. record_trade-IsBooked _ _ _ _ _ (omega int_laws))

  apply_sell-IsBooked : BookedAfter (apply_sell f l)
  unfolding apply_sell
  apply_sell-IsBooked =
      if_ind BookedAfter (ltb_ℤ (position f.pair l).size f.size) (λ _. tt)
        (λ _. record_trade-IsBooked _ _ _ _ _ refl)

  settle-IsBooked :
      (cash_leg asset_leg realized : ℤ) (held : Position)
      → BookedAfter (settle f cash_leg asset_leg realized held l)
  unfolding settle
  settle-IsBooked cash_leg asset_leg realized held = record_trade-IsBooked _ _ _ _ _ refl

  pub apply_fill_perp-IsBooked : (force : Bool) → BookedAfter (apply_fill_perp force f l)
  unfolding apply_fill_perp buy_perp sell_perp
  apply_fill_perp-IsBooked force =
      on_side_ind BookedAfter f.side
        (λ _.
          if_ind BookedAfter (not force && ltb_ℤ l.cash (quote_amount f +ℤ f.fee)) (λ _. tt)
            (λ _. settle-IsBooked _ _ _ _))
        (λ _. settle-IsBooked _ _ _ _)

  pub apply_fill-IsBooked : BookedAfter (apply_fill f l)
  unfolding apply_fill apply_spot
  apply_fill-IsBooked =
      if_ind BookedAfter l.perp (λ _. apply_fill_perp-IsBooked false)
        (λ _. on_side_ind BookedAfter f.side (λ _. apply_buy-IsBooked) (λ _. apply_sell-IsBooked))

pub apply_funding-IsBooked :
    (ts : Timestamp) (amount : ℤ) (ref_id : Option OrderId) (l : Ledger)
    → IsBooked l (apply_funding ts amount ref_id l)
unfolding apply_funding
apply_funding-IsBooked ts amount ref_id l = record {
  same_quote = refl;
  booked =
      rw (total_of-append l.quote l.entries)
        (unfold total_of in rw (eq_refl l.quote) (omega int_laws));
}
