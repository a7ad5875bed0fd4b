-- ===== src/Ledger/Effect.antt =====
-- What an accepted fill does to cash and positions, whichever of the two ways applies it.
use kaupo.Base.{◌≡◌, refl, Bool, false, not, ◌&&◌, arith, Bool-cases, inl, inr, if_ind, ap, sym}
use kaupo.Base.Int.{
  ℤ, pos, ◌+ℤ◌, ◌-ℤ◌, ◌*ℤ◌, ◌≤ℤ◌, neg, *ℤ_comm, neg-*ℤ, min_ℤ_parts, ltb_ℤ, ltb_ℤ-false, int_laws,
}
use kaupo.Base.Dict.{insert}
use kaupo.Domain.{
  Position, Fill, buy, sell, on_side, on_side_ind, Side-cases, quote_amount, eq_pair,
}
use kaupo.Ledger.State.{Ledger, Outcome, OnApplied, position}
use kaupo.Ledger.Spot.{bought, sold, apply_buy, apply_sell, apply_spot}
use kaupo.Ledger.Perp.{
  Partial, close_long, open_short, cover_short, open_long, reset_flat, settle, buy_perp, sell_perp,
  apply_fill_perp,
}
use kaupo.Ledger.Apply.{apply_fill}

-- The size that a fill adds to the position, and the cash that it brings in.
abbrev pub size_change : Fill → ℤ
size_change f = on_side f.side f.size (neg f.size)

abbrev pub cash_change : Fill → ℤ
cash_change f = on_side f.side (neg (quote_amount f +ℤ f.fee)) (quote_amount f -ℤ f.fee)

-- One position is replaced, its size moves by the fill's, and cash pays the price and the fee.
pub record Traded (f : Fill) (l l' : Ledger) : Type 0 where
  pub held : Position
  pub sized : held.size ≡ (position f.pair l).size +ℤ size_change f
  pub placed : l'.positions ≡ insert f.pair held l.positions
  pub paid : l'.cash ≡ l.cash +ℤ cash_change f
  pub same_kind : l'.perp ≡ l.perp

module _ (f : Fill) where
  size_change_buy : f.side ≡ buy → size_change f ≡ f.size
  size_change_buy e = rw e

  size_change_sell : f.side ≡ sell → size_change f ≡ neg f.size
  size_change_sell e = rw e

  cash_change_buy : f.side ≡ buy → cash_change f ≡ neg (quote_amount f +ℤ f.fee)
  cash_change_buy e = rw e

  cash_change_sell : f.side ≡ sell → cash_change f ≡ quote_amount f -ℤ f.fee
  cash_change_sell e = rw e

  -- Cash pays for the size at the fill's price, and the fee.
  pub cash_change-size : cash_change f ≡ neg (size_change f *ℤ f.price) -ℤ f.fee
  unfolding quote_amount
  cash_change-size = elim (Side-cases f.side) [
    | inl s ↦ rw (cash_change_buy s, size_change_buy s, *ℤ_comm f.size f.price) (omega int_laws)
    | inr s ↦
        rw (cash_change_sell s, size_change_sell s, neg-*ℤ f.size f.price, *ℤ_comm f.size f.price)
          (omega int_laws)
  ]

module _ (f : Fill) (l : Ledger) where
  abbrev TradedAfter : Outcome → Type 0
  TradedAfter = OnApplied (λ _ l'. Traded f l l')

  apply_buy-Traded : f.side ≡ buy → TradedAfter (apply_buy f l)
  unfolding apply_buy
  apply_buy-Traded s =
      if_ind TradedAfter (ltb_ℤ l.cash (quote_amount f +ℤ f.fee)) (λ _. tt)
        λ _. record {
          held = bought f (position f.pair l);
          sized = rw (size_change_buy f s) refl;
          placed = refl;
          paid = rw (cash_change_buy f s) (omega int_laws);
          same_kind = refl;
        }

  apply_sell-Traded : f.side ≡ sell → TradedAfter (apply_sell f l)
  unfolding apply_sell
  apply_sell-Traded s =
      if_ind TradedAfter (ltb_ℤ (position f.pair l).size f.size) (λ _. tt)
        λ _. record {
          held = sold f (position f.pair l);
          sized = rw (size_change_sell f s) (omega int_laws);
          placed = refl;
          paid = rw (cash_change_sell f s) refl;
          same_kind = refl;
        }

  reset_flat-size : (p : Position) → (reset_flat p).size ≡ p.size
  unfolding reset_flat
  reset_flat-size p = ground arith

  -- Closing a long leaves the sum of what is held and what is still to be sold.
  close_long-size :
      (p : Position)
      → pos 0 ≤ℤ f.size
      → let w = close_long f p in
        (w.held.size -ℤ w.remaining ≡ p.size -ℤ f.size) × (pos 0 ≤ℤ w.remaining)
  unfolding close_long
  close_long-size p h = elim (Bool-cases (ltb_ℤ (pos 0) p.size)) [
    | inl long ↦ rw long (
      rw reset_flat-size (omega (int_laws, min_ℤ_parts f.size p.size)),
      omega (int_laws, min_ℤ_parts f.size p.size),
    )
    | inr other ↦ rw other (refl, h)
  ]

  cover_short-size :
      (p : Position)
      → pos 0 ≤ℤ f.size
      → let w = cover_short f p in
        (w.held.size +ℤ w.remaining ≡ p.size +ℤ f.size) × (pos 0 ≤ℤ w.remaining)
  unfolding cover_short
  cover_short-size p h = elim (Bool-cases (ltb_ℤ p.size (pos 0))) [
    | inl short ↦ rw short (
      rw reset_flat-size (omega (int_laws, min_ℤ_parts f.size (neg p.size))),
      omega (int_laws, min_ℤ_parts f.size (neg p.size)),
    )
    | inr other ↦ rw other (refl, h)
  ]

  open_short-size :
      (w : Partial) → pos 0 ≤ℤ w.remaining → (open_short f w).size ≡ w.held.size -ℤ w.remaining
  unfolding open_short
  open_short-size w h = elim (Bool-cases (ltb_ℤ (pos 0) w.remaining)) [
    | inl more ↦ rw more refl
    | inr done ↦ rw done (omega (int_laws, ltb_ℤ-false (pos 0) w.remaining done))
  ]

  open_long-size :
      (w : Partial) → pos 0 ≤ℤ w.remaining → (open_long f w).size ≡ w.held.size +ℤ w.remaining
  unfolding open_long
  open_long-size w h = elim (Bool-cases (ltb_ℤ (pos 0) w.remaining)) [
    | inl more ↦ rw more refl
    | inr done ↦ rw done (omega (int_laws, ltb_ℤ-false (pos 0) w.remaining done))
  ]

  settle-Traded :
      (cash_leg asset_leg realized : ℤ) (held : Position)
      → held.size ≡ (position f.pair l).size +ℤ size_change f
      → cash_leg ≡ cash_change f
      → TradedAfter (settle f cash_leg asset_leg realized held l)
  unfolding settle
  settle-Traded cash_leg asset_leg realized held sized paid = record {
    held = held;
    sized = sized;
    placed = refl;
    paid = ap (λ c. l.cash +ℤ c) paid;
    same_kind = refl;
  }

  buy_perp-Traded :
      (force : Bool) → pos 0 ≤ℤ f.size → f.side ≡ buy → TradedAfter (buy_perp force f l)
  unfolding buy_perp
  buy_perp-Traded force h s =
      let p : Position = position f.pair l in
      let w : Partial = cover_short f p in
      let (sum, rest) = cover_short-size p h in
      if_ind TradedAfter (not force && ltb_ℤ l.cash (quote_amount f +ℤ f.fee)) (λ _. tt)
        λ _.
          settle-Traded _ _ _ _
            (rw (size_change_buy f s) (omega (int_laws, open_long-size w rest, sum)))
            (sym (cash_change_buy f s))

  sell_perp-Traded : pos 0 ≤ℤ f.size → f.side ≡ sell → TradedAfter (sell_perp f l)
  unfolding sell_perp
  sell_perp-Traded h s =
      let p : Position = position f.pair l in
      let w : Partial = close_long f p in
      let (sum, rest) = close_long-size p h in
      settle-Traded _ _ _ _
        (rw (size_change_sell f s) (omega (int_laws, open_short-size w rest, sum)))
        (sym (cash_change_sell f s))

  pub apply_fill_perp-Traded :
      (force : Bool) → pos 0 ≤ℤ f.size → TradedAfter (apply_fill_perp force f l)
  unfolding apply_fill_perp
  apply_fill_perp-Traded force h =
      on_side_ind TradedAfter f.side (buy_perp-Traded force h) (sell_perp-Traded h)

  -- The one statement that the other modules use.
  pub apply_fill-Traded : pos 0 ≤ℤ f.size → OnApplied (λ _ l'. Traded f l l') (apply_fill f l)
  unfolding apply_fill apply_spot
  apply_fill-Traded h =
      if_ind TradedAfter l.perp (λ _. apply_fill_perp-Traded false h)
        λ _. on_side_ind TradedAfter f.side apply_buy-Traded apply_sell-Traded

  -- On a spot ledger the size need not be known.
  pub apply_fill_spot-Traded : l.perp ≡ false → OnApplied (λ _ l'. Traded f l l') (apply_fill f l)
  unfolding apply_fill apply_spot
  apply_fill_spot-Traded spot =
      if_ind TradedAfter l.perp (λ perp. absurd (cc))
        λ _. on_side_ind TradedAfter f.side apply_buy-Traded apply_sell-Traded
