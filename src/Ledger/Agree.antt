-- ===== src/Ledger/Agree.antt =====
-- A perp ledger that holds no short does what a spot ledger does.
use kaupo.Base.{◌≡◌, refl, false, Bool-cases, inl, inr, if_ind}
use kaupo.Base.Int.{
  pos, ◌+ℤ◌, ◌-ℤ◌, ◌*ℤ◌, ◌≤ℤ◌, ◌<ℤ◌, ltb_ℤ, ltb_ℤ-false, min_ℤ_left, add_neg, +ℤ_zero, lt→ltb_ℤ,
  le→ltb_ℤ, eqb_ℤ, int_laws, *ℤ_comm, *ℤ-/ℤ_cancel,
}
use kaupo.Domain.{Position, Fill, Side, buy, sell, on_side, quote_amount}
use kaupo.Ledger.State.{Ledger, OnApplied, OnApplied-self, applied, position}
use kaupo.Ledger.Spot.{bought, sold, apply_buy, apply_sell, apply_spot}
use kaupo.Ledger.Perp.{
  fee_share, close_long, open_short, cover_short, open_long, reset_flat, buy_perp, sell_perp,
  apply_fill_perp,
}

module _ (f : Fill) (h : pos 0 <ℤ f.size) where
  fee_share_whole : fee_share f f.size ≡ f.fee
  unfolding fee_share
  fee_share_whole = *ℤ-/ℤ_cancel f.fee f.size h

  -- With no short to cover, the whole fill opens or adds to the long.
  open_long-bought : (p : Position) → pos 0 ≤ℤ p.size → open_long f (cover_short f p) ≡ bought f p
  unfolding open_long cover_short bought
  open_long-bought p held =
      rw (le→ltb_ℤ p.size (pos 0) held, lt→ltb_ℤ (pos 0) f.size h)
        (rw
          (
            lt→ltb_ℤ (pos 0) (p.size +ℤ f.size) (omega int_laws),
            *ℤ-/ℤ_cancel f.fee f.size h,
            *ℤ_comm f.size f.price,
          )
          refl)

  cover_short-realized : (p : Position) → pos 0 ≤ℤ p.size → (cover_short f p).realized ≡ pos 0
  unfolding cover_short
  cover_short-realized p held = rw (le→ltb_ℤ p.size (pos 0) held)

  buy_perp-eq :
      (l : Ledger) → pos 0 ≤ℤ (position f.pair l).size → buy_perp false f l ≡ apply_buy f l
  unfolding buy_perp apply_buy
  buy_perp-eq l held =
      let p : Position = position f.pair l in
      rw
        (
          open_long-bought p held,
          cover_short-realized p held,
          +ℤ_zero l.realized_pnl,
          add_neg l.cash (quote_amount f +ℤ f.fee),
        )
        refl

  reset_flat-sold : (p : Position) → reset_flat (record p { size = p.size -ℤ f.size }) ≡ sold f p
  unfolding reset_flat sold
  reset_flat-sold p = elim (Bool-cases (eqb_ℤ (p.size -ℤ f.size) (pos 0))) [
    | inl closed ↦ rw closed refl
    | inr open_still ↦ rw open_still refl
  ]

  -- A sale of no more than is held closes that much of the long.
  close_long-sold :
      (p : Position)
      → f.size ≤ℤ p.size
      → let w = close_long f p in
        (open_short f w ≡ sold f p) × (w.realized ≡ f.size *ℤ (f.price -ℤ p.avg_entry) -ℤ f.fee)
  unfolding open_short close_long sold
  close_long-sold p covered =
      rw (lt→ltb_ℤ (pos 0) p.size (omega int_laws), min_ℤ_left f.size p.size covered)
        (rw (le→ltb_ℤ (pos 0) (f.size -ℤ f.size) (omega int_laws), *ℤ-/ℤ_cancel f.fee f.size h)
          (reset_flat-sold p, refl))

  sell_perp-eq : (l : Ledger) → OnApplied (λ r l'. sell_perp f l ≡ applied r l') (apply_sell f l)
  unfolding sell_perp apply_sell
  sell_perp-eq l =
      let p : Position = position f.pair l in
      if_ind (OnApplied (λ r l'. sell_perp f l ≡ applied r l')) (ltb_ℤ p.size f.size) (λ _. tt)
        λ fits.
          let (same, gain) = close_long-sold p (ltb_ℤ-false p.size f.size fits) in
          rw (same, gain) refl

  agree_on :
      (s : Side) (l : Ledger)
      → pos 0 ≤ℤ (position f.pair l).size
      → OnApplied
          (λ r l'. on_side s (buy_perp false f l) (sell_perp f l) ≡ applied r l')
          (on_side s (apply_buy f l) (apply_sell f l))
  agree_on buy l held = rw (buy_perp-eq l held) (OnApplied-self (apply_buy f l))
  agree_on sell l held = sell_perp-eq l

  -- On a perp ledger a fill that the spot rules accept, from a position that is not short, has
  -- the outcome that a spot ledger gives it: same PnL, same cash, position and log.
  pub apply_fill_perp-eq-apply_spot :
      (l : Ledger)
      → pos 0 ≤ℤ (position f.pair l).size
      → OnApplied (λ r l'. apply_fill_perp false f l ≡ applied r l') (apply_spot f l)
  unfolding apply_fill_perp apply_spot
  apply_fill_perp-eq-apply_spot l held = agree_on f.side l held
