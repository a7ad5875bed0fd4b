-- ===== src/Ledger/Book.antt =====
-- The books of a spot ledger: cash and the cost basis of what is held.
use kaupo.Base.{◌≡◌, refl, sym, ap, ◌∙◌, [], ◌∷◌, false, Bool-cases, inl, inr, get_or, if_ind}
use kaupo.Base.Int.{
  ℤ, pos, ◌+ℤ◌, ◌-ℤ◌, ◌*ℤ◌, ◌/ℤ◌, ◌≤ℤ◌, ◌<ℤ◌, ltb_ℤ, eqb_ℤ, eqb_ℤ-true, ltb_ℤ-false, int_laws,
  zero_*ℤ, *ℤ_comm, *ℤ-distrib_sub, *ℤ-distrib_sub_right, /ℤ-*ℤ-le, lt-/ℤ-*ℤ,
}
use kaupo.Base.Dict.{Dict, insert, lookup}
use kaupo.Domain.{Pair, Position, Fill, flat, eq_pair, pair_eq, quote_amount, on_side_ind}
use kaupo.Ledger.State.{Ledger, OnApplied, position}
use kaupo.Ledger.Spot.{bought, sold, apply_buy, apply_sell, apply_spot}
use kaupo.Ledger.Apply.{apply_fill}

abbrev pub cost : Position → ℤ
cost v = v.size *ℤ v.avg_entry

pub cost_basis : Dict Pair Position → ℤ
cost_basis [] = pos 0
cost_basis ((_, v) ∷ d) = cost v +ℤ cost_basis d

-- Cash and everything held, at what it cost.
pub book_value : Ledger → ℤ
unfolding cost_basis
book_value l = l.cash +ℤ cost_basis l.positions

cost_basis-insert :
    (p : Pair) (v : Position) (d : Dict Pair Position)
    → cost_basis (insert p v d) +ℤ cost (get_or (lookup p d) (flat p)) ≡ cost_basis d +ℤ cost v
unfolding cost_basis
cost_basis-insert p v [] = rw (zero_*ℤ (pos 0)) (omega int_laws)
cost_basis-insert p v ((j, w) ∷ d) =
    let rest = cost_basis-insert p v d in
    elim (Bool-cases (pair_eq p j)) [
      | inl same ↦ rw same (omega int_laws)
      | inr other ↦ rw other (omega (int_laws, rest))
    ]

-- The cost basis after a sale is that of the size that is left.
sold-cost : (f : Fill) (p : Position) → cost (sold f p) ≡ (p.size -ℤ f.size) *ℤ p.avg_entry
unfolding sold
sold-cost f p =
    let left : ℤ = p.size -ℤ f.size in
    if_ind (λ avg. left *ℤ avg ≡ left *ℤ p.avg_entry) (eqb_ℤ left (pos 0))
      (λ closed.
        let none_left : left ≡ pos 0 = eqb_ℤ-true left (pos 0) closed in
        ap (λ n. n *ℤ pos 0) none_left
        ∙ zero_*ℤ (pos 0)
        ∙ sym (zero_*ℤ p.avg_entry)
        ∙ sym (ap (λ n. n *ℤ p.avg_entry) none_left))
      (λ _. refl)

-- After a buy the basis grows by the price paid and the fee, but for a rounding of the average
-- entry that is smaller than the size held.
bought-cost :
    (f : Fill) (p : Position)
    → pos 0 <ℤ p.size +ℤ f.size
    → (cost (bought f p) ≤ℤ cost p +ℤ quote_amount f +ℤ f.fee)
      × (cost p +ℤ quote_amount f +ℤ f.fee <ℤ cost (bought f p) +ℤ (p.size +ℤ f.size))
unfolding bought
bought-cost f p h =
    let n : ℤ = p.size +ℤ f.size in
    let paid : ℤ = p.size *ℤ p.avg_entry +ℤ quote_amount f +ℤ f.fee in
    if_ind (λ avg. (n *ℤ avg ≤ℤ paid) × (paid <ℤ n *ℤ avg +ℤ n)) (ltb_ℤ (pos 0) n)
      (λ _. rw (*ℤ_comm n (paid /ℤ n)) (/ℤ-*ℤ-le paid n h, lt-/ℤ-*ℤ paid n h))
      (λ none_held. absurd (omega (int_laws, ltb_ℤ-false (pos 0) n none_held)))

module _ (f : Fill) (l : Ledger) where
  -- What a fill may do to the books when it realizes `r`.
  abbrev KeepsBooks : ℤ → Ledger → Type 0
  KeepsBooks r l' =
      (book_value l' ≤ℤ book_value l +ℤ r)
      × (book_value l +ℤ r <ℤ book_value l' +ℤ ((position f.pair l).size +ℤ f.size))

  apply_buy-KeepsBooks :
      pos 0 <ℤ (position f.pair l).size +ℤ f.size → OnApplied KeepsBooks (apply_buy f l)
  unfolding apply_buy book_value position
  apply_buy-KeepsBooks h =
      let p : Position = position f.pair l in
      let (low, high) = bought-cost f p h in
      if_ind (OnApplied KeepsBooks) (ltb_ℤ l.cash (quote_amount f +ℤ f.fee)) (λ _. tt)
        λ _.
          let moved = cost_basis-insert f.pair (bought f p) l.positions in
          (omega int_laws, omega int_laws)

  apply_sell-KeepsBooks :
      pos 0 <ℤ (position f.pair l).size +ℤ f.size → OnApplied KeepsBooks (apply_sell f l)
  unfolding apply_sell book_value position quote_amount
  apply_sell-KeepsBooks h =
      let p : Position = position f.pair l in
      if_ind (OnApplied KeepsBooks) (ltb_ℤ p.size f.size) (λ _. tt)
        λ _.
          let moved = cost_basis-insert f.pair (sold f p) l.positions in
          let kept = sold-cost f p in
          let split = *ℤ-distrib_sub_right p.size f.size p.avg_entry in
          let gain = *ℤ-distrib_sub f.size f.price p.avg_entry in
          let flip = *ℤ_comm f.size f.price in (omega int_laws, omega int_laws)

  -- Realized PnL is booked: cash plus cost basis moves by the PnL that a spot fill reports, and
  -- what the rounding of the average entry loses is less than the size involved.
  pub apply_fill-book_value :
      l.perp ≡ false
      → pos 0 ≤ℤ (position f.pair l).size
      → pos 0 <ℤ f.size
      → OnApplied KeepsBooks (apply_fill f l)
  unfolding apply_fill apply_spot
  apply_fill-book_value spot h k =
      let open_size : pos 0 <ℤ (position f.pair l).size +ℤ f.size = omega int_laws in
      if_ind (OnApplied KeepsBooks) l.perp (λ perp. absurd (cc))
        λ _.
          on_side_ind (OnApplied KeepsBooks) f.side (λ _. apply_buy-KeepsBooks open_size)
            (λ _. apply_sell-KeepsBooks open_size)
