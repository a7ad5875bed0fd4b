-- ===== src/Ledger/Equity.antt =====
-- Equity moves with the market and with the fees, and with nothing else.
use kaupo.Base.{
  ◌≡◌, refl, sym, ap, ◌∙◌, some, Option, [], ◌∷◌, arith, Bool-cases, inl, inr, get_or, if_ind,
}
use kaupo.Base.Int.{
  ℤ, pos, ◌+ℤ◌, ◌-ℤ◌, ◌*ℤ◌, ◌≤ℤ◌, eqb_ℤ, eqb_ℤ-true, int_laws, zero_*ℤ, *ℤ-distrib_right,
  *ℤ-distrib_sub,
}
use kaupo.Base.Dict.{Dict, insert, lookup}
use kaupo.Domain.{Pair, Position, Fill, flat, eq_pair, pair_eq, pair_eq_iff}
use kaupo.Ledger.State.{
  Ledger, OnApplied, OnApplied-map, position, position_value, equity_from, equity,
}
use kaupo.Ledger.Apply.{apply_fill}
use kaupo.Ledger.Effect.{size_change, cash_change-size, Traded, apply_fill-Traded}

module _ (prices : Pair → Option ℤ) where
  -- The value of the positions as a plain recursion.
  value : Dict Pair Position → ℤ
  value [] = pos 0
  value (e ∷ d) = position_value prices e +ℤ value d

  equity_from-value : (acc : ℤ) (d : Dict Pair Position) → equity_from prices acc d ≡ acc +ℤ value d
  unfolding equity_from value
  equity_from-value acc [] = omega int_laws
  equity_from-value acc (e ∷ d) =
      rw (equity_from-value (acc +ℤ position_value prices e) d) (omega int_laws)

  position_value-flat : (p : Pair) → position_value prices (p, flat p) ≡ pos 0
  unfolding position_value
  position_value-flat p = ground arith

  -- Replacing one position moves the total by the difference of its values.
  value-insert :
      (p : Pair) (v : Position) (d : Dict Pair Position)
      → value (insert p v d) +ℤ position_value prices (p, get_or (lookup p d) (flat p))
        ≡ value d +ℤ position_value prices (p, v)
  unfolding value
  value-insert p v [] = rw (position_value-flat p) (omega int_laws)
  value-insert p v ((j, w) ∷ d) =
      let rest = value-insert p v d in
      elim (Bool-cases (pair_eq p j)) [
        | inl same ↦ rw same (rw ((pair_eq_iff p j).0 same) (omega int_laws))
        | inr other ↦ rw other (omega (int_laws, rest))
      ]

  position_value_at :
      (p : Pair) (v : Position) {m : ℤ}
      → prices p ≡ some m
      → position_value prices (p, v) ≡ v.size *ℤ m
  unfolding position_value
  position_value_at p v {m} e =
      rw (e, position_value)
        (if_ind (λ x. x ≡ v.size *ℤ m) (eqb_ℤ v.size (pos 0))
          (λ none_held. sym (ap (λ s. s *ℤ m) (eqb_ℤ-true v.size (pos 0) none_held) ∙ zero_*ℤ m))
          (λ _. refl))

  -- The equity of a ledger in which one position was replaced.
  Traded-equity :
      (f : Fill) (l l' : Ledger) {m : ℤ}
      → prices f.pair ≡ some m
      → Traded f l l'
      → equity prices l' ≡ equity prices l +ℤ size_change f *ℤ (m -ℤ f.price) -ℤ f.fee
  unfolding equity position
  Traded-equity f l l' {m} e t =
      let old : Position = position f.pair l in
      rw (equity_from-value l'.cash l'.positions, equity_from-value l.cash l.positions, t.placed)
        (omega (
          int_laws,
          t.paid,
          cash_change-size f,
          value-insert f.pair t.held l.positions,
          position_value_at f.pair t.held e,
          position_value_at f.pair old e,
          ap (λ s. s *ℤ m) t.sized,
          *ℤ-distrib_right old.size (size_change f) m,
          *ℤ-distrib_sub (size_change f) m f.price,
        ))

  -- Whichever way a fill is applied and whatever the other pairs are worth: equity moves by
  -- the filled size times the distance from the fill's price to the market's, less the fee.
  -- A fill at the market's price costs exactly its fee.
  pub apply_fill-equity :
      (f : Fill) (l : Ledger) {m : ℤ}
      → prices f.pair ≡ some m
      → pos 0 ≤ℤ f.size
      → OnApplied
          (λ _ l'. equity prices l' ≡ equity prices l +ℤ size_change f *ℤ (m -ℤ f.price) -ℤ f.fee)
          (apply_fill f l)
  apply_fill-equity f l e h =
      OnApplied-map (apply_fill f l) (λ _ l' t. Traded-equity f l l' e t) (apply_fill-Traded f l h)
