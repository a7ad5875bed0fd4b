-- ===== src/Ledger/Valid.antt =====
-- What a spot ledger keeps: no debt, no short, and a position that is flat or properly opened.
use kaupo.Base.{
  ◌≡◌, refl, ◌⊎◌, inl, inr, none, Option, [], ◌∷◌, true, false, Bool-cases, if_ind, All, is_some,
  get_or,
}
use kaupo.Base.Int.{
  ℤ, pos, ◌+ℤ◌, ◌-ℤ◌, ◌≤ℤ◌, ◌<ℤ◌, eqb_ℤ, eqb_ℤ-true, eqb_ℤ-false, eq→eqb_ℤ, ltb_ℤ, ltb_ℤ-false,
  int_laws,
}
use kaupo.Base.Dict.{Dict, insert, lookup}
use kaupo.Domain.{
  Pair, Position, Fill, Timestamp, flat, eq_pair, pair_eq, quote_amount, on_side_ind,
}
use kaupo.Ledger.State.{Ledger, OnApplied, position}
use kaupo.Ledger.Spot.{bought, sold, apply_buy, apply_sell, apply_spot}
use kaupo.Ledger.Apply.{apply_fill}

-- Flat with no entry on record, or open with the time of its entry.
abbrev pub IsHolding : Position → Type 0
IsHolding v =
    (v.size ≡ pos 0) × (v.avg_entry ≡ pos 0) × (v.entry_ts ≡ none)
    ⊎ (pos 0 <ℤ v.size) × (is_some v.entry_ts ≡ true)

-- A fill of the paper venue: something is bought or sold, and the fee is no more than its price.
pub record IsFair (f : Fill) : Type 0 where
  pub some_size : pos 0 <ℤ f.size
  pub fee_nonneg : pos 0 ≤ℤ f.fee
  pub fee_le : f.fee ≤ℤ quote_amount f

pub record IsSolvent (l : Ledger) : Type 0 where
  pub cash_nonneg : pos 0 ≤ℤ l.cash
  pub holdings : All (λ (e : Pair × Position). IsHolding e.1) l.positions

lookup-IsHolding :
    (p : Pair) (d : Dict Pair Position)
    → All (λ (e : Pair × Position). IsHolding e.1) d
    → IsHolding (get_or (lookup p d) (flat p))
lookup-IsHolding p [] h = inl (refl, refl, refl)
lookup-IsHolding p ((j, w) ∷ d) (h, hs) = elim (Bool-cases (pair_eq p j)) [
  | inl same ↦ rw same h
  | inr other ↦ rw other (lookup-IsHolding p d hs)
]

insert-IsHolding :
    (p : Pair) (v : Position) (d : Dict Pair Position)
    → IsHolding v
    → All (λ (e : Pair × Position). IsHolding e.1) d
    → All (λ (e : Pair × Position). IsHolding e.1) (insert p v d)
insert-IsHolding p v [] h hs = (h, tt)
insert-IsHolding p v ((j, w) ∷ d) h (k, ks) = elim (Bool-cases (pair_eq p j)) [
  | inl same ↦ rw same (h, ks)
  | inr other ↦ rw other (k, insert-IsHolding p v d h ks)
]

-- A buy opens, or adds to, a position that keeps the time of its entry.
bought-IsHolding :
    (f : Fill) (p : Position) → pos 0 <ℤ f.size → IsHolding p → IsHolding (bought f p)
unfolding bought
bought-IsHolding f p h (inl (no_size, _, _)) =
    inr (omega int_laws, rw (eq→eqb_ℤ p.size (pos 0) no_size) refl)
bought-IsHolding f p h (inr (open_size, dated)) = inr (
  omega int_laws,
  if_ind (λ (e : Option Timestamp). is_some e ≡ true) (eqb_ℤ p.size (pos 0)) (λ _. refl)
      (λ _. dated),
)

-- A sale of part leaves the position open, and one of all of it leaves nothing on record.
sold-IsHolding :
    (f : Fill) (p : Position)
    → f.size ≤ℤ p.size
    → pos 0 <ℤ f.size
    → IsHolding p
    → IsHolding (sold f p)
unfolding sold
sold-IsHolding f p le h (inl (no_size, _, _)) = absurd (omega int_laws)
sold-IsHolding f p le h (inr (open_size, dated)) =
    elim (Bool-cases (eqb_ℤ (p.size -ℤ f.size) (pos 0))) [
      | inl closed ↦ inl (eqb_ℤ-true _ (pos 0) closed, rw closed refl, rw closed refl)
      | inr still_open ↦
          inr (
            omega (int_laws, eqb_ℤ-false (p.size -ℤ f.size) (pos 0) still_open),
            rw still_open dated,
          )
    ]

module _ (f : Fill) (l : Ledger) (fair : IsFair f) (ok : IsSolvent l) where
  abbrev SolventAfter : ℤ → Ledger → Type 0
  SolventAfter _ l' = IsSolvent l'

  apply_buy-IsSolvent : OnApplied SolventAfter (apply_buy f l)
  unfolding apply_buy position
  apply_buy-IsSolvent =
      let p : Position = position f.pair l in
      let cost : ℤ = quote_amount f +ℤ f.fee in
      if_ind (OnApplied SolventAfter) (ltb_ℤ l.cash cost) (λ _. tt)
        λ covered. record {
          cash_nonneg = omega (int_laws, ltb_ℤ-false l.cash cost covered);
          holdings =
              insert-IsHolding f.pair _ l.positions
                (bought-IsHolding f p fair.some_size
                  (lookup-IsHolding f.pair l.positions ok.holdings))
                ok.holdings;
        }

  apply_sell-IsSolvent : OnApplied SolventAfter (apply_sell f l)
  unfolding apply_sell position
  apply_sell-IsSolvent =
      let p : Position = position f.pair l in
      if_ind (OnApplied SolventAfter) (ltb_ℤ p.size f.size) (λ _. tt)
        λ covered. record {
          cash_nonneg = omega int_laws;
          holdings =
              insert-IsHolding f.pair _ l.positions
                (sold-IsHolding f p (ltb_ℤ-false p.size f.size covered) fair.some_size
                  (lookup-IsHolding f.pair l.positions ok.holdings))
                ok.holdings;
        }

  -- A spot fill never takes cash below zero, never leaves a short, and leaves each position
  -- flat with no entry on record, or open with the time of its entry.
  pub apply_fill-IsSolvent : l.perp ≡ false → OnApplied (λ _ l'. IsSolvent l') (apply_fill f l)
  unfolding apply_fill apply_spot
  apply_fill-IsSolvent spot =
      if_ind (OnApplied SolventAfter) l.perp (λ perp. absurd (cc))
        λ _.
          on_side_ind (OnApplied SolventAfter) f.side (λ _. apply_buy-IsSolvent)
            (λ _. apply_sell-IsSolvent)
