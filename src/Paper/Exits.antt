-- ===== src/Paper/Exits.antt =====
-- Stop-loss and take-profit exits are clamped to the position that remains.
use kaupo.Base.{
  ◌≡◌, refl, sym, ◌∙◌, subst, some, List, [], All, each-keeps, IsComposed, if_ind, on_some_ind,
  Bool-cases, inl, inr, Option, none,
}
use kaupo.Base.Int.{ℤ, pos, ◌+ℤ◌, ◌≤ℤ◌, ◌<ℤ◌, neg, min_ℤ, min_ℤ_parts, leb_ℤ, leb_ℤ-false, int_laws}
use kaupo.Domain.{
  Candle, Pair, Order, Fill, Side, buy, sell, on_side, pair_eq, pair_eq_iff, eq_pair, total,
}
use kaupo.Paper.State.{PaperVenue, Armed}
use kaupo.Paper.Fills.{delta_of, make_fill}
use kaupo.Paper.Candle.{
  check_protection, exit_order, exit_terms, take_exit, protection_one, protection_step,
}
use kaupo.Paper.Positions.{take_exit-total}

-- An exit leaves the pair's position where it is not short.
abbrev Covered : PaperVenue → Armed → Option (Order × Fill) → Type 0
Covered v a none = Unit
Covered v a (some r) = (r.1.pair ≡ a.0.pair) × (pos 0 ≤ℤ total a.0.pair v.positions +ℤ delta_of r.1)

exit_size-Covered :
    (side : Side) (size held : ℤ)
    → pos 0 ≤ℤ size
    → pos 0 <ℤ held
    → pos 0 ≤ℤ held +ℤ on_side (on_side side sell buy) (min_ℤ size held) (neg (min_ℤ size held))
exit_size-Covered buy size held h k = let parts = min_ℤ_parts size held in omega int_laws
exit_size-Covered sell size held h k = let parts = min_ℤ_parts size held in omega int_laws

check_protection-Covered :
    (c : Candle) (v : PaperVenue) (a : Armed)
    → pos 0 ≤ℤ a.0.size
    → pos 0 <ℤ total a.0.pair v.positions
    → Covered v a (check_protection v a c)
unfolding check_protection exit_order make_fill delta_of
check_protection-Covered c v a h k =
    on_some_ind (Covered v a) (exit_terms v a c) (λ _. tt)
      λ t _. (refl, exit_size-Covered a.0.side a.0.size (total a.0.pair v.positions) h k)

-- The pair is not short before and not short after.
abbrev StaysLong : Pair → List Armed × PaperVenue → List Fill → List Armed × PaperVenue → Type 0
StaysLong p s _ s' = pos 0 ≤ℤ total p s.1.positions → pos 0 ≤ℤ total p s'.1.positions

StaysLong-IsComposed : (p : Pair) → IsComposed (StaysLong p)
StaysLong-IsComposed p = record { idle = λ s h. h; compose = λ a b h. b (a h) }

take_exit-long :
    (p : Pair) (a : Armed) (r : Order × Fill) (v : PaperVenue)
    → Covered v a (some r)
    → pos 0 ≤ℤ total p v.positions
    → pos 0 ≤ℤ total p (take_exit a r v).positions
take_exit-long p a r v (same, covered) h =
    let moved = take_exit-total p a r v in
    elim (Bool-cases (pair_eq p r.1.pair)) [
      | inr other ↦
          let still : total p (take_exit a r v).positions ≡ total p v.positions +ℤ pos 0 =
            rw other at moved in
          omega int_laws
      | inl own ↦
          let there : p ≡ a.0.pair = (pair_eq_iff p r.1.pair).0 own ∙ same in
          let now : total p (take_exit a r v).positions ≡ total p v.positions +ℤ delta_of r.1 =
            rw own at moved in
          subst (λ x. pos 0 ≤ℤ x) (sym now)
            (subst (λ q. pos 0 ≤ℤ total q v.positions +ℤ delta_of r.1) (sym there) covered)
    ]

protection_one-StaysLong :
    (c : Candle) (p : Pair) (a : Armed) (s : List Armed × PaperVenue)
    → pos 0 ≤ℤ a.0.size
    → StaysLong p s (protection_one c a s).0 (protection_one c a s).1
unfolding protection_one
protection_one-StaysLong c p a (kept, v) size h =
    let Q : List Fill × (List Armed × PaperVenue) → Type 0 =
      λ r. pos 0 ≤ℤ total p r.1.1.positions in
    let held : ℤ = total a.0.pair v.positions in
    if_ind Q (leb_ℤ held (pos 0)) (λ _. h)
      λ open_position.
        let got = check_protection-Covered c v a size (leb_ℤ-false held (pos 0) open_position) in
        on_some_ind Q (check_protection v a c) (λ _. h)
          (λ r e. take_exit-long p a r v (subst (Covered v a) e got) h)

-- Protections never sell more than is held: a pair that is not short before the protections are
-- checked is not short after, however many of them fire in the candle.
pub protection_step-long :
    (c : Candle) (v : PaperVenue) (p : Pair)
    → All (λ (a : Armed). pos 0 ≤ℤ a.0.size) v.protections
    → pos 0 ≤ℤ total p v.positions
    → pos 0 ≤ℤ total p (protection_step c v).1.positions
unfolding protection_step
protection_step-long c v p sizes h =
    each-keeps (protection_one c) (StaysLong-IsComposed p)
      (λ a s size. protection_one-StaysLong c p a s size) v.protections ([], v) sizes h
