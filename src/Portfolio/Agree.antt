-- ===== src/Portfolio/Agree.antt =====
-- The venues of a portfolio run hold together what its ledger holds (kaupo/core/portfolio_engine.py).
use kaupo.Base.{
  ◌≡◌, sym, ap, ◌∙◌, false, Option, some, List, [], ◌∷◌, if◌then◌else◌, if_ind, on_some,
  on_some_ind, all, Bool-cases, inl, inr,
}
use kaupo.Base.Int.{ℤ, pos, ◌+ℤ◌, int_laws}
use kaupo.Base.Dict.{Dict, lookup, insert, lookup-insert_self}
use kaupo.Domain.{Pair, Candle, Order, Fill, pair_eq, eq_pair, total}
use kaupo.Ledger.{Outcome, OnApplied, applied, raised, position, apply_fill}
use kaupo.Ledger.Effect.{Traded, apply_fill_spot-Traded}
use kaupo.Paper.{
  PaperVenue, void_fill, run_candle, is_priced, drain_new_orders, drain_expired,
  on_candle as venue_on_candle,
}
use kaupo.Paper.Positions.{traded, run_candle-traded}
use kaupo.Paper.Void.{void_fill-total}
use kaupo.Engine.{orders_touched, order_row}
use kaupo.Engine.Booking.{Traded-size}
use kaupo.Portfolio.Steps.{Step}
use kaupo.Portfolio.State.{Portfolio, Progress, going, broken, write_orders, write_row}
use kaupo.Portfolio.Run.{portfolio_of}
use kaupo.Portfolio.Loop.{
  set_venue, refuse_fill, book_fill, take_outcome, apply_one, apply_fills, settle_pair, step_pair,
  step_pairs, and_then,
}

-- The net size of a pair over all venues.
abbrev pub venues_total : Pair → Dict Pair PaperVenue → ℤ
venues_total p [] = pos 0
venues_total p ((_, v) ∷ vs) = total p v.positions +ℤ venues_total p vs

pub venues_total-insert :
    (p k : Pair) (v w : PaperVenue) (vs : Dict Pair PaperVenue)
    → lookup k vs ≡ some v
    → venues_total p (insert k w vs) +ℤ total p v.positions
      ≡ venues_total p vs +ℤ total p w.positions
venues_total-insert p k v w [] h = cc
venues_total-insert p k v w ((j, u) ∷ vs) h = elim (Bool-cases (pair_eq k j)) [
  | inl own ↦
      let same : some u ≡ some v = ap (λ b. if b then some u else lookup k vs) (sym own) ∙ h in
      let size =
        ap (λ (o : Option PaperVenue). on_some o (pos 0) (λ (x : PaperVenue). total p x.positions))
          same in
      rw (own) (omega int_laws)
  | inr other ↦
      let rest =
        venues_total-insert p k v w vs
          (ap (λ b. if b then some u else lookup k vs) (sym other) ∙ h) in
      rw (other) (omega int_laws)
]

module _ {S : Type 0} where
  -- The ledger is a spot ledger, and for every pair the venues together hold the ledger's position.
  abbrev pub Agrees : Portfolio S → Type 0
  Agrees e =
      (e.ledger.perp ≡ false) × ((p : Pair) → venues_total p e.venues ≡ (position p e.ledger).size)

  -- The venues are ahead of the ledger by the fills that are still to be booked.
  abbrev IsAhead : List Fill → Portfolio S → Type 0
  IsAhead fs e =
      (e.ledger.perp ≡ false)
      × ((p : Pair) → venues_total p e.venues ≡ (position p e.ledger).size +ℤ traded p fs)

  take_outcome-IsAhead :
      (k : Pair) (f : Fill) (fs : List Fill) (o : Outcome) (v : PaperVenue) (e : Portfolio S)
      → lookup k e.venues ≡ some v
      → OnApplied (λ _ l'. Traded f e.ledger l') o
      → IsAhead (f ∷ fs) e
      → IsAhead fs (take_outcome k f o e)
  unfolding take_outcome refuse_fill traded
  take_outcome-IsAhead k f fs (raised _) v e has _ (spot, ahead) = rw (has) (
    spot,
    λ p.
        let back = void_fill-total f v p in
        let placed = venues_total-insert p k v (void_fill f v) e.venues has in
        let before = ahead p in omega int_laws,
  )
  take_outcome-IsAhead k f fs (applied r l') v e _ t (spot, ahead) = (
    t.same_kind ∙ spot,
    λ p. let grown = Traded-size f e.ledger l' p t in let before = ahead p in omega int_laws,
  )

  abbrev HasVenue : Pair → Portfolio S → Type 0
  HasVenue k e = (v : PaperVenue) × (lookup k e.venues ≡ some v)

  take_outcome-HasVenue :
      (k : Pair) (f : Fill) (o : Outcome) (e : Portfolio S)
      → HasVenue k e
      → HasVenue k (take_outcome k f o e)
  unfolding take_outcome refuse_fill book_fill
  take_outcome-HasVenue k f (raised _) e (v, has) =
      rw (has) (void_fill f v, lookup-insert_self k (void_fill f v) e.venues)
  take_outcome-HasVenue k f (applied r l') e has = has

  apply_fills-IsAhead :
      (k : Pair) (fs : List Fill) (e : Portfolio S)
      → HasVenue k e
      → IsAhead fs e
      → IsAhead [] (apply_fills k fs e)
  unfolding apply_fills apply_one
  apply_fills-IsAhead k [] e _ ahead = ahead
  apply_fills-IsAhead k (f ∷ fs) e (v, has) ahead =
      apply_fills-IsAhead k fs (apply_one k f e)
        (take_outcome-HasVenue k f (apply_fill f e.ledger) e (v, has))
        (take_outcome-IsAhead k f fs (apply_fill f e.ledger) v e has
          (apply_fill_spot-Traded f e.ledger ahead.0) ahead)

  write_orders-IsAhead :
      (os : List Order) (fs : List Fill) (e : Portfolio S)
      → IsAhead fs e
      → IsAhead fs (write_orders os e)
  write_orders-IsAhead [] fs e ahead = ahead
  write_orders-IsAhead (o ∷ os) fs e ahead =
      write_orders-IsAhead os fs (write_row (order_row o) e) ahead

  write_orders-HasVenue :
      (os : List Order) (k : Pair) (e : Portfolio S) → HasVenue k e → HasVenue k (write_orders os e)
  write_orders-HasVenue [] k e has = has
  write_orders-HasVenue (o ∷ os) k e has =
      write_orders-HasVenue os k (write_row (order_row o) e) has

  IsAhead-Agrees : (e : Portfolio S) → IsAhead [] e → Agrees e
  unfolding traded
  IsAhead-Agrees e (spot, ahead) = (spot, λ p. ahead p ∙ omega int_laws)

  Agrees-IsAhead : (e : Portfolio S) → Agrees e → IsAhead [] e
  unfolding traded
  Agrees-IsAhead e (spot, same) = (spot, λ p. same p ∙ omega int_laws)

  -- A venue that was worked off is ahead by its fills, and agrees once they are settled.
  settle_pair-Agrees :
      (k : Pair) (fs : List Fill) (v w : PaperVenue) (e : Portfolio S)
      → lookup k e.venues ≡ some v
      → ((p : Pair) → total p w.positions ≡ total p v.positions +ℤ traded p fs)
      → Agrees e
      → Agrees (settle_pair k fs w e)
  unfolding settle_pair drain_new_orders drain_expired
  settle_pair-Agrees k fs v w e has moved (spot, same) =
      let (created, w1) = drain_new_orders w in
      let (lapsed, w2) = drain_expired w1 in
      let placed : Portfolio S = set_venue k w2 e in
      let ahead : IsAhead fs placed = (
        spot,
        λ p.
            let put = venues_total-insert p k v w2 e.venues has in
            let grown = moved p in let before = same p in omega int_laws,
      ) in
      let written : Portfolio S = write_orders created placed in
      let told : Portfolio S = write_orders lapsed written in
      let told_ahead =
        write_orders-IsAhead lapsed fs written (write_orders-IsAhead created fs placed ahead) in
      let told_has =
        write_orders-HasVenue lapsed k written
          (write_orders-HasVenue created k placed (w2, lookup-insert_self k w2 e.venues)) in
      let booked : Portfolio S = apply_fills k fs told in
      let after = apply_fills-IsAhead k fs told told_has told_ahead in
      on_some_ind Agrees (lookup k booked.venues) (λ _. IsAhead-Agrees booked after)
        (λ u _.
          let os : List Order = orders_touched [] fs u in
          IsAhead-Agrees (write_orders os booked) (write_orders-IsAhead os [] booked after))

  step_pair-Agrees :
      (c : Pair × Candle) (e : Portfolio S) → Agrees e → Agrees (portfolio_of (step_pair c e))
  unfolding step_pair venue_on_candle
  step_pair-Agrees (k, c) e agrees =
      let Q : Progress S → Type 0 = λ r. Agrees (portfolio_of r) in
      on_some_ind Q (lookup k e.venues) (λ _. agrees)
        (λ v has.
          if_ind
            (λ (o : Option (List Fill × PaperVenue)). Q (
              on_some o (broken e)
                (λ (r : List Fill × PaperVenue). going (settle_pair k r.0 r.1 e))))
            (all (is_priced c) v.limit_open)
            (λ _.
              settle_pair-Agrees k (run_candle c v).0 v (run_candle c v).1 e has
                (λ p. run_candle-traded p c v) agrees)
            (λ _. agrees))

  pub and_then-Agrees :
      (r : Progress S) (f : Portfolio S → Progress S)
      → Agrees (portfolio_of r)
      → ((e : Portfolio S) → Agrees e → Agrees (portfolio_of (f e)))
      → Agrees (portfolio_of (and_then r f))
  and_then-Agrees (going e) f h keeps = keeps e h
  and_then-Agrees (broken e) f h keeps = h

  pub step_pairs-Agrees :
      (cs : Step) (e : Portfolio S) → Agrees e → Agrees (portfolio_of (step_pairs cs e))
  unfolding step_pairs
  step_pairs-Agrees [] e agrees = agrees
  step_pairs-Agrees (c ∷ cs) e agrees =
      and_then-Agrees (step_pair c e) (step_pairs cs) (step_pair-Agrees c e agrees)
        (step_pairs-Agrees cs)
