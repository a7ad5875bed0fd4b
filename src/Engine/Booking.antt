-- ===== src/Engine/Booking.antt =====
-- Fills that the ledger books, and the positions of venue and ledger (kaupo/core/engine.py).
use kaupo.Base.{◌≡◌, ◌∙◌, false, List, [], ◌∷◌, if◌then◌else◌, Bool-cases, inl, inr}
use kaupo.Base.Int.{pos, ◌+ℤ◌, int_laws}
use kaupo.Base.Dict.{lookup-insert}
use kaupo.Domain.{Pair, pair_eq, pair_eq_iff, eq_pair, Fill, total}
use kaupo.Ledger.{Ledger, Outcome, OnApplied, applied, raised, position, apply_fill}
use kaupo.Ledger.Effect.{Traded, apply_fill_spot-Traded}
use kaupo.Paper.{delta_of}
use kaupo.Paper.Positions.{traded}
use kaupo.Paper.Void.{void_fill-total}
use kaupo.Engine.State.{EngineConfig, Engine}
use kaupo.Engine.Candle.{take_outcome, apply_one, apply_fills}

-- What a fill does to the ledger's position of every pair.
pub Traded-size :
    (f : Fill) (l l' : Ledger) (p : Pair)
    → Traded f l l'
    → (position p l').size ≡ (position p l).size +ℤ (if pair_eq p f.pair then delta_of f else pos 0)
unfolding position delta_of
Traded-size f l l' p t = elim (Bool-cases (pair_eq p f.pair)) [
  | inl own ↦
      rw (t.placed, lookup-insert p f.pair t.held l.positions, own)
        (rw ((pair_eq_iff p f.pair).0 own) t.sized)
  | inr other ↦ rw (t.placed, lookup-insert p f.pair t.held l.positions, other) (omega int_laws)
]

take_outcome-perp :
    {S : Type 0} (cfg : EngineConfig) (f : Fill) (o : Outcome) (e : Engine S)
    → OnApplied (λ _ l'. Traded f e.ledger l') o
    → e.ledger.perp ≡ false
    → (take_outcome cfg f o e).ledger.perp ≡ false
unfolding take_outcome
take_outcome-perp cfg f (raised _) e _ spot = spot
take_outcome-perp cfg f (applied r l') e t spot = t.same_kind ∙ spot

module _ {S : Type 0} (cfg : EngineConfig) (p : Pair) where
  -- The venue is ahead of the ledger by the fills that are still to be booked.
  abbrev pub IsAhead : List Fill → Engine S → Type 0
  IsAhead fs e = total p e.venue.positions ≡ (position p e.ledger).size +ℤ traded p fs

  take_outcome-IsAhead :
      (f : Fill) (fs : List Fill) (o : Outcome) (e : Engine S)
      → OnApplied (λ _ l'. Traded f e.ledger l') o
      → IsAhead (f ∷ fs) e
      → IsAhead fs (take_outcome cfg f o e)
  unfolding take_outcome traded
  take_outcome-IsAhead f fs (raised _) e _ ahead =
      let back = void_fill-total f e.venue p in omega int_laws
  take_outcome-IsAhead f fs (applied r l') e t ahead =
      let grown = Traded-size f e.ledger l' p t in omega int_laws

  pub apply_fills-IsAhead :
      (fs : List Fill) (e : Engine S)
      → e.ledger.perp ≡ false
      → IsAhead fs e
      → IsAhead [] (apply_fills cfg fs e)
  unfolding apply_fills apply_one
  apply_fills-IsAhead [] e spot ahead = ahead
  apply_fills-IsAhead (f ∷ fs) e spot ahead =
      let t = apply_fill_spot-Traded f e.ledger spot in
      apply_fills-IsAhead fs (apply_one cfg f e)
        (take_outcome-perp cfg f (apply_fill f e.ledger) e t spot)
        (take_outcome-IsAhead f fs (apply_fill f e.ledger) e t ahead)

module _ {S : Type 0} (cfg : EngineConfig) where
  pub apply_fills-perp :
      (fs : List Fill) (e : Engine S)
      → e.ledger.perp ≡ false
      → (apply_fills cfg fs e).ledger.perp ≡ false
  unfolding apply_fills apply_one
  apply_fills-perp [] e spot = spot
  apply_fills-perp (f ∷ fs) e spot = apply_fills-perp fs (apply_one cfg f e) (
      take_outcome-perp cfg f (apply_fill f e.ledger) e (apply_fill_spot-Traded f e.ledger spot)
        spot)
