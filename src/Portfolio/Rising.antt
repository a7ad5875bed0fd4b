-- ===== src/Portfolio/Rising.antt =====
-- Queues in order of time and their earliest time, for `joined_steps` (kaupo/core/portfolio_engine.py).
use kaupo.Base.{
  ◌≡◌, refl, sym, ap, subst, suc, ◌≤◌, ◌<◌, false, Option, none, some, List, [], ◌∷◌, All,
  if◌then◌else◌, if_ind, ◌==◌, ==_iff, Bool-cases, inl, inr, arith,
}
use kaupo.Domain.{Pair, Candle, Timestamp, eq_pair}
use kaupo.Portfolio.Steps.{Queues, min_ts, popped, left_after, pop_at, earlier}

-- Candles in order of time, after a time or from their first on.
abbrev pub Rises : Timestamp → List Candle → Type 0
Rises b [] = Unit
Rises b (c ∷ cs) = (b < c.ts) × Rises c.ts cs

abbrev pub Ascends : List Candle → Type 0
Ascends [] = Unit
Ascends (c ∷ cs) = Rises c.ts cs

abbrev pub Starts : Timestamp → List Candle → Type 0
Starts ts [] = Unit
Starts ts (c ∷ _) = ts ≤ c.ts

-- The candle of a list at a time.
abbrev pub candle_at : Timestamp → List Candle → Option Candle
candle_at ts [] = none
candle_at ts (c ∷ cs) = if c.ts == ts then some c else candle_at ts cs

pub Rises-Ascends : (b : Timestamp) (q : List Candle) → Rises b q → Ascends q
Rises-Ascends b [] _ = tt
Rises-Ascends b (c ∷ cs) (_, h) = h

pub candle_at-none :
    (ts b : Timestamp) (q : List Candle) → Rises b q → ts ≤ b → candle_at ts q ≡ none
candle_at-none ts b [] _ _ = refl
candle_at-none ts b (c ∷ cs) (after, rises) le =
    let apart : (c.ts == ts) ≡ false = ground arith in
    let rest = candle_at-none ts c.ts cs rises (omega arith) in rw (apart) rest

pub popped-candle_at :
    (ts : Timestamp) (q : List Candle) → Ascends q → Starts ts q → popped ts q ≡ candle_at ts q
popped-candle_at ts [] _ _ = refl
popped-candle_at ts (c ∷ cs) rises le =
    ap (λ o. if c.ts == ts then some c else o) (sym (candle_at-none ts c.ts cs rises le))

pub left_after-candle_at :
    (ts u : Timestamp) (q : List Candle) → ts < u → candle_at u (left_after ts q) ≡ candle_at u q
left_after-candle_at ts u [] _ = refl
left_after-candle_at ts u (c ∷ cs) lt = elim (Bool-cases (c.ts == ts)) [
  | inl now ↦ let apart : (c.ts == u) ≡ false = ground arith in rw (now, apart) refl
  | inr later ↦ rw (later) refl
]

pub left_after-Rises :
    (ts : Timestamp) (q : List Candle) → Ascends q → Starts ts q → Rises ts (left_after ts q)
left_after-Rises ts [] _ _ = tt
left_after-Rises ts (c ∷ cs) rises le =
    if_ind (Rises ts) (c.ts == ts) (λ now. subst (λ b. Rises b cs) ((==_iff c.ts ts).0 now) rises)
      (λ later. (ground arith, rises))

-- A bound on the earliest time.
abbrev pub Below : Timestamp → Option Timestamp → Type 0
Below b none = Unit
Below b (some u) = b ≤ u

pub earlier-Below : (b t : Timestamp) (o : Option Timestamp) → b ≤ earlier t o → (b ≤ t) × Below b o
earlier-Below b t none h = (h, tt)
earlier-Below b t (some u) h = ground arith

pub Below-earlier : (b t : Timestamp) (o : Option Timestamp) → b ≤ t → Below b o → b ≤ earlier t o
Below-earlier b t none h _ = h
Below-earlier b t (some u) h k = ground arith

pub min_ts-Starts :
    (b : Timestamp) (qs : Queues)
    → Below b (min_ts qs)
    → All (λ (q : Pair × List Candle). Starts b q.1) qs
unfolding min_ts
min_ts-Starts b [] _ = tt
min_ts-Starts b ((_, []) ∷ qs) h = (tt, min_ts-Starts b qs h)
min_ts-Starts b ((_, c ∷ _) ∷ qs) h =
    let (le, rest) = earlier-Below b c.ts (min_ts qs) h in (le, min_ts-Starts b qs rest)

pub min_ts-Below :
    (b : Timestamp) (qs : Queues)
    → All (λ (q : Pair × List Candle). Rises b q.1) qs
    → Below (suc b) (min_ts qs)
unfolding min_ts
min_ts-Below b [] _ = tt
min_ts-Below b ((_, []) ∷ qs) (_, h) = min_ts-Below b qs h
min_ts-Below b ((_, c ∷ _) ∷ qs) ((after, _), h) =
    Below-earlier (suc b) c.ts (min_ts qs) (omega arith) (min_ts-Below b qs h)

pub pop_at-Rises :
    (ts : Timestamp) (qs : Queues)
    → All (λ (q : Pair × List Candle). Ascends q.1) qs
    → All (λ (q : Pair × List Candle). Starts ts q.1) qs
    → All (λ (q : Pair × List Candle). Rises ts q.1) (pop_at ts qs)
unfolding pop_at
pop_at-Rises ts [] _ _ = tt
pop_at-Rises ts ((_, q) ∷ qs) (rises, more) (le, rest) =
    (left_after-Rises ts q rises le, pop_at-Rises ts qs more rest)
