-- ===== src/Portfolio/Join.antt =====
-- The steps of `joined_steps` (kaupo/core/portfolio_engine.py) hold the candles that were given, all of
-- them and no others.
use kaupo.Base.{
  ◌≡◌, refl, sym, ap, ◌∙◌, ℕ, zero, suc, ◌≤◌, ◌<◌, false, Option, none, some, List, [], ◌∷◌, length,
  if◌then◌else◌, if_ind, on_some, on_some_ind, get_or, ltb, ◌==◌, Bool-cases, inl, inr, arith,
}
use kaupo.Base.Dict.{lookup}
use kaupo.Base.Keyed.{Distinct, lookup-map, map-Distinct}
use kaupo.Domain.{Pair, Candle, Timestamp, pair_eq, eq_pair, pair_eq_iff}
use kaupo.Portfolio.Sorted.{sort_queues-count, sort_queues-lookup, sort_queues-Distinct}
use kaupo.Portfolio.Steps.{
  Queues, Step, min_ts, popped, left_after, step_at, pop_at, join, count, earlier, sort_queues,
  joined_steps,
}

-- The candles of one pair.
abbrev pub queue_of : Pair → Queues → List Candle
queue_of p qs = get_or (lookup p qs) []

-- The candles that the steps hold for one pair, in order.
abbrev pub steps_of : Pair → List (Timestamp × Step) → List Candle
steps_of p [] = []
steps_of p ((_, step) ∷ ss) =
    let rest : List Candle = steps_of p ss in on_some (lookup p step) rest (λ c. c ∷ rest)

pub step_at-lookup :
    (p : Pair) (ts : Timestamp) (qs : Queues)
    → Distinct qs
    → lookup p (step_at ts qs) ≡ popped ts (queue_of p qs)
unfolding step_at
step_at-lookup p ts [] _ = refl
step_at-lookup p ts ((k, q) ∷ qs) (fresh, rest) =
    let later = step_at-lookup p ts qs rest in
    let none_later : lookup k (step_at ts qs) ≡ none =
      step_at-lookup k ts qs rest ∙ ap (λ o. popped ts (get_or o [])) fresh in
    elim (Bool-cases (pair_eq p k)) [
      | inl own ↦
          on_some_ind (λ (s : Step). lookup p s ≡ popped ts q) (popped ts q)
            (λ gone.
              ap (λ i. lookup i (step_at ts qs)) ((pair_eq_iff p k).0 own) ∙ none_later ∙ sym gone)
            (λ c found. rw (own) (sym found))
          ∙ ap (λ b. popped ts (get_or (if b then some q else lookup p qs) [])) (sym own)
      | inr other ↦
          let kept : lookup p (step_at ts qs) ≡ popped ts (queue_of p ((k, q) ∷ qs)) =
            later
            ∙ ap (λ b. popped ts (get_or (if b then some q else lookup p qs) [])) (sym other) in
          on_some_ind (λ (s : Step). lookup p s ≡ popped ts (queue_of p ((k, q) ∷ qs)))
            (popped ts q) (λ _. kept) (λ c _. rw (other) later)
    ]

pub pop_at-queue :
    (p : Pair) (ts : Timestamp) (qs : Queues)
    → queue_of p (pop_at ts qs) ≡ left_after ts (queue_of p qs)
unfolding pop_at
pop_at-queue p ts qs =
    ap (λ o. get_or o []) (lookup-map (λ (_ : Pair) (q : List Candle). left_after ts q) p qs)
    ∙ on_some_ind (λ o. get_or o [] ≡ left_after ts (queue_of p qs)) (lookup p qs)
        (λ gone. sym (ap (λ o. left_after ts (get_or o [])) gone))
        (λ q found. sym (ap (λ o. left_after ts (get_or o [])) found))

pub pop_at-Distinct : (ts : Timestamp) (qs : Queues) → Distinct qs → Distinct (pop_at ts qs)
unfolding pop_at
pop_at-Distinct ts qs h = map-Distinct (λ (_ : Pair) (q : List Candle). left_after ts q) qs h

min_ts-empty : (p : Pair) (qs : Queues) → min_ts qs ≡ none → queue_of p qs ≡ []
unfolding min_ts
min_ts-empty p [] _ = refl
min_ts-empty p ((k, []) ∷ qs) h =
    if_ind (λ (o : Option (List Candle)). get_or o [] ≡ []) (pair_eq p k) (λ _. refl)
      (λ _. min_ts-empty p qs h)
min_ts-empty p ((k, c ∷ _) ∷ qs) h = cc

count-empty : (p : Pair) (qs : Queues) → count qs ≡ 0 → queue_of p qs ≡ []
count-empty p [] _ = refl
count-empty p ((k, []) ∷ qs) h =
    if_ind (λ (o : Option (List Candle)). get_or o [] ≡ []) (pair_eq p k) (λ _. refl)
      (λ _. count-empty p qs (omega arith))
count-empty p ((k, c ∷ _) ∷ qs) h = absurd (omega arith)

popped-left :
    (ts : Timestamp) (q : List Candle)
    → on_some (popped ts q) (left_after ts q) (λ c. c ∷ left_after ts q) ≡ q
popped-left ts [] = refl
popped-left ts (c ∷ cs) = elim (Bool-cases (c.ts == ts)) [
  | inl now ↦ rw (now) refl
  | inr later ↦ rw (later) refl
]

left_after-le : (ts : Timestamp) (q : List Candle) → length (left_after ts q) ≤ length q
left_after-le ts [] = omega arith
left_after-le ts (c ∷ cs) = ground arith

count-pop_le : (ts : Timestamp) (qs : Queues) → count (pop_at ts qs) ≤ count qs
unfolding pop_at
count-pop_le ts [] = omega arith
count-pop_le ts ((k, q) ∷ qs) =
    let rest = count-pop_le ts qs in let le = left_after-le ts q in omega arith

earlier-eq :
    (t ts : Timestamp) (o : Option Timestamp) → earlier t o ≡ ts → (t == ts) ≡ false → o ≡ some ts
earlier-eq t ts none h apart = absurd (ground arith)
earlier-eq t ts (some u) h apart = ap some (elim (Bool-cases (ltb u t)) [
  | inl lt ↦ ap (λ b. if b then u else t) (sym lt) ∙ h
  | inr ge ↦ let same : t ≡ ts = ap (λ b. if b then u else t) (sym ge) ∙ h in absurd (ground arith)
])

-- The step at the earliest time takes a candle away.
count-pop : (ts : Timestamp) (qs : Queues) → min_ts qs ≡ some ts → count (pop_at ts qs) < count qs
unfolding pop_at min_ts
count-pop ts [] h = cc
count-pop ts ((k, []) ∷ qs) h = let rest = count-pop ts qs h in omega arith
count-pop ts ((k, c ∷ cs) ∷ qs) h =
    let le = count-pop_le ts qs in
    elim (Bool-cases (c.ts == ts)) [
      | inl now ↦ rw (now) (omega arith)
      | inr later ↦
          let rest =
            count-pop ts qs (earlier-eq c.ts ts (min_ts qs) (ap (λ o. get_or o ts) h) later) in
          let le_own = left_after-le ts (c ∷ cs) in omega arith
    ]

-- With fuel for every candle, the steps hold the queue of each pair.
join-queues :
    (n : ℕ) (qs : Queues) (p : Pair)
    → Distinct qs
    → count qs ≤ n
    → steps_of p (join n qs) ≡ queue_of p qs
unfolding join
join-queues zero qs p _ enough = sym (count-empty p qs (omega arith))
join-queues (suc n) qs p distinct enough =
    on_some_ind (λ (ss : List (Timestamp × Step)). steps_of p ss ≡ queue_of p qs) (min_ts qs)
      (λ none_left. sym (min_ts-empty p qs none_left))
      (λ ts first.
        let less = count-pop ts qs first in
        let rest = join-queues n (pop_at ts qs) p (pop_at-Distinct ts qs distinct) (omega arith) in
        ap
          (λ o.
            on_some o (steps_of p (join n (pop_at ts qs)))
              (λ c. c ∷ steps_of p (join n (pop_at ts qs))))
          (step_at-lookup p ts qs distinct)
        ∙ ap (λ r. on_some (popped ts (queue_of p qs)) r (λ c. c ∷ r)) (rest ∙ pop_at-queue p ts qs)
        ∙ popped-left ts (queue_of p qs))

-- Each pair gets, over the steps in their order, exactly its own candles in their order: none is left
-- out, made up or handed out twice.
pub joined_steps-queues :
    (candles : Queues) (p : Pair)
    → Distinct candles
    → steps_of p (joined_steps candles) ≡ queue_of p candles
unfolding joined_steps
joined_steps-queues candles p distinct =
    let same = sort_queues-count candles in
    join-queues (count candles) (sort_queues candles) p (sort_queues-Distinct candles distinct)
      (omega arith)
    ∙ ap (λ o. get_or o []) (sort_queues-lookup p candles distinct)
