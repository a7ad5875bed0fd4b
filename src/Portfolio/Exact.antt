-- ===== src/Portfolio/Exact.antt =====
-- The steps of `joined_steps` (kaupo/core/portfolio_engine.py) are in order of time, and each holds what
-- every pair has at its time.
use kaupo.Base.{
  ◌≡◌, sym, ap, ◌∙◌, subst, ℕ, zero, suc, ◌≤◌, ◌<◌, Option, some, List, [], ◌∷◌, All, All-map,
  if_ind, on_some_ind, get_or, arith,
}
use kaupo.Base.Dict.{lookup}
use kaupo.Base.Keyed.{Distinct}
use kaupo.Domain.{Pair, Candle, Timestamp, pair_eq, eq_pair}
use kaupo.Portfolio.Steps.{
  Queues, Step, min_ts, pop_at, join, count, comes_first, insert_queue, sort_queues, joined_steps,
}
use kaupo.Portfolio.Sorted.{sort_queues-lookup, sort_queues-Distinct}
use kaupo.Portfolio.Join.{queue_of, step_at-lookup, pop_at-queue, pop_at-Distinct}
use kaupo.Portfolio.Rising.{
  Rises, Ascends, Starts, candle_at, Rises-Ascends, popped-candle_at, left_after-candle_at, Below,
  min_ts-Starts, min_ts-Below, pop_at-Rises,
}

-- Steps in order of time, after a time or from their first on.
abbrev IsAfter : Timestamp → List (Timestamp × Step) → Type 0
IsAfter b [] = Unit
IsAfter b ((ts, _) ∷ ss) = (b < ts) × IsAfter ts ss

abbrev pub IsAscending : List (Timestamp × Step) → Type 0
IsAscending [] = Unit
IsAscending ((ts, _) ∷ ss) = IsAfter ts ss

le_self : (n : ℕ) → n ≤ n
le_self n = omega arith

popped-Rises :
    (ts : Timestamp) (qs : Queues)
    → All (λ (q : Pair × List Candle). Ascends q.1) qs
    → min_ts qs ≡ some ts
    → All (λ (q : Pair × List Candle). Rises ts q.1) (pop_at ts qs)
popped-Rises ts qs rises first =
    pop_at-Rises ts qs rises (min_ts-Starts ts qs (subst (Below ts) (sym first) (le_self ts)))

join-IsAfter :
    (n : ℕ) (qs : Queues) (b : Timestamp)
    → All (λ (q : Pair × List Candle). Rises b q.1) qs
    → IsAfter b (join n qs)
unfolding join
join-IsAfter zero qs b _ = tt
join-IsAfter (suc n) qs b rises =
    on_some_ind (IsAfter b) (min_ts qs) (λ _. tt)
      (λ ts first.
        let below = subst (Below (suc b)) first (min_ts-Below b qs rises) in
        let ascends = All-map _ _ qs (λ (q : Pair × List Candle) h. Rises-Ascends b q.1 h) rises in
        (omega arith, join-IsAfter n (pop_at ts qs) ts (popped-Rises ts qs ascends first)))

-- A step holds for each pair the candle that the pair has at its time, if any.
abbrev pub IsExact : Queues → Timestamp × Step → Type 0
IsExact qs (ts, step) = (p : Pair) → lookup p step ≡ candle_at ts (queue_of p qs)

IsExact-pop_at :
    (ts b : Timestamp) (qs : Queues) (ss : List (Timestamp × Step))
    → ts ≤ b
    → IsAfter b ss
    → All (IsExact (pop_at ts qs)) ss
    → All (IsExact qs) ss
IsExact-pop_at ts b qs [] _ _ _ = tt
IsExact-pop_at ts b qs ((u, step) ∷ ss) le (after, more) (exact, rest) = (
  λ p.
      exact p
      ∙ ap (candle_at u) (pop_at-queue p ts qs)
      ∙ left_after-candle_at ts u (queue_of p qs) (omega arith),
  IsExact-pop_at ts u qs ss (omega arith) more rest,
)

queue_of-All :
    (P : List Candle → Type 0) (p : Pair) (qs : Queues)
    → P []
    → All (λ (q : Pair × List Candle). P q.1) qs
    → P (queue_of p qs)
queue_of-All P p [] h _ = h
queue_of-All P p ((k, q) ∷ qs) h (own, rest) =
    if_ind (λ (o : Option (List Candle)). P (get_or o [])) (pair_eq p k) (λ _. own)
      (λ _. queue_of-All P p qs h rest)

join-IsExact :
    (n : ℕ) (qs : Queues)
    → Distinct qs
    → All (λ (q : Pair × List Candle). Ascends q.1) qs
    → IsAscending (join n qs) × All (IsExact qs) (join n qs)
unfolding join
join-IsExact zero qs _ _ = (tt, tt)
join-IsExact (suc n) qs distinct rises =
    on_some_ind (λ (ss : List (Timestamp × Step)). IsAscending ss × All (IsExact qs) ss) (min_ts qs)
      (λ _. (tt, tt))
      (λ ts first.
        let starts = min_ts-Starts ts qs (subst (Below ts) (sym first) (le_self ts)) in
        let left = popped-Rises ts qs rises first in
        let after = join-IsAfter n (pop_at ts qs) ts left in
        let ascends =
          All-map _ _ (pop_at ts qs) (λ (q : Pair × List Candle) h. Rises-Ascends ts q.1 h) left in
        let rest = join-IsExact n (pop_at ts qs) (pop_at-Distinct ts qs distinct) ascends in
        (
          after,
          (
            λ p.
                step_at-lookup p ts qs distinct
                ∙ popped-candle_at ts (queue_of p qs) (queue_of-All Ascends p qs tt rises)
                    (queue_of-All (Starts ts) p qs tt starts),
            IsExact-pop_at ts ts qs (join n (pop_at ts qs)) (le_self ts) after rest.1,
          ),
        ))

sort_queues-All :
    (P : List Candle → Type 0) (qs : Queues)
    → All (λ (q : Pair × List Candle). P q.1) qs
    → All (λ (q : Pair × List Candle). P q.1) (sort_queues qs)
unfolding sort_queues insert_queue
sort_queues-All P [] _ = tt
sort_queues-All P (q ∷ qs) (own, rest) =
    insert_queue-All q (sort_queues qs) own (sort_queues-All P qs rest)
  where
    insert_queue-All :
        (q : Pair × List Candle) (rs : Queues)
        → P q.1
        → All (λ (q : Pair × List Candle). P q.1) rs
        → All (λ (q : Pair × List Candle). P q.1) (insert_queue q rs)
    insert_queue-All q [] h _ = (h, tt)
    insert_queue-All q (r ∷ rs) h (k, ks) =
        if_ind (All (λ (q : Pair × List Candle). P q.1)) (comes_first q.0 r.0) (λ _. (h, (k, ks)))
          (λ _. (k, insert_queue-All q rs h ks))

-- Where each pair's candles are in order of time, the steps are in strict order of time, and a step
-- holds for every pair the candle that the pair has at the step's time, and none for a pair that has none.
pub joined_steps-IsExact :
    (candles : Queues)
    → Distinct candles
    → All (λ (q : Pair × List Candle). Ascends q.1) candles
    → IsAscending (joined_steps candles) × All (IsExact candles) (joined_steps candles)
unfolding joined_steps
joined_steps-IsExact candles distinct rises =
    let exact =
      join-IsExact (count candles) (sort_queues candles) (sort_queues-Distinct candles distinct)
        (sort_queues-All Ascends candles rises) in
    (
      exact.0,
      All-map _ _ (joined_steps candles)
          (λ (s : Timestamp × Step) h p.
            h p ∙ ap (λ o. candle_at s.0 (get_or o [])) (sort_queues-lookup p candles distinct))
          exact.1,
    )
