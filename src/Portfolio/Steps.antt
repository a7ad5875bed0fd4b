-- ===== src/Portfolio/Steps.antt =====
-- `joined_steps` (kaupo/core/portfolio_engine.py): candles of several pairs, one step for each time.
use Prim.Native.Nat.{Ordering}
use Prim.Native.String.{compare, ◌++◌ as append}
use kaupo.Base.{
  ℕ, zero, suc, ◌+◌, String, Bool, true, false, Option, none, some, List, [], ◌∷◌, map, length,
  if◌then◌else◌, on_some, ltb, ◌==◌,
}
use kaupo.Base.Dict.{Dict}
use kaupo.Domain.{Pair, Candle, Timestamp}

-- `str(pair)`
abbrev pub pair_text : Pair → String
pair_text p = append p.base (append "/" p.quote)

abbrev pub comes_first : Pair → Pair → Bool
comes_first p q = elim (compare (pair_text p) (pair_text q)) [ Ordering.lt ↦ true | _ ↦ false ]

-- What is left of each pair's candles.
abbrev pub Queues : Type 0
Queues = Dict Pair (List Candle)

abbrev pub Step : Type 0
Step = Dict Pair Candle

-- `sorted(queues, key=str)`; the pairs are distinct.
unfoldable pub insert_queue : Pair × List Candle → Queues → Queues
insert_queue q [] = q ∷ []
insert_queue q (r ∷ qs) = if comes_first q.0 r.0 then q ∷ r ∷ qs else r ∷ insert_queue q qs

unfoldable pub sort_queues : Queues → Queues
unfolding insert_queue
sort_queues [] = []
sort_queues (q ∷ qs) = insert_queue q (sort_queues qs)

abbrev pub earlier : Timestamp → Option Timestamp → Timestamp
earlier ts none = ts
earlier ts (some other) = if ltb other ts then other else ts

-- `min(queue[0].ts for queue in queues.values() if queue)`, or `none` when all are empty.
unfoldable pub min_ts : Queues → Option Timestamp
min_ts [] = none
min_ts ((_, []) ∷ qs) = min_ts qs
min_ts ((_, c ∷ _) ∷ qs) = some (earlier c.ts (min_ts qs))

-- The candle of a queue at a time, and what stays in the queue.
abbrev pub popped : Timestamp → List Candle → Option Candle
popped ts [] = none
popped ts (c ∷ _) = if c.ts == ts then some c else none

abbrev pub left_after : Timestamp → List Candle → List Candle
left_after ts [] = []
left_after ts (c ∷ cs) = if c.ts == ts then cs else c ∷ cs

unfoldable pub step_at : Timestamp → Queues → Step
step_at ts [] = []
step_at ts ((p, q) ∷ qs) =
    let rest : Step = step_at ts qs in on_some (popped ts q) rest (λ c. (p, c) ∷ rest)

unfoldable pub pop_at : Timestamp → Queues → Queues
pop_at ts qs = map (λ (q : Pair × List Candle). (q.0, left_after ts q.1)) qs

-- The loop; the fuel is a bound on the candles that are left.
unfoldable pub join : ℕ → Queues → List (Timestamp × Step)
unfolding min_ts step_at pop_at
join zero qs = []
join (suc n) qs = on_some (min_ts qs) [] (λ ts. (ts, step_at ts qs) ∷ join n (pop_at ts qs))

abbrev pub count : Queues → ℕ
count [] = 0
count ((_, q) ∷ qs) = length q + count qs

-- `joined_steps`
unfoldable pub joined_steps : Queues → List (Timestamp × Step)
unfolding join sort_queues
joined_steps candles = join (count candles) (sort_queues candles)
