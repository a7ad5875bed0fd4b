-- ===== src/Portfolio/Sorted.antt =====
-- `joined_steps` sorts its queues by pair (kaupo/core/portfolio_engine.py), which keeps what they hold.
use kaupo.Base.{
  ◌≡◌, refl, sym, ap, ◌∙◌, ◌+◌, Bool, true, false, Option, none, some, List, [], ◌∷◌, length,
  if◌then◌else◌, if_ind, Bool-cases, inl, inr, arith,
}
use kaupo.Base.Dict.{lookup}
use kaupo.Base.Keyed.{Distinct}
use kaupo.Domain.{Pair, Candle, pair_eq, eq_pair, pair_eq_iff}
use kaupo.Portfolio.Steps.{Queues, comes_first, insert_queue, sort_queues, count}

if_swap :
    (a b : Bool) (x y z : Option (List Candle))
    → (a ≡ true → b ≡ false)
    → (if b then y else if a then x else z) ≡ (if a then x else if b then y else z)
if_swap true true x y z h = let other = h refl in cc
if_swap true false x y z _ = refl
if_swap false true x y z _ = refl
if_swap false false x y z _ = refl

not_same : (k j : Pair) → pair_eq k j ≡ false → pair_eq j k ≡ false
not_same k j apart = elim (Bool-cases (pair_eq j k)) [
  | inl same ↦ let other = (pair_eq_iff k j).1 (sym ((pair_eq_iff j k).0 same)) in cc
  | inr other ↦ other
]

absent_in :
    (k j : Pair) (w : List Candle) (qs : Queues)
    → lookup k ((j, w) ∷ qs) ≡ none
    → (pair_eq k j ≡ false) × (lookup k qs ≡ none)
absent_in k j w qs fresh = elim (Bool-cases (pair_eq k j)) [
  | inl same ↦ let found = ap (λ b. if b then some w else lookup k qs) (sym same) ∙ fresh in cc
  | inr apart ↦ (apart, ap (λ b. if b then some w else lookup k qs) (sym apart) ∙ fresh)
]

insert_queue-lookup :
    (p k : Pair) (q : List Candle) (qs : Queues)
    → lookup k qs ≡ none
    → lookup p (insert_queue (k, q) qs) ≡ (if pair_eq p k then some q else lookup p qs)
unfolding insert_queue
insert_queue-lookup p k q [] _ = refl
insert_queue-lookup p k q ((j, w) ∷ qs) fresh =
    let (apart, later) = absent_in k j w qs fresh in
    if_ind (λ (d : Queues). lookup p d ≡ (if pair_eq p k then some q else lookup p ((j, w) ∷ qs)))
      (comes_first k j) (λ _. refl)
      (λ _.
        ap (λ o. if pair_eq p j then some w else o) (insert_queue-lookup p k q qs later)
        ∙ if_swap (pair_eq p k) (pair_eq p j) (some q) (some w) (lookup p qs)
            (λ own. ap (λ i. pair_eq i j) ((pair_eq_iff p k).0 own) ∙ apart))

insert_queue-Distinct :
    (k : Pair) (q : List Candle) (qs : Queues)
    → lookup k qs ≡ none
    → Distinct qs
    → Distinct (insert_queue (k, q) qs)
unfolding insert_queue
insert_queue-Distinct k q [] _ _ = (refl, tt)
insert_queue-Distinct k q ((j, w) ∷ qs) fresh (new, distinct) =
    let (apart, later) = absent_in k j w qs fresh in
    if_ind (λ (d : Queues). Distinct d) (comes_first k j) (λ _. (fresh, (new, distinct)))
      (λ _. (
        insert_queue-lookup j k q qs later
            ∙ ap (λ b. if b then some q else lookup j qs) (not_same k j apart)
            ∙ new,
        insert_queue-Distinct k q qs later distinct,
      ))

insert_queue-count :
    (k : Pair) (q : List Candle) (qs : Queues)
    → count (insert_queue (k, q) qs) ≡ length q + count qs
unfolding insert_queue
insert_queue-count k q [] = refl
insert_queue-count k q ((j, w) ∷ qs) =
    let rest = insert_queue-count k q qs in
    if_ind (λ (d : Queues). count d ≡ length q + (length w + count qs)) (comes_first k j)
      (λ _. refl) (λ _. omega arith)

pub sort_queues-count : (qs : Queues) → count (sort_queues qs) ≡ count qs
unfolding sort_queues
sort_queues-count [] = refl
sort_queues-count ((k, q) ∷ qs) =
    insert_queue-count k q (sort_queues qs) ∙ ap (λ n. length q + n) (sort_queues-count qs)

pub sort_queues-lookup :
    (p : Pair) (qs : Queues) → Distinct qs → lookup p (sort_queues qs) ≡ lookup p qs
unfolding sort_queues
sort_queues-lookup p [] _ = refl
sort_queues-lookup p ((k, q) ∷ qs) (fresh, distinct) =
    insert_queue-lookup p k q (sort_queues qs) (sort_queues-lookup k qs distinct ∙ fresh)
    ∙ ap (λ o. if pair_eq p k then some q else o) (sort_queues-lookup p qs distinct)

pub sort_queues-Distinct : (qs : Queues) → Distinct qs → Distinct (sort_queues qs)
unfolding sort_queues
sort_queues-Distinct [] _ = tt
sort_queues-Distinct ((k, q) ∷ qs) (fresh, distinct) =
    insert_queue-Distinct k q (sort_queues qs) (sort_queues-lookup k qs distinct ∙ fresh)
      (sort_queues-Distinct qs distinct)
