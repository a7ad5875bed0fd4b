-- ===== src/Paper/Void.antt =====
-- A fill that the ledger refuses is taken back.
use kaupo.Base.{
  ◌≡◌, refl, sym, ap, ◌∙◌, subst, ◌==◌, Bool, true, false, none, some, List, [], ◌∷◌, map, filter,
  All, arith, get_or, if◌then◌else◌, on_some_ind, Bool-cases, inl, inr,
}
use kaupo.Base.Int.{ℤ, pos, ◌+ℤ◌, ◌-ℤ◌, neg, int_laws, add_neg}
use kaupo.Base.Dict.{Dict, lookup, insert, beq_refl}
use kaupo.Domain.{
  Pair, Order, OrderId, rejected, Fill, pair_eq, eq_pair, eq_order_id, total, total-bump,
}
use kaupo.Paper.State.{PaperVenue, Armed, write, written_at}
use kaupo.Paper.Fills.{delta_of, track_position}
use kaupo.Paper.Candle.{void_fill, reject_order, rearm, not_of}
use kaupo.Paper.Positions.{track_position-total}

-- The order as `void_fill` leaves it.
abbrev pub refused : Order → Order
refused o = record o { status = rejected; filled_price = none; filled_ts = none; fee = pos 0 }

-- A write to an order that is filed under its id shows there.
lookup-written :
    (o o' : Order) (d : Dict OrderId Order)
    → lookup o.id d ≡ some o
    → o'.id ≡ o.id
    → lookup o.id (map (written_at o') d) ≡ some o'
lookup-written o o' [] found same = absurd (cc)
lookup-written o o' ((k, x) ∷ d) found same =
    let rest = lookup-written o o' d in
    elim (Bool-cases (o.id == k)) [
      | inl here ↦
          let it : some x ≡ some o = rw here at found in
          rw (here, ap (λ e. get_or e o) it, same, beq_refl o.id) refl
      | inr there ↦
          let later : lookup o.id d ≡ some o = rw there at found in rw there (rest later same)
    ]

not_of-filter :
    (i : OrderId) (as' : List Armed)
    → All (λ (a : Armed). not_of i a ≡ true) (filter (not_of i) as')
not_of-filter i [] = tt
not_of-filter i (a ∷ as') = elim (Bool-cases (not_of i a)) [
  | inl kept ↦ rw kept (kept, not_of-filter i as')
  | inr dropped ↦ rw dropped (not_of-filter i as')
]

-- What `track_position` leaves alone.
track_position-orders :
    (f : Fill) (v : PaperVenue)
    → ((track_position f v).orders ≡ v.orders)
      × ((track_position f v).prot_by_exit ≡ v.prot_by_exit)
unfolding track_position
track_position-orders f v = ground arith

reject_order-kept :
    (i : OrderId) (v : PaperVenue)
    → ((reject_order i v).positions ≡ v.positions)
      × ((reject_order i v).prot_by_exit ≡ v.prot_by_exit)
unfolding reject_order write
reject_order-kept i v =
    on_some_ind
      (λ (w : PaperVenue). (w.positions ≡ v.positions) × (w.prot_by_exit ≡ v.prot_by_exit))
      (lookup i v.orders) (λ _. (refl, refl)) (λ _ _. (refl, refl))

-- What rejecting a known order does.
abbrev IsRejected : OrderId → Order → PaperVenue → Type 0
IsRejected i o v =
    (lookup i v.orders ≡ some (refused o))
    × All (λ (a : Armed). not_of i a ≡ true) v.protections
    × All (λ (a : Armed). not_of i a ≡ true) v.newly_armed

reject_order-IsRejected :
    (v : PaperVenue) (o : Order)
    → lookup o.id v.orders ≡ some o
    → IsRejected o.id o (reject_order o.id v)
unfolding reject_order write
reject_order-IsRejected v o found = rw found (
  lookup-written o (refused o) v.orders found refl,
  not_of-filter o.id v.protections,
  not_of-filter o.id v.newly_armed,
)

rearm-positions : (i : OrderId) (v : PaperVenue) → (rearm i v).positions ≡ v.positions
unfolding rearm
rearm-positions i v =
    on_some_ind (λ (w : PaperVenue). w.positions ≡ v.positions) (lookup i v.prot_by_exit)
      (λ _. refl) (λ _ _. refl)

rearm-IsRejected :
    (i : OrderId) (o : Order) (v : PaperVenue)
    → lookup i v.prot_by_exit ≡ none
    → IsRejected i o v
    → IsRejected i o (rearm i v)
unfolding rearm
rearm-IsRejected i o v unknown h = rw unknown h

add_neg_if :
    (b : Bool) (x d : ℤ) → x +ℤ (if b then neg d else pos 0) ≡ x -ℤ (if b then d else pos 0)
add_neg_if true x d = omega int_laws
add_neg_if false x d = omega int_laws

pub void_fill-total :
    (f : Fill) (v : PaperVenue) (p : Pair)
    → total p (void_fill f v).positions
      ≡ total p v.positions -ℤ (if pair_eq p f.pair then delta_of f else pos 0)
unfolding void_fill
void_fill-total f v p =
    let size : ℤ = total f.pair v.positions -ℤ delta_of f in
    let back : PaperVenue = record v { positions = insert f.pair size v.positions } in
    let bump = total-bump p f.pair (neg (delta_of f)) v.positions in
    ap (total p) (rearm-positions f.order_id (reject_order f.order_id back))
    ∙ ap (total p) (reject_order-kept f.order_id back).0
    ∙ ap (λ n. total p (insert f.pair n v.positions))
        (sym (add_neg (total f.pair v.positions) (delta_of f)))
    ∙ bump
    ∙ add_neg_if (pair_eq p f.pair) (total p v.positions) (delta_of f)

-- Voiding a fill takes it back: the positions are those before it was tracked, for every pair; its
-- order, if the venue knows it, is rejected with no price and no fee; and no protection of that
-- order is armed, unless the order was itself the exit of a protection.
pub void_fill-track_position :
    (f : Fill) (v : PaperVenue) (p : Pair) {o : Order}
    → f.order_id ≡ o.id
    → lookup o.id v.orders ≡ some o
    → lookup o.id v.prot_by_exit ≡ none
    → let v' = void_fill f (track_position f v) in
      (total p v'.positions ≡ total p v.positions)
      × (lookup o.id v'.orders ≡ some (refused o))
      × All (λ (a : Armed). not_of o.id a ≡ true) v'.protections
      × All (λ (a : Armed). not_of o.id a ≡ true) v'.newly_armed
unfolding void_fill
void_fill-track_position f v p {o} own known unknown =
    let w : PaperVenue = track_position f v in
    let moved = track_position-total p f v in
    let voided = void_fill-total f w p in
    let kept = track_position-orders f v in
    let back : PaperVenue = record w {
      positions = insert f.pair (total f.pair w.positions -ℤ delta_of f) w.positions;
    } in
    let gone = reject_order-IsRejected back o (ap (lookup o.id) kept.0 ∙ known) in
    let unmapped : lookup o.id (reject_order o.id back).prot_by_exit ≡ none =
      ap (lookup o.id) ((reject_order-kept o.id back).1 ∙ kept.1) ∙ unknown in
    let done = rearm-IsRejected o.id o (reject_order o.id back) unmapped gone in
    let taken_back =
      subst (λ i. IsRejected o.id o (rearm i (reject_order i back))) (sym own) done in
    (omega int_laws, taken_back.0, taken_back.1, taken_back.2)
