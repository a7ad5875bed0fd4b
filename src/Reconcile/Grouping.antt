-- ===== src/Reconcile/Grouping.antt =====
-- Trades grouped by their order keep their sizes (kaupo/core/live_reconcile.py).
use kaupo.Base.{
  ◌≡◌, refl, sym, ap, subst, ◌∙◌, String, Bool, true, false, Option, none, some, List, [], ◌∷◌,
  ◌++◌, if◌then◌else◌, if_ind, on_some, Bool-cases, inl, inr, arith,
}
use kaupo.Base.Int.{ℤ, pos, ◌+ℤ◌, int_laws}
use kaupo.Base.Dict.{Dict, lookup, lookup-insert}
use kaupo.Base.Keyed.{Distinct, insert-Distinct}
use kaupo.Domain.{eq_string}
use kaupo.Reconcile.State.{ExchangeTrade}
use kaupo.Reconcile.Recover.{
  Group, sum_of, add_trade, by_txid, insert_group, sort_groups, is_before,
}
use kaupo.Reconcile.Repeat.{total_of}

-- The size of the trades of an exchange order.
abbrev pub traded_on : String → List ExchangeTrade → ℤ
traded_on k [] = pos 0
traded_on k (t ∷ ts) = (if eq_string.beq k t.txid then t.size else pos 0) +ℤ traded_on k ts

abbrev total_at : String → Dict String Group → ℤ
total_at k gs = on_some (lookup k gs) (pos 0) total_of

sum_of-append :
    (f : ExchangeTrade → ℤ) (xs ys : List ExchangeTrade)
    → sum_of f (xs ++ ys) ≡ sum_of f xs +ℤ sum_of f ys
sum_of-append f [] ys = omega int_laws
sum_of-append f (x ∷ xs) ys = let rest = sum_of-append f xs ys in omega int_laws

total_of-grow :
    (o : Option Group) (t : ExchangeTrade)
    → total_of (on_some o (t, []) (λ (g : Group). (g.0, g.1 ++ t ∷ [])))
      ≡ t.size +ℤ on_some o (pos 0) total_of
total_of-grow none t = refl
total_of-grow (some (u, us)) t =
    let all = sum_of-append (λ (t : ExchangeTrade). t.size) us (t ∷ []) in omega int_laws

add_trade-total :
    (k : String) (t : ExchangeTrade) (gs : Dict String Group)
    → total_at k (add_trade t gs)
      ≡ (if eq_string.beq k t.txid then t.size else pos 0) +ℤ total_at k gs
unfolding add_trade
add_trade-total k t gs =
    let grown : Group = on_some (lookup t.txid gs) (t, []) (λ (g : Group). (g.0, g.1 ++ t ∷ [])) in
    elim (Bool-cases (eq_string.beq k t.txid)) [
      | inl own ↦
          rw (lookup-insert k t.txid grown gs, own)
            (subst (λ i. total_of grown ≡ t.size +ℤ total_at i gs)
              (sym ((eq_string.beq_iff k t.txid).0 own)) (total_of-grow (lookup t.txid gs) t))
      | inr other ↦ rw (lookup-insert k t.txid grown gs, other) (omega int_laws)
    ]

pub by_txid-total :
    (k : String) (ts : List ExchangeTrade) (gs : Dict String Group)
    → total_at k (by_txid ts gs) ≡ total_at k gs +ℤ traded_on k ts
unfolding by_txid
by_txid-total k [] gs = omega int_laws
by_txid-total k (t ∷ ts) gs =
    let rest = by_txid-total k ts (add_trade t gs) in
    let first = add_trade-total k t gs in omega int_laws

pub by_txid-Distinct :
    (ts : List ExchangeTrade) (gs : Dict String Group) → Distinct gs → Distinct (by_txid ts gs)
unfolding by_txid add_trade
by_txid-Distinct [] gs h = h
by_txid-Distinct (t ∷ ts) gs h = by_txid-Distinct ts (add_trade t gs) (
    insert-Distinct t.txid
      (on_some (lookup t.txid gs) (t, []) (λ (g : Group). (g.0, g.1 ++ t ∷ []))) gs h)

absent :
    (b : Bool) (v : Group) (o : Option Group)
    → (if b then some v else o) ≡ none
    → (b ≡ false) × (o ≡ none)
absent true v o h = cc
absent false v o h = (refl, h)

lookup-insert_group :
    (k : String) (g : String × Group) (hs : Dict String Group)
    → lookup g.0 hs ≡ none
    → lookup k (insert_group g hs) ≡ (if eq_string.beq k g.0 then some g.1 else lookup k hs)
unfolding insert_group
lookup-insert_group k g [] _ = refl
lookup-insert_group k g (h ∷ hs) fresh =
    let (apart, later) = absent (eq_string.beq g.0 h.0) h.1 (lookup g.0 hs) fresh in
    if_ind
      (λ (d : Dict String Group).
        lookup k d ≡ (if eq_string.beq k g.0 then some g.1 else lookup k (h ∷ hs)))
      (is_before g.0 h.0) (λ _. refl)
      (λ _. ground (
        arith,
        eq_string.beq_iff k h.0,
        eq_string.beq_iff k g.0,
        eq_string.beq_iff g.0 h.0,
        apart,
        lookup-insert_group k g hs later,
      ))

insert_group-Distinct :
    (g : String × Group) (hs : Dict String Group)
    → lookup g.0 hs ≡ none
    → Distinct hs
    → Distinct (insert_group g hs)
unfolding insert_group
insert_group-Distinct g [] _ _ = (refl, tt)
insert_group-Distinct g (h ∷ hs) fresh (own, rest) =
    let (apart, later) = absent (eq_string.beq g.0 h.0) h.1 (lookup g.0 hs) fresh in
    if_ind Distinct (is_before g.0 h.0) (λ _. (fresh, (own, rest)))
      (λ _. (
        ground (
          arith,
          eq_string.beq_iff h.0 g.0,
          eq_string.beq_iff g.0 h.0,
          apart,
          own,
          lookup-insert_group h.0 g hs later,
        ),
        insert_group-Distinct g hs later rest,
      ))

pub lookup-sort_groups :
    (k : String) (gs : Dict String Group) → Distinct gs → lookup k (sort_groups gs) ≡ lookup k gs
unfolding sort_groups
lookup-sort_groups k [] _ = refl
lookup-sort_groups k (g ∷ gs) (fresh, rest) =
    lookup-insert_group k g (sort_groups gs) (lookup-sort_groups g.0 gs rest ∙ fresh)
    ∙ ap (λ o. if eq_string.beq k g.0 then some g.1 else o) (lookup-sort_groups k gs rest)

pub sort_groups-Distinct : (gs : Dict String Group) → Distinct gs → Distinct (sort_groups gs)
unfolding sort_groups
sort_groups-Distinct [] _ = tt
sort_groups-Distinct (g ∷ gs) (fresh, rest) =
    insert_group-Distinct g (sort_groups gs) (lookup-sort_groups g.0 gs rest ∙ fresh)
      (sort_groups-Distinct gs rest)
