-- ===== src/Reconcile/Exact.antt =====
-- Reconciliation brings the books to the exchange's total of each order (kaupo/core/live_reconcile.py).
use kaupo.Base.{
  ◌≡◌, refl, ap, subst, ◌∙◌, String, false, Option, none, some, List, [], ◌∷◌, if_ind, on_some,
  Bool-cases, inl, inr,
}
use kaupo.Base.Int.{ℤ, pos, ◌+ℤ◌, ◌-ℤ◌, ◌≤ℤ◌, max_ℤ, leb_ℤ, int_laws, max_ℤ_parts}
use kaupo.Base.Dict.{Dict, lookup, beq_refl}
use kaupo.Base.Keyed.{Distinct}
use kaupo.Domain.{Pair, eq_string}
use kaupo.Reconcile.State.{ExchangeTrade, Books}
use kaupo.Reconcile.Recover.{
  Group, target_of, recover_one, recover_groups, recover_missed, by_txid, sort_groups,
}
use kaupo.Reconcile.Repeat.{
  size_on, size_on-append, record_fills, on_record, total_of, recover_one-size,
}
use kaupo.Reconcile.Grouping.{
  traded_on, by_txid-total, by_txid-Distinct, lookup-sort_groups, sort_groups-Distinct,
}

fill_up : (on total : ℤ) → on +ℤ max_ℤ (pos 0) (pos 0 +ℤ total -ℤ on) ≡ max_ℤ on total
fill_up on total =
    let missing = max_ℤ_parts (pos 0) (pos 0 +ℤ total -ℤ on) in
    let larger = max_ℤ_parts on total in omega int_laws

stay : (on : ℤ) → pos 0 ≤ℤ on → on +ℤ pos 0 ≡ max_ℤ on (pos 0)
stay on nonneg = let larger = max_ℤ_parts on (pos 0) in omega int_laws

total_zero : (total : ℤ) → pos 0 ≡ pos 0 +ℤ total → total ≡ pos 0
total_zero total e = omega int_laws

module _ (books : Books) (pair : Pair) (nonneg : (k : String) → pos 0 ≤ℤ on_record books k)
    (one_to_one : (j k : String) → target_of books j ≡ target_of books k → j ≡ k) where
  -- What is missing of an order, if anything.
  abbrev shortfall : String → Group → ℤ
  shortfall k g = max_ℤ (pos 0) (total_of g -ℤ on_record books (target_of books k))

  recover_one-own :
      (k : String) (g : Group)
      → size_on (target_of books k) (recover_one books pair (k, g)) ≡ shortfall k g
  unfolding max_ℤ
  recover_one-own k g =
      let n : ℤ = total_of g -ℤ on_record books (target_of books k) in
      recover_one-size books pair nonneg (target_of books k) (k, g)
      ∙ rw (beq_refl (target_of books k)) refl

  recover_one-other :
      (j k : String) (g : Group)
      → eq_string.beq j k ≡ false
      → size_on (target_of books j) (recover_one books pair (k, g)) ≡ pos 0
  recover_one-other j k g apart =
      let n : ℤ = total_of g -ℤ on_record books (target_of books k) in
      let apart_targets : eq_string.beq (target_of books j) (target_of books k) ≡ false =
        elim (Bool-cases (eq_string.beq (target_of books j) (target_of books k))) [
          | inl same ↦
              let same_txid =
                one_to_one j k
                  ((eq_string.beq_iff (target_of books j) (target_of books k)).0 same) in
              let equal = (eq_string.beq_iff j k).1 same_txid in cc
          | inr differ ↦ differ
        ] in
      recover_one-size books pair nonneg (target_of books j) (k, g)
      ∙ rw (apart_targets) (if_ind (λ (z : ℤ). z ≡ pos 0) (leb_ℤ n (pos 0)) (λ _. refl) (λ _. refl))

  recover_groups-size :
      (k : String) (gs : Dict String Group)
      → Distinct gs
      → size_on (target_of books k) (recover_groups books pair gs)
        ≡ on_some (lookup k gs) (pos 0) (shortfall k)
  unfolding recover_groups
  recover_groups-size k [] _ = refl
  recover_groups-size k ((j, g) ∷ gs) (fresh, rest) =
      let all =
        size_on-append (target_of books k) (recover_one books pair (j, g))
          (recover_groups books pair gs) in
      let later = recover_groups-size k gs rest in
      elim (Bool-cases (eq_string.beq k j)) [
        | inl own ↦
            let same = (eq_string.beq_iff k j).0 own in
            let none_later =
              later
              ∙ ap (λ o. on_some o (pos 0) (shortfall k)) (ap (λ i. lookup i gs) same ∙ fresh) in
            let now =
              subst
                (λ i. size_on (target_of books k) (recover_one books pair (i, g)) ≡ shortfall k g)
                same (recover_one-own k g) in
            rw (own) (omega int_laws)
        | inr other ↦ let now = recover_one-other k j g other in rw (other) (omega int_laws)
      ]

  -- After the recovered fills are recorded, the size on record of the order that a txid belongs to is
  -- the larger one of what was on record and the exchange's total for the txid, where no recorded size is negative
  -- and distinct txids belong to distinct orders.
  pub recover_missed-exact :
      (k : String) (trades : List ExchangeTrade)
      → on_record (record_fills (recover_missed books pair trades) books) (target_of books k)
        ≡ max_ℤ (on_record books (target_of books k)) (traded_on k trades)
  unfolding recover_missed
  recover_missed-exact k trades =
      let gs : Dict String Group = by_txid trades [] in
      let distinct = by_txid-Distinct trades [] tt in
      let size =
        recover_groups-size k (sort_groups gs) (sort_groups-Distinct gs distinct)
        ∙ ap (λ o. on_some o (pos 0) (shortfall k)) (lookup-sort_groups k gs distinct) in
      filled k trades (lookup k gs) (by_txid-total k trades []) size
    where
      filled :
          (k : String) (trades : List ExchangeTrade) (o : Option Group) {n : ℤ}
          → on_some o (pos 0) total_of ≡ pos 0 +ℤ traded_on k trades
          → n ≡ on_some o (pos 0) (shortfall k)
          → on_record books (target_of books k) +ℤ n
            ≡ max_ℤ (on_record books (target_of books k)) (traded_on k trades)
      filled k trades none total size =
          let have = nonneg (target_of books k) in
          let start = total_zero (traded_on k trades) total in
          rw (size, start) (stay (on_record books (target_of books k)) have)
      filled k trades (some g) total size =
          rw (size, total) (fill_up (on_record books (target_of books k)) (traded_on k trades))
