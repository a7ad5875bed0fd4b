-- ===== src/Reconcile/Repeat.antt =====
-- Reconciliation records every trade once (kaupo/core/live_reconcile.py).
use kaupo.Base.{
  ◌≡◌, refl, sym, subst, String, some, List, [], ◌∷◌, ◌++◌, if◌then◌else◌, if_ind, get_or, All,
  All-map, Bool-cases, inl, inr, arith,
}
use kaupo.Base.Int.{
  ℤ, pos, ◌+ℤ◌, ◌-ℤ◌, ◌≤ℤ◌, ltb_ℤ, leb_ℤ, int_laws, leb_ℤ-true, leb_ℤ-false, ltb_ℤ-false, +ℤ_zero,
}
use kaupo.Base.Dict.{Dict, beq_refl}
use kaupo.Domain.{Pair, eq_string}
use kaupo.Reconcile.State.{ExchangeTrade, LiveFill, RecoveredOrder, Books}
use kaupo.Reconcile.Recover.{
  Group, sum_of, aggregate_trades, target_of, remainder_fill, missing_fill, recover_one,
  recover_groups, recover_missed, by_txid, sort_groups,
}

-- The size of the fills of an order.
abbrev pub size_on : String → List (RecoveredOrder × LiveFill) → ℤ
size_on k [] = pos 0
size_on k ((_, f) ∷ fs) = (if eq_string.beq k f.order_id then f.size else pos 0) +ℤ size_on k fs

pub size_on-append :
    (k : String) (xs ys : List (RecoveredOrder × LiveFill))
    → size_on k (xs ++ ys) ≡ size_on k xs +ℤ size_on k ys
size_on-append k [] ys = omega int_laws
size_on-append k ((_, f) ∷ xs) ys = let rest = size_on-append k xs ys in omega int_laws

-- The books once the fills are recorded.
abbrev pub record_fills : List (RecoveredOrder × LiveFill) → Books → Books
record_fills fs books = record books {
  recorded = λ k. some (get_or (books.recorded k) (pos 0) +ℤ size_on k fs);
}

missing_fill-order_id : (f : LiveFill) (n : ℤ) → (missing_fill f n).order_id ≡ f.order_id
unfolding missing_fill remainder_fill
missing_fill-order_id f n =
    if_ind (λ (x : LiveFill). x.order_id ≡ f.order_id) (ltb_ℤ n f.size) (λ _. refl) (λ _. refl)

-- A recovered fill has the size that is missing, whether that is a part or the whole.
missing_fill-size :
    (f : LiveFill) (n on : ℤ) → n ≡ f.size -ℤ on → pos 0 ≤ℤ on → (missing_fill f n).size ≡ n
unfolding missing_fill remainder_fill
missing_fill-size f n on e nonneg =
    if_ind (λ (x : LiveFill). x.size ≡ n) (ltb_ℤ n f.size) (λ _. refl)
      (λ large. let le = ltb_ℤ-false n f.size large in omega int_laws)

abbrev pub on_record : Books → String → ℤ
on_record books k = get_or (books.recorded k) (pos 0)

abbrev pub total_of : Group → ℤ
total_of (t, ts) = sum_of (λ (t : ExchangeTrade). t.size) (t ∷ ts)

module _ (books : Books) (pair : Pair) (nonneg : (k : String) → pos 0 ≤ℤ on_record books k) where
  abbrev pub remainder_of : String × Group → ℤ
  remainder_of g = total_of g.1 -ℤ on_record books (target_of books g.0)

  pub recover_one-size :
      (k : String) (g : String × Group)
      → size_on k (recover_one books pair g) ≡ (
          if leb_ℤ (remainder_of g) (pos 0)
          then pos 0
          else if eq_string.beq k (target_of books g.0)
          then remainder_of g
          else pos 0)
  unfolding recover_one aggregate_trades
  recover_one-size k (txid, (t, ts)) =
      let order_id : String = target_of books txid in
      let f : LiveFill = aggregate_trades order_id pair t ts in
      let n : ℤ = remainder_of (txid, (t, ts)) in
      let size = missing_fill-size f n (on_record books order_id) refl (nonneg order_id) in
      elim (Bool-cases (leb_ℤ n (pos 0))) [
        | inl covered ↦ rw (covered) refl
        | inr missing ↦ rw (missing, missing_fill-order_id f n, size) (+ℤ_zero _)
      ]

  recover_one-nonneg :
      (k : String) (g : String × Group) → pos 0 ≤ℤ size_on k (recover_one books pair g)
  recover_one-nonneg k g =
      let Q : ℤ → Type 0 = λ z. pos 0 ≤ℤ z in
      subst Q (sym (recover_one-size k g)) (
        if_ind Q (leb_ℤ (remainder_of g) (pos 0)) (λ _. omega arith)
          λ missing.
            if_ind Q (eq_string.beq k (target_of books g.0))
              (λ _. let more = leb_ℤ-false (remainder_of g) (pos 0) missing in omega arith)
              (λ _. omega arith))

  recover_one-covers :
      (g : String × Group)
      → total_of g.1
        ≤ℤ on_record books (target_of books g.0)
          +ℤ size_on (target_of books g.0) (recover_one books pair g)
  recover_one-covers g =
      let on : ℤ = on_record books (target_of books g.0) in
      let Q : ℤ → Type 0 = λ z. total_of g.1 ≤ℤ on +ℤ z in
      subst Q (sym (recover_one-size (target_of books g.0) g)) (
        if_ind Q (leb_ℤ (remainder_of g) (pos 0))
          (λ covered. let less = leb_ℤ-true (remainder_of g) (pos 0) covered in omega int_laws)
          (λ _. rw (beq_refl (target_of books g.0)) (omega int_laws)))

  recover_groups-nonneg :
      (k : String) (gs : Dict String Group) → pos 0 ≤ℤ size_on k (recover_groups books pair gs)
  unfolding recover_groups
  recover_groups-nonneg k [] = omega arith
  recover_groups-nonneg k (g ∷ gs) =
      let one = recover_one-nonneg k g in
      let rest = recover_groups-nonneg k gs in
      let both = size_on-append k (recover_one books pair g) (recover_groups books pair gs) in
      omega int_laws

  recover_groups-covers :
      (gs : Dict String Group)
      → All
          (λ (g : String × Group).
            total_of g.1
            ≤ℤ on_record books (target_of books g.0)
              +ℤ size_on (target_of books g.0) (recover_groups books pair gs))
          gs
  unfolding recover_groups
  recover_groups-covers [] = tt
  recover_groups-covers (g ∷ gs) =
      let first : List (RecoveredOrder × LiveFill) = recover_one books pair g in
      let later : List (RecoveredOrder × LiveFill) = recover_groups books pair gs in
      let both = λ (k : String). size_on-append k first later in
      (
        let own = recover_one-covers g in
            let rest = recover_groups-nonneg (target_of books g.0) gs in
            let sum = both (target_of books g.0) in omega int_laws,
        All-map _ _ gs
            (λ (h : String × Group) covered.
              let more = recover_one-nonneg (target_of books h.0) g in
              let sum = both (target_of books h.0) in omega int_laws)
            (recover_groups-covers gs),
      )

module _ (books : Books) (pair : Pair) where
  recover_one-covered :
      (g : String × Group)
      → total_of g.1 ≤ℤ on_record books (target_of books g.0)
      → recover_one books pair g ≡ []
  unfolding recover_one aggregate_trades
  recover_one-covered (txid, (t, ts)) covered =
      let n : ℤ = total_of (t, ts) -ℤ on_record books (target_of books txid) in
      elim (Bool-cases (leb_ℤ n (pos 0))) [
        | inl nothing ↦ rw (nothing) refl
        | inr missing ↦
            let some_left = leb_ℤ-false n (pos 0) missing in
            let none_left : n ≤ℤ pos 0 = omega int_laws in ground arith
      ]

  recover_groups-covered :
      (gs : Dict String Group)
      → All (λ (g : String × Group). total_of g.1 ≤ℤ on_record books (target_of books g.0)) gs
      → recover_groups books pair gs ≡ []
  unfolding recover_groups
  recover_groups-covered [] _ = refl
  recover_groups-covered (g ∷ gs) (covered, rest) =
      rw (recover_one-covered g covered) (recover_groups-covered gs rest)

-- Once the fills that a reconciliation recovered are recorded, a reconciliation of the same trades
-- recovers nothing, where no recorded size is negative.
pub recover_missed-repeat :
    (books : Books) (pair : Pair) (trades : List ExchangeTrade)
    → ((k : String) → pos 0 ≤ℤ on_record books k)
    → recover_missed (record_fills (recover_missed books pair trades) books) pair trades ≡ []
unfolding recover_missed target_of
recover_missed-repeat books pair trades nonneg =
    let gs : Dict String Group = sort_groups (by_txid trades []) in
    recover_groups-covered (record_fills (recover_groups books pair gs) books) pair gs
      (recover_groups-covers books pair nonneg gs)
