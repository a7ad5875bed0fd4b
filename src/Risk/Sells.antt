-- ===== src/Risk/Sells.antt =====
-- A spot batch never sells more of a pair than is held.
use kaupo.Base.{
  ◌≡◌, refl, ap, sym, ◌∙◌, subst, ◌⊎◌, inl, inr, Bool, true, false, not, ◌&&◌, List, [], ◌∷◌,
  if_ind, get_or, if◌then◌else◌,
}
use kaupo.Base.Int.{
  ℤ, pos, ◌+ℤ◌, ◌-ℤ◌, ◌*ℤ◌, ◌≤ℤ◌, ◌<ℤ◌, min_ℤ, min_ℤ_parts, ltb_ℤ, leb_ℤ, leb_ℤ-false, int_laws,
  +ℤ_zero,
}
use kaupo.Base.Dict.{lookup}
use kaupo.Domain.{
  Pair, Side, buy, sell, on_side, on_side_ind, OrderIntent, eq_pair, flat, total, total-bump,
  pair_eq, pair_eq_iff,
}
use kaupo.Risk.State.{RiskManager, RiskState, RiskConfig}
use kaupo.Risk.Cases.{assess_one_ind, reject-intent, assess_buy-intent}
use kaupo.Risk.Spot.{
  Assessment, Running, is_rejected, reject, assess_sell, assess_one, fold_in, assess_from,
  assess_spot, start,
}

-- What one assessment sells of a pair.
abbrev pub sold_by : Pair → Assessment → ℤ
sold_by p a =
    if is_rejected a.decision
    then pos 0
    else on_side a.intent.side (pos 0) (if pair_eq p a.intent.pair then a.size else pos 0)

-- The size of a pair that a list of assessments sells.
unfoldable pub sold_size : Pair → List Assessment → ℤ
sold_size p [] = pos 0
sold_size p (a ∷ as') = sold_by p a +ℤ sold_size p as'

abbrev held : RiskState → Pair → ℤ
held s p = (get_or (lookup p s.positions) (flat p)).size

abbrev sold_so_far : Running → Pair → ℤ
sold_so_far r p = total p r.sold

-- A verdict on `i` that sells something within `room`, or rejects.
abbrev FitsIn : OrderIntent → ℤ → Assessment → Type 0
FitsIn i room a =
    (a.intent ≡ i)
    × ((is_rejected a.decision ≡ true) ⊎ (pos 0 <ℤ a.size) × (a.size ≤ℤ room) × (a.size ≤ℤ i.size))

module _ (i : OrderIntent) (s : RiskState) (r : Running) where
  abbrev room : ℤ
  room = held s i.pair -ℤ sold_so_far r i.pair

  -- An accepted sale fits into what is left of the position.
  assess_sell-FitsIn : (cfg : RiskConfig) (price : ℤ) → FitsIn i room (assess_sell cfg i s r price)
  unfolding assess_sell
  assess_sell-FitsIn cfg price =
      let size : ℤ = min_ℤ i.size room in
      let Q : Assessment → Type 0 = FitsIn i room in
      if_ind Q (leb_ℤ size (pos 0)) (λ _. (refl, inl refl))
        λ some_size.
          let positive : pos 0 <ℤ size = leb_ℤ-false size (pos 0) some_size in
          let within : size ≤ℤ room = omega (int_laws, min_ℤ_parts i.size room) in
          let wanted : size ≤ℤ i.size = omega (int_laws, min_ℤ_parts i.size room) in
          if_ind Q (not (leb_ℤ (held s i.pair) size) && ltb_ℤ (size *ℤ price) cfg.min_order_quote)
            (λ _. (refl, inl refl))
            (λ _.
              if_ind Q (ltb_ℤ size i.size) (λ _. (refl, inr (positive, within, wanted)))
                (λ _. (refl, inr (positive, within, wanted))))

  -- A buy says nothing of sales; a sale or a rejection fits into what is left.
  abbrev SellsWithin : Assessment → Type 0
  SellsWithin a = (a.intent.side ≡ buy) ⊎ FitsIn i room a

  assess_one-SellsWithin : (m : RiskManager) → SellsWithin (assess_one m i s r)
  unfolding reject
  assess_one-SellsWithin m =
      assess_one_ind SellsWithin m i s r (λ reason. inr (reject-intent i reason, inl refl))
        (λ price _ _ is_buy _.
          inl (ap (λ (j : OrderIntent). j.side) (assess_buy-intent m.config i s r price) ∙ is_buy))
        (λ price _ _ _. inr (assess_sell-FitsIn m.config price))

module _ (p : Pair) where
  -- The running total of sales under the branches of the loop's fold.
  sold_branches :
      (refused : Bool) (side : Side) (r bought sold' : Running) (x : ℤ)
      → total p bought.sold ≡ total p r.sold
      → total p sold'.sold ≡ total p r.sold +ℤ x
      → total p (if refused then r else on_side side bought sold').sold
        ≡ total p r.sold +ℤ (if refused then pos 0 else on_side side (pos 0) x)
  sold_branches true side r bought sold' x e f = sym (+ℤ_zero (total p r.sold))
  sold_branches false buy r bought sold' x e f = e ∙ sym (+ℤ_zero (total p r.sold))
  sold_branches false sell r bought sold' x e f = f

  fold_in-sold :
      (a : Assessment) (s : RiskState) (r : Running)
      → total p (fold_in a s r).sold ≡ total p r.sold +ℤ sold_by p a
  unfolding fold_in
  fold_in-sold a s r =
      sold_branches (is_rejected a.decision) a.intent.side r _ _ _ refl
        (total-bump p a.intent.pair a.size r.sold)

  -- An assessment sells nothing of the pair, or its own size.
  sold_by_cases :
      (a : Assessment)
      → (sold_by p a ≡ pos 0)
        ⊎ (is_rejected a.decision ≡ false)
          × (a.intent.side ≡ sell)
          × (p ≡ a.intent.pair)
          × (sold_by p a ≡ a.size)
  sold_by_cases a =
      let Q : ℤ → Type 0 = λ x.
        (x ≡ pos 0)
        ⊎ (is_rejected a.decision ≡ false)
          × (a.intent.side ≡ sell)
          × (p ≡ a.intent.pair)
          × (x ≡ a.size) in
      if_ind Q (is_rejected a.decision) (λ _. inl refl)
        λ accepted.
          on_side_ind Q a.intent.side (λ _. inl refl)
            λ is_sell.
              if_ind Q (pair_eq p a.intent.pair)
                (λ same. inr (accepted, is_sell, (pair_eq_iff p a.intent.pair).0 same, refl))
                (λ _. inl refl)

  sale_fits :
      (a : Assessment) (i : OrderIntent) (s : RiskState) (r : Running)
      → SellsWithin i s r a
      → is_rejected a.decision ≡ false
      → a.intent.side ≡ sell
      → p ≡ a.intent.pair
      → a.size ≤ℤ held s p -ℤ total p r.sold
  sale_fits a i s r (inl is_buy) accepted is_sell same = absurd (cc)
  sale_fits a i s r (inr (of_i, inl refused)) accepted is_sell same = absurd (cc)
  sale_fits a i s r (inr (of_i, inr (_, fits, _))) accepted is_sell same =
      subst (λ q. a.size ≤ℤ held s q -ℤ total q r.sold)
        (sym (same ∙ ap (λ (j : OrderIntent). j.pair) of_i)) fits

  -- A verdict keeps the sales of every pair within what is held.
  within_step :
      (a : Assessment) (i : OrderIntent) (s : RiskState) (r : Running)
      → SellsWithin i s r a
      → total p r.sold ≤ℤ held s p
      → total p r.sold +ℤ sold_by p a ≤ℤ held s p
  within_step a i s r within h = elim (sold_by_cases a) [
    | inl nothing ↦ omega (int_laws, nothing)
    | inr (accepted, is_sell, same, size) ↦
        omega (int_laws, size, sale_fits a i s r within accepted is_sell same)
  ]

  within_from :
      (m : RiskManager) (is : List OrderIntent) (s : RiskState) (r : Running)
      → total p r.sold ≤ℤ held s p
      → total p r.sold +ℤ sold_size p (assess_from m is s r) ≤ℤ held s p
  unfolding assess_from sold_size
  within_from m [] s r h = omega int_laws
  within_from m (i ∷ is) s r h =
      let a : Assessment = assess_one m i s r in
      let folded = fold_in-sold a s r in
      let kept = within_step a i s r (assess_one-SellsWithin i s r m) h in
      let rest = within_from m is s (fold_in a s r) (omega int_laws) in omega int_laws

-- However many sells of a pair a batch holds, and whatever they are mixed with, what the manager
-- lets through of them is never more than the position.
pub sold_size-le-held :
    (m : RiskManager) (is : List OrderIntent) (s : RiskState) (p : Pair)
    → pos 0 ≤ℤ (get_or (lookup p s.positions) (flat p)).size
    → sold_size p (assess_spot m is s) ≤ℤ (get_or (lookup p s.positions) (flat p)).size
unfolding assess_spot
sold_size-le-held m is s p h = let all = within_from p m is s (start s) h in omega int_laws
