-- ===== src/Risk/Spending.antt =====
-- What the buys of a spot batch are worth, and the rule for the loop of `assess`
-- (kaupo/risk/manager.py).
use kaupo.Base.{
  ◌≡◌, refl, sym, ap, ◌∙◌, subst, ◌⊎◌, inl, inr, Bool, true, false, some, List, [], ◌∷◌, arith, All,
  Bool-cases, if_ind, get_or, if◌then◌else◌,
}
use kaupo.Base.Int.{
  ℤ, pos, ◌+ℤ◌, ◌-ℤ◌, ◌*ℤ◌, ◌/ℤ◌, ◌≤ℤ◌, ◌<ℤ◌, min_ℤ, min_ℤ_parts, ltb_ℤ, int_laws, +ℤ_zero, zero_*ℤ,
  *ℤ_mono, /ℤ-*ℤ-le,
}
use kaupo.Base.Dict.{Dict, insert}
use kaupo.Domain.{Pair, Side, buy, sell, on_side, on_side_ind, OrderIntent, eq_pair, total, pair_eq}
use kaupo.Risk.State.{RiskManager, RiskState, RiskConfig}
use kaupo.Risk.Cases.{assess_one_ind, assess_buy-intent, assess_sell-intent}
use kaupo.Risk.Spot.{
  Assessment, Running, is_rejected, reject, price_for, sum_values, budget_for, shrunk, assess_buy,
  assess_sell, assess_one, fold_in, assess_from,
}

-- The quote value of what an assessment buys, at the price that it was assessed at.
abbrev pub bought_by : RiskState → Assessment → ℤ
bought_by s a =
    if is_rejected a.decision
    then pos 0
    else on_side a.intent.side (a.size *ℤ get_or (price_for a.intent s) (pos 0)) (pos 0)

-- The same for one pair.
abbrev pub bought_of : Pair → RiskState → Assessment → ℤ
bought_of p s a =
    let value : ℤ = a.size *ℤ get_or (price_for a.intent s) (pos 0) in
    if is_rejected a.decision
    then pos 0
    else on_side a.intent.side (if pair_eq p a.intent.pair then value else pos 0) (pos 0)

unfoldable pub total_by : (Assessment → ℤ) → List Assessment → ℤ
total_by part [] = pos 0
total_by part (a ∷ as') = part a +ℤ total_by part as'

pub All-unit {ℓ} : {A : Type ℓ} (xs : List A) → All (λ _. Unit {0}) xs
All-unit [] = tt
All-unit (x ∷ xs) = (tt, All-unit xs)

-- The rule for the loop of `assess`: what is spent so far grows by a part of each assessment,
-- and each part is nothing or fits into what the limit leaves.
module _ {ℓ} (m : RiskManager) (s : RiskState) (Ok : OrderIntent → Type ℓ) (spent : Running → ℤ)
    (part : Assessment → ℤ) (limit : ℤ)
    (grows : (i : OrderIntent) (r : Running)
      → spent (fold_in (assess_one m i s r) s r) ≡ spent r +ℤ part (assess_one m i s r))
    (fits : (i : OrderIntent) (r : Running)
      → Ok i
      → (part (assess_one m i s r) ≤ℤ pos 0)
        ⊎ (part (assess_one m i s r) ≤ℤ limit -ℤ spent r)) where
  pub capped_from :
      (is : List OrderIntent) (r : Running) (bound : ℤ)
      → All Ok is
      → spent r ≤ℤ bound
      → limit ≤ℤ bound
      → spent r +ℤ total_by part (assess_from m is s r) ≤ℤ bound
  unfolding assess_from total_by
  capped_from [] r bound ok h k = omega int_laws
  capped_from (i ∷ is) r bound (ok, oks) h k =
      let grown = grows i r in
      let room = fits i r ok in
      let rest = capped_from is (fold_in (assess_one m i s r) s r) bound oks (omega int_laws) k in
      omega int_laws

-- What one accepted buy costs: nothing, or no more than its budget.
pub buy_value :
    (i : OrderIntent) (s : RiskState) (r : Running) (c : RiskConfig) (price : ℤ)
    → pos 0 <ℤ price
    → let a = assess_buy c i s r price in
      (a.size *ℤ price ≤ℤ pos 0) ⊎ (a.size *ℤ price ≤ℤ budget_for c i s r price)
unfolding assess_buy
buy_value i s r c price h =
    let budget : ℤ = budget_for c i s r price in
    let size : ℤ = if ltb_ℤ (pos 0) budget then min_ℤ i.size (budget /ℤ price) else pos 0 in
    let Q : Assessment → Type 0 = λ a. (a.size *ℤ price ≤ℤ pos 0) ⊎ (a.size *ℤ price ≤ℤ budget) in
    let sized : (size *ℤ price ≤ℤ pos 0) ⊎ (size *ℤ price ≤ℤ budget) =
      if_ind (λ n. (n *ℤ price ≤ℤ pos 0) ⊎ (n *ℤ price ≤ℤ budget)) (ltb_ℤ (pos 0) budget)
        (λ _.
          let mono =
            *ℤ_mono (min_ℤ i.size (budget /ℤ price)) (budget /ℤ price) price (omega int_laws)
              (omega (int_laws, min_ℤ_parts i.size (budget /ℤ price))) in
          inr (omega (int_laws, /ℤ-*ℤ-le budget price h)))
        (λ _. inl (omega (int_laws, zero_*ℤ price))) in
    if_ind Q (ltb_ℤ (size *ℤ price) c.min_order_quote) (λ _. inl (omega (int_laws, zero_*ℤ price)))
      (λ _. if_ind Q (shrunk size i.size) (λ _. sized) (λ _. sized))

-- A verdict buys nothing, or within the budget at its price.
abbrev pub BuysWithin : OrderIntent → RiskState → Running → RiskConfig → Assessment → Type 0
BuysWithin i s r c a =
    (bought_by s a ≤ℤ pos 0)
    ⊎ (a.intent ≡ i)
      × ((price : ℤ) × (price_for i s ≡ some price) × (bought_by s a ≤ℤ budget_for c i s r price))

bought_value :
    (i : OrderIntent) (s : RiskState) (a : Assessment) (price limit : ℤ)
    → a.intent ≡ i
    → price_for i s ≡ some price
    → (a.size *ℤ price ≤ℤ pos 0) ⊎ (a.size *ℤ price ≤ℤ limit)
    → (bought_by s a ≤ℤ pos 0) ⊎ (bought_by s a ≤ℤ limit)
bought_value i s a price limit same e h =
    let Q : ℤ → Type 0 = λ x. (x ≤ℤ pos 0) ⊎ (x ≤ℤ limit) in
    let at : get_or (price_for a.intent s) (pos 0) ≡ price =
      ap (λ (j : OrderIntent). get_or (price_for j s) (pos 0)) same
      ∙ ap (λ o. get_or o (pos 0)) e in
    if_ind Q (is_rejected a.decision) (λ _. inl (omega arith))
      (λ _.
        on_side_ind Q a.intent.side (λ _. subst (λ p. Q (a.size *ℤ p)) (sym at) h)
          (λ _. inl (omega arith)))

-- A sale or a rejection buys nothing.
sale_buys_nothing : (s : RiskState) (a : Assessment) → a.intent.side ≡ sell → bought_by s a ≤ℤ pos 0
sale_buys_nothing s a is_sell =
    let Q : ℤ → Type 0 = λ x. x ≤ℤ pos 0 in
    if_ind Q (is_rejected a.decision) (λ _. omega arith)
      (λ _. on_side_ind Q a.intent.side (λ is_buy. absurd (cc)) (λ _. omega arith))

pub assess_one-BuysWithin :
    (i : OrderIntent) (s : RiskState) (r : Running) (m : RiskManager)
    → BuysWithin i s r m.config (assess_one m i s r)
unfolding reject
assess_one-BuysWithin i s r m =
    assess_one_ind (BuysWithin i s r m.config) m i s r (λ reason. inl (omega arith))
      (λ price e h _ _.
        let same = assess_buy-intent m.config i s r price in
        elim (bought_value i s (assess_buy m.config i s r price) price
          (budget_for m.config i s r price) same e (buy_value i s r m.config price h)) [
            | inl nothing ↦ inl nothing
            | inr within ↦ inr (same, (price, e, within))
          ])
      (λ price e h is_sell. inl (
        sale_buys_nothing s (assess_sell m.config i s r price)
          (ap (λ (j : OrderIntent). j.side) (assess_sell-intent m.config i s r price) ∙ is_sell)))

-- The branches of the loop's fold, for a measure that a sale leaves alone.
pub fold_branches :
    (g : Running → ℤ) (refused : Bool) (side : Side) (r bought sold : Running) (x : ℤ)
    → g bought ≡ g r +ℤ x
    → g sold ≡ g r
    → g (if refused then r else on_side side bought sold)
      ≡ g r +ℤ (if refused then pos 0 else on_side side x (pos 0))
fold_branches g true side r bought sold x e f = sym (+ℤ_zero (g r))
fold_branches g false buy r bought sold x e f = e
fold_branches g false sell r bought sold x e f = f ∙ sym (+ℤ_zero (g r))

sum_values-insert :
    (k : Pair) (y : ℤ) (d : Dict Pair ℤ)
    → sum_values (insert k y d) +ℤ total k d ≡ sum_values d +ℤ y
sum_values-insert k y [] = omega int_laws
sum_values-insert k y ((j, v) ∷ d) =
    let rest = sum_values-insert k y d in
    elim (Bool-cases (pair_eq k j)) [
      | inl same ↦ rw same (omega int_laws)
      | inr other ↦ rw other (omega (int_laws, rest))
    ]

pub sum_values-bump :
    (k : Pair) (x : ℤ) (d : Dict Pair ℤ)
    → sum_values (insert k (total k d +ℤ x) d) ≡ sum_values d +ℤ x
sum_values-bump k x d = omega (int_laws, sum_values-insert k (total k d +ℤ x) d)

abbrev pub cash_spent : RiskState → Running → ℤ
cash_spent s r = s.cash -ℤ r.cash_left

abbrev pub exposure : Running → ℤ
exposure r = sum_values r.exposure_added

module _ (a : Assessment) (s : RiskState) (r : Running) where
  pub fold_in-cash : cash_spent s (fold_in a s r) ≡ cash_spent s r +ℤ bought_by s a
  unfolding fold_in
  fold_in-cash =
      fold_branches (cash_spent s) (is_rejected a.decision) a.intent.side r _ _ _ (omega int_laws)
        refl

  pub fold_in-exposure : exposure (fold_in a s r) ≡ exposure r +ℤ bought_by s a
  unfolding fold_in
  fold_in-exposure =
      fold_branches exposure (is_rejected a.decision) a.intent.side r _ _ _
        (sum_values-bump a.intent.pair _ r.exposure_added) refl
