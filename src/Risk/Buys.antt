-- ===== src/Risk/Buys.antt =====
-- A spot batch never buys beyond the caps: the cash, the gross exposure, the pair's position.
use kaupo.Base.{
  ◌≡◌, refl, sym, ap, ◌∙◌, subst₂, ◌⊎◌, inl, inr, some, List, arith, All, Bool-cases, if_ind,
  get_or,
}
use kaupo.Base.Int.{
  ℤ, pos, ◌+ℤ◌, ◌-ℤ◌, ◌*ℤ◌, ◌/ℤ◌, ◌≤ℤ◌, min_ℤ, min_ℤ_parts, ltb_ℤ, ltb_ℤ-true, ltb_ℤ-false,
  int_laws, *ℤ_nonneg, *ℤ_parts, *ℤ-distrib_left, /ℤ-*ℤ-le,
}
use kaupo.Base.Dict.{lookup}
use kaupo.Domain.{
  Pair, on_side_ind, OrderIntent, eq_pair, flat, total, total-bump, pair_eq, pair_eq_iff,
  market_value,
}
use kaupo.Risk.State.{RiskManager, RiskState, RiskConfig, cost_bps}
use kaupo.Risk.Spot.{
  Assessment, Running, is_rejected, price_for, gross_value, headroom_pair, headroom_gross,
  affordable, budget_for, assess_one, fold_in, assess_spot, start,
}
use kaupo.Risk.Spending.{
  bought_by, bought_of, total_by, All-unit, capped_from, assess_one-BuysWithin, fold_branches,
  cash_spent, exposure, fold_in-cash, fold_in-exposure,
}

-- Each cap bounds the budget.
module _ (c : RiskConfig) (i : OrderIntent) (s : RiskState) (r : Running) (price : ℤ) where
  budget-le-gross : budget_for c i s r price ≤ℤ headroom_gross c s r
  unfolding budget_for
  budget-le-gross =
      let gross : ℤ = headroom_gross c s r in
      let pair : ℤ = headroom_pair c i s r price in
      omega (
        int_laws,
        min_ℤ_parts (min_ℤ pair gross) (affordable c r.cash_left),
        min_ℤ_parts pair gross,
      )

  budget-le-pair : budget_for c i s r price ≤ℤ headroom_pair c i s r price
  unfolding budget_for
  budget-le-pair =
      let gross : ℤ = headroom_gross c s r in
      let pair : ℤ = headroom_pair c i s r price in
      omega (
        int_laws,
        min_ℤ_parts (min_ℤ pair gross) (affordable c r.cash_left),
        min_ℤ_parts pair gross,
      )

  budget-le-affordable : budget_for c i s r price ≤ℤ affordable c r.cash_left
  unfolding budget_for
  budget-le-affordable = omega (
    int_laws,
    min_ℤ_parts (min_ℤ (headroom_pair c i s r price) (headroom_gross c s r))
        (affordable c r.cash_left),
  )

-- The worst-case costs only take from the cash.
affordable_cases :
    (c : RiskConfig) (cash : ℤ)
    → pos 0 ≤ℤ cost_bps c
    → (affordable c cash ≤ℤ cash) ⊎ (affordable c cash ≤ℤ pos 0)
unfolding affordable
affordable_cases c cash h =
    let rate : ℤ = pos 10_000 +ℤ cost_bps c in
    let q : ℤ = cash *ℤ pos 10_000 /ℤ rate in
    elim (Bool-cases (ltb_ℤ (pos 0) q)) [
      | inl positive ↦
          let q_pos = ltb_ℤ-true (pos 0) q positive in
          inl (
            omega (
              int_laws,
              /ℤ-*ℤ-le (cash *ℤ pos 10_000) rate (omega int_laws),
              *ℤ-distrib_left q (pos 10_000) (cost_bps c),
              *ℤ_nonneg q (cost_bps c) (omega int_laws) h,
              *ℤ_parts q (pos 10_000),
              *ℤ_parts cash (pos 10_000),
            ))
      | inr other ↦ inr (omega (int_laws, ltb_ℤ-false (pos 0) q other))
    ]

module _ (m : RiskManager) (is : List OrderIntent) (s : RiskState) where
  -- The buys that a batch lets through are worth no more than the cash, taken together, if no
  -- cost is negative.
  pub bought-le-cash :
      pos 0 ≤ℤ cost_bps m.config
      → pos 0 ≤ℤ s.cash
      → total_by (bought_by s) (assess_spot m is s) ≤ℤ s.cash
  unfolding assess_spot
  bought-le-cash costs solvent =
      let all =
        capped_from m s (λ _. Unit {0}) (cash_spent s) (bought_by s) s.cash
          (λ i r. fold_in-cash (assess_one m i s r) s r)
          (λ i r _. elim (assess_one-BuysWithin i s r m) [
            | inl nothing ↦ inl nothing
            | inr (_, (price, _, within)) ↦
                let b = budget-le-affordable m.config i s r price in
                elim (affordable_cases m.config r.cash_left costs) [
                  | inl le_cash ↦ inr (omega int_laws)
                  | inr le_zero ↦ inl (omega int_laws)
                ]
          ])
          is (start s) s.cash (All-unit is) (omega int_laws) (omega arith) in
      omega int_laws

  -- The gross exposure cap holds for the whole batch: starting within the cap, the positions and
  -- all buys of the batch together stay within it.
  pub bought-le-gross :
      gross_value s s.positions ≤ℤ m.config.max_gross_exposure_quote
      → gross_value s s.positions +ℤ total_by (bought_by s) (assess_spot m is s)
        ≤ℤ m.config.max_gross_exposure_quote
  unfolding assess_spot headroom_gross
  bought-le-gross within_cap =
      let room : ℤ = m.config.max_gross_exposure_quote -ℤ gross_value s s.positions in
      let all =
        capped_from m s (λ _. Unit {0}) exposure (bought_by s) room
          (λ i r. fold_in-exposure (assess_one m i s r) s r)
          (λ i r _. elim (assess_one-BuysWithin i s r m) [
            | inl nothing ↦ inl nothing
            | inr (_, (price, _, within)) ↦
                let b = budget-le-gross m.config i s r price in inr (omega int_laws)
          ])
          is (start s) room (All-unit is) (omega int_laws) (omega arith) in
      omega int_laws

bought_of_cases :
    (p : Pair) (s : RiskState) (a : Assessment)
    → (bought_of p s a ≡ pos 0) ⊎ (p ≡ a.intent.pair) × (bought_of p s a ≡ bought_by s a)
bought_of_cases p s a = elim (Bool-cases (pair_eq p a.intent.pair)) [
  | inl same ↦ inr ((pair_eq_iff p a.intent.pair).0 same, rw same refl)
  | inr other ↦ inl (
      rw other (
        if_ind (λ x. x ≡ pos 0) (is_rejected a.decision) (λ _. refl)
          (λ _. on_side_ind (λ x. x ≡ pos 0) a.intent.side (λ _. refl) (λ _. refl))))
]

fold_in-exposure_of :
    (p : Pair) (a : Assessment) (s : RiskState) (r : Running)
    → total p (fold_in a s r).exposure_added ≡ total p r.exposure_added +ℤ bought_of p s a
unfolding fold_in
fold_in-exposure_of p a s r =
    fold_branches (λ k. total p k.exposure_added) (is_rejected a.decision) a.intent.side r _ _ _
      (total-bump p a.intent.pair _ r.exposure_added) refl

-- The cap on one pair holds for the whole batch, where its buys are assessed at one price, as
-- market orders are: starting within the cap at that price, the position and all buys of the
-- pair together stay within it.
pub bought_of-le-position :
    (m : RiskManager) (is : List OrderIntent) (s : RiskState) (p : Pair) (price : ℤ)
    → All (λ (i : OrderIntent). i.pair ≡ p → price_for i s ≡ some price) is
    → market_value (get_or (lookup p s.positions) (flat p)) price ≤ℤ m.config.max_position_quote
    → market_value (get_or (lookup p s.positions) (flat p)) price
        +ℤ total_by (bought_of p s) (assess_spot m is s)
      ≤ℤ m.config.max_position_quote
unfolding assess_spot headroom_pair
bought_of-le-position m is s p price one_price within_cap =
    let worth : ℤ = market_value (get_or (lookup p s.positions) (flat p)) price in
    let room : ℤ = m.config.max_position_quote -ℤ worth in
    let left_of : Running → Pair → ℤ → ℤ = λ r q x.
      m.config.max_position_quote
      -ℤ market_value (get_or (lookup q s.positions) (flat q)) x
      -ℤ total q r.exposure_added in
    let all =
      capped_from m s (λ (i : OrderIntent). i.pair ≡ p → price_for i s ≡ some price)
        (λ r. total p r.exposure_added) (bought_of p s) room
        (λ i r. fold_in-exposure_of p (assess_one m i s r) s r)
        (λ i r ok.
          let a : Assessment = assess_one m i s r in
          elim (bought_of_cases p s a) [
            | inl nothing ↦ inl (omega int_laws)
            | inr (same, whole) ↦ elim (assess_one-BuysWithin i s r m) [
              | inl nothing ↦ inl (omega int_laws)
              | inr (of_i, (at, e, within)) ↦
                  let of_p : i.pair ≡ p = sym (same ∙ ap (λ (j : OrderIntent). j.pair) of_i) in
                  let at_price : at ≡ price = cc (e, ok of_p) in
                  let cap = budget-le-pair m.config i s r at in
                  let fits : bought_by s a ≤ℤ left_of r p price =
                    subst₂ (λ q x. bought_by s a ≤ℤ left_of r q x) of_p at_price (omega int_laws) in
                  inr (omega int_laws)
            ]
          ])
        is (start s) room one_price (omega int_laws) (omega arith) in
    omega int_laws
