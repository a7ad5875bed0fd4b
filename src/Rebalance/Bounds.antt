-- ===== src/Rebalance/Bounds.antt =====
-- A plan spends no more than the free cash and sells no more than is held.
use kaupo.Base.{
  ◌≡◌, ◌&&◌, none, some, List, [], ◌∷◌, ◌++◌, All, All-append, get_or, arith, if_ind, on_some_ind,
  Bool-cases, inl, inr, any, is_some,
}
use kaupo.Base.Int.{
  ℤ, pos, ◌+ℤ◌, ◌-ℤ◌, ◌*ℤ◌, ◌/ℤ◌, ◌≤ℤ◌, ◌<ℤ◌, neg, min_ℤ, min_ℤ_parts, leb_ℤ, ltb_ℤ, eqb_ℤ,
  leb_ℤ-true, leb_ℤ-false, ltb_ℤ-false, /ℤ-*ℤ-le, int_laws,
}
use kaupo.Base.Dict.{Dict}
use kaupo.Domain.{Pair, Position, OrderIntent, total, eq_pair, post_init}
use kaupo.Rebalance.Plan.{
  Context, Candidate, Draft, RebalancePlan, last_price, buffered, draft_trade, draft_priced,
  draft_pair, draft_pairs, take_buys, make_plan, draft, position_in, add_keys, check_arguments,
  plan_rebalance, Planned, plan, failed,
}

module _ (ctx : Context) where
  -- What the intents cost at the prices that the plan reads.
  pub cost_of : List OrderIntent → ℤ
  cost_of [] = pos 0
  cost_of (i ∷ is) = i.size *ℤ get_or (last_price ctx i.pair) (pos 0) +ℤ cost_of is

  -- A sell is covered by the position.
  abbrev pub IsHeld : OrderIntent → Type 0
  IsHeld i = i.size ≤ℤ (position_in ctx i.pair).size

  abbrev IsPriced : Candidate → Type 0
  IsPriced (pair, _, price) = (last_price ctx pair ≡ some price) × (pos 0 <ℤ price)

  record IsSound (d : Draft) : Type 0 where
    held : All IsHeld d.sells
    priced : All IsPriced d.candidates

  draft_trade-IsSound :
      (pair : Pair) (price target_value min_trade delta : ℤ) (d : Draft)
      → last_price ctx pair ≡ some price
      → pos 0 <ℤ price
      → IsSound d
      → IsSound (draft_trade pair (position_in ctx pair) price target_value min_trade delta d)
  unfolding draft_trade
  draft_trade-IsSound pair price target_value min_trade delta d e h ok =
      let p : Position = position_in ctx pair in
      if_ind IsSound (eqb_ℤ target_value (pos 0) && ltb_ℤ (pos 0) p.size)
        (λ _. record {
          held = All-append IsHeld d.sells _ ok.held (omega int_laws, tt);
          priced = ok.priced;
        })
        (λ _.
          if_ind IsSound (ltb_ℤ delta (pos 0) && leb_ℤ min_trade (neg delta))
            (λ _. record {
              held =
                  All-append IsHeld d.sells _ ok.held
                    (omega (int_laws, min_ℤ_parts p.size (neg delta /ℤ price)), tt);
              priced = ok.priced;
            })
            (λ _.
              if_ind IsSound (leb_ℤ min_trade delta)
                (λ _. record {
                  held = ok.held;
                  priced = All-append IsPriced d.candidates _ ok.priced ((e, h), tt);
                })
                (λ _. ok)))

  module _ (targets : Dict Pair ℤ) (min_trade buffer : ℤ) where
    draft_pair-IsSound :
        (pair : Pair) (d : Draft)
        → IsSound d
        → IsSound (draft_pair targets ctx min_trade buffer pair d)
    unfolding draft_pair draft_priced
    draft_pair-IsSound pair d ok =
        on_some_ind IsSound (last_price ctx pair) (λ _. ok)
          λ price e.
            if_ind IsSound (leb_ℤ price (pos 0)) (λ _. ok)
              λ positive.
                let target_value : ℤ = total pair targets *ℤ ctx.equity /ℤ pos 10_000 in
                let buffer_value : ℤ = buffer *ℤ ctx.equity /ℤ pos 10_000 in
                let delta_now : ℤ = target_value -ℤ (position_in ctx pair).size *ℤ price in
                on_some_ind IsSound (buffered target_value buffer buffer_value delta_now) (λ _. ok)
                  (λ delta _.
                    draft_trade-IsSound pair price target_value min_trade delta d e
                      (leb_ℤ-false price (pos 0) positive) ok)

    draft_pairs-IsSound :
        (ps : List Pair) (d : Draft)
        → IsSound d
        → IsSound (draft_pairs targets ctx min_trade buffer ps d)
    unfolding draft_pairs
    draft_pairs-IsSound [] d ok = ok
    draft_pairs-IsSound (p ∷ ps) d ok =
        draft_pairs-IsSound ps (draft_pair targets ctx min_trade buffer p d)
          (draft_pair-IsSound p d ok)

    draft-IsSound : IsSound (draft targets ctx min_trade buffer)
    unfolding draft
    draft-IsSound =
        draft_pairs-IsSound (add_keys ctx.positions (add_keys targets []))
          (record { sells = []; candidates = [] }) (record { held = tt; priced = tt })

  take_buys-cost :
      (min_trade cash : ℤ) (cs : List Candidate)
      → pos 0 ≤ℤ min_trade
      → pos 0 ≤ℤ cash
      → All IsPriced cs
      → cost_of (take_buys min_trade cash cs) ≤ℤ cash
  unfolding take_buys cost_of
  take_buys-cost min_trade cash [] m h _ = h
  take_buys-cost min_trade cash ((pair, wanted, price) ∷ cs) m h ((e, positive), priced) =
      let value : ℤ = min_ℤ wanted cash in
      let parts = min_ℤ_parts wanted cash in
      elim (Bool-cases (leb_ℤ min_trade value)) [
        | inl enough ↦
            let large = leb_ℤ-true min_trade value enough in
            let rest = take_buys-cost min_trade (cash -ℤ value) cs m (omega int_laws) priced in
            let paid = /ℤ-*ℤ-le value price positive in rw (enough, e) (omega int_laws)
        | inr small ↦ rw small (take_buys-cost min_trade cash cs m h priced)
      ]

abbrev pub IsAffordable : Context → RebalancePlan → Type 0
IsAffordable ctx p = (cost_of ctx p.buys ≤ℤ ctx.cash) × All (IsHeld ctx) p.sells

make_plan-IsAffordable :
    (targets : Dict Pair ℤ) (ctx : Context) (min_trade buffer : ℤ)
    → pos 0 ≤ℤ min_trade
    → pos 0 ≤ℤ ctx.cash
    → IsAffordable ctx (make_plan targets ctx min_trade buffer)
unfolding make_plan
make_plan-IsAffordable targets ctx min_trade buffer m h =
    let sound = draft-IsSound ctx targets min_trade buffer in
    (
      take_buys-cost ctx min_trade ctx.cash (draft targets ctx min_trade buffer).candidates m h
          sound.priced,
      sound.held,
    )

check_arguments-minimum :
    (targets : Dict Pair ℤ) (min_trade buffer : ℤ)
    → check_arguments targets min_trade buffer ≡ none
    → pos 0 ≤ℤ min_trade
unfolding check_arguments
check_arguments-minimum targets min_trade buffer ok = elim (Bool-cases (ltb_ℤ min_trade (pos 0))) [
  | inr fine ↦ ltb_ℤ-false min_trade (pos 0) fine
  | inl low ↦ absurd (ground arith)
]

abbrev pub IfPlanned : (RebalancePlan → Type 0) → Planned → Type 0
IfPlanned P (plan p) = P p
IfPlanned P (failed _) = Unit

-- Buys never spend the proceeds of sells: at the prices that the plan reads, its buys together cost
-- no more than the free cash, if that is not negative, and each of its sells is covered by the
-- position of its pair.
pub plan_rebalance-IsAffordable :
    (targets : Dict Pair ℤ) (ctx : Context) (min_trade buffer : ℤ)
    → pos 0 ≤ℤ ctx.cash
    → IfPlanned (IsAffordable ctx) (plan_rebalance targets ctx min_trade buffer)
unfolding plan_rebalance cost_of
plan_rebalance-IsAffordable targets ctx min_trade buffer h =
    let Q : Planned → Type 0 = IfPlanned (IsAffordable ctx) in
    let made : RebalancePlan = make_plan targets ctx min_trade buffer in
    on_some_ind Q (check_arguments targets min_trade buffer)
      (λ ok.
        if_ind Q (leb_ℤ ctx.equity (pos 0)) (λ _. (h, tt))
          λ _.
            if_ind Q (any (λ i. is_some (post_init i)) (made.sells ++ made.buys)) (λ _. tt)
              (λ _.
                make_plan-IsAffordable targets ctx min_trade buffer
                  (check_arguments-minimum targets min_trade buffer ok) h))
      (λ _ _. tt)
