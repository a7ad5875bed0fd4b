-- ===== src/Risk/Cases.antt =====
-- The ways in which `_assess_one` of kaupo/risk/manager.py comes to its verdict.
use kaupo.Base.{ltb, ◌≡◌, refl, arith, false, some, on_some_ind, if_ind}
use kaupo.Base.Int.{ℤ, pos, ◌<ℤ◌, leb_ℤ, leb_ℤ-false}
use kaupo.Domain.{buy, sell, on_side_ind, OrderIntent}
use kaupo.Risk.State.{RiskConfig, RiskManager, RiskState, RejectReason}
use kaupo.Risk.Spot.{
  Assessment, Running, reject, price_for, assess_buy, assess_sell, assess_priced, assess_one,
}

-- A rejection, a buy outside a cooldown, or a sale, the last two at a positive price.
pub assess_one_ind {ℓ} :
    (Q : Assessment → Type ℓ) (m : RiskManager) (i : OrderIntent) (s : RiskState) (r : Running)
    → ((reason : RejectReason) → Q (reject i reason))
    → ((price : ℤ)
        → price_for i s ≡ some price
        → pos 0 <ℤ price
        → i.side ≡ buy
        → ltb 0 m.cooldown_remaining ≡ false
        → Q (assess_buy m.config i s r price))
    → ((price : ℤ)
        → price_for i s ≡ some price
        → pos 0 <ℤ price
        → i.side ≡ sell
        → Q (assess_sell m.config i s r price))
    → Q (assess_one m i s r)
unfolding assess_one assess_priced
assess_one_ind Q m i s r no_trade on_buy on_sell =
    on_some_ind Q (price_for i s) (λ _. no_trade _)
      λ price e.
        if_ind Q (leb_ℤ price (pos 0)) (λ _. no_trade _)
          λ positive.
            let p : pos 0 <ℤ price = leb_ℤ-false price (pos 0) positive in
            on_side_ind Q i.side
              (λ b.
                if_ind Q (ltb 0 m.cooldown_remaining) (λ _. no_trade _)
                  (λ warm. on_buy price e p b warm))
              (λ s'. on_sell price e p s')

-- An assessment is of the intent that it was asked about.
pub reject-intent : (i : OrderIntent) (reason : RejectReason) → (reject i reason).intent ≡ i
unfolding reject
reject-intent i reason = refl

pub assess_buy-intent :
    (c : RiskConfig) (i : OrderIntent) (s : RiskState) (r : Running) (price : ℤ)
    → (assess_buy c i s r price).intent ≡ i
unfolding assess_buy
assess_buy-intent c i s r price = ground arith

pub assess_sell-intent :
    (c : RiskConfig) (i : OrderIntent) (s : RiskState) (r : Running) (price : ℤ)
    → (assess_sell c i s r price).intent ≡ i
unfolding assess_sell
assess_sell-intent c i s r price = ground arith
