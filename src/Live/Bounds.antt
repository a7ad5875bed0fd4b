-- ===== src/Live/Bounds.antt =====
-- What is sent to the exchange is within its rules and the notional cap (kaupo/venues/kraken_live.py).
use kaupo.Base.{
  ◌≡◌, refl, sym, ap, ◌∙◌, false, not, ◌&&◌, some, if_ind, Bool-cases, inl, inr, arith, ◌⊎◌,
}
use kaupo.Base.Int.{
  ℤ, pos, ◌+ℤ◌, ◌*ℤ◌, ◌/ℤ◌, ◌≤ℤ◌, ◌<ℤ◌, leb_ℤ, ltb_ℤ, eqb_ℤ, int_laws, /ℤ-*ℤ-le, *ℤ_mono,
  ltb_ℤ-true, ltb_ℤ-false, leb_ℤ-false, leb_ℤ-true, eqb_ℤ-true, *ℤ_comm, *ℤ-distrib_right, *ℤ_parts,
}
use kaupo.Live.State.{LiveOrder, MarketMeta, KrakenVenue}
use kaupo.Live.Size.{
  floor_to_step, Sized, send, skip, capped, checked_size, reference_price, size_for_exchange,
}

abbrev pub OnSend : (ℤ → Type 0) → Sized → Type 0
OnSend P (send sized) = P sized
OnSend P (skip _) = Unit {0}

-- A size that may be sent at a price.
pub record IsSendable (meta : MarketMeta) (o : LiveOrder) (max_notional price sized : ℤ)
    : Type 0 where
  pub positive : pos 0 <ℤ sized
  pub not_more : sized ≤ℤ o.size
  pub within_cap : sized *ℤ price ≤ℤ max_notional
  pub large_enough : (meta.min_amount ≡ pos 0) ⊎ (meta.min_amount ≤ℤ sized)
  pub dear_enough : (meta.min_cost ≡ pos 0) ⊎ (meta.min_cost ≤ℤ sized *ℤ price)
  pub in_lots : pos 0 <ℤ meta.amount_step → (n : ℤ) × (sized ≡ n *ℤ meta.amount_step)

floor_to_step-le : (size step : ℤ) → floor_to_step size step ≤ℤ size
unfolding floor_to_step
floor_to_step-le size step =
    if_ind (λ z. z ≤ℤ size) (leb_ℤ step (pos 0)) (λ _. omega arith)
      (λ some_step. /ℤ-*ℤ-le size step (leb_ℤ-false step (pos 0) some_step))

floor_to_step-lots :
    (size step : ℤ) → pos 0 <ℤ step → (n : ℤ) × (floor_to_step size step ≡ n *ℤ step)
unfolding floor_to_step
floor_to_step-lots size step some_step = elim (Bool-cases (leb_ℤ step (pos 0))) [
  | inl none_step ↦ let le = leb_ℤ-true step (pos 0) none_step in absurd (omega arith)
  | inr other ↦ (size /ℤ step, rw (other) refl)
]

quotient-le :
    (size price max_notional : ℤ)
    → pos 0 <ℤ price
    → max_notional <ℤ size *ℤ price
    → max_notional /ℤ price ≤ℤ size
quotient-le size price max_notional some_price over =
    elim (Bool-cases (leb_ℤ (max_notional /ℤ price) size)) [
      | inl le ↦ leb_ℤ-true (max_notional /ℤ price) size le
      | inr more ↦
          let q : ℤ = max_notional /ℤ price in
          let larger : size +ℤ pos 1 ≤ℤ q = let lt = leb_ℤ-false q size more in omega int_laws in
          let grown = *ℤ_mono (size +ℤ pos 1) q price (omega arith) larger in
          let split = *ℤ-distrib_right size (pos 1) price in
          let one = *ℤ_comm (pos 1) price in
          let under = /ℤ-*ℤ-le max_notional price some_price in
          absurd (omega (int_laws, *ℤ_parts (pos 1) price))
    ]

capped-le : (size price max_notional : ℤ) → pos 0 <ℤ price → capped size price max_notional ≤ℤ size
unfolding capped
capped-le size price max_notional some_price =
    if_ind (λ z. z ≤ℤ size) (ltb_ℤ max_notional (size *ℤ price))
      (λ over.
        quotient-le size price max_notional some_price
          (ltb_ℤ-true max_notional (size *ℤ price) over))
      (λ _. omega arith)

capped-within :
    (size price max_notional : ℤ)
    → pos 0 <ℤ price
    → capped size price max_notional *ℤ price ≤ℤ max_notional
unfolding capped
capped-within size price max_notional some_price =
    if_ind (λ z. z *ℤ price ≤ℤ max_notional) (ltb_ℤ max_notional (size *ℤ price))
      (λ _. /ℤ-*ℤ-le max_notional price some_price)
      (λ fits. ltb_ℤ-false max_notional (size *ℤ price) fits)

at_least :
    (least n : ℤ)
    → (not (eqb_ℤ least (pos 0)) && ltb_ℤ n least) ≡ false
    → (least ≡ pos 0) ⊎ (least ≤ℤ n)
at_least least n h = elim (Bool-cases (eqb_ℤ least (pos 0))) [
  | inl none_asked ↦ inl (eqb_ℤ-true least (pos 0) none_asked)
  | inr asked ↦ inr (ltb_ℤ-false n least (ap (λ b. not b && ltb_ℤ n least) (sym asked) ∙ h))
]

checked_size-IsSendable :
    (meta : MarketMeta) (o : LiveOrder) (max_notional price : ℤ)
    → pos 0 <ℤ price
    → OnSend
        (IsSendable meta o max_notional price)
        (checked_size meta (capped o.size price max_notional) price)
unfolding checked_size
checked_size-IsSendable meta o max_notional price some_price =
    let size : ℤ = capped o.size price max_notional in
    let sized : ℤ = floor_to_step size meta.amount_step in
    let P : Sized → Type 0 = OnSend (IsSendable meta o max_notional price) in
    let le = floor_to_step-le size meta.amount_step in
    if_ind P (leb_ℤ sized (pos 0)) (λ _. tt)
      λ some_size.
        if_ind P (not (eqb_ℤ meta.min_amount (pos 0)) && ltb_ℤ sized meta.min_amount) (λ _. tt)
          λ amount.
            if_ind P (not (eqb_ℤ meta.min_cost (pos 0)) && ltb_ℤ (sized *ℤ price) meta.min_cost)
              (λ _. tt)
              λ cost. record {
                positive = leb_ℤ-false sized (pos 0) some_size;
                not_more =
                    let under = capped-le o.size price max_notional some_price in omega arith;
                within_cap =
                    let under = capped-within o.size price max_notional some_price in
                    let grown = *ℤ_mono sized size price (omega arith) le in omega arith;
                large_enough = at_least meta.min_amount sized amount;
                dear_enough = at_least meta.min_cost (sized *ℤ price) cost;
                in_lots = λ some_step. floor_to_step-lots size meta.amount_step some_step;
              }

-- Every size that is sent to the exchange is positive, at most that of the order, a whole number of lots, within the
-- exchange's minimums, and at the reference price within the notional cap.
pub size_for_exchange-IsSendable :
    (meta : MarketMeta) (o : LiveOrder) (v : KrakenVenue) (price : ℤ)
    → reference_price o v ≡ some price
    → OnSend (IsSendable meta o v.max_notional price) (size_for_exchange (some meta) o v)
unfolding size_for_exchange
size_for_exchange-IsSendable meta o v price known =
    let P : Sized → Type 0 = OnSend (IsSendable meta o v.max_notional price) in
    rw (known) (
      if_ind P (leb_ℤ price (pos 0)) (λ _. tt)
        (λ some_price.
          checked_size-IsSendable meta o v.max_notional price
            (leb_ℤ-false price (pos 0) some_price)))
