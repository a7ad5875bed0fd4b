-- ===== src/Risk/Cooldown.antt =====
-- The cooldown of a spot run: no new risk, and exits as ever.
use kaupo.Base.{
  ◌≡◌, ◌<◌, refl, ap, ◌∙◌, true, List, [], ◌∷◌, arith, All, on_some, fun_ext, if◌then◌else◌,
}
use kaupo.Base.Int.{leb_ℤ, pos}
use kaupo.Domain.{Side, buy, sell, OrderIntent, on_side}
use kaupo.Risk.State.{RiskManager, RiskState, no_price}
use kaupo.Risk.Cases.{assess_one_ind, assess_sell-intent}
use kaupo.Risk.Spot.{
  Assessment, Running, is_rejected, reject, price_for, assess_priced, assess_one, fold_in,
  assess_from, assess_spot, start,
}

-- A buy is refused.
abbrev pub RefusesBuys : Assessment → Type 0
RefusesBuys a = a.intent.side ≡ buy → is_rejected a.decision ≡ true

refuses_buy :
    (m : RiskManager) (i : OrderIntent) (s : RiskState) (r : Running)
    → 0 < m.cooldown_remaining
    → RefusesBuys (assess_one m i s r)
unfolding reject
refuses_buy m i s r cooling =
    assess_one_ind RefusesBuys m i s r (λ _ _. refl) (λ _ _ _ _ warm. absurd (ground arith))
      (λ price _ _ is_sell is_buy.
        let same = assess_sell-intent m.config i s r price in
        absurd (cc (is_sell, is_buy, ap (λ (j : OrderIntent). j.side) same)))

refuses_buys :
    (m : RiskManager) (is : List OrderIntent) (s : RiskState) (r : Running)
    → 0 < m.cooldown_remaining
    → All RefusesBuys (assess_from m is s r)
unfolding assess_from
refuses_buys m [] s r cooling = tt
refuses_buys m (i ∷ is) s r cooling =
    (refuses_buy m i s r cooling, refuses_buys m is s (fold_in (assess_one m i s r) s r) cooling)

abbrev pub warmed : RiskManager → RiskManager
warmed m = record m { cooldown_remaining = 0 }

at_sell {ℓ} :
    {A : Type ℓ} {side : Side} (x x' y : A) → side ≡ sell → on_side side x y ≡ on_side side x' y
at_sell x x' y e = rw e

exit_as_ever :
    (m : RiskManager) (i : OrderIntent) (s : RiskState) (r : Running)
    → i.side ≡ sell
    → assess_one m i s r ≡ assess_one (warmed m) i s r
unfolding assess_one assess_priced
exit_as_ever m i s r is_sell =
    ap (λ f. on_some (price_for i s) (reject i no_price) f)
      (fun_ext λ price.
        ap (λ a. if leb_ℤ price (pos 0) then reject i no_price else a) (at_sell _ _ _ is_sell))

exits_as_ever :
    (m : RiskManager) (is : List OrderIntent) (s : RiskState) (r : Running)
    → All (λ (i : OrderIntent). i.side ≡ sell) is
    → assess_from m is s r ≡ assess_from (warmed m) is s r
unfolding assess_from
exits_as_ever m [] s r sells = refl
exits_as_ever m (i ∷ is) s r (is_sell, sells) =
    let same = exit_as_ever m i s r is_sell in
    let next : Assessment → Running = λ a. fold_in a s r in
    ap (λ a. a ∷ assess_from m is s (next a)) same
    ∙ ap (λ l. assess_one (warmed m) i s r ∷ l)
        (exits_as_ever m is s (next (assess_one (warmed m) i s r)) sells)

-- While the cooldown runs, every buy of a batch is refused, and a batch of exits is assessed
-- exactly as without a cooldown.
pub cooldown_gates_buys :
    (m : RiskManager) (is : List OrderIntent) (s : RiskState)
    → 0 < m.cooldown_remaining
    → All
        (λ (a : Assessment). a.intent.side ≡ buy → is_rejected a.decision ≡ true)
        (assess_spot m is s)
      × (All (λ (i : OrderIntent). i.side ≡ sell) is
          → assess_spot m is s ≡ assess_spot (warmed m) is s)
unfolding assess_spot
cooldown_gates_buys m is s cooling =
    (refuses_buys m is s (start s) cooling, exits_as_ever m is s (start s))
