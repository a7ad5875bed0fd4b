-- ===== src/Risk/Streak.antt =====
-- The loss streak and the cooldown.
use kaupo.Base.{ℕ, ◌+◌, ◌-◌, ◌≤◌, ◌<◌, ◌≡◌, refl, ap, ◌∙◌, length, List, [], ◌∷◌, arith, All}
use kaupo.Base.Int.{ℤ, pos, ◌<ℤ◌}
use kaupo.Risk.State.{RiskManager, RiskState, RiskConfig, on_candle, notify_trade_result}
use kaupo.Risk.Halting.{watch}

-- Losing trades, one after the other.
pub lose : List ℤ → RiskManager → RiskManager
lose [] m = m
lose (pnl ∷ ps) m = lose ps (notify_trade_result pnl m)

abbrev AllLosses : List ℤ → Type 0
AllLosses = All (λ pnl. pnl <ℤ pos 0)

losing_step :
    (pnl : ℤ) (m : RiskManager)
    → pnl <ℤ pos 0
    → m.consecutive_losses + 1 < m.config.max_consecutive_losses
    → let m' = notify_trade_result pnl m in
      (m'.consecutive_losses ≡ m.consecutive_losses + 1)
      × (m'.cooldown_remaining ≡ m.cooldown_remaining)
      × (m'.config ≡ m.config)
unfolding notify_trade_result
losing_step pnl m h k = ground arith

last_loss :
    (pnl : ℤ) (m : RiskManager)
    → pnl <ℤ pos 0
    → m.config.max_consecutive_losses ≤ m.consecutive_losses + 1
    → let m' = notify_trade_result pnl m in
      (m'.consecutive_losses ≡ 0)
      × (m'.cooldown_remaining ≡ m.config.cooldown_candles)
      × (m'.config ≡ m.config)
unfolding notify_trade_result
last_loss pnl m h k = ground arith

module _ (k cooldown : ℕ) where
  abbrev Configured : RiskManager → Type 0
  Configured m = (m.config.max_consecutive_losses ≡ k) × (m.config.cooldown_candles ≡ cooldown)

  Configured-after : (m m' : RiskManager) → m'.config ≡ m.config → Configured m → Configured m'
  Configured-after m m' e (a, b) = (
    ap (λ (c : RiskConfig). c.max_consecutive_losses) e ∙ a,
    ap (λ (c : RiskConfig). c.cooldown_candles) e ∙ b,
  )

  -- The losses that complete a streak start the cooldown and a new streak.
  lose_streak :
      (ps : List ℤ) (m : RiskManager)
      → Configured m
      → AllLosses ps
      → m.consecutive_losses + length ps ≡ k
      → m.consecutive_losses < k
      → ((lose ps m).cooldown_remaining ≡ cooldown) × ((lose ps m).consecutive_losses ≡ 0)
  unfolding lose
  lose_streak [] m c losses total open_streak = absurd (omega arith)
  lose_streak (pnl ∷ []) m (ck, cc') (loss, _) total open_streak =
      let (streak, cool, _) = last_loss pnl m loss (omega arith) in (cool ∙ cc', streak)
  lose_streak (pnl ∷ (q ∷ ps)) m c (loss, losses) total open_streak =
      let (ck, _) = c in
      let m' : RiskManager = notify_trade_result pnl m in
      let (streak, cool, same) = losing_step pnl m loss (omega arith) in
      lose_streak (q ∷ ps) m' (Configured-after m m' same c) losses (omega arith) (omega arith)

on_candle-cooldown :
    (s : RiskState) (m : RiskManager)
    → (on_candle s m).1.cooldown_remaining ≡ m.cooldown_remaining - 1
unfolding on_candle
on_candle-cooldown s m = ground arith

watch-cooldown :
    (ss : List RiskState) (m : RiskManager)
    → (watch ss m).cooldown_remaining ≡ m.cooldown_remaining - length ss
unfolding watch
watch-cooldown [] m = omega arith
watch-cooldown (s ∷ ss) m =
    omega (arith, watch-cooldown ss (on_candle s m).1, on_candle-cooldown s m)

-- After as many losing trades in a row as the configuration allows, the cooldown stands at its
-- full length, each candle takes one off it, and the streak starts again from zero.
pub cooldown_after_losses :
    (ps : List ℤ) (ss : List RiskState) (m : RiskManager)
    → All (λ pnl. pnl <ℤ pos 0) ps
    → m.consecutive_losses ≡ 0
    → length ps ≡ m.config.max_consecutive_losses
    → 1 ≤ length ps
    → ((watch ss (lose ps m)).cooldown_remaining ≡ m.config.cooldown_candles - length ss)
      × ((lose ps m).consecutive_losses ≡ 0)
cooldown_after_losses ps ss m losses none_yet total some_loss =
    let (cool, streak) =
      lose_streak m.config.max_consecutive_losses m.config.cooldown_candles ps m (refl, refl) losses
        (omega arith) (omega arith) in
    (omega (arith, watch-cooldown ss (lose ps m)), streak)
