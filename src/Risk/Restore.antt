-- ===== src/Risk/Restore.antt =====
-- What a manager saves is accepted, and gives back the same guardrails.
use kaupo.Base.{◌≡◌, refl, ap, sym, ◌∙◌, List, ◌∷◌, true, not, ◌||◌, some, [], arith, is_some}
use kaupo.Base.Int.{ℤ}
use kaupo.Risk.State.{RiskManager, RiskConfig, RiskState, fresh, on_candle, notify_trade_result}
use kaupo.Risk.Checkpoint.{RiskCheckpoint, snapshot, has_reason, consistent, checkpoint, restored}

-- A day and a floor are observed together, and a halt states its reason.
pub record IsCoherent (m : RiskManager) : Type 0 where
  pub observed : is_some m.day ≡ is_some m.last_floor
  pub explained : (not m.halted || has_reason m.halt_reason) ≡ true

fresh-IsCoherent : (c : RiskConfig) → IsCoherent (fresh c)
unfolding fresh
fresh-IsCoherent c = ground arith

on_candle-IsCoherent :
    (s : RiskState) (m : RiskManager) → IsCoherent m → IsCoherent (on_candle s m).1
unfolding on_candle
on_candle-IsCoherent s m h = ground arith

notify-IsCoherent :
    (pnl : ℤ) (m : RiskManager) → IsCoherent m → IsCoherent (notify_trade_result pnl m)
unfolding notify_trade_result
notify-IsCoherent pnl m h = ground arith

-- What a run tells its manager.
pub data Observation : Type 0 where
  candle : RiskState → Observation
  trade : ℤ → Observation

unfoldable pub observe : Observation → RiskManager → RiskManager
observe (candle s) m = (on_candle s m).1
observe (trade pnl) m = notify_trade_result pnl m

pub observe_all : List Observation → RiskManager → RiskManager
unfolding observe
observe_all [] m = m
observe_all (o ∷ os) m = observe_all os (observe o m)

observe_all-IsCoherent :
    (os : List Observation) (m : RiskManager) → IsCoherent m → IsCoherent (observe_all os m)
unfolding observe_all
observe_all-IsCoherent [] m h = h
observe_all-IsCoherent (candle s ∷ os) m h =
    observe_all-IsCoherent os (on_candle s m).1 (on_candle-IsCoherent s m h)
observe_all-IsCoherent (trade pnl ∷ os) m h =
    observe_all-IsCoherent os (notify_trade_result pnl m) (notify-IsCoherent pnl m h)

-- The configuration is the run's own, throughout.
on_candle-config : (s : RiskState) (m : RiskManager) → (on_candle s m).1.config ≡ m.config
unfolding on_candle
on_candle-config s m = ground arith

notify-config : (pnl : ℤ) (m : RiskManager) → (notify_trade_result pnl m).config ≡ m.config
unfolding notify_trade_result
notify-config pnl m = ground arith

observe_all-config :
    (os : List Observation) (m : RiskManager) → (observe_all os m).config ≡ m.config
unfolding observe_all
observe_all-config [] m = refl
observe_all-config (candle s ∷ os) m =
    observe_all-config os (on_candle s m).1 ∙ on_candle-config s m
observe_all-config (trade pnl ∷ os) m =
    observe_all-config os (notify_trade_result pnl m) ∙ notify-config pnl m

-- A coherent manager is saved, and restored whole but for the list of rejections.
abbrev pub Restores : RiskConfig → RiskManager → Type 0
Restores config m =
    (c : RiskCheckpoint) × (checkpoint m ≡ some c)
    × (restored config (some c) ≡ some (record m { rejections = [] }))

snapshot-consistent : (m : RiskManager) → IsCoherent m → consistent (snapshot m) ≡ some (snapshot m)
unfolding consistent
snapshot-consistent m h = ground arith

coherent-Restores :
    (config : RiskConfig) (m : RiskManager) → m.config ≡ config → IsCoherent m → Restores config m
unfolding checkpoint restored
coherent-Restores config m same h =
    let accepted = snapshot-consistent m h in
    (
      snapshot m,
      accepted,
      rw (accepted, restored)
          (ap (λ c. some (record m { config = c; rejections = [] })) (sym same)),
    )

-- Whatever a run has observed, its checkpoint passes the validator, and restoring it under the
-- run's configuration gives back the same manager, halt and cooldown included, with an empty
-- list of rejections.
pub restored-checkpoint :
    (config : RiskConfig) (os : List Observation) → Restores config (observe_all os (fresh config))
unfolding fresh
restored-checkpoint config os =
    coherent-Restores config _ (observe_all-config os (fresh config))
      (observe_all-IsCoherent os (fresh config) (fresh-IsCoherent config))
