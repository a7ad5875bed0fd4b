-- ===== src/Risk/Checkpoint.antt =====
-- `RiskCheckpoint`, `RiskManager.checkpoint` and `RiskManager.restored` (kaupo/risk/manager.py).
-- Days stand for their ISO dates; the types give what the schema says of the counters.
use kaupo.Base.{ℕ, Bool, true, false, not, ◌&&◌, ◌||◌, Option, none, some, is_some, if◌then◌else◌}
use kaupo.Base.Int.{ℤ}
use kaupo.Risk.State.{RiskConfig, RiskManager, HaltReason, no_reason, fresh}

pub record RiskCheckpoint : Type 0 where
  pub day : Option ℕ
  pub day_start_floor : ℤ
  pub last_floor : Option ℤ
  pub consecutive_losses : ℕ
  pub cooldown_remaining : ℕ
  pub halted : Bool
  pub halt_reason : HaltReason

abbrev same_truth : Bool → Bool → Bool
same_truth true b = b
same_truth false b = not b

abbrev pub has_reason : HaltReason → Bool
has_reason no_reason = false
has_reason _ = true

-- The validator `consistent`: `none` is its ValueError.
unfoldable pub consistent : RiskCheckpoint → Option RiskCheckpoint
consistent c =
    if same_truth (is_some c.day) (is_some c.last_floor)
      && (not c.halted || has_reason c.halt_reason)
    then some c
    else none

abbrev pub snapshot : RiskManager → RiskCheckpoint
snapshot m = record {
  day = m.day;
  day_start_floor = m.day_start_floor;
  last_floor = m.last_floor;
  consecutive_losses = m.consecutive_losses;
  cooldown_remaining = m.cooldown_remaining;
  halted = m.halted;
  halt_reason = m.halt_reason;
}

-- The model is validated as it is built, so that `checkpoint` itself may raise.
unfoldable pub checkpoint : RiskManager → Option RiskCheckpoint
unfolding consistent
checkpoint m = consistent (snapshot m)

restore_from : RiskConfig → RiskCheckpoint → RiskManager
unfolding fresh
restore_from config saved = record (fresh config) {
  day = saved.day;
  day_start_floor = saved.day_start_floor;
  last_floor = saved.last_floor;
  consecutive_losses = saved.consecutive_losses;
  cooldown_remaining = saved.cooldown_remaining;
  halted = saved.halted;
  halt_reason = saved.halt_reason;
}

-- `restored`; a missing checkpoint gives a fresh manager, a bad one is refused.
unfoldable pub restored : RiskConfig → Option RiskCheckpoint → Option RiskManager
unfolding consistent restore_from
restored config none = some (fresh config)
restored config (some c) = elim (consistent c) [
  | none ↦ none
  | some saved ↦ some (restore_from config saved)
]
