-- ===== src/Supervisor/Watchdog.antt =====
-- The watchdog leaves a healthy run alone (kaupo/core/supervisor.py).
use kaupo.Base.{◌≡◌, ℕ, ◌+◌, ◌*◌, ◌<◌, false, Option, none, some, Bool-cases, inl, inr, arith}
use kaupo.Domain.{Timestamp, Timeframe, seconds}
use kaupo.Calendar.{TradingSchedule, Zone, candle_due}
use kaupo.Calendar.Bounds.{candle_due-wait}
use kaupo.Supervisor.Rules.{watchdog_is_stale, watchdog_stale_after}

seconds_pos : (timeframe : Timeframe) → 0 < seconds timeframe
unfolding seconds
seconds_pos timeframe = ground arith

-- A run whose newest sign of progress is less than two periods and the grace old is never taken for
-- stalled, in every zone and with any trading schedule or none.
pub watchdog_is_stale-healthy :
    (zone : Zone) (reference now : Timestamp) (timeframe : Timeframe) (grace : ℕ)
    (schedule : Option TradingSchedule)
    → now < reference + grace + 2 * seconds timeframe
    → watchdog_is_stale zone reference now timeframe grace schedule ≡ false
unfolding watchdog_is_stale watchdog_stale_after
watchdog_is_stale-healthy zone reference now timeframe grace none recent = ground arith
watchdog_is_stale-healthy zone reference now timeframe grace (some t) recent =
    elim (Bool-cases (candle_due t zone reference now (seconds timeframe) grace)) [
      | inl due ↦
          let wait =
            candle_due-wait t zone reference now (seconds timeframe) grace (seconds_pos timeframe)
              due in
          ground (arith, wait, recent)
      | inr early ↦ early
    ]
