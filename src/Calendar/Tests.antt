-- ===== src/Calendar/Tests.antt =====
-- An exchange that is open on weekdays, in a zone two hours ahead of UTC.
use kaupo.Base.{◌+◌, ◌-◌, ◌*◌, ◌≤◌, ◌≡◌, refl, true, none, some, List, [], ◌∷◌, ◌++◌, All, arith}
use kaupo.Calendar.{
  SessionHours, TradingSchedule, Zone, open_elapsed, candle_due, is_session, sort_sessions,
  disjoint_sessions,
}
use kaupo.Calendar.Bounds.{open_elapsed-le, candle_due-wait}
use kaupo.Calendar.Validation.{FitsDay, IfValid, disjoint_sessions-FitsDay}

-- 10:00 to 12:00 and 13:00 to 18:30, given in the wrong order.
abbrev hours : List SessionHours
hours = record { start = 780; stop = 1110 } ∷ record { start = 600; stop = 720 } ∷ []

abbrev schedule : TradingSchedule
schedule = record {
  timezone = "Europe/Tallinn";
  week = (0, hours) ∷ (1, hours) ∷ [];
  overrides = (5, []) ∷ [];
}

-- As the validator leaves it.
abbrev sorted : TradingSchedule
sorted = record schedule { week = (0, sort_sessions hours) ∷ (1, sort_sessions hours) ∷ [] }

abbrev tallinn : Zone
tallinn = record { to_utc = λ t _. t - 7200; to_local = λ t. t + 7200 }

-- Monday, 1970-01-05, from midnight to midnight in UTC: seven and a half hours are open.
monday_open : open_elapsed sorted tallinn 345_600 432_000 none ≡ 27_000
unfolding open_elapsed sort_sessions
monday_open = refl

open_elapsed-le_example :
    open_elapsed sorted tallinn 345_600 432_000 (some 3600) ≤ 432_000 - 345_600
open_elapsed-le_example = open_elapsed-le sorted tallinn 345_600 432_000 (some 3600)

monday_due : candle_due sorted tallinn 380_000 393_000 3600 60 ≡ true
unfolding candle_due sort_sessions
monday_due = refl

monday_waits : 380_000 + 60 + 2 * 3600 ≤ 393_000
monday_waits = candle_due-wait sorted tallinn 380_000 393_000 3600 60 (omega arith) monday_due

disjoint_sessions-FitsDay_example :
    IfValid
      (λ (t : TradingSchedule). All FitsDay (t.week ++ t.overrides))
      (disjoint_sessions schedule)
unfolding is_session
disjoint_sessions-FitsDay_example =
    disjoint_sessions-FitsDay schedule ((refl, (refl, tt)), ((refl, (refl, tt)), (tt, tt)))
