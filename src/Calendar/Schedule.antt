-- ===== src/Calendar/Schedule.antt =====
-- `SessionHours` and `TradingSchedule` of kaupo/market_calendar.py, with their validators. A
-- date is its number of days since 1970-01-01; a week is keyed by weekday, Monday being 0.
use kaupo.Base.{
  ℕ, String, Bool, true, false, not, ◌&&◌, List, [], ◌∷◌, ◌++◌, map, all, any, ltb, leb,
  if◌then◌else◌,
}
use kaupo.Base.Dict.{Dict}

-- Minutes after midnight; the end is exclusive.
pub record SessionHours : Type 0 where
  pub start : ℕ
  pub stop : ℕ

-- The bounds of the fields, and `ordered`.
unfoldable pub is_session : SessionHours → Bool
is_session s = ltb s.start 1440 && leb s.stop 1440 && ltb s.start s.stop

pub record TradingSchedule : Type 0 where
  pub timezone : String
  pub week : Dict ℕ (List SessionHours)
  pub overrides : Dict ℕ (List SessionHours)

-- `sessions.sort(key=lambda session: session.start)`, a stable sort.
unfoldable pub insert_session : SessionHours → List SessionHours → List SessionHours
insert_session s [] = s ∷ []
insert_session s (t ∷ ts) = if ltb t.start s.start then t ∷ insert_session s ts else s ∷ t ∷ ts

unfoldable pub sort_sessions : List SessionHours → List SessionHours
unfolding insert_session
sort_sessions [] = []
sort_sessions (s ∷ ss) = insert_session s (sort_sessions ss)

-- `any(left.end > right.start for left, right in pairwise(sessions))`
unfoldable pub overlaps : List SessionHours → Bool
overlaps [] = false
overlaps (s ∷ []) = false
overlaps (s ∷ (t ∷ ts)) = if ltb t.start s.stop then true else overlaps (t ∷ ts)

abbrev pub is_open : ℕ × List SessionHours → Bool
is_open (_, []) = false
is_open (_, _ ∷ _) = true

abbrev pub sort_day : ℕ × List SessionHours → ℕ × List SessionHours
sort_day (d, ss) = (d, sort_sessions ss)

abbrev pub is_disjoint : ℕ × List SessionHours → Bool
is_disjoint (_, ss) = not (overlaps ss)

pub data ScheduleError : Type 0 where
  no_open_session overlapping_sessions : ScheduleError

-- `disjoint_sessions`: the error, or the schedule with its sessions sorted.
pub data Validated : Type 0 where
  valid : TradingSchedule → Validated
  invalid : ScheduleError → Validated

unfoldable pub disjoint_sessions : TradingSchedule → Validated
unfolding sort_sessions overlaps
disjoint_sessions t =
    let week : Dict ℕ (List SessionHours) = map sort_day t.week in
    let overrides : Dict ℕ (List SessionHours) = map sort_day t.overrides in
    if not (any is_open t.week)
    then invalid no_open_session
    else if all is_disjoint (week ++ overrides)
    then valid (record { timezone = t.timezone; week = week; overrides = overrides })
    else invalid overlapping_sessions
