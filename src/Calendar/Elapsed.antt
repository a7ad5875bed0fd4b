-- ===== src/Calendar/Elapsed.antt =====
-- `TradingSchedule.open_elapsed`, `candle_due` and `_boundary` of kaupo/market_calendar.py.
-- The time zone database is a parameter. Times are seconds since 1970-01-01, in UTC or on the
-- local clock; a difference that would be negative is 0.
use kaupo.Base.{
  ℕ, zero, suc, ◌+◌, ◌-◌, ◌*◌, ◌/◌, ◌%◌, Bool, true, false, Option, none, some, List, [], ◌∷◌, ltb,
  leb, ◌==◌, get_or, if◌then◌else◌,
}
use kaupo.Base.Dict.{lookup}
use kaupo.Domain.{eq_order_id}
use kaupo.Calendar.Schedule.{SessionHours, TradingSchedule}

-- A zone of the database: the UTC time of a local time, by its fold, and the local time of a UTC
-- time.
pub record Zone : Type 0 where
  pub to_utc : (local : ℕ) (fold : Bool) → ℕ
  pub to_local : ℕ → ℕ

abbrev pub min : ℕ → ℕ → ℕ
min a b = if ltb b a then b else a

abbrev pub max : ℕ → ℕ → ℕ
max a b = if ltb a b then b else a

-- `_boundary`: of the two candidates those that exist on the local clock are valid.
unfoldable pub boundary : Zone → ℕ → (closing : Bool) → ℕ
boundary z local closing =
    let first : ℕ = z.to_utc local false in
    let second : ℕ = z.to_utc local true in
    let first_valid : Bool = z.to_local first == local in
    let second_valid : Bool = z.to_local second == local in
    if first_valid
    then if second_valid then if closing then max first second else min first second else first
    else if second_valid
    then second
    else max first second

-- The boundaries expanded to those of the candles that hold them.
abbrev pub floor_to : Option ℕ → ℕ → ℕ
floor_to none t = t
floor_to (some seconds) t = t / seconds * seconds

abbrev pub ceil_to : Option ℕ → ℕ → ℕ
ceil_to none t = t
ceil_to (some seconds) t = (t + (seconds - 1)) / seconds * seconds

-- The state of the loop: the open time so far, and the time up to which it is counted.
pub record Progress : Type 0 where
  pub elapsed : ℕ
  pub covered_until : ℕ

unfoldable pub add_interval : (finish opened closed : ℕ) → Progress → Progress
add_interval finish opened closed p = record {
  elapsed = p.elapsed + (min finish closed - max p.covered_until opened);
  covered_until = max p.covered_until closed;
}

unfoldable pub add_session :
    Zone → Option ℕ → (finish midnight : ℕ) → SessionHours → Progress → Progress
unfolding boundary add_interval
add_session z candle_seconds finish midnight s p =
    add_interval finish (floor_to candle_seconds (boundary z (midnight + s.start * 60) false))
      (ceil_to candle_seconds (boundary z (midnight + s.stop * 60) true)) p

unfoldable pub add_sessions :
    Zone → Option ℕ → (finish midnight : ℕ) → List SessionHours → Progress → Progress
unfolding add_session
add_sessions z candle_seconds finish midnight [] p = p
add_sessions z candle_seconds finish midnight (s ∷ ss) p =
    add_sessions z candle_seconds finish midnight ss
      (add_session z candle_seconds finish midnight s p)

-- 1970-01-01 was a Thursday.
abbrev pub weekday : ℕ → ℕ
weekday day = (day + 3) % 7

-- `self.overrides.get(day, self.week.get(day.weekday(), []))`
unfoldable pub sessions_of : TradingSchedule → ℕ → List SessionHours
sessions_of t day = get_or (lookup day t.overrides) (get_or (lookup (weekday day) t.week) [])

-- The loop over `days` local dates from `day` on.
unfoldable pub add_days :
    TradingSchedule → Zone → Option ℕ → (finish day days : ℕ) → Progress → Progress
unfolding add_sessions sessions_of
add_days t z candle_seconds finish day zero p = p
add_days t z candle_seconds finish day (suc days) p =
    add_days t z candle_seconds finish (day + 1) days
      (add_sessions z candle_seconds finish (day * 86_400) (sessions_of t day) p)

unfoldable pub open_elapsed : TradingSchedule → Zone → (start finish : ℕ) → Option ℕ → ℕ
unfolding add_days
open_elapsed t z start finish candle_seconds =
    let padding : ℕ = get_or candle_seconds 0 in
    let day : ℕ = z.to_local (start - padding) / 86_400 in
    let last_day : ℕ = z.to_local (finish + padding) / 86_400 in
    if leb finish start
    then 0
    else (add_days t z candle_seconds finish day (last_day + 1 - day)
        (record { elapsed = 0; covered_until = start })).elapsed

unfoldable pub candle_due : TradingSchedule → Zone → (baseline now candle_seconds slack : ℕ) → Bool
unfolding open_elapsed
candle_due t z baseline now candle_seconds slack =
    leb (2 * candle_seconds) (open_elapsed t z baseline (now - slack) (some candle_seconds))
