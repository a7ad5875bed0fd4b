-- ===== src/Calendar/Bounds.antt =====
-- Open time is never counted twice, and never beyond its window.
use kaupo.Base.{
  ℕ, zero, suc, ◌+◌, ◌-◌, ◌*◌, ◌/◌, ◌≤◌, ◌<◌, ◌≡◌, true, false, Option, some, List, [], ◌∷◌, arith,
  leb, get_or, if_ind,
}
use kaupo.Calendar.Schedule.{SessionHours, TradingSchedule}
use kaupo.Calendar.Elapsed.{
  Zone, Progress, add_interval, add_session, add_sessions, add_days, sessions_of, open_elapsed,
  candle_due, boundary, floor_to, ceil_to,
}

module _ (start finish : ℕ) where
  -- What is counted lies between the start and what is covered, and within the window.
  record IsCounted (p : Progress) : Type 0 where
    begun : start ≤ p.covered_until
    covered : start + p.elapsed ≤ p.covered_until
    within : start + p.elapsed ≤ finish

  add_interval-IsCounted :
      (opened closed : ℕ) (p : Progress)
      → IsCounted p
      → IsCounted (add_interval finish opened closed p)
  unfolding add_interval
  add_interval-IsCounted opened closed p h = ground arith

  add_sessions-IsCounted :
      (z : Zone) (candle_seconds : Option ℕ) (midnight : ℕ) (ss : List SessionHours) (p : Progress)
      → IsCounted p
      → IsCounted (add_sessions z candle_seconds finish midnight ss p)
  unfolding add_sessions add_session
  add_sessions-IsCounted z candle_seconds midnight [] p h = h
  add_sessions-IsCounted z candle_seconds midnight (s ∷ ss) p h =
      add_sessions-IsCounted z candle_seconds midnight ss
        (add_session z candle_seconds finish midnight s p)
        (add_interval-IsCounted
          (floor_to candle_seconds (boundary z (midnight + s.start * 60) false))
          (ceil_to candle_seconds (boundary z (midnight + s.stop * 60) true)) p h)

  add_days-IsCounted :
      (t : TradingSchedule) (z : Zone) (candle_seconds : Option ℕ) (day days : ℕ) (p : Progress)
      → IsCounted p
      → IsCounted (add_days t z candle_seconds finish day days p)
  unfolding add_days
  add_days-IsCounted t z candle_seconds day zero p h = h
  add_days-IsCounted t z candle_seconds day (suc days) p h =
      add_days-IsCounted t z candle_seconds (day + 1) days
        (add_sessions z candle_seconds finish (day * 86_400) (sessions_of t day) p)
        (add_sessions-IsCounted z candle_seconds (day * 86_400) (sessions_of t day) p h)

-- Whatever the schedule, the zone and the expansion to candles: the open time of a window is no
-- more than its length, and zero if it ends no later than it starts.
pub open_elapsed-le :
    (t : TradingSchedule) (z : Zone) (start finish : ℕ) (candle_seconds : Option ℕ)
    → open_elapsed t z start finish candle_seconds ≤ finish - start
unfolding open_elapsed
open_elapsed-le t z start finish candle_seconds =
    let day : ℕ = z.to_local (start - get_or candle_seconds 0) / 86_400 in
    let last_day : ℕ = z.to_local (finish + get_or candle_seconds 0) / 86_400 in
    if_ind (λ n. n ≤ finish - start) (leb finish start) (λ _. omega arith)
      λ open_window.
        let begun : start < finish = ground arith in
        let counted =
          add_days-IsCounted start finish t z candle_seconds day (last_day + 1 - day)
            (record { elapsed = 0; covered_until = start })
            (record { begun = omega arith; covered = omega arith; within = omega arith }) in
        omega (arith, counted.within)

-- A candle is never due before two of its periods have passed since the baseline, slack aside,
-- however much open time the schedule has.
pub candle_due-wait :
    (t : TradingSchedule) (z : Zone) (baseline now candle_seconds slack : ℕ)
    → 0 < candle_seconds
    → candle_due t z baseline now candle_seconds slack ≡ true
    → baseline + slack + 2 * candle_seconds ≤ now
unfolding candle_due
candle_due-wait t z baseline now candle_seconds slack some_time due =
    let bound = open_elapsed-le t z baseline (now - slack) (some candle_seconds) in
    let enough : 2 * candle_seconds
        ≤ open_elapsed t z baseline (now - slack) (some candle_seconds) =
      ground arith in
    omega (arith, bound, enough)
