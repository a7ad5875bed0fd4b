-- ===== src/Calendar/Validation.antt =====
-- What a validated schedule guarantees.
use kaupo.Base.{
  ℕ, ◌+◌, ◌-◌, ◌≤◌, ◌<◌, ◌≡◌, ◌&&◌, leb, if◌then◌else◌, refl, sym, subst, ap, true, false, not,
  List, [], ◌∷◌, ◌++◌, map, all, any, All, arith, ltb, Bool-cases, inl, inr, if_ind,
}
use kaupo.Base.Dict.{Dict}
use kaupo.Calendar.Schedule.{
  SessionHours, is_session, TradingSchedule, insert_session, sort_sessions, overlaps, sort_day,
  is_disjoint, is_open, Validated, valid, invalid, disjoint_sessions,
}

-- The length of the sessions of a day by the wall clock, in minutes.
pub minutes : List SessionHours → ℕ
minutes [] = 0
minutes (s ∷ ss) = (s.stop - s.start) + minutes ss

-- How many sessions a minute of the wall clock is in.
abbrev pub sessions_at : ℕ → List SessionHours → ℕ
sessions_at m [] = 0
sessions_at m (s ∷ ss) = (if leb s.start m && ltb m s.stop then 1 else 0) + sessions_at m ss

abbrev pub AreSessions : List SessionHours → Type 0
AreSessions = All (λ (s : SessionHours). is_session s ≡ true)

insert_session-AreSessions :
    (s : SessionHours) (ss : List SessionHours)
    → is_session s ≡ true
    → AreSessions ss
    → AreSessions (insert_session s ss)
unfolding insert_session
insert_session-AreSessions s [] h hs = (h, tt)
insert_session-AreSessions s (t ∷ ts) h (k, ks) = elim (Bool-cases (ltb t.start s.start)) [
  | inl later ↦ rw later (k, insert_session-AreSessions s ts h ks)
  | inr sooner ↦ rw sooner (h, (k, ks))
]

sort_sessions-AreSessions :
    (ss : List SessionHours) → AreSessions ss → AreSessions (sort_sessions ss)
unfolding sort_sessions
sort_sessions-AreSessions [] h = tt
sort_sessions-AreSessions (s ∷ ss) (h, hs) =
    insert_session-AreSessions s (sort_sessions ss) h (sort_sessions-AreSessions ss hs)

-- Sessions that do not overlap fit into what is left of the day.
minutes_from :
    (s : SessionHours) (ss : List SessionHours)
    → AreSessions (s ∷ ss)
    → overlaps (s ∷ ss) ≡ false
    → s.start + minutes (s ∷ ss) ≤ 1440
unfolding minutes overlaps is_session
minutes_from s [] (h, _) apart = ground arith
minutes_from s (t ∷ ts) (h, hs) apart = elim (Bool-cases (ltb t.start s.stop)) [
  | inl crossed ↦ let stuck : true ≡ false = rw crossed at apart in absurd (cc stuck)
  | inr clear ↦
      let later : overlaps (t ∷ ts) ≡ false = rw clear at apart in
      let rest = minutes_from t ts hs later in ground arith
]

minutes_le : (ss : List SessionHours) → AreSessions ss → overlaps ss ≡ false → minutes ss ≤ 1440
unfolding minutes
minutes_le [] h apart = omega arith
minutes_le (s ∷ ss) h apart = let fits = minutes_from s ss h apart in omega arith

-- Before the first of sessions that are in order no minute is open.
sessions_at-early :
    (m : ℕ) (s : SessionHours) (ss : List SessionHours)
    → AreSessions (s ∷ ss)
    → overlaps (s ∷ ss) ≡ false
    → m < s.start
    → sessions_at m (s ∷ ss) ≡ 0
unfolding overlaps is_session
sessions_at-early m s [] _ _ early = ground arith
sessions_at-early m s (t ∷ ts) (h, hs) apart early = elim (Bool-cases (ltb t.start s.stop)) [
  | inl crossed ↦ let stuck : true ≡ false = rw crossed at apart in absurd (cc stuck)
  | inr clear ↦
      let later : overlaps (t ∷ ts) ≡ false = rw clear at apart in
      let rest = sessions_at-early m t ts hs later (ground arith) in ground arith
]

sessions_at-le :
    (m : ℕ) (ss : List SessionHours) → AreSessions ss → overlaps ss ≡ false → sessions_at m ss ≤ 1
unfolding overlaps is_session
sessions_at-le m [] _ _ = omega arith
sessions_at-le m (s ∷ []) _ _ = ground arith
sessions_at-le m (s ∷ t ∷ ts) (h, hs) apart = elim (Bool-cases (ltb t.start s.stop)) [
  | inl crossed ↦ let stuck : true ≡ false = rw crossed at apart in absurd (cc stuck)
  | inr clear ↦
      let later : overlaps (t ∷ ts) ≡ false = rw clear at apart in
      let rest = sessions_at-le m (t ∷ ts) hs later in
      let first = sessions_at-early m t ts hs later in
      elim (Bool-cases (ltb m s.stop)) [
        | inl inside ↦ let none_later = first (ground arith) in ground arith
        | inr outside ↦ ground arith
      ]
]

abbrev pub HasSessions : Dict ℕ (List SessionHours) → Type 0
HasSessions = All (λ (e : ℕ × List SessionHours). AreSessions e.1)

-- The sessions of a day share no minute of the wall clock, and have 1440 of them at most.
abbrev pub FitsDay : ℕ × List SessionHours → Type 0
FitsDay e = ((m : ℕ) → sessions_at m e.1 ≤ 1) × (minutes e.1 ≤ 1440)

sort_days-FitsDay :
    (d : Dict ℕ (List SessionHours))
    → HasSessions d
    → all is_disjoint (map sort_day d) ≡ true
    → All FitsDay (map sort_day d)
sort_days-FitsDay [] h apart = tt
sort_days-FitsDay ((k, ss) ∷ d) (h, hs) apart = elim (Bool-cases (overlaps (sort_sessions ss))) [
  | inl crossed ↦ let stuck : false ≡ true = rw crossed at apart in absurd (cc stuck)
  | inr clear ↦
      let later : all is_disjoint (map sort_day d) ≡ true = rw clear at apart in
      (
        (
          λ m. sessions_at-le m (sort_sessions ss) (sort_sessions-AreSessions ss h) clear,
          minutes_le (sort_sessions ss) (sort_sessions-AreSessions ss h) clear,
        ),
        sort_days-FitsDay d hs later,
      )
]

map-append_days :
    (xs ys : Dict ℕ (List SessionHours))
    → map sort_day (xs ++ ys) ≡ map sort_day xs ++ map sort_day ys
map-append_days [] ys = refl
map-append_days (x ∷ xs) ys = ap (λ l. sort_day x ∷ l) (map-append_days xs ys)

-- What holds of a schedule that passes.
abbrev pub IfValid : (TradingSchedule → Type 0) → Validated → Type 0
IfValid P (valid t) = P t
IfValid P (invalid _) = Unit

-- In a schedule of valid sessions that passes the validator, on every weekday and on every date that has
-- its own hours, no minute of the wall clock is in two sessions, and the nominal lengths of the sessions,
-- from start to end by the wall clock, add up to 1440 minutes at most. This is not the time that passes: where
-- the clocks change, a day from 0 to 1440 can last 23 or 25 hours.
pub disjoint_sessions-FitsDay :
    (t : TradingSchedule)
    → HasSessions (t.week ++ t.overrides)
    → IfValid (λ t'. All FitsDay (t'.week ++ t'.overrides)) (disjoint_sessions t)
unfolding disjoint_sessions
disjoint_sessions-FitsDay t h =
    let Q : Validated → Type 0 = IfValid (λ t'. All FitsDay (t'.week ++ t'.overrides)) in
    let sorted : Dict ℕ (List SessionHours) = map sort_day t.week ++ map sort_day t.overrides in
    let same = map-append_days t.week t.overrides in
    if_ind Q (not (any is_open t.week)) (λ _. tt)
      λ _.
        if_ind Q (all is_disjoint sorted)
          (λ apart. subst (All FitsDay) same (
            sort_days-FitsDay (t.week ++ t.overrides) h
              (subst (λ l. all is_disjoint l ≡ true) (sym same) apart)))
          (λ _. tt)
