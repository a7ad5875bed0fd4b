-- ===== src/Risk/Halting.antt =====
-- The daily loss rail.
use kaupo.Base.{
  ℕ, ◌≡◌, ◌≢◌, subst, subst₂, ◌-◌, refl, ap, sym, ◌∙◌, true, false, some, List, [], ◌∷◌, arith, All,
  Bool-cases, inl, inr,
}
use kaupo.Base.Int.{ℤ, ◌-ℤ◌, ◌<ℤ◌, neg, leb_ℤ, leb_ℤ-false, int_laws}
use kaupo.Risk.State.{
  RiskManager, RiskState, RiskConfig, floor_equity, day_of, roll_day, check_loss, on_candle,
}

-- The candles of a run, one after the other.
unfoldable pub watch : List RiskState → RiskManager → RiskManager
watch [] m = m
watch (s ∷ ss) m = watch ss (on_candle s m).1

-- Once halted, a manager stays halted and lets no candle continue.
on_candle-halted :
    (s : RiskState) (m : RiskManager) → m.halted ≡ true → (on_candle s m).1.halted ≡ true
unfolding on_candle
on_candle-halted s m h = ground arith

watch-halted :
    (ss : List RiskState) (m : RiskManager) → m.halted ≡ true → (watch ss m).halted ≡ true
unfolding watch
watch-halted [] m h = h
watch-halted (s ∷ ss) m h = watch-halted ss (on_candle s m).1 (on_candle-halted s m h)

-- On a day that is under way the day's baseline is kept.
same_day_step :
    (s : RiskState) (m : RiskManager)
    → m.day ≡ some (day_of s.ts)
    → let m' = (on_candle s m).1 in
      (m'.day ≡ m.day) × (m'.day_start_floor ≡ m.day_start_floor) × (m'.config ≡ m.config)
unfolding on_candle
same_day_step s m e = ground arith

-- On another day the baseline is the last floor that was observed.
new_day_step :
    (s : RiskState) (m : RiskManager) (b : ℤ)
    → m.day ≢ some (day_of s.ts)
    → m.last_floor ≡ some b
    → let m' = (on_candle s m).1 in
      (m'.day ≡ some (day_of s.ts)) × (m'.day_start_floor ≡ b) × (m'.config ≡ m.config)
unfolding on_candle
new_day_step s m b other e = ground arith

roll_day-config : (d : ℕ) (floor : ℤ) (m : RiskManager) → (roll_day d floor m).config ≡ m.config
unfolding roll_day
roll_day-config d floor m = ground arith

check_loss_unhalted :
    (floor : ℤ) (m : RiskManager)
    → (check_loss floor m).halted ≡ false
    → ((check_loss floor m).day_start_floor ≡ m.day_start_floor)
      × (m.day_start_floor -ℤ m.config.max_daily_loss_quote <ℤ floor)
unfolding check_loss
check_loss_unhalted floor m h =
    let gone : ℤ = floor -ℤ m.day_start_floor in
    let limit : ℤ = neg m.config.max_daily_loss_quote in
    elim (Bool-cases (leb_ℤ gone limit)) [
      | inl hit ↦ absurd (ground arith)
      | inr fine ↦ (ground arith, omega (int_laws, leb_ℤ-false gone limit fine))
    ]

-- A candle that does not halt lost less than the limit.
unhalted_step :
    (s : RiskState) (m : RiskManager)
    → let m' = (on_candle s m).1 in
      m'.halted ≡ false → m'.day_start_floor -ℤ m.config.max_daily_loss_quote <ℤ floor_equity s
unfolding on_candle
unhalted_step s m h =
    let floor : ℤ = floor_equity s in
    let rolled : RiskManager = roll_day (day_of s.ts) floor m in
    let cooled : RiskManager = record rolled {
      last_floor = some floor;
      cooldown_remaining = rolled.cooldown_remaining - 1;
    } in
    let (kept, above) = check_loss_unhalted floor cooled h in
    subst
      (λ (c : RiskConfig).
        (check_loss floor cooled).day_start_floor -ℤ c.max_daily_loss_quote <ℤ floor)
      (roll_day-config (day_of s.ts) floor m) (rw kept above)

-- A later halt would show at the end.
unhalted_before :
    (ss : List RiskState) (m : RiskManager) → (watch ss m).halted ≡ false → m.halted ≡ false
unhalted_before ss m h = elim (Bool-cases m.halted) [
  | inl stopped ↦ cc (watch-halted ss m stopped)
  | inr running ↦ running
]

module _ (d : ℕ) (base limit : ℤ) where
  -- Every candle's floor stays above the day's baseline less the limit.
  abbrev StaysAbove : List RiskState → Type 0
  StaysAbove = All (λ (s : RiskState). base -ℤ limit <ℤ floor_equity s)

  above_step :
      (s : RiskState) (m : RiskManager)
      → (on_candle s m).1.day_start_floor ≡ base
      → m.config.max_daily_loss_quote ≡ limit
      → (on_candle s m).1.halted ≡ false
      → base -ℤ limit <ℤ floor_equity s
  above_step s m b c h = subst₂ (λ x y. x -ℤ y <ℤ floor_equity s) b c (unhalted_step s m h)

  unhalted_day :
      (ss : List RiskState) (m : RiskManager)
      → m.day ≡ some d
      → m.day_start_floor ≡ base
      → m.config.max_daily_loss_quote ≡ limit
      → All (λ (s : RiskState). day_of s.ts ≡ d) ss
      → (watch ss m).halted ≡ false
      → StaysAbove ss
  unfolding watch
  unhalted_day [] m e b c same h = tt
  unhalted_day (s ∷ ss) m e b c (here, same) h =
      let m' : RiskManager = (on_candle s m).1 in
      let (day_kept, base_kept, config_kept) = same_day_step s m (e ∙ ap some (sym here)) in
      (
        above_step s m (base_kept ∙ b) c (unhalted_before ss m' h),
        unhalted_day ss m' (day_kept ∙ e) (base_kept ∙ b)
            (ap (λ (k : RiskConfig). k.max_daily_loss_quote) config_kept ∙ c) same h,
      )

-- The daily loss rail: if a run gets through the candles of a new day without a halt, then at
-- each of them, the first included, the floor equity was above the last floor of the day before
-- less the limit.
pub unhalted_new_day :
    (s : RiskState) (ss : List RiskState) (m : RiskManager) {b : ℤ}
    → m.day ≢ some (day_of s.ts)
    → m.last_floor ≡ some b
    → All (λ (t : RiskState). day_of t.ts ≡ day_of s.ts) ss
    → (watch (s ∷ ss) m).halted ≡ false
    → All (λ (t : RiskState). b -ℤ m.config.max_daily_loss_quote <ℤ floor_equity t) (s ∷ ss)
unfolding watch
unhalted_new_day s ss m {b} other e same h =
    let m' : RiskManager = (on_candle s m).1 in
    let limit : ℤ = m.config.max_daily_loss_quote in
    let (day_new, base_new, config_kept) = new_day_step s m b other e in
    (
      above_step (day_of s.ts) b limit s m base_new refl (unhalted_before ss m' h),
      unhalted_day (day_of s.ts) b limit ss m' day_new base_new
          (ap (λ (k : RiskConfig). k.max_daily_loss_quote) config_kept) same h,
    )

-- A halt is for good: whatever follows, the manager stays halted and lets no candle continue.
pub halted_for_good :
    (ss : List RiskState) (s : RiskState) (m : RiskManager)
    → m.halted ≡ true
    → (on_candle s (watch ss m)).0 ≡ false
unfolding on_candle
halted_for_good ss s m h =
    let stopped = on_candle-halted s (watch ss m) (watch-halted ss m h) in rw stopped
