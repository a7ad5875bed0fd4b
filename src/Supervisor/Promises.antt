-- ===== src/Supervisor/Promises.antt =====
-- What a pass promises of each assignment (kaupo/core/supervisor.py).
use kaupo.Base.{◌≡◌, refl, ap, ◌∙◌, String, true, false, Option, none, some}
use kaupo.Base.Dict.{lookup}
use kaupo.Base.Keyed.{Distinct}
use kaupo.Domain.{Timestamp, eq_string}
use kaupo.Supervisor.State.{
  Assignment, RunKey, pending, returned, LiveRun, KilledRun, World, Supervisor,
}
use kaupo.Supervisor.Rules.{in_backoff, resume_cleared, start_error, classify_end}
use kaupo.Supervisor.Pass.{assignment_of, desired_of, is_stalled, run_pass, new_run, end_task}
use kaupo.Supervisor.Local.{Local, slice, is_wanted, pass_local, IsTidy}
use kaupo.Supervisor.Slices.{end_task-IsOwn, end_local}
use kaupo.Supervisor.Refinement.{run_pass-slice, run_pass-IsTidy}

-- A run that neither a kill nor a failure holds down.
abbrev pub only : LiveRun → Local
only lr = record { live = some lr; killed = none; backoff = none }

slice-of :
    (aid : String) (s : Supervisor) (run : Option LiveRun) (down : Option KilledRun)
    → lookup aid s.live ≡ run
    → lookup aid s.killed ≡ down
    → slice aid s ≡ record { live = run; killed = down; backoff = lookup aid s.backoff }
slice-of aid s run down running held =
    ap (λ r. record (slice aid s) { live = r }) running
    ∙ ap (λ k. record { live = run; killed = k; backoff = lookup aid s.backoff }) held

module _ (hash : Assignment → RunKey) (w : World) (aid : String) where
  -- An assignment that a kill holds down, and whose kill nothing clears.
  pass_local-killed :
      (a : Assignment) (k : KilledRun) (backoff : Option Timestamp)
      → assignment_of aid w.assignments ≡ some a
      → resume_cleared k.observed_at a.updated_at (w.latest_command k.run_id k.started_at) ≡ false
      → pass_local hash w aid (record { live = none; killed = some k; backoff = backoff })
        ≡ record { live = none; killed = some k; backoff = backoff }
  pass_local-killed a k backoff found kept = rw (found, kept) refl

  -- An assignment in its backoff.
  pass_local-backoff :
      (failed_at : Timestamp)
      → in_backoff failed_at w.now w.restart_backoff ≡ true
      → pass_local hash w aid (record { live = none; killed = none; backoff = some failed_at })
        ≡ record { live = none; killed = none; backoff = some failed_at }
  pass_local-backoff failed_at waiting = rw (waiting) refl

  -- A pending run of another configuration is asked to stop.
  pass_local-outdated :
      (lr : LiveRun)
      → is_stalled w (aid, record lr { task = pending }) ≡ false
      → is_wanted hash w aid lr ≡ false
      → pass_local hash w aid (only (record lr { task = pending }))
        ≡ only (record lr { task = pending; stop = true })
  pass_local-outdated lr moves old = rw (moves, old) refl

  -- A run that was asked to stop and ended gives way to a new one.
  pass_local-restart :
      (a : Assignment) (lr : LiveRun)
      → assignment_of aid w.assignments ≡ some a
      → start_error w a ≡ none
      → pass_local hash w aid (only (record lr { task = returned; stop = true }))
        ≡ only (new_run (hash a) w.now)
  unfolding classify_end
  pass_local-restart a lr found startable = rw (found, startable) refl

  module _ (distinct : Distinct (desired_of hash w.assignments)) (s : Supervisor)
      (tidy : IsTidy s) where
    -- While a kill holds an assignment down, and neither a resume command nor an update of the
    -- assignment after the kill clears it, a pass starts no run of it and keeps the kill.
    pub run_pass-killed :
        (a : Assignment) (k : KilledRun)
        → lookup aid s.live ≡ none
        → lookup aid s.killed ≡ some k
        → assignment_of aid w.assignments ≡ some a
        → resume_cleared k.observed_at a.updated_at (w.latest_command k.run_id k.started_at) ≡ false
        → (lookup aid (run_pass hash w s).live ≡ none)
          × (lookup aid (run_pass hash w s).killed ≡ some k)
    run_pass-killed a k idle down found kept =
        let backoff : Option Timestamp = lookup aid s.backoff in
        let after =
          run_pass-slice w hash distinct aid s tidy
          ∙ ap (pass_local hash w aid) (slice-of aid s none (some k) idle down)
          ∙ pass_local-killed a k backoff found kept in
        (ap (λ l. l.live) after, ap (λ l. l.killed) after)

    -- Within the backoff after a failure, a pass starts no run of the assignment.
    pub run_pass-backoff :
        (failed_at : Timestamp)
        → lookup aid s.live ≡ none
        → lookup aid s.killed ≡ none
        → lookup aid s.backoff ≡ some failed_at
        → in_backoff failed_at w.now w.restart_backoff ≡ true
        → (lookup aid (run_pass hash w s).live ≡ none)
          × (lookup aid (run_pass hash w s).backoff ≡ some failed_at)
    run_pass-backoff failed_at idle free failed waiting =
        let after =
          run_pass-slice w hash distinct aid s tidy
          ∙ ap (pass_local hash w aid) (
              slice-of aid s none none idle free
              ∙ ap (λ b. record { live = none; killed = none; backoff = b }) failed)
          ∙ pass_local-backoff failed_at waiting in
        (ap (λ l. l.live) after, ap (λ l. l.backoff) after)

-- A run of an assignment whose configuration changed is replaced within two passes: the first asks it
-- to stop, and once its task has returned the second starts a run of the new configuration, where
-- the assignment may start, no kill or failure is on record and the watchdog does not take the first run for
-- stalled.
pub run_pass-replaces :
    (hash : Assignment → RunKey) (w w' : World) (aid : String) (s : Supervisor) (a : Assignment)
    (lr : LiveRun)
    → Distinct (desired_of hash w.assignments)
    → Distinct (desired_of hash w'.assignments)
    → IsTidy s
    → slice aid s ≡ only (record lr { task = pending })
    → is_stalled w (aid, record lr { task = pending }) ≡ false
    → is_wanted hash w aid lr ≡ false
    → assignment_of aid w'.assignments ≡ some a
    → start_error w' a ≡ none
    → lookup aid (run_pass hash w' (end_task aid returned (run_pass hash w s))).live
      ≡ some (new_run (hash a) w'.now)
run_pass-replaces hash w w' aid s a lr distinct distinct' tidy held moves old found startable =
    let asked : Supervisor = run_pass hash w s in
    let asked_tidy = run_pass-IsTidy w hash distinct s tidy in
    let own = end_task-IsOwn aid returned in
    let first =
      run_pass-slice w hash distinct aid s tidy
      ∙ ap (pass_local hash w aid) held
      ∙ pass_local-outdated hash w aid lr moves old in
    let ended = own.own asked asked_tidy ∙ ap (end_local returned) first in
    let second =
      run_pass-slice w' hash distinct' aid (end_task aid returned asked) (own.tidy asked asked_tidy)
      ∙ ap (pass_local hash w' aid) ended
      ∙ pass_local-restart hash w' aid a lr found startable in
    ap (λ l. l.live) second
