-- ===== src/Supervisor/Pass.antt =====
-- `_reap_finished`, `_stalled_runs`, `_refresh_killed` and the loop of `run_supervisor`
-- (kaupo/core/supervisor.py). A pass reads the clock once, and the hash of an assignment is a parameter.
use kaupo.Base.{
  String, Bool, true, false, not, ◌&&◌, ◌||◌, Option, none, some, List, [], ◌∷◌, ◌++◌, map, filter,
  for_each, ltb, if◌then◌else◌, on_some,
}
use kaupo.Base.Dict.{Dict, lookup, insert, erase, contains}
use kaupo.Domain.{Timestamp, eq_string}
use kaupo.Supervisor.State.{
  Assignment, RunKey, Control, Task, pending, raised, LiveRun, KilledRun, RunRow, World, Supervisor,
}
use kaupo.Supervisor.Rules.{
  EndKind, stopped, killed, restart, crashed, classify_end, in_backoff, resume_cleared,
  watchdog_grace, watchdog_is_stale, staleness_reference, ReconcilePlan, reconcile, start_error,
}

abbrev pub is_done : Task → Bool
is_done pending = false
is_done _ = true

abbrev pub is_raised : Task → Bool
is_raised raised = true
is_raised _ = false

-- The first assignment with an id.
abbrev pub assignment_of : String → List Assignment → Option Assignment
assignment_of aid [] = none
assignment_of aid (a ∷ as') = if eq_string.beq aid a.id then some a else assignment_of aid as'

-- The newest run row and the command for it, which are read only of a run that ended by itself.
unfoldable pub row_at_end : World → String → LiveRun → Option RunRow
row_at_end w aid lr = if not (is_raised lr.task) && not lr.stop then w.latest_run aid else none

unfoldable pub command_at_end : World → String → LiveRun → Option Control
unfolding row_at_end
command_at_end w aid lr =
    on_some (row_at_end w aid lr) none (λ (r : RunRow). w.latest_command r.id r.started_at)

unfoldable pub back_off : World → String → Supervisor → Supervisor
back_off w aid s = record s { backoff = insert aid w.now s.backoff }

-- What becomes of an assignment whose task is done, by the kind of its end.
unfoldable pub settle_end : World → String → EndKind → Option RunRow → Supervisor → Supervisor
unfolding back_off
settle_end w aid stopped row s = s
settle_end w aid killed (some row) s = record s {
  killed =
      insert aid (record { run_id = row.id; started_at = row.started_at; observed_at = w.now })
        s.killed;
}
settle_end w aid killed none s = back_off w aid s
settle_end w aid restart row s = s
settle_end w aid crashed row s = back_off w aid s

unfoldable pub reap_one : World → String × LiveRun → Supervisor → Supervisor
unfolding classify_end row_at_end command_at_end settle_end
reap_one w (aid, lr) s =
    if is_done lr.task
    then settle_end w aid (classify_end lr.stop (is_raised lr.task) (command_at_end w aid lr))
        (row_at_end w aid lr) (record s { live = erase aid s.live })
    else s

unfoldable pub reap_finished : World → Supervisor → Supervisor
unfolding reap_one
reap_finished w s = for_each (reap_one w) s.live s

unfoldable pub is_stalled : World → String × LiveRun → Bool
unfolding staleness_reference watchdog_is_stale
is_stalled w (aid, lr) = on_some (assignment_of aid w.assignments) false λ (a : Assignment).
    on_some (w.latest_run aid) false λ (row : RunRow).
      watchdog_is_stale w.zone
        (staleness_reference lr.started_at row.started_at row.last_snapshot_ts) w.now a.timeframe
        watchdog_grace (if ltb row.started_at lr.started_at then none else a.trading_schedule)

unfoldable pub stalled_runs : World → Supervisor → List String
unfolding is_stalled
stalled_runs w s = map (λ (l : String × LiveRun). l.0) (filter (is_stalled w) s.live)

-- The watchdog forgets a stalled task, which it cancels, and has its run row marked.
unfoldable pub cancel_one : World → String → Supervisor → Supervisor
unfolding back_off
cancel_one w aid s =
    back_off w aid (record s { live = erase aid s.live; marked = s.marked ++ aid ∷ [] })

unfoldable pub refresh_one : World → String × KilledRun → Supervisor → Supervisor
unfolding resume_cleared
refresh_one w (aid, k) s =
    let freed : Supervisor = record s { killed = erase aid s.killed } in
    on_some (assignment_of aid w.assignments) freed λ (a : Assignment).
      if resume_cleared k.observed_at a.updated_at (w.latest_command k.run_id k.started_at)
      then freed
      else s

unfoldable pub refresh_killed : World → Supervisor → Supervisor
unfolding refresh_one
refresh_killed w s = for_each (refresh_one w) s.killed s

unfoldable pub is_held_down : World → Supervisor → String → Bool
unfolding in_backoff
is_held_down w s aid =
    contains aid s.killed
    || on_some (lookup aid s.backoff) false
        (λ failed_at. in_backoff failed_at w.now w.restart_backoff)

-- `live[aid].stop.set()`
unfoldable pub stop_one : String → Supervisor → Supervisor
stop_one aid s =
    on_some (lookup aid s.live) s
      λ (lr : LiveRun). record s { live = insert aid (record lr { stop = true }) s.live }

-- A run that starts: its task is pending and not asked to stop.
abbrev pub new_run : RunKey → Timestamp → LiveRun
new_run hash now = record { config_hash = hash; stop = false; task = pending; started_at = now }

module _ (hash : Assignment → RunKey) where
  unfoldable pub start_one : World → String → Supervisor → Supervisor
  unfolding start_error back_off
  start_one w aid s = on_some (assignment_of aid w.assignments) s λ (a : Assignment).
      on_some (start_error w a)
        (record s {
          live = insert aid (new_run (hash a) w.now) s.live;
          backoff = erase aid s.backoff;
        })
        (λ _. back_off w aid s)

  -- `{a.id: assignment_config_hash(a) for a in rows}`
  abbrev pub desired_of : List Assignment → Dict String RunKey
  desired_of as' = map (λ (a : Assignment). (a.id, hash a)) as'

  unfoldable pub plan_of : World → Supervisor → ReconcilePlan
  unfolding reconcile is_held_down
  plan_of w s =
      reconcile (desired_of w.assignments)
        (map (λ (l : String × LiveRun). (l.0, l.1.config_hash)) s.live) (is_held_down w s)

  -- The body of the loop.
  unfoldable pub run_pass : World → Supervisor → Supervisor
  unfolding reap_finished stalled_runs cancel_one refresh_killed plan_of stop_one start_one
  run_pass w s =
      let reaped : Supervisor = reap_finished w s in
      let watched : Supervisor = for_each (cancel_one w) (stalled_runs w reaped) reaped in
      let refreshed : Supervisor = refresh_killed w watched in
      let plan : ReconcilePlan = plan_of w refreshed in
      for_each (start_one w) plan.start (for_each stop_one plan.stop refreshed)

-- The end of the supervisor: every task is asked to stop.
unfoldable pub stop_all : Supervisor → Supervisor
stop_all s = record s {
  live = map (λ (l : String × LiveRun). (l.0, record l.1 { stop = true })) s.live;
}

-- The supervisor as it starts.
abbrev pub idle : Supervisor
idle = record { live = []; killed = []; backoff = []; marked = [] }

-- The task of an assignment's run ends.
unfoldable pub end_task : String → Task → Supervisor → Supervisor
end_task aid task s =
    on_some (lookup aid s.live) s
      λ (lr : LiveRun). record s { live = insert aid (record lr { task = task }) s.live }
