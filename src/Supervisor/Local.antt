-- ===== src/Supervisor/Local.antt =====
-- What one pass of the supervisor does to one assignment: a state machine on the run of that
-- assignment, the kill that holds it down and the time of its last failure
-- (kaupo/core/supervisor.py).
use kaupo.Base.{
  String, Bool, true, false, ◌||◌, Option, none, some, if◌then◌else◌, on_some, is_some,
}
use kaupo.Base.Dict.{lookup}
use kaupo.Base.Keyed.{Distinct}
use kaupo.Domain.{Timestamp, eq_string}
use kaupo.Supervisor.State.{
  Assignment, RunKey, key_eq, LiveRun, KilledRun, RunRow, World, Supervisor,
}
use kaupo.Supervisor.Rules.{
  EndKind, stopped, killed, restart, crashed, classify_end, in_backoff, resume_cleared, start_error,
}
use kaupo.Supervisor.Pass.{
  is_done, is_raised, assignment_of, row_at_end, command_at_end, is_stalled, new_run,
}

pub record Local : Type 0 where
  pub live : Option LiveRun
  pub killed : Option KilledRun
  pub backoff : Option Timestamp

-- What the dicts of the supervisor say of an assignment.
abbrev pub slice : String → Supervisor → Local
slice aid s = record {
  live = lookup aid s.live;
  killed = lookup aid s.killed;
  backoff = lookup aid s.backoff;
}

abbrev pub settle_local : World → EndKind → Option RunRow → Local → Local
settle_local w stopped row l = l
settle_local w killed (some row) l = record l {
  killed = some (record { run_id = row.id; started_at = row.started_at; observed_at = w.now });
}
settle_local w killed none l = record l { backoff = some w.now }
settle_local w restart row l = l
settle_local w crashed row l = record l { backoff = some w.now }

abbrev pub reap_local : World → String × LiveRun → Local → Local
reap_local w (aid, lr) l =
    if is_done lr.task
    then settle_local w (classify_end lr.stop (is_raised lr.task) (command_at_end w aid lr))
        (row_at_end w aid lr) (record l { live = none })
    else l

abbrev pub cancel_local : World → String → Local → Local
cancel_local w aid l = record l { live = none; backoff = some w.now }

abbrev pub refresh_local : World → String × KilledRun → Local → Local
refresh_local w (aid, k) l =
    let freed : Local = record l { killed = none } in
    on_some (assignment_of aid w.assignments) freed λ (a : Assignment).
      if resume_cleared k.observed_at a.updated_at (w.latest_command k.run_id k.started_at)
      then freed
      else l

abbrev pub is_held : World → Local → Bool
is_held w l =
    is_some l.killed
    || on_some l.backoff false (λ failed_at. in_backoff failed_at w.now w.restart_backoff)

abbrev pub stop_local : String → Local → Local
stop_local aid l =
    on_some l.live l (λ (lr : LiveRun). record l { live = some (record lr { stop = true }) })

abbrev pub reaped : World → String → Local → Local
reaped w aid l = on_some l.live l (λ (lr : LiveRun). reap_local w (aid, lr) l)

abbrev pub watched : World → String → Local → Local
watched w aid l =
    on_some l.live l (λ (lr : LiveRun). if is_stalled w (aid, lr) then cancel_local w aid l else l)

abbrev pub refreshed : World → String → Local → Local
refreshed w aid l = on_some l.killed l (λ (k : KilledRun). refresh_local w (aid, k) l)

module _ (hash : Assignment → RunKey) where
  abbrev pub start_local : World → String → Local → Local
  start_local w aid l = on_some (assignment_of aid w.assignments) l λ (a : Assignment).
      on_some (start_error w a) (record l { live = some (new_run (hash a) w.now); backoff = none })
        (λ _. record l { backoff = some w.now })

  abbrev pub is_wanted : World → String → LiveRun → Bool
  is_wanted w aid lr =
      on_some (assignment_of aid w.assignments) false
        (λ (a : Assignment). key_eq (hash a) lr.config_hash)

  -- Reap, watch, refresh, then stop a run that is not wanted or start one that is missing.
  abbrev pub adjusted : World → String → Local → Local
  adjusted w aid l =
      on_some l.live (if is_held w l then l else start_local w aid l)
        (λ (lr : LiveRun). if is_wanted w aid lr then l else stop_local aid l)

  abbrev pub pass_local : World → String → Local → Local
  pass_local w aid l = adjusted w aid (refreshed w aid (watched w aid (reaped w aid l)))

-- The dicts have distinct keys.
abbrev pub IsTidy : Supervisor → Type 0
IsTidy s = Distinct s.live × Distinct s.killed × Distinct s.backoff
