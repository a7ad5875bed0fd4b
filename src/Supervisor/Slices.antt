-- ===== src/Supervisor/Slices.antt =====
-- Each operation of a pass changes what the dicts say of its own assignment only
-- (kaupo/core/supervisor.py).
use kaupo.Base.{
  ◌≡◌, refl, ap, String, true, Option, none, some, on_some, on_some_ind, Option-cases, [], ◌∷◌,
  ◌++◌, inl, inr,
}
use kaupo.Base.Dict.{lookup, lookup-insert, lookup-insert_self, insert, erase, beq_refl}
use kaupo.Base.Keyed.{lookup-erase, insert-Distinct, erase-Distinct}
use kaupo.Domain.{eq_string}
use kaupo.Supervisor.State.{Task, Assignment, RunKey, LiveRun, KilledRun, RunRow, World}
use kaupo.Supervisor.Rules.{
  EndKind, stopped, killed, restart, crashed, classify_end, resume_cleared, start_error,
}
use kaupo.Supervisor.Pass.{
  is_done, is_raised, assignment_of, row_at_end, command_at_end, back_off, settle_end, reap_one,
  cancel_one, refresh_one, stop_one, end_task, start_one, new_run,
}
use kaupo.Supervisor.Local.{
  Local, slice, settle_local, reap_local, cancel_local, refresh_local, stop_local, start_local,
  IsTidy,
}
use kaupo.Supervisor.Own.{IsOwn, IsOwn-id, IsOwn-compose, IsOwn-if-else, IsOwn-if, IsOwn-on_some}

back_off-IsOwn :
    (w : World) (aid : String) → IsOwn aid (back_off w aid) (λ l. record l { backoff = some w.now })
unfolding back_off
back_off-IsOwn w aid = record {
  tidy = λ s t. (t.0, t.1, insert-Distinct aid w.now s.backoff t.2);
  own = λ s t. rw (lookup-insert_self aid w.now s.backoff) refl;
  other = λ j s t ne. rw (lookup-insert j aid w.now s.backoff, ne) refl;
}

-- Forgetting the run of an assignment.
forget-IsOwn :
    (aid : String)
    → IsOwn aid (λ s. record s { live = erase aid s.live }) (λ l. record l { live = none })
forget-IsOwn aid = record {
  tidy = λ s t. (erase-Distinct aid s.live t.0, t.1, t.2);
  own = λ s t. rw (lookup-erase aid aid s.live t.0, beq_refl aid) refl;
  other = λ j s t ne. rw (lookup-erase j aid s.live t.0, ne) refl;
}

settle_end-IsOwn :
    (w : World) (aid : String) (kind : EndKind) (row : Option RunRow)
    → IsOwn aid (settle_end w aid kind row) (settle_local w kind row)
unfolding settle_end
settle_end-IsOwn w aid stopped row = IsOwn-id aid
settle_end-IsOwn w aid killed (some row) =
    let k : KilledRun = record {
      run_id = row.id;
      started_at = row.started_at;
      observed_at = w.now;
    } in
    record {
      tidy = λ s t. (t.0, insert-Distinct aid k s.killed t.1, t.2);
      own = λ s t. rw (lookup-insert_self aid k s.killed) refl;
      other = λ j s t ne. rw (lookup-insert j aid k s.killed, ne) refl;
    }
settle_end-IsOwn w aid killed none = back_off-IsOwn w aid
settle_end-IsOwn w aid restart row = IsOwn-id aid
settle_end-IsOwn w aid crashed row = back_off-IsOwn w aid

pub reap_one-IsOwn :
    (w : World) (aid : String) (lr : LiveRun)
    → IsOwn aid (reap_one w (aid, lr)) (reap_local w (aid, lr))
unfolding reap_one
reap_one-IsOwn w aid lr = IsOwn-if aid (is_done lr.task) _ _ (
    IsOwn-compose aid _ _ _ _ (forget-IsOwn aid) (
      settle_end-IsOwn w aid (classify_end lr.stop (is_raised lr.task) (command_at_end w aid lr))
        (row_at_end w aid lr)))

pub cancel_one-IsOwn :
    (w : World) (aid : String) → IsOwn aid (cancel_one w aid) (cancel_local w aid)
unfolding cancel_one
cancel_one-IsOwn w aid =
    let forgotten : IsOwn aid
        (λ s. record s { live = erase aid s.live; marked = s.marked ++ aid ∷ [] })
        (λ l. record l { live = none }) =
      let h = forget-IsOwn aid in
      record {
        tidy = λ s t. h.tidy s t;
        own = λ s t. h.own s t;
        other = λ j s t ne. h.other j s t ne;
      } in
    IsOwn-compose aid _ _ _ _ forgotten (back_off-IsOwn w aid)

-- Releasing an assignment that a kill held down.
release-IsOwn :
    (aid : String)
    → IsOwn aid (λ s. record s { killed = erase aid s.killed }) (λ l. record l { killed = none })
release-IsOwn aid = record {
  tidy = λ s t. (t.0, erase-Distinct aid s.killed t.1, t.2);
  own = λ s t. rw (lookup-erase aid aid s.killed t.1, beq_refl aid) refl;
  other = λ j s t ne. rw (lookup-erase j aid s.killed t.1, ne) refl;
}

pub refresh_one-IsOwn :
    (w : World) (aid : String) (k : KilledRun)
    → IsOwn aid (refresh_one w (aid, k)) (refresh_local w (aid, k))
unfolding refresh_one
refresh_one-IsOwn w aid k =
    let free = release-IsOwn aid in
    IsOwn-on_some aid (assignment_of aid w.assignments) _ _ _ _ free (λ a.
      IsOwn-if-else aid
        (resume_cleared k.observed_at a.updated_at (w.latest_command k.run_id k.started_at)) _ _ _ _
        free (IsOwn-id aid))

-- Changing the run of an assignment, if it has one.
change-IsOwn :
    (aid : String) (change : LiveRun → LiveRun)
    → IsOwn aid
        (λ s.
          on_some
            (lookup aid s.live)
            s
            (λ (lr : LiveRun). record s { live = insert aid (change lr) s.live }))
        (λ l. on_some l.live l (λ (lr : LiveRun). record l { live = some (change lr) }))
change-IsOwn aid change = record {
  tidy = λ s t.
      on_some_ind IsTidy (lookup aid s.live) (λ _. t)
        (λ (lr : LiveRun) _. (insert-Distinct aid (change lr) s.live t.0, t.1, t.2));
  own = λ s t. elim (Option-cases (lookup aid s.live)) [
    | inl absent ↦ rw (absent) (ap (λ o. record (slice aid s) { live = o }) absent)
    | inr (lr, found) ↦ rw (found) (rw (lookup-insert_self aid (change lr) s.live) refl)
  ];
  other = λ j s t ne.
      on_some_ind (λ s'. slice j s' ≡ slice j s) (lookup aid s.live) (λ _. refl)
        (λ (lr : LiveRun) _. rw (lookup-insert j aid (change lr) s.live, ne) refl);
}

pub stop_one-IsOwn : (aid : String) → IsOwn aid (stop_one aid) (stop_local aid)
unfolding stop_one
stop_one-IsOwn aid = change-IsOwn aid (λ (lr : LiveRun). record lr { stop = true })

abbrev pub end_local : Task → Local → Local
end_local task l =
    on_some l.live l (λ (lr : LiveRun). record l { live = some (record lr { task = task }) })

pub end_task-IsOwn : (aid : String) (task : Task) → IsOwn aid (end_task aid task) (end_local task)
unfolding end_task
end_task-IsOwn aid task = change-IsOwn aid (λ (lr : LiveRun). record lr { task = task })

module _ (hash : Assignment → RunKey) where
  start-IsOwn :
      (w : World) (aid : String) (a : Assignment)
      → IsOwn aid
          (λ s. record s {
            live = insert aid (new_run (hash a) w.now) s.live;
            backoff = erase aid s.backoff;
          })
          (λ l. record l { live = some (new_run (hash a) w.now); backoff = none })
  start-IsOwn w aid a =
      let run : LiveRun = new_run (hash a) w.now in
      record {
        tidy = λ s t. (insert-Distinct aid run s.live t.0, t.1, erase-Distinct aid s.backoff t.2);
        own = λ s t.
            rw (lookup-insert_self aid run s.live, lookup-erase aid aid s.backoff t.2, beq_refl aid)
              refl;
        other = λ j s t ne.
            rw (lookup-insert j aid run s.live, lookup-erase j aid s.backoff t.2, ne) refl;
      }

  pub start_one-IsOwn :
      (w : World) (aid : String) → IsOwn aid (start_one hash w aid) (start_local hash w aid)
  unfolding start_one
  start_one-IsOwn w aid =
      IsOwn-on_some aid (assignment_of aid w.assignments) _ _ _ _ (IsOwn-id aid) (λ a.
        IsOwn-on_some aid (start_error w a) _ _ _ _ (start-IsOwn w aid a)
          (λ _. back_off-IsOwn w aid))
