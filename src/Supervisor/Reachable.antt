-- ===== src/Supervisor/Reachable.antt =====
-- The supervisor as a state machine, and what holds in every state that it reaches
-- (kaupo/core/supervisor.py).
use kaupo.Base.{
  ◌≡◌, refl, sym, ◌∙◌, subst, String, false, Option, none, some, if_ind, on_some_ind, arith, ◌⊎◌,
  inl, inr,
}
use kaupo.Base.Keyed.{Distinct}
use kaupo.Domain.{eq_string}
use kaupo.Supervisor.State.{Assignment, RunKey, Task, LiveRun, RunRow, World, Supervisor}
use kaupo.Supervisor.Rules.{
  EndKind, stopped, killed, restart, crashed, resume_cleared, start_error, classify_end,
}
use kaupo.Supervisor.Pass.{
  assignment_of, desired_of, is_stalled, run_pass, end_task, idle, is_done, is_raised,
  command_at_end, row_at_end,
}
use kaupo.Supervisor.Local.{
  Local, slice, settle_local, is_held, start_local, is_wanted, reaped, watched, refreshed, adjusted,
  pass_local, IsTidy,
}
use kaupo.Supervisor.Slices.{end_task-IsOwn, end_local}
use kaupo.Supervisor.Own.{IsOwn-slice}
use kaupo.Supervisor.Refinement.{run_pass-slice, run_pass-IsTidy}

-- The states that passes over any worlds and ends of tasks lead to.
pub data Reaches (hash : Assignment → RunKey) : Supervisor → Type 0 where
  at_start : Reaches hash idle
  after_pass :
      (w : World) (s : Supervisor)
      → Distinct (desired_of hash w.assignments)
      → Reaches hash s
      → Reaches hash (run_pass hash w s)
  after_end :
      (aid : String) (task : Task) (s : Supervisor)
      → Reaches hash s
      → Reaches hash (end_task aid task s)

-- No run is live while a kill holds its assignment down.
abbrev pub IsExclusive : Local → Type 0
IsExclusive l = (l.killed ≡ none) ⊎ (l.live ≡ none)

module _ (w : World) (aid : String) where
  reaped-IsExclusive : (l : Local) → IsExclusive l → IsExclusive (reaped w aid l)
  reaped-IsExclusive l h =
      on_some_ind IsExclusive l.live (λ _. h)
        (λ lr _.
          if_ind IsExclusive (is_done lr.task)
            (λ _.
              settled (classify_end lr.stop (is_raised lr.task) (command_at_end w aid lr))
                (row_at_end w aid lr) l)
            (λ _. h))
    where
      settled :
          (kind : EndKind) (row : Option RunRow) (l : Local)
          → IsExclusive (settle_local w kind row (record l { live = none }))
      settled stopped row l = inr refl
      settled killed (some row) l = inr refl
      settled killed none l = inr refl
      settled restart row l = inr refl
      settled crashed row l = inr refl

  watched-IsExclusive : (l : Local) → IsExclusive l → IsExclusive (watched w aid l)
  watched-IsExclusive l h =
      on_some_ind IsExclusive l.live (λ _. h)
        (λ lr _. if_ind IsExclusive (is_stalled w (aid, lr)) (λ _. inr refl) (λ _. h))

  refreshed-IsExclusive : (l : Local) → IsExclusive l → IsExclusive (refreshed w aid l)
  refreshed-IsExclusive l h =
      on_some_ind IsExclusive l.killed (λ _. h)
        λ k _.
          on_some_ind IsExclusive (assignment_of aid w.assignments) (λ _. inl refl)
            λ a _.
              if_ind IsExclusive
                (resume_cleared k.observed_at a.updated_at (w.latest_command k.run_id k.started_at))
                (λ _. inl refl) (λ _. h)

  module _ (hash : Assignment → RunKey) where
    unkilled : (l : Local) → is_held w l ≡ false → l.killed ≡ none
    unkilled l free = ground arith

    start_local-killed : (l : Local) → (start_local hash w aid l).killed ≡ l.killed
    start_local-killed l =
        let Q : Local → Type 0 = λ l'. l'.killed ≡ l.killed in
        on_some_ind Q (assignment_of aid w.assignments) (λ _. refl)
          λ a _. on_some_ind Q (start_error w a) (λ _. refl) (λ _ _. refl)

    adjusted-IsExclusive : (l : Local) → IsExclusive l → IsExclusive (adjusted hash w aid l)
    adjusted-IsExclusive l h =
        on_some_ind IsExclusive l.live
          (λ _.
            if_ind IsExclusive (is_held w l) (λ _. h)
              (λ free. inl (start_local-killed l ∙ unkilled l free)))
          (λ lr running.
            if_ind IsExclusive (is_wanted hash w aid lr) (λ _. h)
              (λ _. on_some_ind IsExclusive l.live (λ _. h) (λ _ _. inl (clear l h lr running))))
      where
        clear : (l : Local) → IsExclusive l → (lr : LiveRun) → l.live ≡ some lr → l.killed ≡ none
        clear l (inl none_down) lr running = none_down
        clear l (inr none_live) lr running = cc

    pass_local-IsExclusive : (l : Local) → IsExclusive l → IsExclusive (pass_local hash w aid l)
    pass_local-IsExclusive l h =
        adjusted-IsExclusive _
          (refreshed-IsExclusive _ (watched-IsExclusive _ (reaped-IsExclusive l h)))

end_local-IsExclusive : (task : Task) (l : Local) → IsExclusive l → IsExclusive (end_local task l)
end_local-IsExclusive task l h =
    on_some_ind IsExclusive l.live (λ _. h)
      λ lr running. elim h [ inl free ↦ inl free | inr gone ↦ cc ]

pub Reaches-IsTidy : (hash : Assignment → RunKey) (s : Supervisor) → Reaches hash s → IsTidy s
Reaches-IsTidy hash s at_start = (tt, tt, tt)
Reaches-IsTidy hash _ (after_pass w s distinct r) =
    run_pass-IsTidy w hash distinct s (Reaches-IsTidy hash s r)
Reaches-IsTidy hash _ (after_end aid task s r) =
    (end_task-IsOwn aid task).tidy s (Reaches-IsTidy hash s r)

-- In every state that the supervisor reaches, by passes over any settings, assignments and answers of
-- the database with distinct ids, and by tasks that end in any way at any time, an assignment that
-- a kill holds down has no run.
pub Reaches-IsExclusive :
    (hash : Assignment → RunKey) (s : Supervisor)
    → Reaches hash s
    → (aid : String) → IsExclusive (slice aid s)
Reaches-IsExclusive hash s at_start aid = inl refl
Reaches-IsExclusive hash _ (after_pass w s distinct r) aid =
    subst IsExclusive (sym (run_pass-slice w hash distinct aid s (Reaches-IsTidy hash s r)))
      (pass_local-IsExclusive w aid hash (slice aid s) (Reaches-IsExclusive hash s r aid))
Reaches-IsExclusive hash _ (after_end i task s r) aid =
    subst IsExclusive
      (sym (
        IsOwn-slice i (end_task i task) (end_local task) (end_task-IsOwn i task) aid s
          (Reaches-IsTidy hash s r)))
      (if_ind IsExclusive (eq_string.beq aid i)
        (λ _. end_local-IsExclusive task (slice aid s) (Reaches-IsExclusive hash s r aid))
        (λ _. Reaches-IsExclusive hash s r aid))
