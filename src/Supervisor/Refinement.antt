-- ===== src/Supervisor/Refinement.antt =====
-- A pass of the supervisor is a step of the state machine of each assignment (kaupo/core/supervisor.py).
use kaupo.Base.{
  ◌≡◌, refl, sym, ap, ◌∙◌, String, Bool, true, false, not, ◌&&◌, Option, none, some, List, filter,
  for_each, if◌then◌else◌, if_ind, on_some, is_some,
}
use kaupo.Base.Dict.{lookup}
use kaupo.Base.Keyed.{
  Distinct, index, for_each-view, for_each-keeps, lookup-items, items-Distinct, lookup-keys,
  keys-Distinct, lookup-filter, filter-Distinct, on_some-on_some,
}
use kaupo.Domain.{eq_string}
use kaupo.Supervisor.State.{Assignment, RunKey, LiveRun, World, Supervisor}
use kaupo.Supervisor.Rules.{ReconcilePlan}
use kaupo.Supervisor.Pass.{
  assignment_of, desired_of, plan_of, reap_one, reap_finished, is_stalled, stalled_runs, cancel_one,
  refresh_one, refresh_killed, stop_one, start_one, run_pass,
}
use kaupo.Supervisor.Local.{
  Local, slice, reap_local, cancel_local, refresh_local, is_held, stop_local, start_local,
  is_wanted, reaped, watched, refreshed, adjusted, pass_local, IsTidy,
}
use kaupo.Supervisor.Slices.{
  reap_one-IsOwn, cancel_one-IsOwn, refresh_one-IsOwn, stop_one-IsOwn, start_one-IsOwn,
}
use kaupo.Supervisor.Own.{IsOwn, IsOwn-slice}
use kaupo.Supervisor.Plans.{lookup-stop, stop-Distinct, lookup-start, start-Distinct}

-- A loop whose operations are each on an assignment of their own.
module _ {A : Type 0} (key : A → String) (f : A → Supervisor → Supervisor) (g : A → Local → Local)
    (own : (x : A) → IsOwn (key x) (f x) (g x)) where
  loop-IsTidy : (xs : List A) (s : Supervisor) → IsTidy s → IsTidy (for_each f xs s)
  loop-IsTidy =
      for_each-keeps key IsTidy slice f g (λ x s t. (own x).tidy s t)
        (λ j x s t. IsOwn-slice (key x) (f x) (g x) (own x) j s t)

  loop-slice :
      (aid : String) (xs : List A) (s : Supervisor)
      → Distinct (index key xs)
      → IsTidy s
      → slice aid (for_each f xs s)
        ≡ on_some (lookup aid (index key xs)) (slice aid s) (λ x. g x (slice aid s))
  loop-slice =
      for_each-view key IsTidy slice f g (λ x s t. (own x).tidy s t)
        (λ j x s t. IsOwn-slice (key x) (f x) (g x) (own x) j s t)

module _ (w : World) where
  abbrev first : {V : Type 0} → String × V → String
  first x = x.0

  reap_finished-IsTidy : (s : Supervisor) → IsTidy s → IsTidy (reap_finished w s)
  unfolding reap_finished
  reap_finished-IsTidy s t =
      loop-IsTidy first (reap_one w) (reap_local w) (λ x. reap_one-IsOwn w x.0 x.1) s.live s t

  reap_finished-slice :
      (aid : String) (s : Supervisor)
      → IsTidy s
      → slice aid (reap_finished w s) ≡ reaped w aid (slice aid s)
  unfolding reap_finished
  reap_finished-slice aid s t =
      loop-slice first (reap_one w) (reap_local w) (λ x. reap_one-IsOwn w x.0 x.1) aid s.live s
        (items-Distinct s.live t.0) t
      ∙ ap (λ o. on_some o (slice aid s) (λ x. reap_local w x (slice aid s)))
          (lookup-items aid s.live)
      ∙ on_some-on_some (lookup aid s.live) (λ v. some (aid, v)) (slice aid s)
          (λ x. reap_local w x (slice aid s))

  watch-IsTidy : (s : Supervisor) → IsTidy s → IsTidy (for_each (cancel_one w) (stalled_runs w s) s)
  watch-IsTidy s t =
      loop-IsTidy (λ aid. aid) (cancel_one w) (cancel_local w) (cancel_one-IsOwn w)
        (stalled_runs w s) s t

  watch-slice :
      (aid : String) (s : Supervisor)
      → IsTidy s
      → slice aid (for_each (cancel_one w) (stalled_runs w s) s) ≡ watched w aid (slice aid s)
  unfolding stalled_runs
  watch-slice aid s t =
      let l : Local = slice aid s in
      let cancel = λ (i : String). cancel_local w i l in
      loop-slice (λ aid. aid) (cancel_one w) (cancel_local w) (cancel_one-IsOwn w) aid
        (stalled_runs w s) s
        (keys-Distinct (filter (is_stalled w) s.live) (filter-Distinct (is_stalled w) s.live t.0)) t
      ∙ ap (λ o. on_some o l cancel)
          (lookup-keys aid (filter (is_stalled w) s.live)
            ∙ ap (λ o. on_some o none (λ _. some aid))
                (lookup-filter (is_stalled w) aid s.live t.0))
      ∙ chosen (lookup aid s.live)
    where
      pick :
          (lr : LiveRun) (b : Bool)
          → on_some
              (on_some (if b then some lr else none) none (λ _. some aid))
              (slice aid s)
              (λ i. cancel_local w i (slice aid s))
            ≡ (if b then cancel_local w aid (slice aid s) else slice aid s)
      pick lr true = refl
      pick lr false = refl

      chosen :
          (o : Option LiveRun)
          → on_some
              (on_some
                (on_some o none (λ lr. if is_stalled w (aid, lr) then some lr else none))
                none
                (λ _. some aid))
              (slice aid s)
              (λ i. cancel_local w i (slice aid s))
            ≡ on_some o (slice aid s) (λ lr.
              if is_stalled w (aid, lr) then cancel_local w aid (slice aid s) else slice aid s)
      chosen none = refl
      chosen (some lr) = pick lr (is_stalled w (aid, lr))

  refresh_killed-IsTidy : (s : Supervisor) → IsTidy s → IsTidy (refresh_killed w s)
  unfolding refresh_killed
  refresh_killed-IsTidy s t =
      loop-IsTidy first (refresh_one w) (refresh_local w) (λ x. refresh_one-IsOwn w x.0 x.1)
        s.killed s t

  refresh_killed-slice :
      (aid : String) (s : Supervisor)
      → IsTidy s
      → slice aid (refresh_killed w s) ≡ refreshed w aid (slice aid s)
  unfolding refresh_killed
  refresh_killed-slice aid s t =
      loop-slice first (refresh_one w) (refresh_local w) (λ x. refresh_one-IsOwn w x.0 x.1) aid
        s.killed s (items-Distinct s.killed t.1) t
      ∙ ap (λ o. on_some o (slice aid s) (λ x. refresh_local w x (slice aid s)))
          (lookup-items aid s.killed)
      ∙ on_some-on_some (lookup aid s.killed) (λ v. some (aid, v)) (slice aid s)
          (λ x. refresh_local w x (slice aid s))

  module _ (hash : Assignment → RunKey) (distinct : Distinct (desired_of hash w.assignments)) where
    start_local-absent :
        (aid : String) (l : Local)
        → assignment_of aid w.assignments ≡ none
        → start_local hash w aid l ≡ l
    start_local-absent aid l absent = rw (absent) refl

    start_if :
        (aid : String) (l : Local) (held : Bool)
        → on_some (if not held then some aid else none) l (λ i. start_local hash w i l)
          ≡ (if held then l else start_local hash w aid l)
    start_if aid l true = refl
    start_if aid l false = refl

    stop_unless :
        (aid : String) (l : Local) (wanted : Bool)
        → on_some (if wanted then none else some aid) l (λ i. stop_local i l)
          ≡ (if wanted then l else stop_local aid l)
    stop_unless aid l true = refl
    stop_unless aid l false = refl

    -- The loops that stop and start, for one assignment.
    chosen :
        (aid : String) (l : Local) (run : Option LiveRun) (o : Option Assignment)
        → l.live ≡ run
        → assignment_of aid w.assignments ≡ o
        → (let l' : Local =
              on_some
                (on_some run none (λ lr. if is_wanted hash w aid lr then none else some aid))
                l
                (λ i. stop_local i l) in
            on_some
              (on_some o none
                (λ _. if not (is_some run) && not (is_held w l) then some aid else none))
              l'
              (λ i. start_local hash w i l'))
          ≡ on_some run
              (if is_held w l then l else start_local hash w aid l)
              (λ lr. if is_wanted hash w aid lr then l else stop_local aid l)
    chosen aid l none none idle absent =
        if_ind (λ l'. l ≡ l') (is_held w l) (λ _. refl) (λ _. sym (start_local-absent aid l absent))
    chosen aid l none (some a) idle found = start_if aid l (is_held w l)
    chosen aid l (some lr) none running _ = stop_unless aid l (is_wanted hash w aid lr)
    chosen aid l (some lr) (some a) running _ = stop_unless aid l (is_wanted hash w aid lr)

    adjust-slice :
        (aid : String) (s : Supervisor)
        → IsTidy s
        → slice aid (
            for_each
              (start_one hash w)
              (plan_of hash w s).start
              (for_each stop_one (plan_of hash w s).stop s))
          ≡ adjusted hash w aid (slice aid s)
    adjust-slice aid s t =
        let plan : ReconcilePlan = plan_of hash w s in
        let l : Local = slice aid s in
        let halted : Supervisor = for_each stop_one plan.stop s in
        let halted_slice =
          loop-slice (λ aid. aid) stop_one stop_local stop_one-IsOwn aid plan.stop s
            (stop-Distinct hash w s t) t
          ∙ ap (λ o. on_some o l (λ i. stop_local i l)) (lookup-stop hash w aid s t) in
        loop-slice (λ aid. aid) (start_one hash w) (start_local hash w) (start_one-IsOwn hash w) aid
          plan.start halted (start-Distinct hash w s distinct)
          (loop-IsTidy (λ aid. aid) stop_one stop_local stop_one-IsOwn plan.stop s t)
        ∙ ap (λ o. on_some o (slice aid halted) (λ i. start_local hash w i (slice aid halted)))
            (lookup-start hash w aid s distinct)
        ∙ ap
            (λ l'.
              on_some
                (on_some (assignment_of aid w.assignments) none (λ _.
                  if not (is_some (lookup aid s.live)) && not (is_held w l)
                  then some aid
                  else none))
                l' (λ i. start_local hash w i l'))
            halted_slice
        ∙ chosen aid l (lookup aid s.live) (assignment_of aid w.assignments) refl refl

    pub run_pass-IsTidy : (s : Supervisor) → IsTidy s → IsTidy (run_pass hash w s)
    unfolding run_pass
    run_pass-IsTidy s t =
        let r : Supervisor = reap_finished w s in
        let v : Supervisor = for_each (cancel_one w) (stalled_runs w r) r in
        let f : Supervisor = refresh_killed w v in
        let plan : ReconcilePlan = plan_of hash w f in
        loop-IsTidy (λ aid. aid) (start_one hash w) (start_local hash w) (start_one-IsOwn hash w)
          plan.start (for_each stop_one plan.stop f)
          (loop-IsTidy (λ aid. aid) stop_one stop_local stop_one-IsOwn plan.stop f
            (refresh_killed-IsTidy v (watch-IsTidy r (reap_finished-IsTidy s t))))

    -- Where the enabled assignments have distinct ids and the dicts distinct keys, a pass over all runs
    -- does to each assignment what the state machine of one assignment does, whatever the others do.
    pub run_pass-slice :
        (aid : String) (s : Supervisor)
        → IsTidy s
        → slice aid (run_pass hash w s) ≡ pass_local hash w aid (slice aid s)
    unfolding run_pass
    run_pass-slice aid s t =
        let r : Supervisor = reap_finished w s in
        let v : Supervisor = for_each (cancel_one w) (stalled_runs w r) r in
        let f : Supervisor = refresh_killed w v in
        let rt = reap_finished-IsTidy s t in
        let vt = watch-IsTidy r rt in
        adjust-slice aid f (refresh_killed-IsTidy v vt)
        ∙ ap (adjusted hash w aid) (
            refresh_killed-slice aid v vt
            ∙ ap (refreshed w aid)
                (watch-slice aid r rt ∙ ap (watched w aid) (reap_finished-slice aid s t)))
