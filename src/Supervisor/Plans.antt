-- ===== src/Supervisor/Plans.antt =====
-- Which assignments the plan of a pass stops and starts (kaupo/core/supervisor.py).
use kaupo.Base.{
  ◌≡◌, refl, ap, ◌∙◌, String, Bool, true, false, not, ◌&&◌, Option, none, some, List, [], ◌∷◌, map,
  filter, if◌then◌else◌, on_some, is_some, Bool-cases, inl, inr,
}
use kaupo.Base.Dict.{Dict, lookup, contains}
use kaupo.Base.Keyed.{
  Distinct, index, lookup-map, lookup-filter, lookup-keys, keys-Distinct, map-Distinct,
  filter-Distinct,
}
use kaupo.Domain.{eq_string}
use kaupo.Supervisor.State.{Assignment, RunKey, key_eq, LiveRun, World, Supervisor}
use kaupo.Supervisor.Rules.{is_outdated, reconcile}
use kaupo.Supervisor.Pass.{assignment_of, desired_of, plan_of, is_held_down}
use kaupo.Supervisor.Local.{slice, is_held, is_wanted, IsTidy}

-- The ids of a plan.
abbrev pub ids : List String → Dict String String
ids xs = index (λ (k : String). k) xs

module _ (hash : Assignment → RunKey) where
  pub lookup-desired_of :
      (aid : String) (as' : List Assignment)
      → lookup aid (desired_of hash as') ≡ on_some (assignment_of aid as') none (λ a. some (hash a))
  lookup-desired_of aid [] = refl
  lookup-desired_of aid (a ∷ as') = elim (Bool-cases (eq_string.beq aid a.id)) [
    | inl own ↦ rw (own) refl
    | inr other ↦ rw (other) (lookup-desired_of aid as')
  ]

  abbrev keys_of : Dict String LiveRun → Dict String RunKey
  keys_of d = map (λ (l : String × LiveRun). (l.0, l.1.config_hash)) d

  lookup-keys_of :
      (aid : String) (d : Dict String LiveRun)
      → lookup aid (keys_of d) ≡ on_some (lookup aid d) none (λ lr. some lr.config_hash)
  lookup-keys_of aid d = lookup-map (λ (_ : String) (lr : LiveRun). lr.config_hash) aid d

  is_outdated-is_wanted :
      (w : World) (aid : String) (lr : LiveRun)
      → is_outdated (desired_of hash w.assignments) (aid, lr.config_hash)
        ≡ not (is_wanted hash w aid lr)
  unfolding is_outdated
  is_outdated-is_wanted w aid lr =
      rw (lookup-desired_of aid w.assignments) (wanted (assignment_of aid w.assignments))
    where
      wanted :
          (o : Option Assignment)
          → on_some
              (on_some o none (λ a. some (hash a)))
              true
              (λ (h : RunKey). not (key_eq h lr.config_hash))
            ≡ not (on_some o false (λ (a : Assignment). key_eq (hash a) lr.config_hash))
      wanted none = refl
      wanted (some a) = refl

  -- A plan stops the runs that are not wanted.
  pub lookup-stop :
      (w : World) (aid : String) (s : Supervisor)
      → IsTidy s
      → lookup aid (ids (plan_of hash w s).stop)
        ≡ on_some
            (lookup aid s.live)
            none
            (λ lr. if is_wanted hash w aid lr then none else some aid)
  unfolding plan_of reconcile
  lookup-stop w aid s tidy =
      let desired : Dict String RunKey = desired_of hash w.assignments in
      let running : Dict String RunKey = keys_of s.live in
      let distinct = map-Distinct (λ (_ : String) (lr : LiveRun). lr.config_hash) s.live tidy.0 in
      lookup-keys aid (filter (is_outdated desired) running)
      ∙ ap (λ o. on_some o none (λ _. some aid))
          (lookup-filter (is_outdated desired) aid running distinct)
      ∙ ap
          (λ o.
            on_some (on_some o none (λ h. if is_outdated desired (aid, h) then some h else none))
              none (λ _. some aid))
          (lookup-keys_of aid s.live)
      ∙ chosen (lookup aid s.live)
    where
      pick :
          (h : RunKey) (b c : Bool)
          → b ≡ not c
          → on_some (if b then some h else none) none (λ _. some aid)
            ≡ (if c then none else some aid)
      pick h b true e = rw (e) refl
      pick h b false e = rw (e) refl

      chosen :
          (o : Option LiveRun)
          → on_some
              (on_some (on_some o none (λ lr. some lr.config_hash)) none (λ h.
                if is_outdated (desired_of hash w.assignments) (aid, h) then some h else none))
              none
              (λ _. some aid)
            ≡ on_some o none (λ lr. if is_wanted hash w aid lr then none else some aid)
      chosen none = refl
      chosen (some lr) =
          pick lr.config_hash (is_outdated (desired_of hash w.assignments) (aid, lr.config_hash))
            (is_wanted hash w aid lr) (is_outdated-is_wanted w aid lr)

  pub stop-Distinct :
      (w : World) (s : Supervisor) → IsTidy s → Distinct (ids (plan_of hash w s).stop)
  unfolding plan_of reconcile
  stop-Distinct w s tidy =
      keys-Distinct (filter (is_outdated (desired_of hash w.assignments)) (keys_of s.live)) (
        filter-Distinct (is_outdated (desired_of hash w.assignments)) (keys_of s.live)
          (map-Distinct (λ (_ : String) (lr : LiveRun). lr.config_hash) s.live tidy.0))

  abbrev is_startable : World → Supervisor → String × RunKey → Bool
  is_startable w s d = not (contains d.0 (keys_of s.live)) && not (is_held_down w s d.0)

  -- A plan starts what is desired, neither running nor held down.
  pub lookup-start :
      (w : World) (aid : String) (s : Supervisor)
      → Distinct (desired_of hash w.assignments)
      → lookup aid (ids (plan_of hash w s).start)
        ≡ on_some (assignment_of aid w.assignments) none (λ _.
          if not (is_some (lookup aid s.live)) && not (is_held w (slice aid s))
          then some aid
          else none)
  unfolding plan_of reconcile is_held_down
  lookup-start w aid s distinct =
      let desired : Dict String RunKey = desired_of hash w.assignments in
      lookup-keys aid (filter (is_startable w s) desired)
      ∙ ap (λ o. on_some o none (λ _. some aid))
          (lookup-filter (is_startable w s) aid desired distinct)
      ∙ ap
          (λ o.
            on_some (on_some o none (λ h. if is_startable w s (aid, h) then some h else none)) none
              (λ _. some aid))
          (lookup-desired_of aid w.assignments)
      ∙ chosen (assignment_of aid w.assignments)
    where
      pick :
          (h : RunKey) (b : Bool)
          → on_some (if b then some h else none) none (λ _. some aid)
            ≡ (if b then some aid else none)
      pick h true = refl
      pick h false = refl

      running :
          (o : Option LiveRun) → is_some (on_some o none (λ lr. some lr.config_hash)) ≡ is_some o
      running none = refl
      running (some lr) = refl

      chosen :
          (o : Option Assignment)
          → on_some
              (on_some
                (on_some o none (λ a. some (hash a)))
                none
                (λ h. if is_startable w s (aid, h) then some h else none))
              none
              (λ _. some aid)
            ≡ on_some o none (λ _.
              if not (is_some (lookup aid s.live)) && not (is_held w (slice aid s))
              then some aid
              else none)
      chosen none = refl
      chosen (some a) =
          pick (hash a) (is_startable w s (aid, hash a))
          ∙ ap (λ b. if not b && not (is_held w (slice aid s)) then some aid else none)
              (ap is_some (lookup-keys_of aid s.live) ∙ running (lookup aid s.live))

  pub start-Distinct :
      (w : World) (s : Supervisor)
      → Distinct (desired_of hash w.assignments)
      → Distinct (ids (plan_of hash w s).start)
  unfolding plan_of reconcile
  start-Distinct w s distinct =
      keys-Distinct (filter (is_startable w s) (desired_of hash w.assignments))
        (filter-Distinct (is_startable w s) (desired_of hash w.assignments) distinct)
