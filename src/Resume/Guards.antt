-- ===== src/Resume/Guards.antt =====
-- What a run must have been for another to resume from it (kaupo/core/resume.py).
use kaupo.Base.{
  ◌≡◌, refl, sym, ap, ◌∙◌, String, Bool, true, false, not, ◌&&◌, ◌||◌, Option, none, some, List, [],
  ◌∷◌, map, if◌then◌else◌, if_ind, on_some_ind, is_some, arith,
}
use kaupo.Base.Int.{ℤ}
use kaupo.Ledger.{Ledger, open_positions}
use kaupo.Engine.{RunStatus, completed, halted, failed, running}
use kaupo.Supervisor.{Identity, mode_eq}
use kaupo.Resume.State.{HaltText, StoredRisk, damaged, valid, RunRow, Archive, ResumeState, Asker}
use kaupo.Resume.Prepare.{
  same_strategy, same_identity, is_halted, has_completed, is_deliberate, is_graceful, is_resumable,
  Walk, chain, broken, unfinished, chain_rows, replay_fills, Prepared, fresh, refused, resumed,
  checkpoint_error, audit_reason, state_from, carry, carry_walk, resume_from, prepare_resume,
}

abbrev pub OnResumed : (ResumeState → Type 0) → Prepared → Type 0
OnResumed P (resumed state) = P state
OnResumed P _ = Unit {0}

-- No damaged checkpoint, and none of a halted risk manager.
abbrev pub IsClear : Option StoredRisk → Type 0
IsClear none = Unit {0}
IsClear (some damaged) = ⊥
IsClear (some (valid saved)) = saved.halted ≡ false

-- The run that a state is resumed from, with its chain.
pub record IsCarried (digest : Identity → String) (db : Archive) (a : Asker) (row : RunRow)
    (state : ResumeState) : Type 0 where
  pub has_ended : is_some row.ended_at ≡ true
  pub same_run : (same_identity digest row a ≡ true) × (same_strategy row a ≡ true)
  pub risk_clear : IsClear row.risk_state
  pub ended_well : (has_completed row.status || is_halted row.status) ≡ true
  pub unaccused : (is_deliberate row.halt_reason || is_graceful (audit_reason db row)) ≡ true
  pub replayed :
      (root : RunRow) × (rows : List RunRow) × (starting_cash : ℤ) × (l : Ledger) × (chain_rows
          db.rows row
        ≡ chain (root ∷ rows))
      × (replay_fills a.quote_asset starting_cash root.started_at
            (db.fills_of (map (λ (r : RunRow). r.id) (root ∷ rows)))
          ≡ some l)
      × (state.cash ≡ l.cash)
      × (state.positions ≡ open_positions l)

all_of :
    (ended stopped deliberate mode reason done graceful strategy identity : Bool)
    → (ended
        && ((stopped && deliberate) || (mode && not reason && (done || (stopped && graceful))))
        && strategy
        && identity)
      ≡ true
    → (ended ≡ true)
      × (identity ≡ true)
      × (strategy ≡ true)
      × ((done || stopped) ≡ true)
      × ((deliberate || (done || graceful)) ≡ true)
all_of ended stopped deliberate mode reason done graceful strategy identity h = ground arith

either_graceful :
    (deliberate done graceful : Bool)
    → (done ≡ true → graceful ≡ true)
    → (deliberate || (done || graceful)) ≡ true
    → (deliberate || graceful) ≡ true
either_graceful true done graceful f h = refl
either_graceful false true graceful f h = f refl
either_graceful false false graceful f h = h

-- A completed run has no halt in the audit log to look up.
completed_graceful :
    (status : RunStatus) (reason : Bool) (recorded : Option HaltText)
    → has_completed status ≡ true
    → is_graceful (if is_halted status && not reason then recorded else none) ≡ true
completed_graceful completed reason recorded h = refl
completed_graceful running reason recorded h = refl
completed_graceful halted reason recorded h = cc
completed_graceful failed reason recorded h = refl

module _ (digest : Identity → String) (db : Archive) (a : Asker) (row : RunRow) where
  checkpoint_error-IsClear :
      (o : Option StoredRisk) (needs : Bool)
      → checkpoint_error (record row { risk_state = o; needs_checkpoint = needs }) ≡ none
      → IsClear o
  unfolding checkpoint_error
  checkpoint_error-IsClear none needs h = tt
  checkpoint_error-IsClear (some damaged) needs h = cc
  checkpoint_error-IsClear (some (valid saved)) needs h = ground arith

  is_resumable-parts :
      (recorded : Option HaltText)
      → is_resumable digest row a recorded ≡ true
      → (is_some row.ended_at ≡ true)
        × (same_identity digest row a ≡ true)
        × (same_strategy row a ≡ true)
        × ((has_completed row.status || is_halted row.status) ≡ true)
        × ((is_deliberate row.halt_reason || (has_completed row.status || is_graceful recorded))
            ≡ true)
  unfolding is_resumable
  is_resumable-parts recorded h =
      all_of (is_some row.ended_at) (is_halted row.status) (is_deliberate row.halt_reason)
        (mode_eq row.mode a.mode) (is_some row.halt_reason) (has_completed row.status)
        (is_graceful recorded) (same_strategy row a) (same_identity digest row a) h

  unaccused_of :
      (is_deliberate row.halt_reason
          || (has_completed row.status || is_graceful (audit_reason db row)))
        ≡ true
      → (is_deliberate row.halt_reason || is_graceful (audit_reason db row)) ≡ true
  unfolding audit_reason
  unaccused_of h =
      either_graceful (is_deliberate row.halt_reason) (has_completed row.status)
        (is_graceful (audit_reason db row))
        (completed_graceful row.status (is_some row.halt_reason) (db.recorded_halt row.id)) h

  guard-IsClear :
      (same_identity digest row a ≡ true)
      → (same_strategy row a ≡ true)
      → (if same_identity digest row a && same_strategy row a then checkpoint_error row else none)
        ≡ none
      → IsClear row.risk_state
  guard-IsClear identity strategy passed =
      let both : (same_identity digest row a && same_strategy row a) ≡ true =
        rw (identity, strategy) refl in
      checkpoint_error-IsClear row.risk_state row.needs_checkpoint
        (ap (λ b. if b then checkpoint_error row else none) (sym both) ∙ passed)

  from_newest :
      db.latest_ended ≡ some row
      → (p : Prepared) → OnResumed (IsCarried digest db a row) p
      → OnResumed
          (λ state. (row : RunRow) × (db.latest_ended ≡ some row) × IsCarried digest db a row state)
          p
  from_newest latest fresh _ = tt
  from_newest latest (refused _) _ = tt
  from_newest latest (resumed state) carried = (row, latest, carried)

  carry_walk-IsCarried :
      is_resumable digest row a (audit_reason db row) ≡ true
      → IsClear row.risk_state
      → (w : Walk) → chain_rows db.rows row ≡ w
      → OnResumed (IsCarried digest db a row) (carry_walk db a row w)
  unfolding carry_walk carry state_from
  carry_walk-IsCarried ok clear (chain []) _ = tt
  carry_walk-IsCarried ok clear broken _ = tt
  carry_walk-IsCarried ok clear unfinished _ = tt
  carry_walk-IsCarried ok clear (chain (root ∷ rows)) walked =
      let Q : Prepared → Type 0 = OnResumed (IsCarried digest db a row) in
      let (ended, identity, strategy, well, fair) = is_resumable-parts (audit_reason db row) ok in
      on_some_ind Q root.starting_cash (λ _. tt)
        λ starting_cash _.
          on_some_ind Q
            (replay_fills a.quote_asset starting_cash root.started_at
              (db.fills_of (map (λ (r : RunRow). r.id) (root ∷ rows))))
            (λ _. tt)
            λ l replayed. record {
              has_ended = ended;
              same_run = (identity, strategy);
              risk_clear = clear;
              ended_well = well;
              unaccused = unaccused_of fair;
              replayed = (root, rows, starting_cash, l, walked, replayed, refl, refl);
            }

-- A state is resumed only from the newest ended run of the slot, where that run has the same
-- configuration and strategy, completed or was halted for a restart or a graceful stop, and left neither a damaged
-- checkpoint nor a halted one; its cash and its open positions are those of the ledger to which all fills
-- of the run's chain, from its root on, replay.
pub prepare_resume-IsCarried :
    (digest : Identity → String) (db : Archive) (a : Asker)
    → OnResumed
        (λ state. (row : RunRow) × (db.latest_ended ≡ some row) × IsCarried digest db a row state)
        (prepare_resume digest db a)
unfolding prepare_resume resume_from
prepare_resume-IsCarried digest db a =
    let Q : Prepared → Type 0 =
      OnResumed (λ state.
        (row : RunRow) × (db.latest_ended ≡ some row) × IsCarried digest db a row state) in
    on_some_ind Q db.latest_ended (λ _. tt)
      λ row latest.
        on_some_ind Q
          (if same_identity digest row a && same_strategy row a then checkpoint_error row else none)
          (λ passed.
            if_ind Q (is_resumable digest row a (audit_reason db row))
              (λ ok.
                let (_, identity, strategy, _, _) =
                  is_resumable-parts digest db a row (audit_reason db row) ok in
                from_newest digest db a row latest (carry_walk db a row (chain_rows db.rows row)) (
                  carry_walk-IsCarried digest db a row ok
                    (guard-IsClear digest db a row identity strategy passed)
                    (chain_rows db.rows row) refl))
              (λ _. tt))
          (λ _ _. tt)
