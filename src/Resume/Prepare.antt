-- ===== src/Resume/Prepare.antt =====
-- `is_resumable`, `_same_strategy`, `_chain_rows`, `replay_fills` and `prepare_resume`
-- (kaupo/core/resume.py). The digest of an identity is a parameter.
use text.Mathlib.Text.{◌==◌ as str_eq}
use kaupo.Base.{
  ℕ, zero, suc, String, Bool, true, false, not, ◌&&◌, ◌||◌, Option, none, some, List, [], ◌∷◌, map,
  any, length, if◌then◌else◌, get_or, on_some, is_some,
}
use kaupo.Base.Int.{ℤ}
use kaupo.Base.Dict.{Dict, lookup}
use kaupo.Domain.{Timestamp, Fill, eq_string}
use kaupo.Ledger.{Ledger, applied, raised, new_ledger, apply_fill, open_positions}
use kaupo.Engine.{RunStatus, completed, halted}
use kaupo.Supervisor.{Identity, mode_eq}
use kaupo.Resume.State.{
  HaltText, superseded, watchdog_restart, stopped_externally, damaged, valid, RunRow, Archive,
  ResumeState, Asker,
}

-- `_same_strategy`: by the behaviour hash where both have one, else by the version.
unfoldable pub same_strategy : RunRow → Asker → Bool
same_strategy row a =
    let same_version : Bool = str_eq row.strategy_version a.strategy_version in
    on_some row.behaviour_hash same_version λ recorded.
      on_some a.behaviour_hash same_version λ new_hash.
        if str_eq recorded "" || str_eq new_hash "" then same_version else str_eq recorded new_hash

-- The status is "halted".
abbrev pub is_halted : RunStatus → Bool
is_halted halted = true
is_halted _ = false

abbrev pub has_completed : RunStatus → Bool
has_completed completed = true
has_completed _ = false

-- A restart on purpose, by supersession or by the watchdog.
abbrev pub is_deliberate : Option HaltText → Bool
is_deliberate (some superseded) = true
is_deliberate (some watchdog_restart) = true
is_deliberate _ = false

-- The audit log accuses the run of nothing.
abbrev pub is_graceful : Option HaltText → Bool
is_graceful none = true
is_graceful (some stopped_externally) = true
is_graceful _ = false

module _ (digest : Identity → String) where
  unfoldable pub same_identity : RunRow → Asker → Bool
  same_identity row a = str_eq (digest row.identity) (digest a.identity)

  unfoldable pub is_resumable : RunRow → Asker → (recorded : Option HaltText) → Bool
  unfolding same_identity same_strategy
  is_resumable row a recorded =
      let deliberate_restart : Bool = is_halted row.status && is_deliberate row.halt_reason in
      let graceful_stop : Bool =
        mode_eq row.mode a.mode
        && not (is_some row.halt_reason)
        && (has_completed row.status || (is_halted row.status && is_graceful recorded)) in
      is_some row.ended_at
      && (deliberate_restart || graceful_stop)
      && same_strategy row a
      && same_identity row a

-- What the walk to the root of a chain finds; `unfinished` is where the fuel ended.
pub data Walk : Type 0 where
  chain : List RunRow → Walk
  broken unfinished : Walk

-- `_chain_rows`: `later` are the rows so far, the oldest first, and the walk goes on from `row`.
unfoldable pub walk :
    Dict String RunRow
    → (fuel : ℕ) → (seen : List String) → (row : RunRow) → (later : List RunRow) → Walk
walk rows zero seen row later = unfinished
walk rows (suc fuel) seen row later = on_some row.resumed_from (chain (row ∷ later)) λ parent_id.
    on_some (lookup parent_id rows) broken λ parent.
      let rest : Walk = walk rows fuel (parent_id ∷ seen) parent (row ∷ later) in
      if any (str_eq parent_id) seen then broken else rest

-- A step for every row of the database and one more.
unfoldable pub chain_rows : Dict String RunRow → RunRow → Walk
unfolding walk
chain_rows rows tip = walk rows (suc (length rows)) (tip.id ∷ []) tip []

-- `replay_fills`; `none` is a fill that the ledger refuses.
unfoldable pub replay : List Fill → Ledger → Option Ledger
unfolding apply_fill
replay [] l = some l
replay (f ∷ fs) l = elim (apply_fill f l) [ raised _ ↦ none | applied _ l' ↦ replay fs l' ]

unfoldable pub replay_fills : String → ℤ → Timestamp → List Fill → Option Ledger
unfolding replay new_ledger
replay_fills quote starting_cash ts fs = replay fs (new_ledger quote starting_cash ts none false)

-- Why a resume is refused.
pub data ResumeError : Type 0 where
  no_checkpoint bad_checkpoint risk_halt : ResumeError

pub data Prepared : Type 0 where
  fresh : Prepared
  refused : ResumeError → Prepared
  resumed : ResumeState → Prepared

-- The guard on the checkpoint of a predecessor with the same identity and strategy.
unfoldable pub checkpoint_error : RunRow → Option ResumeError
checkpoint_error row = elim row.risk_state [
  | none ↦ if row.needs_checkpoint then some no_checkpoint else none
  | some stored ↦ elim stored [
    | damaged ↦ some bad_checkpoint
    | valid saved ↦ if saved.halted then some risk_halt else none
  ]
]

-- The audit log is asked only of a halted row without a reason.
unfoldable pub audit_reason : Archive → RunRow → Option HaltText
audit_reason db row =
    if is_halted row.status && not (is_some row.halt_reason) then db.recorded_halt row.id else none

unfoldable pub state_from : RunRow → (root : RunRow) → (starting_cash : ℤ) → Ledger → ResumeState
unfolding open_positions
state_from row root starting_cash l = record {
  predecessor_run_id = row.id;
  chain_started_at = get_or row.chain_started_at root.started_at;
  cash = l.cash;
  positions = open_positions l;
  starting_cash = starting_cash;
  quote_baseline = row.quote_baseline;
  risk_checkpoint = row.risk_state;
}

-- The carried state of a chain whose root is given.
unfoldable pub carry : Archive → Asker → RunRow → (root : RunRow) → (rows : List RunRow) → Prepared
unfolding replay_fills state_from
carry db a row root rows = on_some root.starting_cash fresh λ starting_cash.
    on_some
      (replay_fills a.quote_asset starting_cash root.started_at
        (db.fills_of (map (λ (r : RunRow). r.id) rows)))
      fresh λ l. resumed (state_from row root starting_cash l)

unfoldable pub carry_walk : Archive → Asker → RunRow → Walk → Prepared
unfolding carry
carry_walk db a row (chain []) = fresh
carry_walk db a row (chain (root ∷ rows)) = carry db a row root (root ∷ rows)
carry_walk db a row _ = fresh

module _ (digest : Identity → String) where
  unfoldable pub resume_from : Archive → Asker → RunRow → Prepared
  unfolding same_identity same_strategy checkpoint_error is_resumable audit_reason chain_rows
      carry_walk
  resume_from db a row =
      let guard : Option ResumeError =
        if same_identity digest row a && same_strategy row a then checkpoint_error row else none in
      on_some guard
        (if is_resumable digest row a (audit_reason db row)
          then carry_walk db a row (chain_rows db.rows row)
          else fresh)
        refused

  -- `prepare_resume`
  unfoldable pub prepare_resume : Archive → Asker → Prepared
  unfolding resume_from
  prepare_resume db a = on_some db.latest_ended fresh (resume_from db a)
