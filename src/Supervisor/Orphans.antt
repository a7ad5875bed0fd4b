-- ===== src/Supervisor/Orphans.antt =====
-- `halt_orphan_runs` of kaupo/core/supervisor.py: the rows that dead processes left as running.
use text.Mathlib.Text.{◌==◌ as str_eq}
use kaupo.Base.{
  ℕ, suc, String, Bool, true, false, not, ◌&&◌, Option, none, some, List, [], ◌∷◌, any,
  if◌then◌else◌,
}
use kaupo.Domain.{Timestamp, timeframe_value}
use kaupo.Engine.{RunMode, is_kept, RunStatus, running, halted}
use kaupo.Supervisor.State.{Assignment, mode_eq}

-- A row of the runs table; its configuration may lack the pair or the timeframe.
pub record StoredRun : Type 0 where
  pub mode : RunMode
  pub strategy_id : String
  pub pair : Option String
  pub timeframe : Option String
  pub status : RunStatus
  pub ended_at : Option Timestamp
  pub halt_reason : Option String

abbrev pub is_running : RunStatus → Bool
is_running running = true
is_running _ = false

-- The rows that the query selects.
abbrev pub is_selected : StoredRun → Bool
is_selected r = is_kept r.mode && is_running r.status

abbrev text_is : String → Option String → Bool
text_is t none = false
text_is t (some s) = str_eq t s

-- The row has the slot of an assignment.
unfoldable pub has_slot : StoredRun → Assignment → Bool
unfolding timeframe_value
has_slot r a =
    mode_eq a.mode r.mode
    && str_eq a.strategy_id r.strategy_id
    && text_is a.pair r.pair
    && text_is (timeframe_value a.timeframe) r.timeframe

abbrev pub halt_row : Timestamp → StoredRun → StoredRun
halt_row now r = record r {
  status = halted;
  ended_at = some now;
  halt_reason = some "no matching assignment";
}

-- The rows afterwards, and how many were halted.
unfoldable pub halt_orphan_runs : Timestamp → List Assignment → List StoredRun → List StoredRun × ℕ
unfolding has_slot
halt_orphan_runs now enabled [] = ([], 0)
halt_orphan_runs now enabled (r ∷ rs) =
    let (rest, count) = halt_orphan_runs now enabled rs in
    if is_selected r && not (any (has_slot r) enabled)
    then (halt_row now r ∷ rest, suc count)
    else (r ∷ rest, count)
