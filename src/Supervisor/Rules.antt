-- ===== src/Supervisor/Rules.antt =====
-- The rules of the supervisor that see no task (kaupo/core/supervisor.py), and `check_armed`
-- (kaupo/core/live_runner.py). The default fees, the digest of an identity and the time zones are
-- parameters.
use text.Mathlib.Text.{◌==◌ as str_eq}
use kaupo.Base.{
  ℕ, ◌+◌, ◌*◌, String, Bool, true, false, not, ◌&&◌, ◌||◌, Option, none, some, List, map, filter,
  ltb, is_some, if◌then◌else◌, get_or, on_some,
}
use kaupo.Base.Int.{ℤ, pos, leb_ℤ}
use kaupo.Base.Dict.{Dict, lookup, contains}
use kaupo.Domain.{Timestamp, Timeframe, seconds, eq_string}
use kaupo.Calendar.{TradingSchedule, Zone, candle_due}
use kaupo.Engine.{live}
use kaupo.Supervisor.State.{
  AssetClass, currency, tokenized_asset, Assignment, Identity, RunKey, mode_eq, key_eq, Control,
  kill, switch, resume, Settings, World,
}

-- How a finished task ended, and what the supervisor may do about it.
pub data EndKind : Type 0 where
  stopped killed restart crashed : EndKind

abbrev pub is_kill : Option Control → Bool
is_kill (some kill) = true
is_kill _ = false

abbrev pub is_switch : Option Control → Bool
is_switch (some switch) = true
is_switch _ = false

abbrev pub is_resume : Option Control → Bool
is_resume (some resume) = true
is_resume _ = false

unfoldable pub classify_end : (stop_requested failed : Bool) → Option Control → EndKind
classify_end stop_requested failed command =
    if stop_requested
    then stopped
    else if failed
    then crashed
    else if is_kill command
    then killed
    else if is_switch command
    then restart
    else crashed

-- `now - failed_at < backoff`
unfoldable pub in_backoff : (failed_at now backoff : ℕ) → Bool
in_backoff failed_at now backoff = ltb now (failed_at + backoff)

unfoldable pub resume_cleared : (observed_at updated_at : Timestamp) → Option Control → Bool
resume_cleared observed_at updated_at command = is_resume command || ltb observed_at updated_at

-- `WATCHDOG_GRACE`: ten minutes.
abbrev pub watchdog_grace : ℕ
watchdog_grace = 600

unfoldable pub watchdog_stale_after : Timeframe → (grace : ℕ) → ℕ
unfolding seconds
watchdog_stale_after timeframe grace = 2 * seconds timeframe + grace

unfoldable pub watchdog_is_stale :
    Zone → (reference now : Timestamp) → Timeframe → (grace : ℕ) → Option TradingSchedule → Bool
unfolding watchdog_stale_after candle_due
watchdog_is_stale zone reference now timeframe grace none =
    ltb (reference + watchdog_stale_after timeframe grace) now
watchdog_is_stale zone reference now timeframe grace (some t) =
    candle_due t zone reference now (seconds timeframe) grace

unfoldable pub staleness_reference :
    (task_started_at row_started_at : Timestamp) → (last_snapshot_ts : Option Timestamp) → Timestamp
staleness_reference task_started_at row_started_at last_snapshot_ts =
    if ltb row_started_at task_started_at
    then task_started_at
    else get_or last_snapshot_ts row_started_at

pub record ReconcilePlan : Type 0 where
  pub start : List String
  pub stop : List String

-- A run to stop: its assignment is not desired, or with another hash.
unfoldable pub is_outdated : Dict String RunKey → String × RunKey → Bool
is_outdated desired (aid, live_hash) =
    on_some (lookup aid desired) true (λ (h : RunKey). not (key_eq h live_hash))

-- `reconcile`; the set of held-down ids is its membership test.
unfoldable pub reconcile :
    (desired live : Dict String RunKey) → (held_down : String → Bool) → ReconcilePlan
unfolding is_outdated
reconcile desired running held_down = record {
  start = map (λ d. d.0) (filter (λ d. not (contains d.0 running) && not (held_down d.0)) desired);
  stop = map (λ l. l.0) (filter (is_outdated desired) running);
}

-- Why an assignment is not started.
pub data StartError : Type 0 where
  unknown_strategy live_xstocks live_portfolio disarmed no_credentials bad_notional shape_mismatch :
      StartError

unfoldable pub check_armed : Settings → Option StartError
check_armed s =
    if not s.live_trading_enabled
    then some disarmed
    else if str_eq s.kraken_api_key "" || str_eq s.kraken_api_secret ""
    then some no_credentials
    else if leb_ℤ s.live_max_notional (pos 0)
    then some bad_notional
    else none

abbrev pub is_tokenized : AssetClass → Bool
is_tokenized currency = false
is_tokenized tokenized_asset = true

unfoldable pub live_start_error : Assignment → Settings → Option StartError
unfolding check_armed
live_start_error a s =
    if not (mode_eq a.mode live)
    then none
    else if is_tokenized a.asset_class
    then some live_xstocks
    else if is_some a.pairs
    then some live_portfolio
    else check_armed s

-- The guards of the start loop, in its order.
unfoldable pub start_error : World → Assignment → Option StartError
unfolding live_start_error
start_error w a =
    on_some (lookup a.strategy_id w.strategies) (some unknown_strategy) λ is_portfolio.
      on_some (live_start_error a w.settings)
        (if is_portfolio
          then if is_some a.pairs then none else some shape_mismatch
          else if is_some a.pairs
          then some shape_mismatch
          else none)
        some

module _ (default_taker default_maker : ℤ) (digest : Identity → String) where
  unfoldable pub effective_fees : Assignment → ℤ × ℤ
  effective_fees a = (get_or a.taker_fee_bps default_taker, get_or a.maker_fee_bps default_maker)

  unfoldable pub config_hash : Assignment → String
  config_hash a = digest (record {
    asset_class = if is_tokenized a.asset_class then some a.asset_class else none;
    strategy = a.strategy_id;
    pair = a.pair;
    pairs = a.pairs;
    timeframe = a.timeframe;
    params = a.params;
  })

  unfoldable pub assignment_config_hash : Assignment → RunKey
  unfolding effective_fees config_hash
  assignment_config_hash a =
      let fees : ℤ × ℤ = effective_fees a in
      record { mode = a.mode; identity = config_hash a; taker_bps = fees.0; maker_bps = fees.1 }
