-- ===== src/Supervisor/Tests.antt =====
-- Two assignments on a supervisor: the parameters of the first change, the second is killed.
use kaupo.Base.{◌≡◌, refl, ◌-◌, String, false, Option, none, some, [], ◌∷◌, arith}
use kaupo.Base.Int.{pos}
use kaupo.Base.Dict.{lookup}
use kaupo.Domain.{eq_string, seconds, h1, Timestamp}
use kaupo.Engine.{shadow, running}
use kaupo.Supervisor.{
  currency, Assignment, RunKey, kill, LiveRun, KilledRun, World, Supervisor, assignment_config_hash,
  Identity, returned, run_pass, end_task, idle, new_run, is_stalled, desired_of, watchdog_is_stale,
  watchdog_grace, resume_cleared, in_backoff, start_error,
}
use kaupo.Supervisor.Orphans.{StoredRun}
use kaupo.Supervisor.Watchdog.{watchdog_is_stale-healthy}
use kaupo.Base.Keyed.{Distinct}
use kaupo.Supervisor.Local.{IsTidy, slice, pass_local}
use kaupo.Supervisor.Refinement.{run_pass-slice}
use kaupo.Supervisor.Promises.{run_pass-killed, run_pass-backoff, run_pass-replaces}
use kaupo.Supervisor.Reachable.{at_start, after_pass, after_end, IsExclusive, Reaches-IsExclusive}

abbrev assignment : (aid params : String) → Assignment
assignment aid params = record {
  id = aid;
  strategy_id = "trend";
  pair = "BTC/EUR";
  pairs = none;
  timeframe = h1;
  mode = shadow;
  params = params;
  updated_at = 0;
  trading_schedule = none;
  taker_fee_bps = none;
  maker_fee_bps = some (pos 25);
  asset_class = currency;
}

-- The digest of an identity is here the text of its parameters.
abbrev hash : Assignment → RunKey
unfolding assignment_config_hash
hash = assignment_config_hash (pos 80) (pos 40) (λ (i : Identity). i.params)

abbrev world : Timestamp → (first_params : String) → World
world now first_params = record {
  now = now;
  restart_backoff = 60;
  zone = record { to_utc = λ t _. t; to_local = λ t. t };
  settings = record {
    live_trading_enabled = false;
    kraken_api_key = "";
    kraken_api_secret = "";
    live_max_notional = pos 0;
  };
  strategies = ("trend", false) ∷ [];
  assignments = assignment "a" first_params ∷ assignment "b" "slow" ∷ [];
  latest_run = λ aid. some (record { id = aid; started_at = now - 15; last_snapshot_ts = none });
  latest_command = λ run_id _. some kill;
}

abbrev started : Supervisor
unfolding run_pass
started = run_pass hash (world 1000 "fast") idle

-- Both runs start.
both_start :
    (lookup "a" started.live ≡ some (new_run (hash (assignment "a" "fast")) 1000))
    × (lookup "b" started.live ≡ some (new_run (hash (assignment "b" "slow")) 1000))
unfolding started run_pass hash
both_start = (refl, refl)

abbrev fast : LiveRun
fast = new_run (hash (assignment "a" "fast")) 1000

-- The run of "a" is on, "b" is held down by a kill, "c" failed.
abbrev kept : KilledRun
kept = record { run_id = "b"; started_at = 900; observed_at = 990 }

abbrev mixed : Supervisor
mixed = record {
  live = ("a", fast) ∷ [];
  killed = ("b", kept) ∷ [];
  backoff = ("c", 980) ∷ [];
  marked = [];
}

mixed-IsTidy : IsTidy mixed
mixed-IsTidy = ((refl, tt), (refl, tt), (refl, tt))

distinct :
    (now : Timestamp) (params : String) → Distinct (desired_of hash (world now params).assignments)
distinct now params = (refl, (refl, tt))

run_pass-slice_example :
    slice "a" (run_pass hash (world 1015 "quick") mixed)
    ≡ pass_local hash (world 1015 "quick") "a" (slice "a" mixed)
run_pass-slice_example =
    run_pass-slice (world 1015 "quick") hash (distinct 1015 "quick") "a" mixed mixed-IsTidy

run_pass-killed_example :
    (lookup "b" (run_pass hash (world 1015 "fast") mixed).live ≡ none)
    × (lookup "b" (run_pass hash (world 1015 "fast") mixed).killed ≡ some kept)
unfolding resume_cleared
run_pass-killed_example =
    run_pass-killed hash (world 1015 "fast") "b" (distinct 1015 "fast") mixed mixed-IsTidy
      (assignment "b" "slow") kept refl refl refl refl

failed_waits :
    (lookup "c" (run_pass hash (world 1015 "fast") mixed).live ≡ none)
    × (lookup "c" (run_pass hash (world 1015 "fast") mixed).backoff ≡ some 980)
unfolding in_backoff
failed_waits =
    run_pass-backoff hash (world 1015 "fast") "c" (distinct 1015 "fast") mixed mixed-IsTidy 980 refl
      refl refl refl

-- The parameters of "a" change from "fast" to "quick".
run_pass-replaces_example :
    lookup "a"
      (run_pass hash
        (world 1030 "quick")
        (end_task "a" returned (run_pass hash (world 1015 "quick") mixed))).live
    ≡ some (new_run (hash (assignment "a" "quick")) 1030)
unfolding is_stalled hash start_error
run_pass-replaces_example =
    run_pass-replaces hash (world 1015 "quick") (world 1030 "quick") "a" mixed
      (assignment "a" "quick") fast (distinct 1015 "quick") (distinct 1030 "quick") mixed-IsTidy
      refl refl refl refl refl

Reaches-IsExclusive_example : IsExclusive (slice "b" (end_task "b" returned started))
unfolding run_pass started
Reaches-IsExclusive_example =
    Reaches-IsExclusive hash (end_task "b" returned started)
      (after_end "b" returned started
        (after_pass (world 1000 "fast") idle (distinct 1000 "fast") at_start))
      "b"

-- A row of "BTC/EUR" that a dead process left, and one of a pair that nothing is assigned to.
abbrev left : Option String → StoredRun
left pair = record {
  mode = shadow;
  strategy_id = "trend";
  pair = pair;
  timeframe = some "1h";
  status = running;
  ended_at = none;
  halt_reason = none;
}

healthy_is_fresh :
    watchdog_is_stale (world 1000 "fast").zone 3600 10_800 h1 watchdog_grace none ≡ false
unfolding seconds
healthy_is_fresh =
    watchdog_is_stale-healthy (world 1000 "fast").zone 3600 10_800 h1 watchdog_grace none
      (omega arith)
