-- ===== src/Resume/Tests.antt =====
-- A run that was superseded, whose chain has one more run before it.
use kaupo.Base.{◌≡◌, refl, String, Bool, true, false, Option, none, some, [], ◌∷◌}
use kaupo.Base.Int.{pos, ◌+ℤ◌, ◌-ℤ◌, ◌*ℤ◌, ◌/ℤ◌}
use kaupo.Domain.{Pair, buy, h1}
use kaupo.Risk.{no_reason}
use kaupo.Engine.{shadow, halted}
use kaupo.Supervisor.{Identity}
use kaupo.Resume.{
  RunRow, Archive, Asker, superseded, valid, prepare_resume, chain_rows, refused, risk_halt, broken,
}
use kaupo.Resume.Chain.{IsWalk, chain_rows-IsWalk}
use kaupo.Resume.Guards.{OnResumed, IsCarried, prepare_resume-IsCarried}

abbrev identity : Identity
identity = record {
  asset_class = none;
  strategy = "trend";
  pair = "BTC/EUR";
  pairs = none;
  timeframe = h1;
  params = "{}";
}

-- A run of the chain; `stopped` is whether its risk manager had halted.
abbrev row : (id : String) → (parent : Option String) → (stopped : Bool) → RunRow
row id parent stopped = record {
  id = id;
  mode = shadow;
  status = halted;
  strategy_version = "1";
  started_at = 100;
  ended_at = some 900;
  halt_reason = some superseded;
  identity = identity;
  behaviour_hash = none;
  resumed_from = parent;
  starting_cash = some (pos 1000);
  chain_started_at = none;
  quote_baseline = none;
  needs_checkpoint = true;
  risk_state = some (
      valid (record {
        day = none;
        day_start_floor = pos 0;
        last_floor = none;
        consecutive_losses = 0;
        cooldown_remaining = 0;
        halted = stopped;
        halt_reason = no_reason;
      }));
}

abbrev btc : Pair
btc = record { base = "BTC"; quote = "EUR" }

abbrev archive : (stopped : Bool) → Archive
archive stopped = record {
  latest_ended = some (row "second" (some "first") stopped);
  rows = ("first", row "first" none false) ∷ ("second", row "second" (some "first") stopped) ∷ [];
  recorded_halt = λ _. none;
  fills_of = λ _.
      record {
        order_id = 1;
        pair = btc;
        side = buy;
        ts = 500;
        price = pos 100;
        size = pos 2;
        fee = pos 4;
        taker_or_maker = none;
        fee_currency = none;
      }
      ∷ [];
}

abbrev asker : Asker
asker = record {
  mode = shadow;
  strategy_version = "1";
  behaviour_hash = none;
  identity = identity;
  quote_asset = "EUR";
}

abbrev digest : Identity → String
digest i = i.params

-- The cash left after the purchase is carried, unless the risk manager of the run had halted.
carried_cash :
    OnResumed (λ state. state.cash ≡ pos 796) (prepare_resume digest (archive false) asker)
unfolding prepare_resume ◌+ℤ◌ ◌-ℤ◌ ◌*ℤ◌ ◌/ℤ◌
carried_cash = refl

halt_refused : prepare_resume digest (archive true) asker ≡ refused risk_halt
unfolding prepare_resume
halt_refused = refl

prepare_resume-IsCarried_example :
    OnResumed
      (λ state.
        (r : RunRow) × ((archive false).latest_ended ≡ some r)
        × IsCarried digest (archive false) asker r state)
      (prepare_resume digest (archive false) asker)
prepare_resume-IsCarried_example = prepare_resume-IsCarried digest (archive false) asker

chain_rows-IsWalk_example :
    IsWalk
      (archive false).rows
      (row "second" (some "first") false)
      (chain_rows (archive false).rows (row "second" (some "first") false))
chain_rows-IsWalk_example =
    chain_rows-IsWalk (archive false).rows (row "second" (some "first") false)

-- A chain that leads back to itself is broken.
cycle_broken :
    chain_rows
      (("a", row "a" (some "b") false) ∷ ("b", row "b" (some "a") false) ∷ [])
      (row "a" (some "b") false)
    ≡ broken
unfolding chain_rows
cycle_broken = refl
