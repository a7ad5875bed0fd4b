-- ===== src/Engine/Run.antt =====
-- `Engine.run` and `Engine._wind_down` (kaupo/core/engine.py). The candles are a list, and the
-- watchdog's timeout is an exception of the strategy.
use kaupo.Base.{
  ℕ, ◌+◌, Bool, true, false, ◌&&◌, Option, none, some, List, [], ◌∷◌, ◌++◌, ltb, ◌==◌,
  if◌then◌else◌, on_some, get_or,
}
use kaupo.Base.Int.{ℤ, pos, eqb_ℤ}
use kaupo.Domain.{Candle, Order, OrderStatus, cancelled, Fill}
use kaupo.Ledger.{Ledger, applied, raised, position, apply_fill, drain_entries}
use kaupo.Risk.{RiskCheckpoint, checkpoint, notify_trade_result}
use kaupo.Paper.{PaperVenue, liquidate, get_order, cancel_all}
use kaupo.Engine.State.{
  EngineConfig, is_kept, RunStatus, completed, halted, failed, RunHalt, no_halt, stopped_externally,
  by_risk, incomplete, saved, order_row, fill_row, ledger_rows, equity_row, risk_row, finish_row,
  Tick, Engine, Strategy, write_row, equity_at,
}
use kaupo.Engine.Parts.{is_empty}
use kaupo.Engine.Candle.{Flow, done, thrown, process_candle, keep_candle, write_ledger}

pub record RunResult : Type 0 where
  pub status : RunStatus
  pub final_equity : ℤ
  pub num_fills : ℕ
  pub halt_reason : RunHalt

-- How a run ends: with its result, or by the exception that ended it.
pub data RunOutcome (S : Type 0) : Type 0 where
  returned : RunResult → Engine S → RunOutcome S
  escaped : Engine S → RunOutcome S

-- Where the loop stands when it is left: the status, the reason of a halt and the last candle.
pub record Stop (S : Type 0) : Type 0 where
  pub status : RunStatus
  pub reason : RunHalt
  pub last : Option Candle
  pub engine : Engine S

abbrev pub is_cancelled : OrderStatus → Bool
is_cancelled cancelled = true
is_cancelled _ = false

-- `_killed`: a control command has named its reason.
abbrev pub is_killed : RunHalt → Bool
is_killed no_halt = false
is_killed _ = true

abbrev pub is_completed : RunStatus → Bool
is_completed completed = true
is_completed _ = false

unfoldable pub final_price : Option Candle → ℤ
final_price last = on_some last (pos 0) (λ (c : Candle). c.close)

module _ {S : Type 0} where
  abbrev pub and_then : Flow S → (Engine S → Flow S) → Flow S
  and_then (done e) f = f e
  and_then (thrown e) f = thrown e

  -- `record_risk(self.risk.checkpoint())` of a shadow or live run.
  unfoldable pub write_checkpoint : EngineConfig → Engine S → Flow S
  unfolding checkpoint
  write_checkpoint cfg e =
      if is_kept cfg.mode
      then on_some (checkpoint e.risk) (thrown e)
          (λ (c : RiskCheckpoint). done (write_row (risk_row (saved c)) e))
      else done e

  unfoldable pub write_incomplete : EngineConfig → Engine S → Engine S
  write_incomplete cfg e = if is_kept cfg.mode then write_row (risk_row incomplete) e else e

  -- The body of the loop for one candle.
  unfoldable pub warm : EngineConfig → Tick → Engine S → Engine S
  unfolding keep_candle
  warm cfg t e = keep_candle cfg t.candle (record e { clock = some t.candle.ts })

  unfoldable pub run_body : EngineConfig → Strategy S → Tick → Engine S → Flow S
  unfolding write_incomplete write_checkpoint
  run_body cfg strategy t e =
      and_then (process_candle cfg strategy t (write_incomplete cfg e)) (write_checkpoint cfg)

  unfoldable pub run_tick : EngineConfig → Strategy S → (warming : Bool) → Tick → Engine S → Flow S
  unfolding warm run_body
  run_tick cfg strategy warming t e =
      if warming then done (warm cfg t e) else run_body cfg strategy t e

  -- What the end of a candle's body asks the loop to do: to stop, or nothing.
  unfoldable pub stop_after : Candle → Flow S → Option (Stop S)
  stop_after c (thrown e) =
      some (record { status = failed; reason = no_halt; last = some c; engine = e })
  stop_after c (done e) =
      if is_killed e.kill_reason
      then some (record { status = halted; reason = e.kill_reason; last = some c; engine = e })
      else if e.risk.halted
      then some (record {
        status = halted;
        reason = by_risk e.risk.halt_reason;
        last = some c;
        engine = e;
      })
      else none

  abbrev pub engine_of : Flow S → Engine S
  engine_of (done e) = e
  engine_of (thrown e) = e

  -- The loop; `seen` counts the candles so far, and the first `warmup` only fill the history.
  unfoldable pub run_loop :
      EngineConfig → Strategy S → (warmup seen : ℕ) → List Tick → Option Candle → Engine S → Stop S
  unfolding run_tick stop_after
  run_loop cfg strategy warmup seen [] last e = record {
    status = completed;
    reason = no_halt;
    last = last;
    engine = e;
  }
  run_loop cfg strategy warmup seen (t ∷ ts) last e =
      let flow : Flow S = run_tick cfg strategy (ltb seen warmup) t e in
      let rest : Stop S =
        run_loop cfg strategy warmup (seen + 1) ts (some t.candle) (engine_of flow) in
      if t.stopped
      then record { status = halted; reason = stopped_externally; last = last; engine = e }
      else on_some (stop_after t.candle flow) rest (λ (s : Stop S). s)

  -- The fill that ends a completed run, once the ledger has taken it.
  unfoldable pub book_end :
      EngineConfig → Candle → Fill → ℤ → Ledger → PaperVenue → Engine S → Engine S
  unfolding notify_trade_result get_order write_ledger equity_at
  book_end cfg c f realized l v e =
      let told : Engine S = record e {
        venue = v;
        ledger = l;
        risk = notify_trade_result realized e.risk;
      } in
      let ordered : Engine S =
        on_some (get_order f.order_id v) told (λ o. write_row (order_row o) told) in
      let booked : Engine S = write_ledger (write_row (fill_row f) ordered) in
      let counted : Engine S = record booked { fills = booked.fills + 1 } in
      if get_or counted.last_snapshot_ts (c.ts + 1) == c.ts then counted else record counted {
        rows =
            counted.rows
            ++ equity_row c.ts (equity_at cfg c.close counted) counted.ledger.cash (pos 0) ∷ [];
        last_snapshot_ts = some c.ts;
      }

  -- "a perp run can end short: cover it too"; the fill is not guarded against a refusal.
  unfoldable pub close_end : EngineConfig → Candle → Engine S → Flow S
  unfolding position liquidate apply_fill book_end
  close_end cfg c e =
      let size : ℤ = (position cfg.pair e.ledger).size in
      let (f, v) = liquidate cfg.pair size c e.venue in
      if eqb_ℤ size (pos 0) then done e else elim (apply_fill f e.ledger) [
        | raised _ ↦ thrown (record e { venue = v })
        | applied realized l ↦ done (book_end cfg c f realized l v e)
      ]

  unfoldable pub liquidate_end : EngineConfig → RunStatus → Option Candle → Engine S → Flow S
  unfolding write_incomplete write_checkpoint close_end
  liquidate_end cfg status last e = on_some last (done e) λ c.
      if is_completed status && cfg.liquidate_end
      then and_then (close_end cfg c (write_incomplete cfg e)) (write_checkpoint cfg)
      else done e

  unfoldable pub write_cancelled : List Order → Engine S → Engine S
  write_cancelled [] e = e
  write_cancelled (o ∷ os) e =
      write_cancelled os (if is_cancelled o.status then write_row (order_row o) e else e)

  -- The rest of `_wind_down`: open orders are cancelled, leftover entries kept, the run finished.
  unfoldable pub finish : RunStatus → Engine S → Engine S
  unfolding cancel_all write_cancelled drain_entries
  finish status e =
      let (gone, v) = cancel_all e.venue in
      let told : Engine S = write_cancelled gone (record e { venue = v }) in
      let (entries, l) = drain_entries told.ledger in
      let drained : Engine S = record told { ledger = l } in
      write_row (finish_row status)
        (if is_empty entries then drained else write_row (ledger_rows entries) drained)

  -- A failed run winds down and then raises its exception again.
  unfoldable pub wind_down : EngineConfig → Stop S → Flow S → RunOutcome S
  unfolding finish equity_at final_price
  wind_down cfg s (thrown e) = escaped e
  wind_down cfg s (done e) =
      let ended : Engine S = finish s.status e in
      elim s.status [
        | RunStatus.failed ↦ escaped ended
        | _ ↦
            returned
              (record {
                status = s.status;
                final_equity = equity_at cfg (final_price s.last) ended;
                num_fills = ended.fills;
                halt_reason = s.reason;
              })
              ended
      ]

  unfoldable pub conclude : EngineConfig → Stop S → RunOutcome S
  unfolding liquidate_end wind_down
  conclude cfg s = wind_down cfg s (liquidate_end cfg s.status s.last s.engine)

  -- `Engine.run`
  unfoldable pub run_engine :
      EngineConfig → Strategy S → (warmup : ℕ) → List Tick → Engine S → RunOutcome S
  unfolding write_checkpoint run_loop conclude
  run_engine cfg strategy warmup ts e = elim (write_checkpoint cfg e) [
    | thrown e' ↦ escaped e'
    | done e' ↦ conclude cfg (run_loop cfg strategy warmup 0 ts none e')
  ]
