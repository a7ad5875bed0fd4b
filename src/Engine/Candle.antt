-- ===== src/Engine/Candle.antt =====
-- `Engine._process_candle` and what it calls (kaupo/core/engine.py).
use kaupo.Base.{
  ◌+◌, Bool, true, ◌&&◌, Option, none, some, List, [], ◌∷◌, ◌++◌, filter, if◌then◌else◌, ltb,
  get_or, on_some,
}
use kaupo.Base.Int.{ℤ, pos, ◌-ℤ◌, ◌*ℤ◌, ◌/ℤ◌, abs, ltb_ℤ, leb_ℤ, eqb_ℤ}
use kaupo.Domain.{Candle, Timestamp, Order, market, Fill, Position, OrderIntent, buy, sell, filled}
use kaupo.Ledger.{
  Ledger, Outcome, applied, raised, position, apply_fill, apply_liquidation_fill, drain_entries,
}
use kaupo.Risk.{
  RiskManager, RiskState, liquidated, ledger_rejected, push_rejection, on_candle as risk_on_candle,
  assess, Assessment, is_rejected,
}
use kaupo.Paper.{
  PaperVenue, drain_new_orders, drain_expired, submit, void_fill, on_candle as venue_on_candle,
}
use kaupo.Engine.Parts.{
  notify_fill, orders_touched, charge_points, last_ts, is_empty, liquidation_fill, ledger_after,
  order_from,
}
use kaupo.Engine.State.{
  EngineConfig, is_perp, Command, kill, switch, pause, killed_by_control, switch_requested,
  order_row, fill_row, ledger_rows, equity_row, FundingPoint, Tick, Engine, Strategy, push_history,
  close_time, write_row, write_orders, equity_at, view_at,
}

-- How the body of a candle ends: normally, or by an exception. Both keep the state.
pub data Flow (S : Type 0) : Type 0 where
  done : Engine S → Flow S
  thrown : Engine S → Flow S

module _ {S : Type 0} where
  -- "the risk manager should prevent this; demote to a rejected order"
  unfoldable pub refuse_fill : Fill → Engine S → Engine S
  unfolding void_fill push_rejection
  refuse_fill f e = record e {
    venue = void_fill f e.venue;
    risk = push_rejection (f.side, f.pair, ledger_rejected) e.risk;
  }

  -- The new ledger, the notified risk manager, and the fill on record.
  unfoldable pub book_fill : EngineConfig → Fill → ℤ → Ledger → Engine S → Engine S
  unfolding notify_fill
  book_fill cfg f realized l e = record e {
    ledger = l;
    risk = notify_fill cfg f realized e.risk;
    rows = e.rows ++ fill_row f ∷ [];
    fills = e.fills + 1;
  }

  unfoldable pub take_outcome : EngineConfig → Fill → Outcome → Engine S → Engine S
  unfolding refuse_fill book_fill
  take_outcome cfg f (raised _) e = refuse_fill f e
  take_outcome cfg f (applied realized l) e = book_fill cfg f realized l e

  unfoldable pub apply_one : EngineConfig → Fill → Engine S → Engine S
  unfolding take_outcome apply_fill
  apply_one cfg f e = take_outcome cfg f (apply_fill f e.ledger) e

  unfoldable pub apply_fills : EngineConfig → List Fill → Engine S → Engine S
  unfolding apply_one
  apply_fills cfg [] e = e
  apply_fills cfg (f ∷ fs) e = apply_fills cfg fs (apply_one cfg f e)

  -- `_apply_funding`
  unfoldable pub fund : EngineConfig → Tick → Engine S → Engine S
  unfolding charge_points position
  fund cfg t e =
      let since : Timestamp = get_or e.last_funding_ts t.candle.ts in
      let events : List FundingPoint = filter (λ (p : FundingPoint). ltb since p.ts) t.points in
      let size : ℤ = (position cfg.pair e.ledger).size in
      let charged : Ledger = charge_points size t.candle.close events e.ledger in
      if is_empty events then e else record e {
        last_funding_ts = some (last_ts since events);
        ledger = if eqb_ℤ size (pos 0) then e.ledger else charged;
      }

  unfoldable pub write_ledger : Engine S → Engine S
  unfolding drain_entries
  write_ledger e =
      let (entries, l) = drain_entries e.ledger in
      record e { ledger = l; rows = e.rows ++ ledger_rows entries ∷ [] }

  -- Steps 1 and 2, once the venue has worked off the candle.
  unfoldable pub settle_fills : EngineConfig → Tick → List Fill → Engine S → Engine S
  unfolding drain_new_orders drain_expired apply_fills orders_touched is_perp fund write_ledger
  settle_fills cfg t fills e =
      let (created, v1) = drain_new_orders e.venue in
      let (lapsed, v2) = drain_expired v1 in
      let told : Engine S = write_orders lapsed (write_orders created (record e { venue = v2 })) in
      let booked : Engine S = apply_fills cfg fills told in
      let touched : Engine S = write_orders (orders_touched [] fills booked.venue) booked in
      write_ledger (if is_perp cfg then fund cfg t touched else touched)

  -- `_unrealized`
  unfoldable pub unrealized : EngineConfig → ℤ → Engine S → ℤ
  unfolding position
  unrealized cfg price e =
      let p : Position = position cfg.pair e.ledger in p.size *ℤ (price -ℤ p.avg_entry)

  -- Step 3
  unfoldable pub snapshot_equity : EngineConfig → Candle → Engine S → Engine S
  unfolding equity_at unrealized
  snapshot_equity cfg c e = record e {
    rows =
        e.rows
        ++ equity_row c.ts (equity_at cfg c.close e) e.ledger.cash (unrealized cfg c.close e) ∷ [];
    last_snapshot_ts = some c.ts;
  }

  -- The order of `_liquidate`; its time of creation, which the source takes from the wall clock, is here
  -- the close of the candle.
  unfoldable pub liquidation_order : EngineConfig → Candle → ℤ → Engine S → Order
  unfolding close_time
  liquidation_order cfg c size e = record {
    pair = cfg.pair;
    side = if ltb_ℤ size (pos 0) then buy else sell;
    order_type = market;
    size = abs size;
    limit_price = none;
    stop_loss = none;
    take_profit = none;
    id = e.venue.next_id;
    status = filled;
    created_ts = close_time cfg c;
    filled_price = some c.close;
    filled_ts = some (close_time cfg c);
    fee = abs size *ℤ c.close *ℤ e.risk.config.taker_fee_bps /ℤ pos 10_000;
    taker_or_maker = none;
    fee_currency = none;
  }

  -- The next order takes the next id.
  abbrev pub take_id : Engine S → Engine S
  take_id e = record e { venue = record e.venue { next_id = e.venue.next_id + 1 } }

  -- `_liquidate`; a forced fill is never refused.
  unfoldable pub liquidate_position : EngineConfig → Candle → Engine S → Engine S
  unfolding position liquidation_order liquidation_fill apply_liquidation_fill write_ledger
  liquidate_position cfg c e =
      let size : ℤ = (position cfg.pair e.ledger).size in
      let o : Order = liquidation_order cfg c size e in
      let f : Fill = liquidation_fill cfg c o in
      let closed : Engine S = record (take_id e) {
        ledger = ledger_after e.ledger (apply_liquidation_fill f e.ledger);
        rows = e.rows ++ (order_row o ∷ fill_row f ∷ []);
        fills = e.fills + 1;
      } in
      if eqb_ℤ size (pos 0) then e else write_ledger closed

  -- The perp liquidation rail.
  unfoldable pub deplete : EngineConfig → Candle → Engine S → Engine S
  unfolding liquidate_position
  deplete cfg c e =
      let closed : Engine S = liquidate_position cfg c e in
      record closed { risk = record closed.risk { halted = true; halt_reason = liquidated } }

  -- `_risk_state`
  unfoldable pub risk_state : EngineConfig → Candle → Engine S → RiskState
  unfolding close_time position equity_at
  risk_state cfg c e = record {
    ts = close_time cfg c;
    cash = e.ledger.cash;
    positions = (cfg.pair, position cfg.pair e.ledger) ∷ [];
    prices = (cfg.pair, c.close) ∷ [];
    equity = equity_at cfg c.close e;
  }

  unfoldable pub submit_one : Candle → Assessment → Engine S → Engine S
  unfolding order_from submit
  submit_one c a e =
      let o : Order = order_from a.intent a.size c.ts e.venue.next_id in
      let numbered : Engine S = take_id e in
      if is_rejected a.decision
      then e
      else write_row (order_row o) (record numbered { venue = submit o numbered.venue })

  unfoldable pub submit_approved : Candle → List Assessment → Engine S → Engine S
  unfolding submit_one
  submit_approved c [] e = e
  submit_approved c (a ∷ as') e = submit_approved c as' (submit_one c a e)

  unfoldable pub keep_candle : EngineConfig → Candle → Engine S → Engine S
  unfolding push_history
  keep_candle cfg c e = record e { history = push_history cfg.lookback c e.history }

  -- Steps 5 and 6.
  unfoldable pub trade : EngineConfig → Strategy S → Candle → Engine S → Flow S
  unfolding keep_candle view_at risk_state assess submit_approved
  trade cfg strategy c e =
      let kept : Engine S = keep_candle cfg c e in
      on_some (strategy (view_at cfg c kept) kept.strategy) (thrown kept)
        (λ (r : List OrderIntent × S).
          let assessed : List Assessment × RiskManager =
            assess kept.risk r.0 (risk_state cfg c kept) in
          done (submit_approved c assessed.0 (record kept { strategy = r.1; risk = assessed.1 })))

  -- External control: kill and switch halt, pause skips the strategy.
  unfoldable pub obey : EngineConfig → Strategy S → Candle → Option Command → Engine S → Flow S
  unfolding keep_candle trade
  obey cfg strategy c (some kill) e = done (record e { kill_reason = killed_by_control })
  obey cfg strategy c (some switch) e = done (record e { kill_reason = switch_requested })
  obey cfg strategy c (some pause) e = done (keep_candle cfg c e)
  obey cfg strategy c none e = trade cfg strategy c e

  -- Step 4, and what follows unless it halts the run.
  unfoldable pub check_risk : EngineConfig → Strategy S → Tick → Engine S → Flow S
  unfolding risk_state risk_on_candle obey
  check_risk cfg strategy t e =
      let checked : Bool × RiskManager = risk_on_candle (risk_state cfg t.candle e) e.risk in
      let e' : Engine S = record e { risk = checked.1 } in
      if checked.0 then obey cfg strategy t.candle t.command e' else done e'

  -- Steps 3 to 6.
  unfoldable pub after_fills : EngineConfig → Strategy S → Tick → Engine S → Flow S
  unfolding equity_at snapshot_equity deplete check_risk is_perp
  after_fills cfg strategy t e =
      let shown : Engine S = snapshot_equity cfg t.candle e in
      if is_perp cfg && leb_ℤ (equity_at cfg t.candle.close e) (pos 0)
      then done (deplete cfg t.candle shown)
      else check_risk cfg strategy t shown

  -- `_process_candle`. A failed assertion of the venue is an exception.
  unfoldable pub process_candle : EngineConfig → Strategy S → Tick → Engine S → Flow S
  unfolding settle_fills after_fills
  process_candle cfg strategy t e =
      let timed : Engine S = record e { clock = some t.candle.ts } in
      on_some (venue_on_candle t.candle e.venue) (thrown timed) (λ (r : List Fill × PaperVenue).
        after_fills cfg strategy t (settle_fills cfg t r.0 (record timed { venue = r.1 })))
