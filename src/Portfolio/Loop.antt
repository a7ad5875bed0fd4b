-- ===== src/Portfolio/Loop.antt =====
-- `PortfolioEngine._track` and `_process_step` with what it calls (kaupo/core/portfolio_engine.py). What the
-- control probe answers is an argument.
use kaupo.Base.{◌+◌, Bool, Option, none, some, List, [], ◌∷◌, ◌++◌, if◌then◌else◌, on_some}
use kaupo.Base.Int.{ℤ}
use kaupo.Base.Dict.{lookup, insert}
use kaupo.Domain.{Pair, Candle, Timestamp, Order, Fill, OrderIntent, eq_pair, on_side}
use kaupo.Ledger.{Ledger, Outcome, applied, raised, apply_fill, drain_entries}
use kaupo.Risk.{
  RiskManager, ledger_rejected, foreign_pair, push_rejection, on_candle as risk_on_candle, assess,
  Assessment, is_rejected, notify_trade_result,
}
use kaupo.Paper.{
  PaperVenue, drain_new_orders, drain_expired, submit, void_fill, on_candle as venue_on_candle,
}
use kaupo.Engine.{
  Command, kill, switch, pause, killed_by_control, switch_requested, order_row, fill_row,
  ledger_rows, equity_row, orders_touched, order_from,
}
use kaupo.Portfolio.Steps.{Step}
use kaupo.Portfolio.State.{
  PortfolioConfig, Portfolio, Progress, going, broken, PortfolioStrategy, in_universe, write_row,
  write_orders, equity_now, risk_state, unrealized_of, append_history, view_at,
}

-- "a foreign pair would otherwise fill against the wrong clock"
unfoldable pub keep_valid :
    PortfolioConfig → List OrderIntent → RiskManager → List OrderIntent × RiskManager
unfolding push_rejection
keep_valid cfg [] m = ([], m)
keep_valid cfg (i ∷ is) m =
    let known : Bool = in_universe cfg i.pair in
    let next : RiskManager = if known then m else push_rejection (i.side, i.pair, foreign_pair) m in
    let rest : List OrderIntent × RiskManager = keep_valid cfg is next in
    (if known then i ∷ rest.0 else rest.0, rest.1)

module _ {S : Type 0} where
  abbrev pub set_venue : Pair → PaperVenue → Portfolio S → Portfolio S
  set_venue p v e = record e { venues = insert p v e.venues }

  -- What is done to the venue of a pair; the constructor sees to it that every pair of the universe has one.
  abbrev pub at_venue : Pair → (PaperVenue → PaperVenue) → Portfolio S → Portfolio S
  at_venue p f e = on_some (lookup p e.venues) e (λ v. set_venue p (f v) e)

  -- `_track`: the clock, the last closes and the last candles.
  unfoldable pub track_prices : Step → Portfolio S → Portfolio S
  track_prices [] e = e
  track_prices ((p, c) ∷ cs) e = track_prices cs (record e {
    last_closes = insert p c.close e.last_closes;
    last_candle = insert p c e.last_candle;
  })

  unfoldable pub track : Timestamp → Step → Portfolio S → Portfolio S
  unfolding track_prices
  track ts candles e = track_prices candles (record e { clock = ts })

  -- "demote to a rejected order and keep venue/ledger/audit consistent"
  unfoldable pub refuse_fill : Pair → Fill → Portfolio S → Portfolio S
  unfolding void_fill push_rejection
  refuse_fill p f e = record (at_venue p (void_fill f) e) {
    risk = push_rejection (f.side, f.pair, ledger_rejected) e.risk;
  }

  unfoldable pub book_fill : Fill → ℤ → Ledger → Portfolio S → Portfolio S
  unfolding notify_trade_result
  book_fill f realized l e = record e {
    ledger = l;
    risk = on_side f.side e.risk (notify_trade_result realized e.risk);
    rows = e.rows ++ fill_row f ∷ [];
    fills = e.fills + 1;
  }

  unfoldable pub take_outcome : Pair → Fill → Outcome → Portfolio S → Portfolio S
  unfolding refuse_fill book_fill
  take_outcome p f (raised _) e = refuse_fill p f e
  take_outcome p f (applied realized l) e = book_fill f realized l e

  unfoldable pub apply_one : Pair → Fill → Portfolio S → Portfolio S
  unfolding take_outcome apply_fill
  apply_one p f e = take_outcome p f (apply_fill f e.ledger) e

  unfoldable pub apply_fills : Pair → List Fill → Portfolio S → Portfolio S
  unfolding apply_one
  apply_fills p [] e = e
  apply_fills p (f ∷ fs) e = apply_fills p fs (apply_one p f e)

  -- Steps 1 and 2 for one pair, once its venue has worked off the candle.
  unfoldable pub settle_pair : Pair → List Fill → PaperVenue → Portfolio S → Portfolio S
  unfolding drain_new_orders drain_expired apply_fills orders_touched
  settle_pair p fills v e =
      let (created, v1) = drain_new_orders v in
      let (lapsed, v2) = drain_expired v1 in
      let told : Portfolio S = write_orders lapsed (write_orders created (set_venue p v2 e)) in
      let booked : Portfolio S = apply_fills p fills told in
      on_some (lookup p booked.venues) booked (λ w. write_orders (orders_touched [] fills w) booked)

  -- A pair without a venue and a failed assertion of the venue are exceptions.
  unfoldable pub step_pair : Pair × Candle → Portfolio S → Progress S
  unfolding settle_pair
  step_pair (p, c) e = on_some (lookup p e.venues) (broken e) (λ v.
      on_some (venue_on_candle c v) (broken e)
        (λ (r : List Fill × PaperVenue). going (settle_pair p r.0 r.1 e)))

  abbrev pub and_then : Progress S → (Portfolio S → Progress S) → Progress S
  and_then (going e) f = f e
  and_then (broken e) f = broken e

  unfoldable pub step_pairs : Step → Portfolio S → Progress S
  unfolding step_pair
  step_pairs [] e = going e
  step_pairs (c ∷ cs) e = and_then (step_pair c e) (step_pairs cs)

  unfoldable pub write_ledger : Portfolio S → Portfolio S
  unfolding drain_entries
  write_ledger e =
      let (entries, l) = drain_entries e.ledger in
      record e { ledger = l; rows = e.rows ++ ledger_rows entries ∷ [] }

  -- Step 3
  unfoldable pub snapshot_equity : PortfolioConfig → Timestamp → Portfolio S → Portfolio S
  unfolding equity_now unrealized_of
  snapshot_equity cfg ts e = record e {
    rows = e.rows ++ equity_row ts (equity_now e) e.ledger.cash (unrealized_of cfg.pairs e) ∷ [];
    last_snapshot_ts = some ts;
  }

  unfoldable pub submit_one : Timestamp → Assessment → Portfolio S → Portfolio S
  unfolding order_from submit
  submit_one ts a e =
      let p : Pair = a.intent.pair in
      let sent : Portfolio S = on_some (lookup p e.venues) e (λ v.
        let o : Order = order_from a.intent a.size ts v.next_id in
        write_row (order_row o)
          (set_venue p (submit o (record v { next_id = v.next_id + 1 })) e)) in
      if is_rejected a.decision then e else sent

  unfoldable pub submit_approved : Timestamp → List Assessment → Portfolio S → Portfolio S
  unfolding submit_one
  submit_approved ts [] e = e
  submit_approved ts (a ∷ as') e = submit_approved ts as' (submit_one ts a e)

  -- Steps 5 and 6
  unfoldable pub trade :
      PortfolioConfig → PortfolioStrategy S → Timestamp → Step → Portfolio S → Progress S
  unfolding append_history view_at keep_valid risk_state assess submit_approved
  trade cfg strategy ts candles e =
      let kept : Portfolio S = append_history cfg candles e in
      on_some (strategy (view_at cfg candles kept) kept.strategy) (broken kept)
        (λ (r : List OrderIntent × S).
          let valid : List OrderIntent × RiskManager = keep_valid cfg r.0 kept.risk in
          let assessed : List Assessment × RiskManager =
            assess valid.1 valid.0 (risk_state cfg kept) in
          going (submit_approved ts assessed.0 (record kept { strategy = r.1; risk = assessed.1 })))

  -- External control: kill and switch halt, pause skips the strategy.
  unfoldable pub obey :
      PortfolioConfig
      → PortfolioStrategy S
      → Timestamp
      → Step
      → Option Command
      → Portfolio S
      → Progress S
  unfolding append_history trade
  obey cfg strategy ts candles (some kill) e = going (record e { kill_reason = killed_by_control })
  obey cfg strategy ts candles (some switch) e = going (record e { kill_reason = switch_requested })
  obey cfg strategy ts candles (some pause) e = going (append_history cfg candles e)
  obey cfg strategy ts candles none e = trade cfg strategy ts candles e

  -- Steps 3 to 6
  unfoldable pub after_fills :
      PortfolioConfig
      → PortfolioStrategy S
      → Timestamp
      → Step
      → Option Command
      → Portfolio S
      → Progress S
  unfolding write_ledger snapshot_equity risk_state risk_on_candle obey
  after_fills cfg strategy ts candles command e =
      let shown : Portfolio S = snapshot_equity cfg ts (write_ledger e) in
      let checked : Bool × RiskManager = risk_on_candle (risk_state cfg shown) shown.risk in
      let watched : Portfolio S = record shown { risk = checked.1 } in
      if checked.0 then obey cfg strategy ts candles command watched else going watched

  -- `_process_step`
  unfoldable pub process_step :
      PortfolioConfig
      → PortfolioStrategy S
      → Timestamp
      → Step
      → Option Command
      → Portfolio S
      → Progress S
  unfolding step_pairs after_fills
  process_step cfg strategy ts candles command e =
      and_then (step_pairs candles e) (after_fills cfg strategy ts candles command)
