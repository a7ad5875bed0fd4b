-- ===== src/Engine/Agree.antt =====
-- On a spot run the venue and the ledger hold the same positions after every candle (kaupo/core/engine.py).
use kaupo.Base.{
  ℕ, all, on_some, ◌≡◌, sym, ap, ◌∙◌, Bool, true, false, Option, some, List, [], if_ind,
  on_some_ind, get_or,
}
use kaupo.Base.Int.{◌+ℤ◌, int_laws}
use kaupo.Base.Dict.{lookup}
use kaupo.Domain.{Pair, flat, eq_pair, Candle, Fill, total}
use kaupo.Ledger.{position}
use kaupo.Paper.{PaperVenue, run_candle, is_priced, drain_new_orders, drain_expired}
use kaupo.Paper.Positions.{traded, run_candle-traded}
use kaupo.Risk.{checkpoint}
use kaupo.Paper.{on_candle as venue_on_candle}
use kaupo.Engine.Induction.{run_loop-keeps}
use kaupo.Engine.State.{is_kept, EngineConfig, Engine, Tick, Strategy, is_perp, write_orders}
use kaupo.Engine.Candle.{
  Flow, done, thrown, apply_fills, settle_fills, write_ledger, snapshot_equity, keep_candle,
  after_fills, process_candle,
}
use kaupo.Engine.Parts.{orders_touched}
use kaupo.Engine.Run.{
  engine_of, and_then, write_checkpoint, write_incomplete, warm, run_body, run_tick, run_loop,
}
use kaupo.Engine.Booking.{apply_fills-IsAhead, apply_fills-perp}
use kaupo.Engine.Keeps.{
  Keeps, Keeps-trans, write_orders-Keeps, snapshot_equity-Keeps, write_ledger-Keeps,
  check_risk-Keeps,
}

-- The ledger is a spot ledger, and for every pair the venue's net position is the ledger's.
abbrev pub Agrees : {S : Type 0} → Engine S → Type 0
Agrees e =
    (e.ledger.perp ≡ false) × ((p : Pair) → total p e.venue.positions ≡ (position p e.ledger).size)

module _ {S : Type 0} where
  Keeps-Agrees : (e e' : Engine S) → Keeps e e' → Agrees e → Agrees e'
  unfolding position
  Keeps-Agrees e e' k (spot, same) =
      (k.same_perp ∙ spot, λ p. rw (k.same_venue, k.same_ledger) (same p))

  write_incomplete-Agrees :
      (cfg : EngineConfig) (e : Engine S) → Agrees e → Agrees (write_incomplete cfg e)
  unfolding write_incomplete
  write_incomplete-Agrees cfg e agrees =
      if_ind Agrees (is_kept cfg.mode) (λ _. agrees) (λ _. agrees)

  write_checkpoint-Agrees :
      (cfg : EngineConfig) (flow : Flow S)
      → Agrees (engine_of flow)
      → Agrees (engine_of (and_then flow (write_checkpoint cfg)))
  unfolding write_checkpoint
  write_checkpoint-Agrees cfg (thrown e) agrees = agrees
  write_checkpoint-Agrees cfg (done e) agrees =
      let Q : Flow S → Type 0 = λ flow. Agrees (engine_of flow) in
      if_ind Q (is_kept cfg.mode)
        (λ _. on_some_ind Q (checkpoint e.risk) (λ _. agrees) (λ _ _. agrees)) (λ _. agrees)

  module _ (cfg : EngineConfig) (strategy : Strategy S) (spot_run : is_perp cfg ≡ false) where
    -- What is ahead by its fills agrees once they are settled.
    settle_fills-Agrees :
        (t : Tick) (fs : List Fill) (e : Engine S)
        → e.ledger.perp ≡ false
        → ((p : Pair) → total p e.venue.positions ≡ (position p e.ledger).size +ℤ traded p fs)
        → Agrees (settle_fills cfg t fs e)
    unfolding settle_fills drain_new_orders drain_expired position traded
    settle_fills-Agrees t fs e spot ahead =
        let (created, v1) = drain_new_orders e.venue in
        let (lapsed, v2) = drain_expired v1 in
        let started : Engine S = record e { venue = v2 } in
        let written : Engine S = write_orders created started in
        let told : Engine S = write_orders lapsed written in
        let k =
          Keeps-trans (write_orders-Keeps created started) (write_orders-Keeps lapsed written) in
        let told_ahead = λ (p : Pair).
          ap (total p) k.same_venue
          ∙ ahead p
          ∙ ap (λ d. (get_or (lookup p d) (flat p)).size +ℤ traded p fs) (sym k.same_ledger) in
        let booked : Engine S = apply_fills cfg fs told in
        let booked_spot = apply_fills-perp cfg fs told (k.same_perp ∙ spot) in
        let after : Agrees booked = (
          booked_spot,
          λ p.
              apply_fills-IsAhead cfg p fs told (k.same_perp ∙ spot) (told_ahead p)
              ∙ omega int_laws,
        ) in
        let touched : Engine S = write_orders (orders_touched [] fs booked.venue) booked in
        let touched_after : Agrees touched =
          Keeps-Agrees booked touched
            (write_orders-Keeps (orders_touched [] fs booked.venue) booked) after in
        rw spot_run
          (Keeps-Agrees touched (write_ledger touched) (write_ledger-Keeps touched) touched_after)

    after_fills-Keeps :
        (t : Tick) (e : Engine S) → Keeps e (engine_of (after_fills cfg strategy t e))
    unfolding after_fills
    after_fills-Keeps t e =
        let shown : Engine S = snapshot_equity cfg t.candle e in
        rw spot_run (
          Keeps-trans (snapshot_equity-Keeps cfg t.candle e)
            (check_risk-Keeps cfg strategy t shown))

    process_candle-Agrees :
        (t : Tick) (e : Engine S) → Agrees e → Agrees (engine_of (process_candle cfg strategy t e))
    unfolding process_candle venue_on_candle
    process_candle-Agrees t e (spot, same) =
        let timed : Engine S = record e { clock = some t.candle.ts } in
        let fills : List Fill = (run_candle t.candle e.venue).0 in
        let worked : Engine S = record timed { venue = (run_candle t.candle e.venue).1 } in
        let settled : Engine S = settle_fills cfg t fills worked in
        let Q : Flow S → Type 0 = λ flow. Agrees (engine_of flow) in
        let ahead = λ (p : Pair).
          run_candle-traded p t.candle e.venue ∙ ap (λ n. n +ℤ traded p fills) (same p) in
        let after =
          Keeps-Agrees settled (engine_of (after_fills cfg strategy t settled))
            (after_fills-Keeps t settled) (settle_fills-Agrees t fills worked spot ahead) in
        if_ind
          (λ (r : Option (List Fill × PaperVenue)). Q (
            on_some r (thrown timed) (λ (r : List Fill × PaperVenue).
              after_fills cfg strategy t (settle_fills cfg t r.0 (record timed { venue = r.1 })))))
          (all (is_priced t.candle) e.venue.limit_open) (λ _. after) (λ _. (spot, same))

    run_body-Agrees :
        (t : Tick) (e : Engine S) → Agrees e → Agrees (engine_of (run_body cfg strategy t e))
    unfolding run_body
    run_body-Agrees t e agrees =
        write_checkpoint-Agrees cfg (process_candle cfg strategy t (write_incomplete cfg e))
          (process_candle-Agrees t (write_incomplete cfg e) (write_incomplete-Agrees cfg e agrees))

    run_tick-Agrees :
        (warming : Bool) (t : Tick) (e : Engine S)
        → Agrees e
        → Agrees (engine_of (run_tick cfg strategy warming t e))
    unfolding run_tick warm keep_candle
    run_tick-Agrees true t e agrees = agrees
    run_tick-Agrees false t e agrees = run_body-Agrees t e agrees

    -- A spot run that starts with the same net positions on the venue as in the ledger ends its loop so,
    -- for every pair, whatever the strategy, the candles, the stops and the commands are.
    pub run_loop-Agrees :
        (warmup seen : ℕ) (ts : List Tick) (last : Option Candle) (e : Engine S)
        → Agrees e
        → Agrees (run_loop cfg strategy warmup seen ts last e).engine
    run_loop-Agrees = run_loop-keeps Agrees cfg strategy run_tick-Agrees
