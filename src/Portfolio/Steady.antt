-- ===== src/Portfolio/Steady.antt =====
-- The rest of a step of the portfolio engine leaves all positions as they are, so that a whole step keeps
-- venues and ledger in agreement (kaupo/core/portfolio_engine.py).
use kaupo.Base.{
  ◌+◌, arith, ◌≡◌, ap, Bool, Option, none, some, List, [], ◌∷◌, if_ind, on_some_ind, get_or,
}
use kaupo.Base.Int.{int_laws}
use kaupo.Base.Dict.{lookup, insert}
use kaupo.Domain.{Timestamp, Order, OrderIntent, eq_pair, total}
use kaupo.Ledger.{position}
use kaupo.Risk.{RiskManager, Assessment, is_rejected, assess, on_candle as risk_on_candle}
use kaupo.Paper.{PaperVenue, submit}
use kaupo.Engine.{Command, kill, switch, pause, order_from, push_history}
use kaupo.Portfolio.Steps.{Step}
use kaupo.Portfolio.State.{
  PortfolioConfig, Portfolio, Progress, PortfolioStrategy, risk_state, append_history, view_at,
}
use kaupo.Portfolio.Run.{portfolio_of}
use kaupo.Portfolio.Loop.{
  write_ledger, snapshot_equity, keep_valid, submit_one, submit_approved, trade, obey, after_fills,
  step_pairs, process_step,
}
use kaupo.Portfolio.Agree.{Agrees, venues_total-insert, and_then-Agrees, step_pairs-Agrees}

submit-positions : (o : Order) (v : PaperVenue) → (submit o v).positions ≡ v.positions
unfolding submit
submit-positions o v = ground arith

module _ {S : Type 0} where
  pub append_history-Agrees :
      (cfg : PortfolioConfig) (cs : Step) (e : Portfolio S)
      → Agrees e
      → Agrees (append_history cfg cs e)
  unfolding append_history
  append_history-Agrees cfg [] e agrees = agrees
  append_history-Agrees cfg ((p, c) ∷ cs) e agrees =
      append_history-Agrees cfg cs
        (record e {
          history =
              insert p (push_history cfg.lookback c (get_or (lookup p e.history) [])) e.history;
        })
        agrees

  submit_one-Agrees :
      (ts : Timestamp) (a : Assessment) (e : Portfolio S) → Agrees e → Agrees (submit_one ts a e)
  unfolding submit_one
  submit_one-Agrees ts a e (spot, same) =
      if_ind Agrees (is_rejected a.decision) (λ _. (spot, same))
        (λ _.
          on_some_ind Agrees (lookup a.intent.pair e.venues) (λ _. (spot, same))
            (λ v has. (
              spot,
              λ p.
                  let next : PaperVenue = record v { next_id = v.next_id + 1 } in
                  let o : Order = order_from a.intent a.size ts v.next_id in
                  let put = venues_total-insert p a.intent.pair v (submit o next) e.venues has in
                  let kept = ap (total p) (submit-positions o next) in
                  let before = same p in omega int_laws,
            )))

  submit_approved-Agrees :
      (ts : Timestamp) (as' : List Assessment) (e : Portfolio S)
      → Agrees e
      → Agrees (submit_approved ts as' e)
  unfolding submit_approved
  submit_approved-Agrees ts [] e agrees = agrees
  submit_approved-Agrees ts (a ∷ as') e agrees =
      submit_approved-Agrees ts as' (submit_one ts a e) (submit_one-Agrees ts a e agrees)

  module _ (cfg : PortfolioConfig) (strategy : PortfolioStrategy S) (ts : Timestamp) where
    abbrev Q : Progress S → Type 0
    Q r = Agrees (portfolio_of r)

    trade-Agrees : (cs : Step) (e : Portfolio S) → Agrees e → Q (trade cfg strategy ts cs e)
    unfolding trade
    trade-Agrees cs e agrees =
        let kept : Portfolio S = append_history cfg cs e in
        let kept_agrees = append_history-Agrees cfg cs e agrees in
        on_some_ind Q (strategy (view_at cfg cs kept) kept.strategy) (λ _. kept_agrees)
          (λ (r : List OrderIntent × S) _.
            let valid : List OrderIntent × RiskManager = keep_valid cfg r.0 kept.risk in
            let assessed : List Assessment × RiskManager =
              assess valid.1 valid.0 (risk_state cfg kept) in
            submit_approved-Agrees ts assessed.0 (record kept { strategy = r.1; risk = assessed.1 })
              kept_agrees)

    obey-Agrees :
        (cs : Step) (command : Option Command) (e : Portfolio S)
        → Agrees e
        → Q (obey cfg strategy ts cs command e)
    unfolding obey
    obey-Agrees cs (some kill) e agrees = agrees
    obey-Agrees cs (some switch) e agrees = agrees
    obey-Agrees cs (some pause) e agrees = append_history-Agrees cfg cs e agrees
    obey-Agrees cs none e agrees = trade-Agrees cs e agrees

    after_fills-Agrees :
        (cs : Step) (command : Option Command) (e : Portfolio S)
        → Agrees e
        → Q (after_fills cfg strategy ts cs command e)
    unfolding after_fills write_ledger snapshot_equity position
    after_fills-Agrees cs command e agrees =
        let shown : Portfolio S = snapshot_equity cfg ts (write_ledger e) in
        let checked : Bool × RiskManager = risk_on_candle (risk_state cfg shown) shown.risk in
        let watched : Portfolio S = record shown { risk = checked.1 } in
        if_ind Q checked.0 (λ _. obey-Agrees cs command watched agrees) (λ _. agrees)

    -- Where the venues of all pairs together hold, for every pair, what the spot ledger of a portfolio run
    -- holds, they do so after a step, however it ends and whatever the strategy and the commands are.
    pub process_step-Agrees :
        (cs : Step) (command : Option Command) (e : Portfolio S)
        → Agrees e
        → Agrees (portfolio_of (process_step cfg strategy ts cs command e))
    unfolding process_step
    process_step-Agrees cs command e agrees =
        and_then-Agrees (step_pairs cs e) (after_fills cfg strategy ts cs command)
          (step_pairs-Agrees cs e agrees) (after_fills-Agrees cs command)
