-- ===== src/Engine/Keeps.antt =====
-- The steps of a candle that leave the positions of venue and ledger as they are (kaupo/core/engine.py).
use kaupo.Base.{◌≡◌, refl, ◌∙◌, Bool, Option, none, some, List, [], ◌∷◌, if_ind, on_some_ind, arith}
use kaupo.Domain.{eq_pair, Order, Candle}
use kaupo.Paper.{PaperVenue}
use kaupo.Domain.{OrderIntent}
use kaupo.Risk.{RiskManager, Assessment, is_rejected, assess, on_candle as risk_on_candle}
use kaupo.Paper.{submit}
use kaupo.Engine.State.{
  EngineConfig, Engine, Tick, Strategy, Command, kill, switch, pause, write_orders, write_row,
  order_row, view_at,
}
use kaupo.Engine.Candle.{
  Flow, write_ledger, snapshot_equity, risk_state, submit_one, submit_approved, keep_candle, trade,
  obey, check_risk,
}
use kaupo.Engine.Run.{engine_of}

-- The positions of the venue and of the ledger are those of before.
pub record Keeps {S : Type 0} (e e' : Engine S) : Type 0 where
  pub same_venue : e'.venue.positions ≡ e.venue.positions
  pub same_ledger : e'.ledger.positions ≡ e.ledger.positions
  pub same_perp : e'.ledger.perp ≡ e.ledger.perp

module _ {S : Type 0} where
  pub Keeps-refl : (e : Engine S) → Keeps e e
  Keeps-refl e = record { same_venue = refl; same_ledger = refl; same_perp = refl }

  pub Keeps-trans : {a b c : Engine S} → Keeps a b → Keeps b c → Keeps a c
  Keeps-trans h k = record {
    same_venue = k.same_venue ∙ h.same_venue;
    same_ledger = k.same_ledger ∙ h.same_ledger;
    same_perp = k.same_perp ∙ h.same_perp;
  }

  pub write_orders-Keeps : (os : List Order) (e : Engine S) → Keeps e (write_orders os e)
  write_orders-Keeps [] e = Keeps-refl e
  write_orders-Keeps (o ∷ os) e =
      let rest = write_orders-Keeps os (write_row (order_row o) e) in
      record {
        same_venue = rest.same_venue;
        same_ledger = rest.same_ledger;
        same_perp = rest.same_perp;
      }

  pub snapshot_equity-Keeps :
      (cfg : EngineConfig) (c : Candle) (e : Engine S) → Keeps e (snapshot_equity cfg c e)
  unfolding snapshot_equity
  snapshot_equity-Keeps cfg c e = record { same_venue = refl; same_ledger = refl; same_perp = refl }

  pub write_ledger-Keeps : (e : Engine S) → Keeps e (write_ledger e)
  unfolding write_ledger
  write_ledger-Keeps e = record { same_venue = refl; same_ledger = refl; same_perp = refl }

  submit_one-Keeps : (c : Candle) (a : Assessment) (e : Engine S) → Keeps e (submit_one c a e)
  unfolding submit_one submit
  submit_one-Keeps c a e =
      let Q : Engine S → Type 0 = λ e'. Keeps e e' in
      if_ind Q (is_rejected a.decision) (λ _. Keeps-refl e)
        λ _. record { same_venue = submit_keeps _ _; same_ledger = refl; same_perp = refl }
    where
      submit_keeps : (o : Order) (v : PaperVenue) → (submit o v).positions ≡ v.positions
      submit_keeps o v = ground arith

  submit_approved-Keeps :
      (c : Candle) (as' : List Assessment) (e : Engine S) → Keeps e (submit_approved c as' e)
  unfolding submit_approved
  submit_approved-Keeps c [] e = Keeps-refl e
  submit_approved-Keeps c (a ∷ as') e =
      Keeps-trans (submit_one-Keeps c a e) (submit_approved-Keeps c as' (submit_one c a e))

  module _ (cfg : EngineConfig) (strategy : Strategy S) where
    abbrev FlowKeeps : Engine S → Flow S → Type 0
    FlowKeeps e flow = Keeps e (engine_of flow)

    trade-Keeps : (c : Candle) (e : Engine S) → FlowKeeps e (trade cfg strategy c e)
    unfolding trade keep_candle
    trade-Keeps c e =
        let kept : Engine S = keep_candle cfg c e in
        on_some_ind (FlowKeeps e) (strategy (view_at cfg c kept) kept.strategy)
          (λ _. record { same_venue = refl; same_ledger = refl; same_perp = refl })
          (λ (r : List OrderIntent × S) _.
            let assessed : List Assessment × RiskManager =
              assess kept.risk r.0 (risk_state cfg c kept) in
            let start : Engine S = record kept { strategy = r.1; risk = assessed.1 } in
            let sent = submit_approved-Keeps c assessed.0 start in
            record {
              same_venue = sent.same_venue;
              same_ledger = sent.same_ledger;
              same_perp = sent.same_perp;
            })

    obey-Keeps :
        (c : Candle) (command : Option Command) (e : Engine S)
        → FlowKeeps e (obey cfg strategy c command e)
    unfolding obey keep_candle
    obey-Keeps c (some kill) e = record { same_venue = refl; same_ledger = refl; same_perp = refl }
    obey-Keeps c (some switch) e = record {
      same_venue = refl;
      same_ledger = refl;
      same_perp = refl;
    }
    obey-Keeps c (some pause) e = record { same_venue = refl; same_ledger = refl; same_perp = refl }
    obey-Keeps c none e = trade-Keeps c e

    pub check_risk-Keeps : (t : Tick) (e : Engine S) → FlowKeeps e (check_risk cfg strategy t e)
    unfolding check_risk
    check_risk-Keeps t e =
        let checked : Bool × RiskManager = risk_on_candle (risk_state cfg t.candle e) e.risk in
        let e' : Engine S = record e { risk = checked.1 } in
        let next = obey-Keeps t.candle t.command e' in
        if_ind (FlowKeeps e) checked.0
          (λ _. record {
            same_venue = next.same_venue;
            same_ledger = next.same_ledger;
            same_perp = next.same_perp;
          })
          (λ _. record { same_venue = refl; same_ledger = refl; same_perp = refl })
