-- ===== src/Engine/Ending.antt =====
-- What `_wind_down` does for a run that was halted or that failed (kaupo/core/engine.py).
use kaupo.Base.{
  ◌≡◌, refl, sym, subst, ap, ◌∙◌, ℕ, false, Option, none, some, List, [], ◌∷◌, ◌++◌, map,
  if◌then◌else◌,
}
use mathlib.Core.List.{append_assoc, append-nil}
use kaupo.Base.Int.{ℤ}
use kaupo.Domain.{Candle, Order, cancelled}
use kaupo.Ledger.{LedgerEntry, equity, drain_entries}
use kaupo.Paper.{PaperVenue, write, write_all, cancel, cancel_all}
use kaupo.Engine.State.{
  EngineConfig, Engine, prices_at, RunHalt, RunStatus, running, completed, halted, failed, Row,
  order_row, ledger_rows, finish_row, write_row, equity_at,
}
use kaupo.Engine.Candle.{done}
use kaupo.Engine.Parts.{is_empty}
use kaupo.Engine.Run.{
  Stop, RunOutcome, returned, escaped, is_completed, final_price, liquidate_end, write_cancelled,
  finish, wind_down, conclude,
}

-- The row of an order that the end of the run cancels.
abbrev pub cancelled_row : Order → Row
cancelled_row o = order_row (record o { status = cancelled })

-- Entries that a failure left in the ledger get a row of their own.
abbrev pub leftover_rows : List LedgerEntry → List Row
leftover_rows [] = []
leftover_rows (x ∷ xs) = ledger_rows (x ∷ xs) ∷ []

-- The engine `e'` is `e` wound down: it trades nothing, no order is left open and no protection stands, every
-- order that was open is recorded as cancelled, then what the ledger had left to record, then the end
-- of the run.
pub record IsWoundDown {S : Type 0} (status : RunStatus) (e e' : Engine S) : Type 0 where
  pub same_fills : e'.fills ≡ e.fills
  pub same_ledger : e'.ledger ≡ record e.ledger { entries = [] }
  pub same_positions : e'.venue.positions ≡ e.venue.positions
  pub no_markets : e'.venue.market_queue ≡ []
  pub no_limits : e'.venue.limit_open ≡ []
  pub no_protections : e'.venue.protections ≡ []
  pub recorded :
      e'.rows
      ≡ e.rows
        ++ (map cancelled_row (e.venue.market_queue ++ e.venue.limit_open)
            ++ (leftover_rows e.ledger.entries ++ finish_row status ∷ []))

write_all-positions : (os : List Order) (v : PaperVenue) → (write_all os v).positions ≡ v.positions
unfolding write_all write
write_all-positions [] v = refl
write_all-positions (o ∷ os) v = write_all-positions os (write o v)

module _ {S : Type 0} where
  write_cancelled-rows :
      (os : List Order) (e : Engine S)
      → write_cancelled (map cancel os) e ≡ record e { rows = e.rows ++ map cancelled_row os }
  unfolding write_cancelled
  write_cancelled-rows [] e =
      ap (λ (rs : List Row). record e { rows = rs }) (sym (append-nil e.rows))
  write_cancelled-rows (o ∷ os) e =
      write_cancelled-rows os (write_row (cancelled_row o) e)
      ∙ ap (λ (rs : List Row). record e { rows = rs })
          (append_assoc e.rows (cancelled_row o ∷ []) (map cancelled_row os))

  leave : RunStatus → List LedgerEntry → Engine S → Engine S
  leave status entries e =
      write_row (finish_row status)
        (if is_empty entries then e else write_row (ledger_rows entries) e)

  leave-rows :
      (status : RunStatus) (entries : List LedgerEntry) (e : Engine S)
      → leave status entries e
        ≡ record e { rows = e.rows ++ (leftover_rows entries ++ finish_row status ∷ []) }
  unfolding leave
  leave-rows status [] e = refl
  leave-rows status (x ∷ xs) e =
      ap (λ (rs : List Row). record e { rows = rs })
        (append_assoc e.rows (ledger_rows (x ∷ xs) ∷ []) (finish_row status ∷ []))

  finish-IsWoundDown : (status : RunStatus) (e : Engine S) → IsWoundDown status e (finish status e)
  unfolding finish cancel_all drain_entries leave
  finish-IsWoundDown status e =
      let os : List Order = e.venue.market_queue ++ e.venue.limit_open in
      let v : PaperVenue = (cancel_all e.venue).1 in
      let told : Engine S = record e { venue = v; rows = e.rows ++ map cancelled_row os } in
      let rest : Engine S → Engine S = λ w.
        leave status w.ledger.entries (record w { ledger = record w.ledger { entries = [] } }) in
      let same =
        ap rest (write_cancelled-rows os (record e { venue = v }))
        ∙ leave-rows status e.ledger.entries
            (record told { ledger = record e.ledger { entries = [] } }) in
      subst (IsWoundDown status e) (sym same) (record {
        same_fills = refl;
        same_ledger = refl;
        same_positions = write_all-positions (map cancel os) e.venue;
        no_markets = refl;
        no_limits = refl;
        no_protections = refl;
        recorded =
            append_assoc e.rows (map cancelled_row os)
              (leftover_rows e.ledger.entries ++ finish_row status ∷ []);
      })

-- The result of a run that was left for a reason and wound down to `e'`.
abbrev pub result_of :
    {S : Type 0}
    → RunStatus
    → RunHalt
    → (final_equity : ℤ) → (num_fills : ℕ) → Engine S
    → RunOutcome S
result_of status reason n fills e' =
    returned (record { status = status; final_equity = n; num_fills = fills; halt_reason = reason })
      e'

-- How it ends: a failed run raises its exception again, another one returns its status, its reason, its fills
-- and its equity at the last close.
abbrev pub Ends :
    {S : Type 0} → EngineConfig → Stop S → Engine S → RunStatus → RunOutcome S → Type 0
Ends cfg s e' failed r = r ≡ escaped e'
Ends cfg s e' running r =
    r ≡ result_of running s.reason (equity_at cfg (final_price s.last) s.engine) s.engine.fills e'
Ends cfg s e' completed r =
    r ≡ result_of completed s.reason (equity_at cfg (final_price s.last) s.engine) s.engine.fills e'
Ends cfg s e' halted r =
    r ≡ result_of halted s.reason (equity_at cfg (final_price s.last) s.engine) s.engine.fills e'

module _ {S : Type 0} (cfg : EngineConfig) where
  liquidate_end-unfinished :
      (status : RunStatus) (last : Option Candle) (e : Engine S)
      → is_completed status ≡ false
      → liquidate_end cfg status last e ≡ done e
  unfolding liquidate_end
  liquidate_end-unfinished status none e h = refl
  liquidate_end-unfinished status (some c) e h = rw (h) refl

  returned-same :
      (status : RunStatus) (reason : RunHalt) (last : Option Candle) (e e' : Engine S)
      → IsWoundDown status e e'
      → result_of status reason (equity_at cfg (final_price last) e') e'.fills e'
        ≡ result_of status reason (equity_at cfg (final_price last) e) e.fills e'
  unfolding equity_at equity
  returned-same status reason last e e' w =
      ap (λ l. result_of status reason (equity (prices_at cfg (final_price last)) l) e'.fills e')
        w.same_ledger
      ∙ ap (λ n. result_of status reason (equity_at cfg (final_price last) e) n e') w.same_fills

  wind_down-Ends :
      (status : RunStatus) (reason : RunHalt) (last : Option Candle) (e : Engine S)
      → let s : Stop S = record { status = status; reason = reason; last = last; engine = e } in
        Ends cfg s (finish status e) status (wind_down cfg s (done e))
  unfolding wind_down
  wind_down-Ends failed reason last e = refl
  wind_down-Ends running reason last e =
      returned-same running reason last e (finish running e) (finish-IsWoundDown running e)
  wind_down-Ends completed reason last e =
      returned-same completed reason last e (finish completed e) (finish-IsWoundDown completed e)
  wind_down-Ends halted reason last e =
      returned-same halted reason last e (finish halted e) (finish-IsWoundDown halted e)

  -- A run that was halted or that failed is wound down without closing its position: nothing is traded, no
  -- order is left open and no protection stands, every order that was open is recorded as cancelled, then
  -- what was left in the ledger's log, then the end of the run with its status. A failed run then raises its
  -- exception again; a halted one returns its status, its reason, its fills and its equity at the last close, or at
  -- a price of 0 where there was no candle.
  pub conclude-Ends :
      (s : Stop S)
      → is_completed s.status ≡ false
      → (e' : Engine S) × IsWoundDown s.status s.engine e' × Ends cfg s e' s.status (conclude cfg s)
  unfolding conclude
  conclude-Ends s h = (
    finish s.status s.engine,
    finish-IsWoundDown s.status s.engine,
    subst (λ flow. Ends cfg s (finish s.status s.engine) s.status (wind_down cfg s flow))
        (sym (liquidate_end-unfinished s.status s.last s.engine h))
        (wind_down-Ends s.status s.reason s.last s.engine),
  )
