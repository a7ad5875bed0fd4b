-- ===== src/Ledger/Apply.antt =====
-- `Ledger.apply_fill` and `Ledger.apply_funding` (kaupo/ledger/ledger.py).
use kaupo.Base.{false, Option, if◌then◌else◌}
use kaupo.Base.Int.{ℤ, ◌+ℤ◌}
use kaupo.Domain.{Fill, Timestamp, OrderId}
use kaupo.Ledger.State.{Ledger, Outcome, funding, record_entry}
use kaupo.Ledger.Spot.{apply_spot}
use kaupo.Ledger.Perp.{apply_fill_perp}

unfoldable pub apply_fill : Fill → Ledger → Outcome
unfolding apply_spot apply_fill_perp
apply_fill f l = if l.perp then apply_fill_perp false f l else apply_spot f l

unfoldable pub apply_funding : Timestamp → ℤ → Option OrderId → Ledger → Ledger
unfolding record_entry
apply_funding ts amount ref_id l =
    record_entry ts l.quote amount funding ref_id (record l { cash = l.cash +ℤ amount })
