-- ===== src/Reconcile/Recover.antt =====
-- `_recover_missed` and what it calls (kaupo/core/live_reconcile.py), with `aggregate_trades` and
-- `_agreed` (kaupo/venues/kraken_live.py).
use Prim.Native.Nat.{Ordering}
use Prim.Native.String.{compare, ◌++◌ as append}
use text.Mathlib.Text.{◌==◌ as str_eq}
use kaupo.Base.{
  ℕ, String, Bool, true, false, ◌||◌, Option, none, some, List, [], ◌∷◌, ◌++◌, any, if◌then◌else◌,
  ltb, get_or, on_some, is_some,
}
use kaupo.Base.Int.{ℤ, pos, ◌+ℤ◌, ◌-ℤ◌, ◌*ℤ◌, ◌/ℤ◌, ltb_ℤ, leb_ℤ}
use kaupo.Base.Dict.{Dict, lookup, insert}
use kaupo.Domain.{Pair, eq_string}
use kaupo.Reconcile.State.{ExchangeTrade, LiveFill, RecoveredOrder, Books}

-- The distinct texts that are neither missing nor empty.
unfoldable pub distinct_texts : List String → List (Option String) → List String
distinct_texts seen [] = []
distinct_texts seen (none ∷ vs) = distinct_texts seen vs
distinct_texts seen (some v ∷ vs) =
    let rest : List String = distinct_texts seen vs in
    let later : List String = distinct_texts (v ∷ seen) vs in
    if str_eq v "" || any (str_eq v) seen then rest else v ∷ later

-- `_agreed`
unfoldable pub agreed : List (Option String) → Option String
unfolding distinct_texts
agreed vs = elim (distinct_texts [] vs) [
  | [] ↦ none
  | v ∷ vs' ↦ elim vs' [ [] ↦ some v | _ ∷ _ ↦ some "mixed" ]
]

-- `sum(f(t) for t in trades)`
abbrev pub sum_of : (ExchangeTrade → ℤ) → List ExchangeTrade → ℤ
sum_of f [] = pos 0
sum_of f (t ∷ ts) = f t +ℤ sum_of f ts

abbrev pub map_trades {ℓ} : {A : Type ℓ} → (ExchangeTrade → A) → List ExchangeTrade → List A
map_trades f [] = []
map_trades f (t ∷ ts) = f t ∷ map_trades f ts

abbrev pub newest : ℕ → List ExchangeTrade → ℕ
newest ts [] = ts
newest ts (t ∷ more) = newest (if ltb ts t.ts then t.ts else ts) more

-- `aggregate_trades`: the trades of one order, of which there is at least one.
unfoldable pub aggregate_trades : String → Pair → ExchangeTrade → List ExchangeTrade → LiveFill
unfolding agreed
aggregate_trades order_id pair t ts =
    let size : ℤ = sum_of (λ (t : ExchangeTrade). t.size) (t ∷ ts) in
    let notional : ℤ = sum_of (λ (t : ExchangeTrade). t.price *ℤ t.size) (t ∷ ts) in
    record {
      order_id = order_id;
      pair = pair;
      side = t.side;
      ts = newest t.ts ts;
      price = if ltb_ℤ (pos 0) size then notional /ℤ size else t.price;
      size = size;
      fee = sum_of (λ (t : ExchangeTrade). t.fee) (t ∷ ts);
      taker_or_maker = agreed (map_trades (λ (t : ExchangeTrade). t.taker_or_maker) (t ∷ ts));
      fee_currency = agreed (map_trades (λ (t : ExchangeTrade). some t.fee_currency) (t ∷ ts));
    }

-- `unattributed_order_id`
unfoldable pub unattributed_order_id : String → String
unattributed_order_id txid = append "kraken-" txid

-- `_order_for`
unfoldable pub order_for : Pair → (txid : String) → LiveFill → (known : Bool) → RecoveredOrder
order_for pair txid f known = record {
  pair = pair;
  side = f.side;
  size = f.size;
  reason = if known then "" else append "recovered Kraken order " txid;
  id = f.order_id;
  created_ts = f.ts;
  exchange_order_id = txid;
  filled_price = f.price;
  filled_ts = f.ts;
  fee = f.fee;
}

-- `_remainder_fill`: the fee is pro-rated by size.
unfoldable pub remainder_fill : LiveFill → ℤ → LiveFill
remainder_fill f remainder = record f { size = remainder; fee = f.fee *ℤ remainder /ℤ f.size }

-- The trades of one order: the first and the others.
abbrev pub Group : Type 0
Group = ExchangeTrade × List ExchangeTrade

-- `by_txid.setdefault(trade.txid, []).append(trade)`
unfoldable pub add_trade : ExchangeTrade → Dict String Group → Dict String Group
add_trade t groups =
    insert t.txid (on_some (lookup t.txid groups) (t, []) (λ (g : Group). (g.0, g.1 ++ t ∷ [])))
      groups

unfoldable pub by_txid : List ExchangeTrade → Dict String Group → Dict String Group
unfolding add_trade
by_txid [] groups = groups
by_txid (t ∷ ts) groups = by_txid ts (add_trade t groups)

abbrev pub is_before : String → String → Bool
is_before a b = elim (compare a b) [ Ordering.lt ↦ true | _ ↦ false ]

-- `sorted(by_txid.items())`; the txids are distinct.
unfoldable pub insert_group : String × Group → Dict String Group → Dict String Group
insert_group g [] = g ∷ []
insert_group g (h ∷ hs) = if is_before g.0 h.0 then g ∷ h ∷ hs else h ∷ insert_group g hs

unfoldable pub sort_groups : Dict String Group → Dict String Group
unfolding insert_group
sort_groups [] = []
sort_groups (g ∷ gs) = insert_group g (sort_groups gs)

-- The order id that the trades of a txid belong to.
unfoldable pub target_of : Books → String → String
unfolding unattributed_order_id
target_of books txid = get_or (books.order_of txid) (unattributed_order_id txid)

-- What is missing of a fill: all of it, or a part.
unfoldable pub missing_fill : LiveFill → (remainder : ℤ) → LiveFill
unfolding remainder_fill
missing_fill f remainder = if ltb_ℤ remainder f.size then remainder_fill f remainder else f

unfoldable pub recover_one : Books → Pair → String × Group → List (RecoveredOrder × LiveFill)
unfolding target_of aggregate_trades missing_fill order_for
recover_one books pair (txid, (t, ts)) =
    let order_id : String = target_of books txid in
    let f : LiveFill = aggregate_trades order_id pair t ts in
    let remainder : ℤ = f.size -ℤ get_or (books.recorded order_id) (pos 0) in
    let left : LiveFill = missing_fill f remainder in
    if leb_ℤ remainder (pos 0)
    then []
    else (order_for pair txid left (is_some (books.order_of txid)), left) ∷ []

unfoldable pub recover_groups : Books → Pair → Dict String Group → List (RecoveredOrder × LiveFill)
unfolding recover_one
recover_groups books pair [] = []
recover_groups books pair (g ∷ gs) = recover_one books pair g ++ recover_groups books pair gs

-- `_recover_missed`
unfoldable pub recover_missed : Books → Pair → List ExchangeTrade → List (RecoveredOrder × LiveFill)
unfolding by_txid sort_groups recover_groups
recover_missed books pair trades = recover_groups books pair (sort_groups (by_txid trades []))
