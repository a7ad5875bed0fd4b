-- ===== src/Live/Closing.antt =====
-- A liquidation ends with a fill of its own order once a poll lists a trade of it
-- (kaupo/venues/kraken_live.py).
use text.Mathlib.Text.{◌==◌ as str_eq}
use kaupo.Base.{
  ℕ, ◌≡◌, refl, subst, sym, ap, ◌∙◌, String, Bool, true, false, ◌||◌, Option, none, some, is_some,
  List, [], ◌∷◌, any, if◌then◌else◌, if_ind, on_some, on_some_ind, Bool-cases, inl, inr, arith,
}
use kaupo.Base.Dict.{Dict, lookup, contains, lookup-insert, lookup-insert_self}
use kaupo.Domain.{eq_string}
use kaupo.Reconcile.{
  unattributed_order_id, ExchangeTrade, LiveFill, Group, add_trade, by_txid, newest,
}
use kaupo.Live.State.{LiveOrder, placed, Answers, KrakenVenue}
use kaupo.Live.Candle.{
  at_cursor, advance, take_fresh, poll_trades, adopt_unattributed, fill_of_group, fills_of_groups,
  fills_from,
}
use kaupo.Live.Liquidate.{
  Liquidated, closed, first, fills_of, await_fill, await_placed, close_with, closing_order, ready,
  watching, liquidate,
}
use kaupo.Live.Size.{send, size_for_exchange}
use kaupo.Base.Int.{ℤ}

add_trade-contains :
    (k : String) (t : ExchangeTrade) (gs : Dict String Group)
    → contains k (add_trade t gs) ≡ (str_eq k t.txid || contains k gs)
unfolding add_trade
add_trade-contains k t gs = rw (lookup-insert k t.txid _ gs) (ground arith)

by_txid-contains :
    (k : String) (ts : List ExchangeTrade) (gs : Dict String Group)
    → contains k (by_txid ts gs)
      ≡ (any (λ (t : ExchangeTrade). str_eq k t.txid) ts || contains k gs)
unfolding by_txid
by_txid-contains k [] gs = refl
by_txid-contains k (t ∷ ts) gs =
    let rest = by_txid-contains k ts (add_trade t gs) in
    let step = add_trade-contains k t gs in rw (rest, step) (ground arith)

-- Who placed an order stays known.
abbrev Knows : String → String → KrakenVenue → Type 0
Knows txid id v = lookup txid v.order_by_txid ≡ some id

take_fresh-Knows :
    (txid id : String) (fresh : List ExchangeTrade) (v : KrakenVenue)
    → Knows txid id v
    → Knows txid id (take_fresh fresh v)
unfolding take_fresh advance
take_fresh-Knows txid id [] v known = known
take_fresh-Knows txid id (t ∷ ts) v known =
    if_ind (Knows txid id) (at_cursor v.trades_cursor_ms (newest t.ts ts)) (λ _. known) (λ _. known)

poll_trades-Knows :
    (txid id : String) (x : Answers) (v : KrakenVenue)
    → Knows txid id v
    → Knows txid id (poll_trades x v).1
unfolding poll_trades take_fresh advance
poll_trades-Knows txid id x v known =
    on_some_ind (λ (r : List ExchangeTrade × KrakenVenue). Knows txid id r.1)
      (x.my_trades v.trades_cursor_ms) (λ _. known) λ trades _. take_fresh-Knows txid id _ v known

known_as :
    (txid id k : String) (v : KrakenVenue) → str_eq txid k ≡ true → Knows txid id v → Knows k id v
known_as txid id k v same known =
    ap (λ i. lookup i v.order_by_txid) (sym ((eq_string.beq_iff txid k).0 same)) ∙ known

fill_of_group-Knows :
    (txid id k : String) (g : Group) (v : KrakenVenue)
    → Knows txid id v
    → Knows txid id (fill_of_group (k, g) v).1
unfolding fill_of_group adopt_unattributed
fill_of_group-Knows txid id k (t, ts) v known =
    on_some_ind (λ (r : LiveFill × KrakenVenue). Knows txid id r.1) (lookup k v.order_by_txid)
      (λ new. rw (lookup-insert txid k (unattributed_order_id k) v.order_by_txid) (
        if_ind (λ (o : Option String). o ≡ some id) (str_eq txid k)
          (λ same. let known_k = known_as txid id k v same known in cc) (λ _. known)))
      (λ order_id _.
        on_some_ind (Knows txid id) (lookup order_id v.orders) (λ _. known) (λ _ _. known))

fill_of_group-own :
    (txid id : String) (g : Group) (v : KrakenVenue)
    → Knows txid id v
    → (fill_of_group (txid, g) v).0.order_id ≡ id
unfolding fill_of_group
fill_of_group-own txid id (t, ts) v known = rw (known) refl

first-own :
    (id : String) (fills : List LiveFill) (f : LiveFill)
    → first (fills_of id fills) ≡ some f
    → f.order_id ≡ id
first-own id [] f h = cc
first-own id (g ∷ fills) f h = elim (Bool-cases (str_eq g.order_id id)) [
  | inl own ↦
      let same : some g ≡ some f = sym (first-here own) ∙ h in
      ap (λ (o : Option LiveFill). on_some o id (λ (f : LiveFill). f.order_id)) (sym same)
      ∙ (eq_string.beq_iff g.order_id id).0 own
  | inr other ↦ first-own id fills f (sym (first-later other) ∙ h)
]
  where
    first-here : str_eq g.order_id id ≡ true → first (fills_of id (g ∷ fills)) ≡ some g
    first-here own = rw (own) refl

    first-later :
        str_eq g.order_id id ≡ false → first (fills_of id (g ∷ fills)) ≡ first (fills_of id fills)
    first-later other = rw (other) refl

-- A group of the order gives a fill of it.
fills_of_groups-own :
    (txid id : String) (gs : Dict String Group) (v : KrakenVenue)
    → Knows txid id v
    → contains txid gs ≡ true
    → is_some (first (fills_of id (fills_of_groups gs v).0)) ≡ true
unfolding fills_of_groups
fills_of_groups-own txid id [] v known h = cc
fills_of_groups-own txid id ((k, g) ∷ gs) v known h =
    let told : LiveFill × KrakenVenue = fill_of_group (k, g) v in
    if_ind (λ (fs : List LiveFill). is_some (first fs) ≡ true) (str_eq told.0.order_id id)
      (λ _. refl)
      (λ other.
        fills_of_groups-own txid id gs told.1 (fill_of_group-Knows txid id k g v known)
          (elim (Bool-cases (str_eq txid k)) [
            | inl same ↦
                let own = fill_of_group-own k id g v (known_as txid id k v same known) in
                let found = (eq_string.beq_iff told.0.order_id id).1 own in cc
            | inr apart ↦ ap (λ b. is_some (if b then some g else lookup txid gs)) (sym apart) ∙ h
          ]))

fills_of_groups-Knows :
    (txid id : String) (gs : Dict String Group) (v : KrakenVenue)
    → Knows txid id v
    → Knows txid id (fills_of_groups gs v).1
unfolding fills_of_groups
fills_of_groups-Knows txid id [] v known = known
fills_of_groups-Knows txid id ((k, g) ∷ gs) v known =
    fills_of_groups-Knows txid id gs (fill_of_group (k, g) v).1
      (fill_of_group-Knows txid id k g v known)

-- Whether one of the polls of a liquidation lists a trade with an exchange id.
abbrev pub sees : List Answers → String → KrakenVenue → Bool
sees [] txid v = false
sees (x ∷ xs) txid v =
    let polled : List ExchangeTrade × KrakenVenue = poll_trades x v in
    any (λ (t : ExchangeTrade). str_eq txid t.txid) polled.0
    || sees xs txid (fills_from polled.0 polled.1).1

-- A liquidation that ends with a fill of an order.
abbrev pub Closes : String → Liquidated × KrakenVenue → Type 0
Closes id r = (f : LiveFill) × (r.0 ≡ closed f) × (f.order_id ≡ id)

await_fill-Closes :
    (txid id : String) (xs : List Answers) (v : KrakenVenue)
    → Knows txid id v
    → sees xs txid v ≡ true
    → Closes id (await_fill xs id v)
unfolding await_fill fills_from
await_fill-Closes txid id [] v known h = cc
await_fill-Closes txid id (x ∷ xs) v known h =
    let polled : List ExchangeTrade × KrakenVenue = poll_trades x v in
    let gs : Dict String Group = by_txid polled.0 [] in
    let told : List LiveFill × KrakenVenue = fills_of_groups gs polled.1 in
    let known_polled = poll_trades-Knows txid id x v known in
    on_some_ind (Closes id) (first (fills_of id told.0))
      (λ nothing.
        await_fill-Closes txid id xs told.1 (fills_of_groups-Knows txid id gs polled.1 known_polled)
          (elim (Bool-cases (any (λ (t : ExchangeTrade). str_eq txid t.txid) polled.0)) [
            | inl listed ↦
                let grouped = by_txid-contains txid polled.0 [] in
                let here =
                  fills_of_groups-own txid id gs polled.1 known_polled
                    (grouped ∙ ap (λ b. b || false) listed) in
                let none_here = ap is_some nothing in cc
            | inr unlisted ↦ ap (λ b. b || sees xs txid told.1) (sym unlisted) ∙ h
          ]))
      (λ f found. (f, refl, first-own id told.0 f found))

-- A liquidation that has an order placed ends with a fill of that order, if one of its polls lists a
-- fresh trade of it.
pub liquidate-Closes :
    (x : Answers) (xs : List Answers) (id : String) (size : ℤ) (ts : ℕ) (close : ℤ)
    (v : KrakenVenue) (sized : ℤ) (txid : String)
    → size_for_exchange x.market
        (closing_order id size ts)
        (ready (closing_order id size ts) close v)
      ≡ send sized
    → x.create_order (closing_order id size ts) sized none ≡ placed txid
    → sees xs txid
        (watching (closing_order id size ts) txid (ready (closing_order id size ts) close v))
      ≡ true
    → Closes id (liquidate x xs id size ts close v)
unfolding liquidate close_with await_placed
liquidate-Closes x xs id size ts close v sized txid sent answer seen =
    let o : LiveOrder = closing_order id size ts in
    let w : KrakenVenue = ready o close v in
    subst (λ s. Closes id (close_with x xs o s w)) (sym sent)
      (subst (λ p. Closes id (await_placed xs o p w)) (sym answer)
        (await_fill-Closes txid id xs (watching o txid w)
          (lookup-insert_self txid id w.order_by_txid) seen))
