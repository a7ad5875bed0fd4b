-- ===== src/Live/Fresh.antt =====
-- One poll of the trades by the live venue (`_poll_trades`, kaupo/venues/kraken_live.py): what it reports is
-- new, and is behind the cursor afterwards.
use text.Mathlib.Text.{◌==◌ as str_eq}
use kaupo.Base.{
  ◌≡◌, refl, sym, ap, ◌∙◌, ℕ, ◌≤◌, ◌<◌, String, true, false, not, ◌||◌, Option, some, List, [], ◌∷◌,
  filter, any, All, All-map, if_ind, on_some_ind, ◌==◌, ==_iff, Bool-cases, inl, inr, ◌⊎◌, arith,
}
use kaupo.Domain.{eq_string}
use kaupo.Reconcile.{ExchangeTrade, newest}
use kaupo.Live.State.{Answers, KrakenVenue}
use kaupo.Live.Candle.{is_seen, ids_of, at_cursor, advance, take_fresh, poll_trades}
use kaupo.Live.Ids.{
  newest-ge, newest-All, any-append, or_true, All-both, at_cursor-eq, ids_of-All, ids_of-filter,
}

-- What the exchange promises: each trade id has one time, and trades are read from the cursor on.
pub record IsHonest (ts_of : String → ℕ) (x : Answers) : Type 0 where
  pub from_cursor :
      (cursor : Option ℕ) (trades : List ExchangeTrade)
      → x.my_trades cursor ≡ some trades
      → All
          (λ (t : ExchangeTrade). (t.ts ≡ ts_of t.id) × ((c : ℕ) → cursor ≡ some c → c ≤ t.ts))
          trades

module _ (ts_of : String → ℕ) where
  -- A trade that a venue has reported: it is before the cursor, or at it and remembered.
  abbrev pub IsDone : KrakenVenue → String → Type 0
  IsDone v k =
      (c : ℕ) × (v.trades_cursor_ms ≡ some c)
      × ((ts_of k < c) ⊎ ((ts_of k ≡ c) × (any (str_eq k) v.seen_at_cursor ≡ true)))

  abbrev pub IsFresh : KrakenVenue → ExchangeTrade → Type 0
  IsFresh v t =
      (t.ts ≡ ts_of t.id)
      × ((c : ℕ) → v.trades_cursor_ms ≡ some c → c ≤ t.ts)
      × (is_seen v.seen_at_cursor t ≡ false)

  pub done-not_fresh :
      (v : KrakenVenue) (k : String) (t : ExchangeTrade)
      → IsDone v k
      → IsFresh v t
      → str_eq t.id k ≡ false
  done-not_fresh v k t (c, at, gone) (time, from, new) = elim (Bool-cases (str_eq t.id k)) [
    | inr apart ↦ apart
    | inl same ↦
        let equal : t.id ≡ k = (eq_string.beq_iff t.id k).0 same in
        let late = from c at in
        let time_of = ap ts_of equal in
        let new_k : any (str_eq k) v.seen_at_cursor ≡ false =
          ap (λ i. any (str_eq i) v.seen_at_cursor) (sym equal) ∙ new in
        elim gone [ inl before ↦ absurd (omega arith) | inr (_, seen) ↦ cc ]
  ]

  pub take_fresh-reports :
      (v : KrakenVenue) (fresh : List ExchangeTrade)
      → All (IsFresh v) fresh
      → All (λ (t : ExchangeTrade). IsDone (take_fresh fresh v) t.id) fresh
  unfolding take_fresh advance
  take_fresh-reports v [] _ = tt
  take_fresh-reports v (t ∷ ts) fresh =
      let last : ℕ = newest t.ts ts in
      let all_le : All (λ (u : ExchangeTrade). u.ts ≤ last) (t ∷ ts) =
        (newest-ge t.ts ts, newest-All t.ts ts) in
      if_ind (λ (v' : KrakenVenue). All (λ (u : ExchangeTrade). IsDone v' u.id) (t ∷ ts))
        (at_cursor v.trades_cursor_ms last)
        (λ same.
          let at = at_cursor-eq v.trades_cursor_ms last same in
          All-map _ _ (t ∷ ts)
            (λ (u : ExchangeTrade) facts.
              let ((fresh_u, le), known) = facts in
              let late = fresh_u.1 last at in
              let time = fresh_u.0 in
              (
                last,
                at,
                inr (
                  omega arith,
                  any-append u.id v.seen_at_cursor (ids_of (t ∷ ts))
                      ∙ ap (λ b. any (str_eq u.id) v.seen_at_cursor || b) known
                      ∙ or_true (any (str_eq u.id) v.seen_at_cursor),
                ),
              ))
            (All-both _ _ (t ∷ ts) (All-both _ _ (t ∷ ts) fresh all_le) (ids_of-All (t ∷ ts))))
        (λ _.
          All-map _ _ (t ∷ ts)
            (λ (u : ExchangeTrade) facts.
              let ((fresh_u, le), known) = facts in
              let time = fresh_u.0 in
              elim (Bool-cases (u.ts == last)) [
                | inl now ↦ (
                  last,
                  refl,
                  inr (sym time ∙ (==_iff u.ts last).0 now, known ((==_iff u.ts last).0 now)),
                )
                | inr early ↦
                    let before : u.ts < last = ground arith in (last, refl, inl (omega arith))
              ])
            (All-both _ _ (t ∷ ts) (All-both _ _ (t ∷ ts) fresh all_le)
              (ids_of-filter last (t ∷ ts))))

  pub take_fresh-keeps :
      (v : KrakenVenue) (fresh : List ExchangeTrade) (k : String)
      → All (IsFresh v) fresh
      → IsDone v k
      → IsDone (take_fresh fresh v) k
  unfolding take_fresh advance
  take_fresh-keeps v [] k _ done = done
  take_fresh-keeps v (t ∷ ts) k (first, _) (c, at, gone) =
      let last : ℕ = newest t.ts ts in
      let le = newest-ge t.ts ts in
      let late = first.1 c at in
      if_ind (λ (v' : KrakenVenue). IsDone v' k) (at_cursor v.trades_cursor_ms last)
        (λ _. (
          c,
          at,
          elim gone [
            | inl before ↦ inl before
            | inr (now, seen) ↦ inr (
              now,
              any-append k v.seen_at_cursor (ids_of (t ∷ ts))
                  ∙ ap (λ b. b || any (str_eq k) (ids_of (t ∷ ts))) seen,
            )
          ],
        ))
        (λ moved.
          let apart : (last == c) ≡ false = ap (λ o. at_cursor o last) (sym at) ∙ moved in
          let after : c < last = ground arith in
          (last, refl, inl (elim gone [ inl before ↦ omega arith | inr (now, _) ↦ omega arith ])))

  -- One poll: what it reports was not done, is done afterwards, and what was done stays so.
  pub poll_trades-IsFresh :
      (x : Answers) (v : KrakenVenue) → IsHonest ts_of x → All (IsFresh v) (poll_trades x v).0
  unfolding poll_trades
  poll_trades-IsFresh x v honest =
      on_some_ind (λ (r : List ExchangeTrade × KrakenVenue). All (IsFresh v) r.0)
        (x.my_trades v.trades_cursor_ms) (λ _. tt)
        λ trades answered. fresh_of trades (honest.from_cursor v.trades_cursor_ms trades answered)
    where
      fresh_of :
          (trades : List ExchangeTrade)
          → All
              (λ (t : ExchangeTrade).
                (t.ts ≡ ts_of t.id) × ((c : ℕ) → v.trades_cursor_ms ≡ some c → c ≤ t.ts))
              trades
          → All
              (IsFresh v)
              (filter (λ (t : ExchangeTrade). not (is_seen v.seen_at_cursor t)) trades)
      fresh_of [] _ = tt
      fresh_of (t ∷ ts) ((time, from), rest) = elim (Bool-cases (is_seen v.seen_at_cursor t)) [
        | inl seen ↦ rw (seen) (fresh_of ts rest)
        | inr new ↦ rw (new) ((time, from, new), fresh_of ts rest)
      ]

  pub poll_trades-venue :
      (x : Answers) (v : KrakenVenue) → (poll_trades x v).1 ≡ take_fresh (poll_trades x v).0 v
  unfolding poll_trades take_fresh
  poll_trades-venue x v =
      on_some_ind (λ (r : List ExchangeTrade × KrakenVenue). r.1 ≡ take_fresh r.0 v)
        (x.my_trades v.trades_cursor_ms) (λ _. refl) (λ _ _. refl)
