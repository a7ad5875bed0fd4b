-- ===== src/Live/Once.antt =====
-- The live venue reports no trade twice (kaupo/venues/kraken_live.py).
use text.Mathlib.Text.{◌==◌ as str_eq}
use kaupo.Base.{
  ◌≡◌, refl, sym, subst, ℕ, String, false, List, [], ◌∷◌, ◌++◌, any, All, All-map, All-append,
}
use kaupo.Domain.{eq_string}
use kaupo.Reconcile.{ExchangeTrade}
use kaupo.Live.State.{Answers, KrakenVenue}
use kaupo.Live.Candle.{ids_of, take_fresh, poll_trades}
use kaupo.Live.Fresh.{
  IsHonest, IsDone, IsFresh, done-not_fresh, take_fresh-reports, take_fresh-keeps,
  poll_trades-IsFresh, poll_trades-venue,
}

-- The trades that a sequence of polls reports.
abbrev pub polled : List Answers → KrakenVenue → List (List ExchangeTrade)
polled [] v = []
polled (x ∷ xs) v = (poll_trades x v).0 ∷ polled xs (poll_trades x v).1

-- No batch has a trade whose id is known or in a batch before it.
abbrev pub IsOnce : List String → List (List ExchangeTrade) → Type 0
IsOnce known [] = Unit
IsOnce known (b ∷ bs) =
    All (λ (t : ExchangeTrade). any (str_eq t.id) known ≡ false) b × IsOnce (known ++ ids_of b) bs

not_known :
    (ts_of : String → ℕ) (v : KrakenVenue) (known : List String) (t : ExchangeTrade)
    → All (IsDone ts_of v) known
    → IsFresh ts_of v t
    → any (str_eq t.id) known ≡ false
not_known ts_of v [] t _ _ = refl
not_known ts_of v (k ∷ ks) t (done, rest) fresh =
    rw (done-not_fresh ts_of v k t done fresh) (not_known ts_of v ks t rest fresh)

polled-from :
    (ts_of : String → ℕ) (xs : List Answers) (v : KrakenVenue) (known : List String)
    → All (IsHonest ts_of) xs
    → All (IsDone ts_of v) known
    → IsOnce known (polled xs v)
polled-from ts_of [] v known _ _ = tt
polled-from ts_of (x ∷ xs) v known (honest, rest) done =
    let batch : List ExchangeTrade = (poll_trades x v).0 in
    let fresh = poll_trades-IsFresh ts_of x v honest in
    let after : KrakenVenue = take_fresh batch v in
    let kept = All-map _ _ known (λ k d. take_fresh-keeps ts_of v batch k fresh d) done in
    let reported = All-ids batch (take_fresh-reports ts_of v batch fresh) in
    (
      All-map _ _ batch (λ (t : ExchangeTrade) f. not_known ts_of v known t done f) fresh,
      subst (λ (w : KrakenVenue). IsOnce (known ++ ids_of batch) (polled xs w))
          (sym (poll_trades-venue ts_of x v))
          (polled-from ts_of xs after (known ++ ids_of batch) rest
            (All-append _ known (ids_of batch) kept reported)),
    )
  where
    All-ids :
        (b : List ExchangeTrade)
        → All (λ (t : ExchangeTrade). IsDone ts_of (take_fresh (poll_trades x v).0 v) t.id) b
        → All (IsDone ts_of (take_fresh (poll_trades x v).0 v)) (ids_of b)
    All-ids [] _ = tt
    All-ids (t ∷ b) (d, ds) = (d, All-ids b ds)

-- Over any sequence of polls, also failed ones, no batch of trades that the live venue takes contains a
-- trade of an earlier batch, where the exchange lists trades from the cursor on and each trade at one time.
pub polled-IsOnce :
    (ts_of : String → ℕ) (xs : List Answers) (v : KrakenVenue)
    → All (IsHonest ts_of) xs
    → IsOnce [] (polled xs v)
polled-IsOnce ts_of xs v honest = polled-from ts_of xs v [] honest tt
