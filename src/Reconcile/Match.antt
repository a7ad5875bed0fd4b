-- ===== src/Reconcile/Match.antt =====
-- A live run starts only on books that match the exchange (kaupo/core/live_reconcile.py).
use kaupo.Base.{
  ◌≡◌, refl, sym, ap, subst, ◌∙◌, String, Bool, true, false, ◌&&◌, Option, some, List, [], ◌∷◌,
  ◌++◌, if◌then◌else◌, get_or, on_some, on_some_ind, is_some,
}
use kaupo.Base.Int.{ℤ, pos, ◌+ℤ◌, ◌-ℤ◌, ◌≤ℤ◌, abs, ltb_ℤ, ltb_ℤ-false}
use kaupo.Base.Dict.{Dict, lookup, lookup-insert_self}
use kaupo.Domain.{Pair, Position, eq_pair, eq_string}
use kaupo.Reconcile.State.{LiveFill, RecoveredOrder, Books, Exchange, ReconcileResult}
use kaupo.Reconcile.Recover.{recover_missed}
use kaupo.Reconcile.Check.{
  cash_delta, size_delta, sum_missed, with_missed, balance_drift, Problem, base_off, quote_off,
  check_drift, Request, Outcome, refused, agreed_books, expected_quote, problems_of, outcome_of,
  trades_of, reconcile_live,
}

-- What the exchange holds of an asset.
abbrev pub balance : Dict String ℤ → String → ℤ
balance balances asset = get_or (lookup asset balances) (pos 0)

-- The position that the resumed books hold of the pair.
abbrev pub size_in : Request → ℤ
size_in r = on_some (lookup r.pair r.positions) (pos 0) (λ (p : Position). p.size)

-- The exchange's balances are those of the books and the recovered fills, up to the tolerances.
pub record IsMatched (r : Request) (balances : Dict String ℤ)
    (missed : List (RecoveredOrder × LiveFill)) : Type 0 where
  pub base_matches :
      abs (balance balances r.pair.base -ℤ (size_in r +ℤ sum_missed size_delta missed))
      ≤ℤ r.base_tolerance
  pub quote_matches :
      (baseline starting : ℤ)
      → r.check_quote ≡ true
      → r.quote_baseline ≡ some baseline
      → r.starting_cash ≡ some starting
      → abs (
          balance balances r.pair.quote
          -ℤ (baseline +ℤ (r.cash +ℤ sum_missed cash_delta missed -ℤ starting)))
        ≤ℤ r.quote_tolerance

abbrev pub OnAgreed : (ReconcileResult → Type 0) → Outcome → Type 0
OnAgreed P (refused _) = Unit {0}
OnAgreed P (agreed_books result) = P result

both_off :
    (b c : Bool) (x y : Problem)
    → (if b then x ∷ [] else []) ++ (if c then y ∷ [] else []) ≡ []
    → (b ≡ false) × (c ≡ false)
both_off true c x y h = cc
both_off false true x y h = cc
both_off false false x y h = (refl, refl)

check_drift-none :
    (base quote : ℤ) (check_quote : Bool) (base_tolerance quote_tolerance : ℤ)
    → check_drift base quote check_quote base_tolerance quote_tolerance ≡ []
    → (abs base ≤ℤ base_tolerance) × (check_quote ≡ true → abs quote ≤ℤ quote_tolerance)
unfolding check_drift
check_drift-none base quote check_quote base_tolerance quote_tolerance clear =
    let (base_on, quote_on) =
      both_off (ltb_ℤ base_tolerance (abs base)) (check_quote && ltb_ℤ quote_tolerance (abs quote))
        (base_off base) (quote_off quote) clear in
    (
      ltb_ℤ-false base_tolerance (abs base) base_on,
      λ checked.
          ltb_ℤ-false quote_tolerance (abs quote)
            (ap (λ b. b && ltb_ℤ quote_tolerance (abs quote)) (sym checked) ∙ quote_on),
    )

problems_of-none :
    (r : Request) (balances : Dict String ℤ) (missed : List (RecoveredOrder × LiveFill))
    → problems_of r balances missed ≡ []
    → IsMatched r balances missed
unfolding problems_of balance_drift with_missed expected_quote
problems_of-none r balances missed clear =
    let carried : Dict Pair Position = with_missed r.pair r.positions missed in
    let carried_cash : ℤ = r.cash +ℤ sum_missed cash_delta missed in
    let expected : Option ℤ = expected_quote r carried_cash in
    let drift : ℤ × ℤ = balance_drift balances r.pair carried carried_cash expected in
    let (base_near, quote_near) =
      check_drift-none drift.0 drift.1 (r.check_quote && is_some expected) r.base_tolerance
        r.quote_tolerance clear in
    record {
      base_matches =
          subst
            (λ (o : Option Position).
              abs (balance balances r.pair.base -ℤ on_some o (pos 0) (λ (p : Position). p.size))
              ≤ℤ r.base_tolerance)
            (lookup-insert_self r.pair _ r.positions) base_near;
      quote_matches = λ baseline starting checked with_baseline with_starting.
          let known : expected ≡ some (baseline +ℤ (carried_cash -ℤ starting)) =
            rw (with_baseline, with_starting) refl in
          subst
            (λ (o : Option ℤ).
              abs (balance balances r.pair.quote -ℤ get_or o carried_cash) ≤ℤ r.quote_tolerance)
            known (quote_near (rw (checked, known) refl));
    }

by_problems :
    (P : ReconcileResult → Type 0) (result : ReconcileResult) (ps : List Problem)
    → (ps ≡ [] → P result)
    → OnAgreed P (outcome_of result ps)
unfolding outcome_of
by_problems P result [] h = h refl
by_problems P result (p ∷ ps) h = tt

-- Where a reconciliation lets a run start, the exchange's base balance is the resumed position with the
-- recovered fills, up to the tolerance, and so is the quote balance where it is checked against a baseline and a
-- starting cash.
pub reconcile_live-matches :
    (x : Exchange) (books : Books) (r : Request)
    → OnAgreed (λ result. IsMatched r result.balances result.missed) (reconcile_live x books r).1
unfolding reconcile_live
reconcile_live-matches x books r =
    let missed : List (RecoveredOrder × LiveFill) =
      recover_missed books r.pair (trades_of x books r) in
    on_some_ind (OnAgreed (λ result. IsMatched r result.balances result.missed)) x.balances
      (λ _. tt)
      (λ balances _.
        by_problems (λ result. IsMatched r result.balances result.missed) _
          (problems_of r balances missed) (problems_of-none r balances missed))
