-- ===== src/Live/Ids.antt =====
-- Ids and times of lists of trades, for the polls of the live venue (kaupo/venues/kraken_live.py).
use text.Mathlib.Text.{◌==◌ as str_eq}
use kaupo.Base.{
  ◌≡◌, refl, sym, ap, ◌∙◌, ℕ, ◌≤◌, String, Bool, true, false, ◌||◌, Option, none, some, List, [],
  ◌∷◌, ◌++◌, filter, any, All, All-map, if◌then◌else◌, if_ind, ltb, ◌==◌, ==_iff, arith,
}
use kaupo.Base.Dict.{beq_refl}
use kaupo.Domain.{eq_string}
use kaupo.Reconcile.{ExchangeTrade, newest}
use kaupo.Live.Candle.{ids_of, at_cursor}

pub newest-ge : (start : ℕ) (ts : List ExchangeTrade) → start ≤ newest start ts
newest-ge start [] = omega arith
newest-ge start (t ∷ ts) =
    let rest = newest-ge (if ltb start t.ts then t.ts else start) ts in ground arith

pub newest-All :
    (start : ℕ) (ts : List ExchangeTrade) → All (λ (t : ExchangeTrade). t.ts ≤ newest start ts) ts
newest-All start [] = tt
newest-All start (t ∷ ts) =
    let next : ℕ = if ltb start t.ts then t.ts else start in
    let ge = newest-ge next ts in (ground arith, newest-All next ts)

pub any-append :
    (k : String) (xs ys : List String)
    → any (str_eq k) (xs ++ ys) ≡ (any (str_eq k) xs || any (str_eq k) ys)
any-append k [] ys = refl
any-append k (x ∷ xs) ys = let rest = any-append k xs ys in ground arith

pub or_true : (b : Bool) → (b || true) ≡ true
or_true true = refl
or_true false = refl

pub All-both :
    (P Q : ExchangeTrade → Type 0) (xs : List ExchangeTrade)
    → All P xs
    → All Q xs
    → All (λ x. P x × Q x) xs
All-both P Q [] _ _ = tt
All-both P Q (x ∷ xs) (p, ps) (q, qs) = ((p, q), All-both P Q xs ps qs)

pub at_cursor-eq : (cursor : Option ℕ) (ts : ℕ) → at_cursor cursor ts ≡ true → cursor ≡ some ts
at_cursor-eq none ts h = cc
at_cursor-eq (some c) ts h = ap some (sym ((==_iff ts c).0 h))

-- Each trade's id is among the ids of its list, and of those at its own time.
pub ids_of-All :
    (ts : List ExchangeTrade) → All (λ (t : ExchangeTrade). any (str_eq t.id) (ids_of ts) ≡ true) ts
ids_of-All [] = tt
ids_of-All (t ∷ ts) = (
  rw (beq_refl t.id) refl,
  All-map _ _ ts
      (λ (u : ExchangeTrade) found.
        ap (λ b. str_eq u.id t.id || b) found ∙ or_true (str_eq u.id t.id))
      (ids_of-All ts),
)

pub ids_of-filter :
    (last : ℕ) (ts : List ExchangeTrade)
    → All
        (λ (t : ExchangeTrade).
          t.ts ≡ last
          → any (str_eq t.id) (ids_of (filter (λ (u : ExchangeTrade). u.ts == last) ts)) ≡ true)
        ts
ids_of-filter last [] = tt
ids_of-filter last (t ∷ ts) =
    let kept : List ExchangeTrade = filter (λ (u : ExchangeTrade). u.ts == last) ts in
    (
      λ now. rw ((==_iff t.ts last).1 now, beq_refl t.id) refl,
      All-map _ _ ts
          (λ (u : ExchangeTrade) found now.
            if_ind (λ (l : List ExchangeTrade). any (str_eq u.id) (ids_of l) ≡ true) (t.ts == last)
              (λ _. ap (λ b. str_eq u.id t.id || b) (found now) ∙ or_true (str_eq u.id t.id))
              (λ _. found now))
          (ids_of-filter last ts),
    )
