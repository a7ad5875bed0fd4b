-- ===== src/Domain/Totals.antt =====
-- A dict of running totals, `d[k] = d.get(k, 0) + x`.
use kaupo.Base.{◌≡◌, refl, sym, Bool-cases, inl, inr, if◌then◌else◌, get_or}
use kaupo.Base.Int.{ℤ, pos, ◌+ℤ◌, +ℤ_zero}
use kaupo.Base.Dict.{Dict, lookup, insert, lookup-insert}
use kaupo.Domain.Types.{Pair, pair_eq, pair_eq_iff, eq_pair}

-- `d.get(p, 0)`
abbrev pub total : Pair → Dict Pair ℤ → ℤ
total p d = get_or (lookup p d) (pos 0)

pub total-bump :
    (p k : Pair) (x : ℤ) (d : Dict Pair ℤ)
    → total p (insert k (total k d +ℤ x) d) ≡ total p d +ℤ (if pair_eq p k then x else pos 0)
total-bump p k x d = elim (Bool-cases (pair_eq p k)) [
  | inl same ↦ rw (lookup-insert p k (total k d +ℤ x) d, same) (rw ((pair_eq_iff p k).0 same) refl)
  | inr other ↦ rw (lookup-insert p k (total k d +ℤ x) d, other) (sym (+ℤ_zero (total p d)))
]
