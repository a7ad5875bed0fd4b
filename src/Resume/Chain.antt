-- ===== src/Resume/Chain.antt =====
-- The walk to the root of a run chain ends, at a root and over links only (kaupo/core/resume.py).
use text.Mathlib.Text.{◌==◌ as str_eq}
use kaupo.Base.{
  ◌≡◌, refl, sym, ap, subst, ◌∙◌, ℕ, zero, suc, ◌≤◌, ◌<◌, String, false, none, some, List, [], ◌∷◌,
  any, length, if◌then◌else◌, if_ind, on_some_ind, Bool-cases, inl, inr, arith,
}
use kaupo.Base.Dict.{Dict, lookup, beq_refl}
use kaupo.Domain.{eq_string}
use kaupo.Resume.State.{RunRow}
use kaupo.Resume.Prepare.{Walk, chain, broken, unfinished, walk, chain_rows}

-- How many rows have not been seen.
abbrev unseen : List String → Dict String RunRow → ℕ
unseen seen [] = 0
unseen seen ((k, _) ∷ d) = if any (str_eq k) seen then unseen seen d else suc (unseen seen d)

unseen-le_length : (seen : List String) (d : Dict String RunRow) → unseen seen d ≤ length d
unseen-le_length seen [] = omega arith
unseen-le_length seen ((k, _) ∷ d) =
    let rest = unseen-le_length seen d in
    if_ind (λ (n : ℕ). n ≤ suc (length d)) (any (str_eq k) seen) (λ _. omega arith)
      (λ _. omega arith)

unseen-see :
    (p : String) (seen : List String) (d : Dict String RunRow) → unseen (p ∷ seen) d ≤ unseen seen d
unseen-see p seen [] = omega arith
unseen-see p seen ((k, _) ∷ d) = let rest = unseen-see p seen d in ground arith

see_own :
    (p : String) (r : RunRow) (seen : List String) (d : Dict String RunRow)
    → any (str_eq p) seen ≡ false
    → unseen (p ∷ seen) ((p, r) ∷ d) < unseen seen ((p, r) ∷ d)
see_own p r seen d new = let rest = unseen-see p seen d in rw (beq_refl p, new) (omega arith)

-- A row that is seen for the first time is one less.
unseen-first :
    (p : String) (row : RunRow) (seen : List String) (d : Dict String RunRow)
    → lookup p d ≡ some row
    → any (str_eq p) seen ≡ false
    → unseen (p ∷ seen) d < unseen seen d
unseen-first p row seen [] found new = cc
unseen-first p row seen ((k, r) ∷ d) found new = elim (Bool-cases (str_eq p k)) [
  | inl own ↦
      subst (λ i. unseen (p ∷ seen) ((i, r) ∷ d) < unseen seen ((i, r) ∷ d))
        ((eq_string.beq_iff p k).0 own) (see_own p r seen d new)
  | inr other ↦
      let later : lookup p d ≡ some row =
        ap (λ b. if b then some r else lookup p d) (sym other) ∙ found in
      let rest = unseen-first p row seen d later new in
      let apart = eq_string.beq_iff k p in let apart' = eq_string.beq_iff p k in ground arith
]

-- Each row resumes from the one before it, and the first from none.
abbrev pub IsLinked : Dict String RunRow → List RunRow → Type 0
IsLinked rows [] = Unit
IsLinked rows (r ∷ []) = Unit
IsLinked rows (r ∷ s ∷ xs) =
    ((parent_id : String) × (s.resumed_from ≡ some parent_id) × (lookup parent_id rows ≡ some r))
    × IsLinked rows (s ∷ xs)

abbrev pub EndsWith : RunRow → List RunRow → Type 0
EndsWith tip [] = ⊥
EndsWith tip (r ∷ []) = r ≡ tip
EndsWith tip (_ ∷ r ∷ xs) = EndsWith tip (r ∷ xs)

abbrev pub HasRoot : List RunRow → Type 0
HasRoot [] = ⊥
HasRoot (r ∷ _) = r.resumed_from ≡ none

-- What a walk from a row promises: it is never unfinished, and a chain is linked from a root to the row.
abbrev pub IsWalk : Dict String RunRow → RunRow → Walk → Type 0
IsWalk rows tip (chain xs) = HasRoot xs × IsLinked rows xs × EndsWith tip xs
IsWalk rows tip broken = Unit
IsWalk rows tip unfinished = ⊥

walk-IsWalk :
    (rows : Dict String RunRow) (tip : RunRow) (fuel : ℕ) (seen : List String) (row : RunRow)
    (later : List RunRow)
    → unseen seen rows < fuel
    → IsLinked rows (row ∷ later)
    → EndsWith tip (row ∷ later)
    → IsWalk rows tip (walk rows fuel seen row later)
unfolding walk
walk-IsWalk rows tip zero seen row later enough linked last = omega arith
walk-IsWalk rows tip (suc fuel) seen row later enough linked last =
    on_some_ind (IsWalk rows tip) row.resumed_from (λ root. (root, linked, last))
      λ parent_id from.
        on_some_ind (IsWalk rows tip) (lookup parent_id rows) (λ _. tt)
          λ parent found.
            if_ind (IsWalk rows tip) (any (str_eq parent_id) seen) (λ _. tt)
              λ new.
                let fewer = unseen-first parent_id parent seen rows found new in
                walk-IsWalk rows tip fuel (parent_id ∷ seen) parent (row ∷ later) (omega arith)
                  ((parent_id, from, found), linked) last

-- The walk from a run to the root of its chain ends, for every database, with cycles and missing rows
-- too: either it finds the chain broken, or it returns rows that start with a row that resumes from
-- none, end with the run, and in which each row resumes from the one before it.
pub chain_rows-IsWalk :
    (rows : Dict String RunRow) (tip : RunRow) → IsWalk rows tip (chain_rows rows tip)
unfolding chain_rows
chain_rows-IsWalk rows tip =
    let bound = unseen-le_length (tip.id ∷ []) rows in
    walk-IsWalk rows tip (suc (length rows)) (tip.id ∷ []) tip [] (omega arith) tt refl
