-- ===== src/Supervisor/Own.antt =====
-- Operations of a pass that are on one assignment only (kaupo/core/supervisor.py).
use kaupo.Base.{
  ◌≡◌, refl, sym, ap, ◌∙◌, String, Bool, true, false, Option, none, some, if◌then◌else◌, on_some,
  Bool-cases, inl, inr, subst,
}
use kaupo.Domain.{eq_string}
use kaupo.Supervisor.State.{Supervisor}
use kaupo.Supervisor.Local.{Local, slice, IsTidy}

-- An operation on an assignment, and what it does to the slice of it.
pub record IsOwn (aid : String) (f : Supervisor → Supervisor) (g : Local → Local) : Type 0 where
  pub tidy : (s : Supervisor) → IsTidy s → IsTidy (f s)
  pub own : (s : Supervisor) → IsTidy s → slice aid (f s) ≡ g (slice aid s)
  pub other :
      (j : String) (s : Supervisor)
      → IsTidy s
      → eq_string.beq j aid ≡ false
      → slice j (f s) ≡ slice j s

-- Any slice, whether it is the operation's own or another one.
pub IsOwn-slice :
    (aid : String) (f : Supervisor → Supervisor) (g : Local → Local)
    → IsOwn aid f g
    → (j : String) (s : Supervisor) → IsTidy s
    → slice j (f s) ≡ (if eq_string.beq j aid then g (slice j s) else slice j s)
IsOwn-slice aid f g h j s tidy = elim (Bool-cases (eq_string.beq j aid)) [
  | inl same ↦ rw (same) (
      subst (λ i. slice i (f s) ≡ g (slice i s)) (sym ((eq_string.beq_iff j aid).0 same))
        (h.own s tidy))
  | inr apart ↦ rw (apart) (h.other j s tidy apart)
]

pub IsOwn-id : (aid : String) → IsOwn aid (λ s. s) (λ l. l)
IsOwn-id aid = record { tidy = λ s t. t; own = λ s t. refl; other = λ j s t ne. refl }

pub IsOwn-compose :
    (aid : String) (f f' : Supervisor → Supervisor) (g g' : Local → Local)
    → IsOwn aid f g
    → IsOwn aid f' g'
    → IsOwn aid (λ s. f' (f s)) (λ l. g' (g l))
IsOwn-compose aid f f' g g' h h' = record {
  tidy = λ s t. h'.tidy (f s) (h.tidy s t);
  own = λ s t. h'.own (f s) (h.tidy s t) ∙ ap g' (h.own s t);
  other = λ j s t ne. h'.other j (f s) (h.tidy s t) ne ∙ h.other j s t ne;
}

-- An operation under a test, or one of two.
pub IsOwn-if-else :
    (aid : String) (b : Bool) (f f' : Supervisor → Supervisor) (g g' : Local → Local)
    → IsOwn aid f g
    → IsOwn aid f' g'
    → IsOwn aid (λ s. if b then f s else f' s) (λ l. if b then g l else g' l)
IsOwn-if-else aid true f f' g g' h h' = h
IsOwn-if-else aid false f f' g g' h h' = h'

pub IsOwn-if :
    (aid : String) (b : Bool) (f : Supervisor → Supervisor) (g : Local → Local)
    → IsOwn aid f g
    → IsOwn aid (λ s. if b then f s else s) (λ l. if b then g l else l)
IsOwn-if aid b f g h = IsOwn-if-else aid b f _ g _ h (IsOwn-id aid)

pub IsOwn-on_some :
    {A : Type 0} (aid : String) (o : Option A) (f : Supervisor → Supervisor)
    (f' : A → Supervisor → Supervisor) (g : Local → Local) (g' : A → Local → Local)
    → IsOwn aid f g
    → ((a : A) → IsOwn aid (f' a) (g' a))
    → IsOwn aid (λ s. on_some o (f s) (λ a. f' a s)) (λ l. on_some o (g l) (λ a. g' a l))
IsOwn-on_some aid none f f' g g' h h' = h
IsOwn-on_some aid (some a) f f' g g' h h' = h' a
