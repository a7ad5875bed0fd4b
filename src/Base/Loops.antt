-- ===== src/Base/Loops.antt =====
-- A `for` loop that changes a state and appends to a list of results, and the relations that it
-- keeps from its body.
use mathlib.Core.List.{List, [], ◌∷◌, ◌++◌}
use kaupo.Base.Lists.{All}

module _ {κ μ} {S : Type κ} {F : Type μ} where
  -- A relation of the state before, the results and the state after that runs compose.
  pub record IsComposed {ν} (R : S → List F → S → Type ν) : Type (κ ⊔ μ ⊔ ν) where
    pub idle : (s : S) → R s [] s
    pub compose : {fs gs : List F} {s s' s'' : S} → R s fs s' → R s' gs s'' → R s (fs ++ gs) s''

module _ {ℓ κ μ} {A : Type ℓ} {S : Type κ} {F : Type μ} where
  abbrev pub each : (A → S → List F × S) → List A → S → List F × S
  each f [] s = ([], s)
  each f (x ∷ xs) s = let (fs, s') = f x s in let (gs, s'') = each f xs s' in (fs ++ gs, s'')

  pub each-keeps {ν ρ} :
      {R : S → List F → S → Type ν} {P : A → Type ρ} (f : A → S → List F × S)
      → IsComposed R
      → ((x : A) (s : S) → P x → R s (f x s).0 (f x s).1)
      → (xs : List A) (s : S) → All P xs
      → R s (each f xs s).0 (each f xs s).1
  each-keeps f composed body [] s _ = composed.idle s
  each-keeps f composed body (x ∷ xs) s (h, hs) =
      composed.compose (body x s h) (each-keeps f composed body xs (f x s).1 hs)
