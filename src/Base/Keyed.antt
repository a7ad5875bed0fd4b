-- ===== src/Base/Keyed.antt =====
-- Dicts whose keys are distinct, and loops that treat each key once.
use mathlib.Core.Path.{◌≡◌, refl, sym, ap, ◌∙◌, subst}
use mathlib.Core.Logic.{inl, inr}
use mathlib.Core.Bool.{Bool, true, false}
use mathlib.Core.Option.{Option, none, some}
use mathlib.Core.List.{List, [], ◌∷◌, map}
use native.Mathlib.Omega.{arith}
use kaupo.Base.Tests.{if◌then◌else◌, if_ind, Bool-cases, on_some}
use kaupo.Base.Lists.{filter, for_each}
use kaupo.Base.Dict.{Eq, Dict, lookup, insert, erase, beq_refl, lookup-insert}

module _ {ℓ κ} {K : Type ℓ} {V : Type κ} ⦃e : Eq K⦄ where
  abbrev pub Distinct : Dict K V → Type (ℓ ⊔ κ)
  Distinct [] = Unit
  Distinct ((k, v) ∷ d) = (lookup k d ≡ none) × Distinct d

  pub lookup-erase :
      (j k : K) (d : Dict K V)
      → Distinct d
      → lookup j (erase k d) ≡ (if e.beq j k then none else lookup j d)
  lookup-erase j k [] _ = ground arith
  lookup-erase j k ((i, w) ∷ d) (fresh, rest) =
      ground (arith, e.beq_iff j k, e.beq_iff k i, e.beq_iff j i, lookup-erase j k d rest, fresh)

  pub insert-Distinct : (k : K) (v : V) (d : Dict K V) → Distinct d → Distinct (insert k v d)
  insert-Distinct k v [] _ = (refl, tt)
  insert-Distinct k v ((j, w) ∷ d) (fresh, rest) =
      if_ind Distinct (e.beq k j) (λ _. (fresh, rest))
        λ other. (
          ground (arith, lookup-insert j k v d, e.beq_iff k j, e.beq_iff j k, fresh, other),
          insert-Distinct k v d rest,
        )

  pub erase-Distinct : (k : K) (d : Dict K V) → Distinct d → Distinct (erase k d)
  erase-Distinct k [] _ = tt
  erase-Distinct k ((j, w) ∷ d) (fresh, rest) =
      if_ind Distinct (e.beq k j) (λ _. rest)
        (λ _. (rw (lookup-erase j k d rest, fresh) (ground arith), erase-Distinct k d rest))

  module _ {μ} {W : Type μ} (h : K → V → W) where
    pub lookup-map :
        (j : K) (d : Dict K V)
        → lookup j (map (λ (x : K × V). (x.0, h x.0 x.1)) d)
          ≡ on_some (lookup j d) none (λ v. some (h j v))
    lookup-map j [] = refl
    lookup-map j ((k, v) ∷ d) = elim (Bool-cases (e.beq j k)) [
      | inl own ↦ rw (own) (ap (λ i. some (h i v)) (sym ((e.beq_iff j k).0 own)))
      | inr other ↦ rw (other) (lookup-map j d)
    ]

  lookup-filter_own :
      (p : K × V → Bool) (k : K) (v : V) (d : Dict K V)
      → lookup k (filter p d) ≡ none
      → lookup k (filter p ((k, v) ∷ d)) ≡ (if p (k, v) then some v else none)
  lookup-filter_own p k v d gone = elim (Bool-cases (p (k, v))) [
    | inl taken ↦ rw (taken, beq_refl k) refl
    | inr dropped ↦ rw (dropped) gone
  ]

  pub lookup-filter :
      (p : K × V → Bool) (j : K) (d : Dict K V)
      → Distinct d
      → lookup j (filter p d) ≡ on_some (lookup j d) none (λ v. if p (j, v) then some v else none)
  lookup-filter p j [] _ = refl
  lookup-filter p j ((k, v) ∷ d) (fresh, rest) =
      let later = lookup-filter p j d rest in
      elim (Bool-cases (e.beq j k)) [
        | inl own ↦
            let gone =
              lookup-filter p k d rest
              ∙ ap (λ o. on_some o none (λ v. if p (k, v) then some v else none)) fresh in
            rw ((e.beq_iff j k).0 own, beq_refl k) (lookup-filter_own p k v d gone)
        | inr other ↦ rw (other) (
            if_ind
              (λ (c : Dict K V).
                lookup j c ≡ on_some (lookup j d) none (λ v. if p (j, v) then some v else none))
              (p (k, v)) (λ _. rw (other) later) (λ _. later))
      ]

  pub filter-Distinct : (p : K × V → Bool) (d : Dict K V) → Distinct d → Distinct (filter p d)
  filter-Distinct p [] _ = tt
  filter-Distinct p ((k, v) ∷ d) (fresh, rest) =
      if_ind Distinct (p (k, v))
        (λ _. (
          lookup-filter p k d rest
              ∙ ap (λ o. on_some o none (λ v. if p (k, v) then some v else none)) fresh,
          filter-Distinct p d rest,
        ))
        (λ _. filter-Distinct p d rest)

module _ {ℓ κ μ} {K : Type ℓ} {V : Type κ} {W : Type μ} ⦃e : Eq K⦄ where
  pub map-Distinct :
      (h : K → V → W) (d : Dict K V)
      → Distinct d
      → Distinct (map (λ (x : K × V). (x.0, h x.0 x.1)) d)
  map-Distinct h [] _ = tt
  map-Distinct h ((k, v) ∷ d) (fresh, rest) =
      (lookup-map h k d ∙ ap (λ o. on_some o none (λ v. some (h k v))) fresh, map-Distinct h d rest)

-- The items of a loop, by their keys.
module _ {ℓ κ} {K : Type ℓ} {A : Type κ} ⦃e : Eq K⦄ (key : A → K) where
  abbrev pub index : List A → Dict K A
  index xs = map (λ (x : A). (key x, x)) xs

  module _ {μ ν π} {S : Type μ} {L : Type ν} (Inv : S → Type π) (view : K → S → L) (f : A → S → S)
      (g : A → L → L) (keeps : (x : A) (s : S) → Inv s → Inv (f x s))
      (step : (j : K) (x : A) (s : S)
        → Inv s
        → view j (f x s) ≡ (if e.beq j (key x) then g x (view j s) else view j s)) where
    pub for_each-keeps : (xs : List A) (s : S) → Inv s → Inv (for_each f xs s)
    for_each-keeps [] s inv = inv
    for_each-keeps (x ∷ xs) s inv = for_each-keeps xs (f x s) (keeps x s inv)

    -- A loop that treats each key once does to a key what its own item does.
    pub for_each-view :
        (j : K) (xs : List A) (s : S)
        → Distinct (index xs)
        → Inv s
        → view j (for_each f xs s) ≡ on_some (lookup j (index xs)) (view j s) (λ x. g x (view j s))
    for_each-view j [] s _ inv = refl
    for_each-view j (x ∷ xs) s (fresh, rest) inv =
        let later = for_each-view j xs (f x s) rest (keeps x s inv) in
        let now = λ (b : Bool) (h : e.beq j (key x) ≡ b).
          step j x s inv ∙ ap (λ b. if b then g x (view j s) else view j s) h in
        let after : L = view j (f x s) in
        elim (Bool-cases (e.beq j (key x))) [
          | inl own ↦
              let gone = ap (λ i. lookup i (index xs)) ((e.beq_iff j (key x)).0 own) ∙ fresh in
              rw (own) (later ∙ ap (λ o. on_some o after (λ y. g y after)) gone ∙ now true own)
          | inr other ↦
              rw (other)
                (later ∙ ap (λ l. on_some (lookup j (index xs)) l (λ y. g y l)) (now false other))
        ]

-- What follows of an option that is looked up twice.
pub on_some-on_some {ℓ κ μ} :
    {A : Type ℓ} {B : Type κ} {C : Type μ} (o : Option A) (f : A → Option B) (c : C) (g : B → C)
    → on_some (on_some o none f) c g ≡ on_some o c (λ a. on_some (f a) c g)
on_some-on_some none f c g = refl
on_some-on_some (some a) f c g = refl

module _ {ℓ κ} {K : Type ℓ} {V : Type κ} ⦃e : Eq K⦄ where
  pub lookup-items :
      (j : K) (d : Dict K V)
      → lookup j (index (λ (x : K × V). x.0) d) ≡ on_some (lookup j d) none (λ v. some (j, v))
  lookup-items j d = lookup-map (λ (k : K) (v : V). (k, v)) j d

  pub items-Distinct : (d : Dict K V) → Distinct d → Distinct (index (λ (x : K × V). x.0) d)
  items-Distinct d = map-Distinct (λ (k : K) (v : V). (k, v)) d

  index-keys :
      (d : Dict K V)
      → index (λ (k : K). k) (map (λ (x : K × V). x.0) d) ≡ map (λ (x : K × V). (x.0, x.0)) d
  index-keys [] = refl
  index-keys ((k, v) ∷ d) = ap (λ rest. (k, k) ∷ rest) (index-keys d)

  pub lookup-keys :
      (j : K) (d : Dict K V)
      → lookup j (index (λ (k : K). k) (map (λ (x : K × V). x.0) d))
        ≡ on_some (lookup j d) none (λ _. some j)
  lookup-keys j d = ap (λ c. lookup j c) (index-keys d) ∙ lookup-map (λ (k : K) (_ : V). k) j d

  pub keys-Distinct :
      (d : Dict K V) → Distinct d → Distinct (index (λ (k : K). k) (map (λ (x : K × V). x.0) d))
  keys-Distinct d h = subst Distinct (sym (index-keys d)) (map-Distinct (λ (k : K) (_ : V). k) d h)
