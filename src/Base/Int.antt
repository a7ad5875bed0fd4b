-- ===== src/Base/Int.antt =====
-- Signed integers over the native numbers, under the library's names. The numbers of the
-- program that carry a sign (amounts of cash, sizes, prices) are integers of a fixed unit.
use Prim.Native.Nat.{ℕ, suc, ◌+◌, ◌-◌, ◌*◌, ◌/◌, ◌≤◌}
use mathlib.Core.Path.{◌≡◌, refl, ap}
use mathlib.Core.Logic.{◌⊎◌, ◌≢◌, inl, inr}
use mathlib.Core.Bool.{Bool, true, false}
use native.Mathlib.Nat.{div-add-mod, mod-lt}
use native.Mathlib.Omega.{arith}
use kaupo.Base.Tests.{Bool-cases, ltb, leb, ◌==◌, if◌then◌else◌}

-- `negsuc n` is -(n + 1).
pub data ℤ : Type 0 where
  pos : ℕ → ℤ
  negsuc : ℕ → ℤ

abbrev pub pos_part : ℤ → ℕ
pos_part (pos n) = n
pos_part (negsuc n) = 0

abbrev pub neg_part : ℤ → ℕ
neg_part (pos n) = 0
neg_part (negsuc n) = suc n

-- a - b, as an integer.
abbrev pub sub_ℕ : ℕ → ℕ → ℤ
sub_ℕ a b = if leb b a then pos (a - b) else negsuc (b - a - 1)

infixl 65 ◌+ℤ◌ ◌-ℤ◌
infixl 70 ◌*ℤ◌ ◌/ℤ◌
infix 50 ◌≤ℤ◌ ◌<ℤ◌
unfoldable pub ◌+ℤ◌ : ℤ → ℤ → ℤ
a +ℤ b = sub_ℕ (pos_part a + pos_part b) (neg_part a + neg_part b)

unfoldable pub ◌-ℤ◌ : ℤ → ℤ → ℤ
a -ℤ b = sub_ℕ (pos_part a + neg_part b) (neg_part a + pos_part b)

unfoldable pub ◌*ℤ◌ : ℤ → ℤ → ℤ
a *ℤ b =
    sub_ℕ (pos_part a * pos_part b + neg_part a * neg_part b)
      (pos_part a * neg_part b + neg_part a * pos_part b)

-- Division by a positive number, rounded down.
unfoldable pub ◌/ℤ◌ : ℤ → ℤ → ℤ
pos n /ℤ d = pos (n / pos_part d)
negsuc n /ℤ d = negsuc (n / pos_part d)

unfoldable pub neg : ℤ → ℤ
unfolding ◌-ℤ◌
neg a = pos 0 -ℤ a

abbrev pub ◌≤ℤ◌ : ℤ → ℤ → Type 0
a ≤ℤ b = pos_part a + neg_part b ≤ pos_part b + neg_part a

abbrev pub ◌<ℤ◌ : ℤ → ℤ → Type 0
a <ℤ b = suc (pos_part a + neg_part b) ≤ pos_part b + neg_part a

abbrev pub ltb_ℤ : ℤ → ℤ → Bool
ltb_ℤ a b = ltb (pos_part a + neg_part b) (pos_part b + neg_part a)

abbrev pub leb_ℤ : ℤ → ℤ → Bool
leb_ℤ a b = leb (pos_part a + neg_part b) (pos_part b + neg_part a)

abbrev pub eqb_ℤ : ℤ → ℤ → Bool
eqb_ℤ a b = pos_part a + neg_part b == pos_part b + neg_part a

unfoldable pub min_ℤ : ℤ → ℤ → ℤ
min_ℤ a b = if leb_ℤ a b then a else b

unfoldable pub max_ℤ : ℤ → ℤ → ℤ
max_ℤ a b = if leb_ℤ b a then a else b

unfoldable pub abs : ℤ → ℤ
unfolding neg
abs a = if ltb_ℤ a (pos 0) then neg a else a

-- With one lemma for each operation `omega` works while the operations stay shut.
pub +ℤ_parts :
    (a b : ℤ)
    → pos_part (a +ℤ b) + neg_part a + neg_part b ≡ neg_part (a +ℤ b) + pos_part a + pos_part b
unfolding ◌+ℤ◌
+ℤ_parts a b = ground arith

pub -ℤ_parts :
    (a b : ℤ)
    → pos_part (a -ℤ b) + neg_part a + pos_part b ≡ neg_part (a -ℤ b) + pos_part a + neg_part b
unfolding ◌-ℤ◌
-ℤ_parts a b = ground arith

pub neg_parts : (a : ℤ) → pos_part (neg a) + pos_part a ≡ neg_part (neg a) + neg_part a
unfolding neg ◌-ℤ◌
neg_parts a = ground arith

pub *ℤ_parts :
    (a b : ℤ)
    → pos_part (a *ℤ b) + pos_part a * neg_part b + neg_part a * pos_part b
      ≡ neg_part (a *ℤ b) + pos_part a * pos_part b + neg_part a * neg_part b
unfolding ◌*ℤ◌
*ℤ_parts a b = ground arith

pub eq_of_parts : (a b : ℤ) → pos_part a + neg_part b ≡ pos_part b + neg_part a → a ≡ b
eq_of_parts a b h = ground arith

-- How `omega` reads an equation of integers.
pub parts_of_eq : (a b : ℤ) → a ≡ b → pos_part a + neg_part b ≡ pos_part b + neg_part a
parts_of_eq a b e = rw e refl

pub min_ℤ_parts :
    (a b : ℤ) → (min_ℤ a b ≤ℤ a) × (min_ℤ a b ≤ℤ b) × ((min_ℤ a b ≡ a) ⊎ (min_ℤ a b ≡ b))
unfolding min_ℤ
min_ℤ_parts a b = ground arith

pub max_ℤ_parts :
    (a b : ℤ) → (a ≤ℤ max_ℤ a b) × (b ≤ℤ max_ℤ a b) × ((max_ℤ a b ≡ a) ⊎ (max_ℤ a b ≡ b))
unfolding max_ℤ
max_ℤ_parts a b = ground arith

pub abs_parts :
    (a : ℤ)
    → (a ≤ℤ abs a)
      × (neg a ≤ℤ abs a)
      × ((abs a ≡ a) × (pos 0 ≤ℤ a) ⊎ (abs a ≡ neg a) × (a ≤ℤ pos 0))
unfolding abs neg ◌-ℤ◌
abs_parts a = ground arith

pub ruleset int_laws = (arith, +ℤ_parts, -ℤ_parts, neg_parts, eq_of_parts, parts_of_eq)

pub +ℤ_comm : (a b : ℤ) → a +ℤ b ≡ b +ℤ a
+ℤ_comm a b = omega int_laws

pub add_neg : (a b : ℤ) → a +ℤ neg b ≡ a -ℤ b
add_neg a b = omega int_laws

pub +ℤ_zero : (a : ℤ) → a +ℤ pos 0 ≡ a
+ℤ_zero a = omega int_laws

pub *ℤ_comm : (a b : ℤ) → a *ℤ b ≡ b *ℤ a
*ℤ_comm a b = eq_of_parts _ _ (omega (arith, *ℤ_parts a b, *ℤ_parts b a))

-- For a fact over the parts, both its multiples by the parts of `c`.
module _ (c : ℤ) {x y : ℕ} (e : x ≡ y) where
  times_pos : pos_part c * x ≡ pos_part c * y
  times_pos = ap (λ (t : ℕ). pos_part c * t) e

  times_neg : neg_part c * x ≡ neg_part c * y
  times_neg = ap (λ (t : ℕ). neg_part c * t) e

pub *ℤ-distrib_left : (a b c : ℤ) → a *ℤ (b +ℤ c) ≡ a *ℤ b +ℤ a *ℤ c
*ℤ-distrib_left a b c = eq_of_parts _ _ (
    omega (
      arith,
      *ℤ_parts a (b +ℤ c),
      *ℤ_parts a b,
      *ℤ_parts a c,
      +ℤ_parts (a *ℤ b) (a *ℤ c),
      times_pos a (+ℤ_parts b c),
      times_neg a (+ℤ_parts b c),
    ))

pub *ℤ-distrib_sub : (a b c : ℤ) → a *ℤ (b -ℤ c) ≡ a *ℤ b -ℤ a *ℤ c
*ℤ-distrib_sub a b c = eq_of_parts _ _ (
    omega (
      arith,
      *ℤ_parts a (b -ℤ c),
      *ℤ_parts a b,
      *ℤ_parts a c,
      -ℤ_parts (a *ℤ b) (a *ℤ c),
      times_pos a (-ℤ_parts b c),
      times_neg a (-ℤ_parts b c),
    ))

pub *ℤ-distrib_right : (a b c : ℤ) → (a +ℤ b) *ℤ c ≡ a *ℤ c +ℤ b *ℤ c
*ℤ-distrib_right a b c = rw (*ℤ_comm (a +ℤ b) c, *ℤ_comm a c, *ℤ_comm b c) (*ℤ-distrib_left c a b)

pub *ℤ-distrib_sub_right : (a b c : ℤ) → (a -ℤ b) *ℤ c ≡ a *ℤ c -ℤ b *ℤ c
*ℤ-distrib_sub_right a b c =
    rw (*ℤ_comm (a -ℤ b) c, *ℤ_comm a c, *ℤ_comm b c) (*ℤ-distrib_sub c a b)

pub *ℤ_zero : (a : ℤ) → a *ℤ pos 0 ≡ pos 0
*ℤ_zero a = eq_of_parts _ _ (omega (arith, *ℤ_parts a (pos 0)))

pub zero_*ℤ : (a : ℤ) → pos 0 *ℤ a ≡ pos 0
zero_*ℤ a = eq_of_parts _ _ (omega (arith, *ℤ_parts (pos 0) a))

pub neg-*ℤ : (a b : ℤ) → neg a *ℤ b ≡ neg (a *ℤ b)
neg-*ℤ a b = eq_of_parts _ _ (
    omega (
      arith,
      *ℤ_parts (neg a) b,
      *ℤ_parts a b,
      neg_parts (a *ℤ b),
      times_pos b (neg_parts a),
      times_neg b (neg_parts a),
    ))

-- A non-negative integer is a natural number.
pub nonneg_cases : (a : ℤ) → pos 0 ≤ℤ a → (n : ℕ) × (a ≡ pos n)
nonneg_cases (pos n) h = (n, refl)
nonneg_cases (negsuc n) h = absurd (omega arith)

pub *ℤ_nonneg : (a b : ℤ) → pos 0 ≤ℤ a → pos 0 ≤ℤ b → pos 0 ≤ℤ a *ℤ b
*ℤ_nonneg (pos n) (pos m) h k = omega (arith, *ℤ_parts (pos n) (pos m))
*ℤ_nonneg (negsuc n) b h k = absurd (omega arith)
*ℤ_nonneg (pos n) (negsuc m) h k = absurd (omega arith)

pub *ℤ_mono : (a b c : ℤ) → pos 0 ≤ℤ c → a ≤ℤ b → a *ℤ c ≤ℤ b *ℤ c
*ℤ_mono a b c h k =
    let grows : pos 0 ≤ℤ (b -ℤ a) *ℤ c = *ℤ_nonneg (b -ℤ a) c (omega int_laws) h in
    let split : pos 0 ≤ℤ b *ℤ c -ℤ a *ℤ c = rw (*ℤ-distrib_sub_right b a c) at grows in
    omega int_laws

-- The tests, for `omega`.
pub ltb_ℤ-true : (a b : ℤ) → ltb_ℤ a b ≡ true → a <ℤ b
ltb_ℤ-true a b h = ground arith

pub ltb_ℤ-false : (a b : ℤ) → ltb_ℤ a b ≡ false → b ≤ℤ a
ltb_ℤ-false a b h = ground arith

pub leb_ℤ-true : (a b : ℤ) → leb_ℤ a b ≡ true → a ≤ℤ b
leb_ℤ-true a b h = ground arith

pub leb_ℤ-false : (a b : ℤ) → leb_ℤ a b ≡ false → b <ℤ a
leb_ℤ-false a b h = ground arith

pub eqb_ℤ-true : (a b : ℤ) → eqb_ℤ a b ≡ true → a ≡ b
eqb_ℤ-true a b h = ground arith

pub eqb_ℤ-false : (a b : ℤ) → eqb_ℤ a b ≡ false → pos_part a + neg_part b ≢ pos_part b + neg_part a
eqb_ℤ-false a b h = ground arith

pub ruleset int_tests = (int_laws, ltb_ℤ-true, ltb_ℤ-false, leb_ℤ-true, leb_ℤ-false, eqb_ℤ-true)

pub lt→ltb_ℤ : (a b : ℤ) → a <ℤ b → ltb_ℤ a b ≡ true
lt→ltb_ℤ a b h = ground arith

pub eq→eqb_ℤ : (a b : ℤ) → a ≡ b → eqb_ℤ a b ≡ true
eq→eqb_ℤ a b h = ground arith

-- No `a < b` where `b ≤ a`.
pub le→ltb_ℤ : (a b : ℤ) → b ≤ℤ a → ltb_ℤ a b ≡ false
le→ltb_ℤ a b h = ground arith

-- Division by a positive number rounds down.
pub /ℤ-*ℤ-le : (a d : ℤ) → pos 0 <ℤ d → a /ℤ d *ℤ d ≤ℤ a
unfolding ◌/ℤ◌
/ℤ-*ℤ-le (pos n) (pos d) h = omega (arith, *ℤ_parts (pos (n / d)) (pos d), div-add-mod n d)
/ℤ-*ℤ-le (negsuc n) (pos d) h =
    omega
      (arith, *ℤ_parts (negsuc (n / d)) (pos d), div-add-mod n d, mod-lt n {m = d} (omega arith))
/ℤ-*ℤ-le a (negsuc d) h = absurd (omega arith)

pub lt-/ℤ-*ℤ : (a d : ℤ) → pos 0 <ℤ d → a <ℤ a /ℤ d *ℤ d +ℤ d
unfolding ◌/ℤ◌
lt-/ℤ-*ℤ (pos n) (pos d) h = omega (
  arith,
  *ℤ_parts (pos (n / d)) (pos d),
  +ℤ_parts (pos (n / d) *ℤ pos d) (pos d),
  div-add-mod n d,
  mod-lt n {m = d} (omega arith),
)
lt-/ℤ-*ℤ (negsuc n) (pos d) h = omega (
  arith,
  *ℤ_parts (negsuc (n / d)) (pos d),
  +ℤ_parts (negsuc (n / d) *ℤ pos d) (pos d),
  div-add-mod n d,
)
lt-/ℤ-*ℤ a (negsuc d) h = absurd (omega arith)

-- A quotient is determined by its two bounds.
pub *ℤ-/ℤ_cancel : (a d : ℤ) → pos 0 <ℤ d → a *ℤ d /ℤ d ≡ a
*ℤ-/ℤ_cancel a d h =
    let q : ℤ = a *ℤ d /ℤ d in
    let low : pos 0 ≤ℤ (a -ℤ q) *ℤ d =
      rw (*ℤ-distrib_sub_right a q d) (omega (int_laws, /ℤ-*ℤ-le (a *ℤ d) d h)) in
    let high : (a -ℤ q) *ℤ d <ℤ d =
      rw (*ℤ-distrib_sub_right a q d) (omega (int_laws, lt-/ℤ-*ℤ (a *ℤ d) d h)) in
    let x : ℤ = a -ℤ q in
    elim (Bool-cases (ltb_ℤ x (pos 0))) [
      | inl below ↦
          let less =
            *ℤ_mono x (negsuc 0) d (omega arith) (omega (int_laws, ltb_ℤ-true x (pos 0) below)) in
          absurd (omega (int_laws, *ℤ_parts (negsuc 0) d))
      | inr not_below ↦ elim (Bool-cases (ltb_ℤ (pos 0) x)) [
        | inl above ↦
            let more =
              *ℤ_mono (pos 1) x d (omega arith) (omega (int_laws, ltb_ℤ-true (pos 0) x above)) in
            absurd (omega (int_laws, *ℤ_parts (pos 1) d))
        | inr not_above ↦
            omega (int_laws, ltb_ℤ-false x (pos 0) not_below, ltb_ℤ-false (pos 0) x not_above)
      ]
    ]

pub /ℤ_nonneg : (a d : ℤ) → pos 0 ≤ℤ a → pos 0 ≤ℤ a /ℤ d
unfolding ◌/ℤ◌
/ℤ_nonneg (pos n) d h = omega arith
/ℤ_nonneg (negsuc n) d h = absurd (omega arith)

pub min_ℤ_left : (a b : ℤ) → a ≤ℤ b → min_ℤ a b ≡ a
min_ℤ_left a b h = omega (int_laws, min_ℤ_parts a b)
