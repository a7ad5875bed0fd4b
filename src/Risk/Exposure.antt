-- ===== src/Risk/Exposure.antt =====
-- Perp intents: the caps hold on the magnitude of the resulting position.
use kaupo.Base.{
  ◌≢◌, arith, ltb, ◌≡◌, refl, sym, ap, ◌∙◌, subst, ◌⊎◌, inl, inr, true, false, not, ◌&&◌, some,
  Bool-cases, if_ind,
}
use kaupo.Base.Int.{
  ℤ, pos, ◌+ℤ◌, ◌-ℤ◌, ◌*ℤ◌, ◌/ℤ◌, ◌≤ℤ◌, ◌<ℤ◌, neg, abs, abs_parts, min_ℤ, max_ℤ, min_ℤ_parts,
  max_ℤ_parts, ltb_ℤ, leb_ℤ, eqb_ℤ, lt→ltb_ℤ, le→ltb_ℤ, leb_ℤ-false, leb_ℤ-true, *ℤ-distrib_right,
  *ℤ_comm, *ℤ_parts, lt-/ℤ-*ℤ, int_laws, *ℤ_mono, /ℤ-*ℤ-le, /ℤ_nonneg,
}
use kaupo.Base.Dict.{Dict, insert, beq_refl}
use kaupo.Domain.{Pair, Side, buy, sell, on_side, eq_pair, OrderIntent, total, total-bump}
use kaupo.Risk.State.{RiskManager, RiskState, over_cap}
use kaupo.Risk.Spot.{Assessment, approved, refused, is_rejected, reject, price_for, shrunk}
use kaupo.Risk.Perp.{
  no_room, assess_delta, clamp_delta, signed_size, cap_quote, cap_size, assess_perp_priced,
  assess_perp_one, fold_perp,
}

-- The clamped delta leads into the window, wherever the position stands.
clamp_delta-within :
    (delta cap current : ℤ)
    → pos 0 ≤ℤ cap
    → (neg cap ≤ℤ current +ℤ clamp_delta delta cap current)
      × (current +ℤ clamp_delta delta cap current ≤ℤ cap)
unfolding clamp_delta
clamp_delta-within delta cap current h =
    let low : ℤ = max_ℤ delta (neg cap -ℤ current) in
    let parts = min_ℤ_parts low (cap -ℤ current) in
    let parts' = max_ℤ_parts delta (neg cap -ℤ current) in (omega int_laws, omega int_laws)

-- A verdict on a clamped delta: a rejection, or exactly that delta in the wanted direction.
abbrev Trades : OrderIntent → (delta d : ℤ) → Assessment → Type 0
Trades i delta d a =
    (a.intent ≡ i)
    × ((is_rejected a.decision ≡ true) ⊎ (no_room delta d ≡ false) × (a.size ≡ abs d))

assess_delta-Trades :
    (m : RiskManager) (i : OrderIntent) (current delta d price : ℤ)
    → Trades i delta d (assess_delta m i current delta d price)
unfolding assess_delta
assess_delta-Trades m i current delta d price =
    let Q : Assessment → Type 0 = Trades i delta d in
    if_ind Q (no_room delta d) (λ _. (refl, inl refl))
      λ room.
        if_ind Q (ltb 0 m.cooldown_remaining && ltb_ℤ (abs current) (abs (current +ℤ d)))
          (λ _. (refl, inl refl))
          (λ _.
            if_ind Q
              (ltb_ℤ (abs d *ℤ price) m.config.min_order_quote
                && not (eqb_ℤ (current +ℤ d) (pos 0)))
              (λ _. (refl, inl refl))
              (λ _.
                if_ind Q (shrunk (abs d) i.size) (λ _. (refl, inr (room, refl)))
                  (λ _. (refl, inr (room, refl)))))

-- Where the wanted direction has room, the delta goes that way.
room_up : (n d : ℤ) → pos 0 <ℤ n → no_room n d ≡ false → pos 0 ≤ℤ d
room_up n d h room = elim (Bool-cases (leb_ℤ d (pos 0))) [
  | inl low ↦ let stuck : true ≡ false = rw (lt→ltb_ℤ (pos 0) n h, low) at room in absurd (cc stuck)
  | inr high ↦ omega (int_laws, leb_ℤ-false d (pos 0) high)
]

room_down : (n d : ℤ) → pos 0 <ℤ n → no_room (neg n) d ≡ false → d ≤ℤ pos 0
room_down n d h room = elim (Bool-cases (leb_ℤ (pos 0) d)) [
  | inl high ↦
      let stuck : true ≡ false =
        rw
          (
            le→ltb_ℤ (pos 0) (neg n) (omega int_laws),
            lt→ltb_ℤ (neg n) (pos 0) (omega int_laws),
            high,
          )
          at room in
      absurd (cc stuck)
  | inr low ↦ omega (int_laws, leb_ℤ-false (pos 0) d low)
]

signed_on :
    (side : Side) (n d : ℤ)
    → pos 0 <ℤ n
    → no_room (on_side side n (neg n)) d ≡ false
    → on_side side (abs d) (neg (abs d)) ≡ d
signed_on buy n d h room = omega (int_laws, abs_parts d, room_up n d h room)
signed_on sell n d h room = omega (int_laws, abs_parts d, room_down n d h room)

-- A traded delta moves the running size by exactly that much.
fold_perp-total :
    (i : OrderIntent) (a : Assessment) (d : ℤ) (resulting : Dict Pair ℤ)
    → pos 0 <ℤ i.size
    → Trades i (signed_size i i.size) d a
    → is_rejected a.decision ≡ false
    → total i.pair (fold_perp a resulting) ≡ total i.pair resulting +ℤ d
unfolding fold_perp signed_size
fold_perp-total i a d resulting h (of_i, inl refusal) accepted = absurd (cc)
fold_perp-total i a d resulting h (of_i, inr (room, size)) accepted =
    let added : OrderIntent → ℤ → Dict Pair ℤ =
      λ j n. insert j.pair (total j.pair resulting +ℤ on_side j.side n (neg n)) resulting in
    let folded : fold_perp a resulting ≡ added a.intent a.size = rw accepted refl in
    let d' : ℤ = on_side i.side (abs d) (neg (abs d)) in
    ap (total i.pair) (folded ∙ ap (λ j. added j a.size) of_i ∙ ap (added i) size)
    ∙ total-bump i.pair i.pair d' resulting
    ∙ rw (beq_refl i.pair)
        (ap (λ n. total i.pair resulting +ℤ n) (signed_on i.side i.size d h room))

-- A size within `cap / price` is worth no more than the cap.
within_cap :
    (size cap price : ℤ)
    → pos 0 <ℤ price
    → (neg (cap /ℤ price) ≤ℤ size) × (size ≤ℤ cap /ℤ price)
    → abs size *ℤ price ≤ℤ cap
within_cap size cap price h (low, high) =
    let mono =
      *ℤ_mono (abs size) (cap /ℤ price) price (omega int_laws) (omega (int_laws, abs_parts size)) in
    omega (int_laws, /ℤ-*ℤ-le cap price h)

-- A size that is worth no more than the cap is within `cap / price`.
within_size : (size cap price : ℤ) → pos 0 <ℤ price → size *ℤ price ≤ℤ cap → size ≤ℤ cap /ℤ price
within_size size cap price h worth = elim (Bool-cases (leb_ℤ size (cap /ℤ price))) [
  | inl le ↦ leb_ℤ-true size (cap /ℤ price) le
  | inr more ↦
      let q : ℤ = cap /ℤ price in
      let larger : q +ℤ pos 1 ≤ℤ size = let lt = leb_ℤ-false size q more in omega int_laws in
      let grown = *ℤ_mono (q +ℤ pos 1) size price (omega arith) larger in
      let split = *ℤ-distrib_right q (pos 1) price in
      let one = *ℤ_comm (pos 1) price in
      let over = lt-/ℤ-*ℤ cap price h in absurd (omega (int_laws, *ℤ_parts (pos 1) price))
]

-- From within the window a delta is only ever cut down.
clamp_delta-le :
    (delta cap current : ℤ) → abs current ≤ℤ cap → abs (clamp_delta delta cap current) ≤ℤ abs delta
unfolding clamp_delta
clamp_delta-le delta cap current h =
    let low : ℤ = max_ℤ delta (neg cap -ℤ current) in
    let parts = min_ℤ_parts low (cap -ℤ current) in
    let parts' = max_ℤ_parts delta (neg cap -ℤ current) in
    omega (int_laws, abs_parts current, abs_parts delta, abs_parts (min_ℤ low (cap -ℤ current)))

-- A delta that stays in the window is not cut.
clamp_delta-whole :
    (delta cap current : ℤ) → abs (current +ℤ delta) ≤ℤ cap → clamp_delta delta cap current ≡ delta
unfolding clamp_delta
clamp_delta-whole delta cap current h =
    let low : ℤ = max_ℤ delta (neg cap -ℤ current) in
    let parts = min_ℤ_parts low (cap -ℤ current) in
    let parts' = max_ℤ_parts delta (neg cap -ℤ current) in
    omega (int_laws, abs_parts (current +ℤ delta))

-- An intent that the cap lets pass: it is not refused for the cap, and is traded whole if at all.
abbrev pub PassesCap : OrderIntent → Assessment → Type 0
PassesCap i a =
    (a.note ≢ refused over_cap)
    × (is_rejected a.decision ≡ false → (a.decision ≡ approved) × (a.size ≡ i.size))

signed_abs : (side : Side) (n : ℤ) → pos 0 <ℤ n → abs (on_side side n (neg n)) ≡ n
signed_abs buy n h = omega (int_laws, abs_parts n)
signed_abs sell n h = omega (int_laws, abs_parts (neg n))

not_shrunk : (size : ℤ) → pos 0 <ℤ size → shrunk size size ≡ false
unfolding shrunk
not_shrunk size h =
    le→ltb_ℤ (pos 1000 *ℤ size) (pos 999 *ℤ size)
      (omega (int_laws, *ℤ_parts (pos 1000) size, *ℤ_parts (pos 999) size))

has_room : (delta : ℤ) → no_room delta delta ≡ false
has_room delta = ground arith

assess_delta-PassesCap :
    (m : RiskManager) (i : OrderIntent) (current delta price : ℤ)
    → pos 0 <ℤ i.size
    → abs delta ≡ i.size
    → PassesCap i (assess_delta m i current delta delta price)
unfolding assess_delta reject
assess_delta-PassesCap m i current delta price h whole =
    let Q : Assessment → Type 0 = PassesCap i in
    rw (has_room delta) (
      if_ind Q (ltb 0 m.cooldown_remaining && ltb_ℤ (abs current) (abs (current +ℤ delta)))
        (λ _. ((λ e. cc), λ accepted. absurd (cc)))
        (λ _.
          if_ind Q
            (ltb_ℤ (abs delta *ℤ price) m.config.min_order_quote
              && not (eqb_ℤ (current +ℤ delta) (pos 0)))
            (λ _. ((λ e. cc), λ accepted. absurd (cc)))
            (λ _. rw (whole, not_shrunk i.size h) ((λ e. cc), λ _. (refl, refl)))))

-- The room that the caps leave to a pair: its own cap, and what the gross cap leaves beside the other pairs.
abbrev pub room_for : RiskManager → OrderIntent → RiskState → Dict Pair ℤ → ℤ
room_for m i s resulting = max_ℤ (cap_quote m.config i s resulting) (pos 0)

-- What the caps do to an intent, from a running position of `current` at a price.
pub record IsCapped (m : RiskManager) (i : OrderIntent) (s : RiskState) (resulting : Dict Pair ℤ)
    (price : ℤ) (a : Assessment) : Type 0 where
  pub not_more : is_rejected a.decision ≡ false → a.size ≤ℤ i.size
  pub within :
      is_rejected a.decision ≡ false
      → abs (total i.pair (fold_perp a resulting)) *ℤ price ≤ℤ room_for m i s resulting
  pub reduces :
      abs (total i.pair resulting +ℤ on_side i.side i.size (neg i.size))
        ≤ℤ abs (total i.pair resulting)
      → PassesCap i a

traded_size :
    (i : OrderIntent) (delta d : ℤ) (a : Assessment)
    → Trades i delta d a
    → is_rejected a.decision ≡ false
    → a.size ≡ abs d
traded_size i delta d a (_, inl refusal) accepted = absurd (cc)
traded_size i delta d a (_, inr (_, size)) accepted = size

priced-IsCapped :
    (m : RiskManager) (i : OrderIntent) (s : RiskState) (resulting : Dict Pair ℤ) (price : ℤ)
    → pos 0 <ℤ i.size
    → abs (total i.pair resulting) *ℤ price ≤ℤ room_for m i s resulting
    → IsCapped m i s resulting price (assess_perp_priced m i s resulting price)
unfolding assess_perp_priced cap_size signed_size reject
priced-IsCapped m i s resulting price h held =
    let current : ℤ = total i.pair resulting in
    let delta : ℤ = signed_size i i.size in
    let room : ℤ = room_for m i s resulting in
    let cap : ℤ = room /ℤ price in
    let d : ℤ = clamp_delta delta cap current in
    let whole : abs delta ≡ i.size = signed_abs i.side i.size h in
    let room_nonneg : pos 0 ≤ℤ room =
      omega (int_laws, max_ℤ_parts (cap_quote m.config i s resulting) (pos 0)) in
    let Q : Assessment → Type 0 = IsCapped m i s resulting price in
    if_ind Q (leb_ℤ price (pos 0))
      (λ _. record {
        not_more = λ accepted. absurd (cc);
        within = λ accepted. absurd (cc);
        reduces = λ _. ((λ e. cc), λ accepted. absurd (cc));
      })
      (λ positive.
        let p_pos : pos 0 <ℤ price = leb_ℤ-false price (pos 0) positive in
        let a : Assessment = assess_delta m i current delta d price in
        let trades = assess_delta-Trades m i current delta d price in
        let held_size : abs current ≤ℤ cap = within_size (abs current) room price p_pos held in
        record {
          not_more = λ accepted.
              let cut = clamp_delta-le delta cap current held_size in
              let size = traded_size i delta d a trades accepted in omega int_laws;
          within = λ accepted.
              let traded = fold_perp-total i a d resulting h trades accepted in
              let window =
                clamp_delta-within delta cap current (/ℤ_nonneg room price room_nonneg) in
              subst (λ n. abs n *ℤ price ≤ℤ room) (sym traded)
                (within_cap (current +ℤ d) room price p_pos window);
          reduces = λ less.
              let uncut : d ≡ delta = clamp_delta-whole delta cap current (omega int_laws) in
              subst (λ x. PassesCap i (assess_delta m i current delta x price)) (sym uncut)
                (assess_delta-PassesCap m i current delta price h whole);
        })

-- The perp caps hold on the magnitude of the resulting position. Where the running position of the pair is
-- worth no more than the room that the caps leave it at the price of the intent (its own cap, and what
-- the gross cap leaves beside the other pairs), an accepted intent trades no more than was asked
-- for, and the position that it leads to is within the room too. An intent that does not enlarge the position passes
-- the caps: it is not refused for them, and is approved at its whole size unless something else refuses it.
pub assess_perp_one-within :
    (m : RiskManager) (i : OrderIntent) (s : RiskState) (resulting : Dict Pair ℤ) (price : ℤ)
    → pos 0 <ℤ i.size
    → price_for i s ≡ some price
    → abs (total i.pair resulting) *ℤ price ≤ℤ room_for m i s resulting
    → IsCapped m i s resulting price (assess_perp_one m i s resulting)
unfolding assess_perp_one
assess_perp_one-within m i s resulting price h known held =
    rw (known) (priced-IsCapped m i s resulting price h held)
