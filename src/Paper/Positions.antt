-- ===== src/Paper/Positions.antt =====
-- The net positions of the venue are those of its own fills.
use kaupo.Base.{
  ◌≡◌, refl, ap, ◌∙◌, true, false, List, [], ◌∷◌, ◌++◌, All-trivial, each-keeps, IsComposed,
  if◌then◌else◌, if_ind, on_some_ind, ◌&&◌, ◌||◌,
}
use kaupo.Base.Int.{ℤ, pos, ◌+ℤ◌, int_laws, leb_ℤ}
use kaupo.Domain.{Candle, Pair, Order, Fill, pair_eq, eq_pair, total, total-bump, on_side, truthy}
use kaupo.Paper.State.{PaperVenue, Armed, write, prune_orders}
use kaupo.Paper.Fills.{delta_of, track_position, arm_protection, take_fill, is_filled, fill_market}
use kaupo.Paper.Candle.{
  market_one, limit_one, limit_result, expire, protection_one, check_protection, take_exit,
  register_exit, register, market_step, limit_step, protection_step, run_candle,
}

-- The signed size of the fills of a pair.
unfoldable pub traded : Pair → List Fill → ℤ
traded p [] = pos 0
traded p (f ∷ fs) = (if pair_eq p f.pair then delta_of f else pos 0) +ℤ traded p fs

traded-append : (p : Pair) (fs gs : List Fill) → traded p (fs ++ gs) ≡ traded p fs +ℤ traded p gs
unfolding traded
traded-append p [] gs = omega int_laws
traded-append p (f ∷ fs) gs = let rest = traded-append p fs gs in omega int_laws

pub track_position-total :
    (p : Pair) (f : Fill) (v : PaperVenue)
    → total p (track_position f v).positions
      ≡ total p v.positions +ℤ (if pair_eq p f.pair then delta_of f else pos 0)
unfolding track_position
track_position-total p f v =
    let bump = total-bump p f.pair (delta_of f) v.positions in
    if_ind
      (λ (w : PaperVenue).
        total p w.positions
        ≡ total p v.positions +ℤ (if pair_eq p f.pair then delta_of f else pos 0))
      (leb_ℤ (total f.pair v.positions +ℤ delta_of f) (pos 0)) (λ _. bump) (λ _. bump)

arm_protection-positions :
    (o : Order) (v : PaperVenue) → (arm_protection o v).positions ≡ v.positions
unfolding arm_protection
arm_protection-positions o v =
    if_ind (λ (w : PaperVenue). w.positions ≡ v.positions)
      (on_side o.side true false
        && is_filled o.status
        && (truthy o.stop_loss || truthy o.take_profit))
      (λ _. refl) (λ _. refl)

take_fill-total :
    (p : Pair) (r : Order × Fill) (v : PaperVenue)
    → total p (take_fill r v).positions
      ≡ total p v.positions +ℤ (if pair_eq p r.1.pair then delta_of r.1 else pos 0)
unfolding take_fill write
take_fill-total p (o, f) v =
    ap (total p) (arm_protection-positions o (track_position f (write o v)))
    ∙ track_position-total p f (write o v)

pub take_exit-total :
    (p : Pair) (a : Armed) (r : Order × Fill) (v : PaperVenue)
    → total p (take_exit a r v).positions
      ≡ total p v.positions +ℤ (if pair_eq p r.1.pair then delta_of r.1 else pos 0)
unfolding take_exit register_exit register
take_exit-total p a (x, f) v = track_position-total p f (register_exit a x v)

module _ (p : Pair) where
  -- The position of the pair moves by what the fills trade.
  abbrev Tracks : PaperVenue → List Fill → PaperVenue → Type 0
  Tracks v fs v' = total p v'.positions ≡ total p v.positions +ℤ traded p fs

  traded_once :
      (f : Fill) (v v' : PaperVenue)
      → total p v'.positions
        ≡ total p v.positions +ℤ (if pair_eq p f.pair then delta_of f else pos 0)
      → Tracks v (f ∷ []) v'
  unfolding traded
  traded_once f v v' e = omega int_laws

  Tracks-idle : (v v' : PaperVenue) → v'.positions ≡ v.positions → Tracks v [] v'
  unfolding traded
  Tracks-idle v v' e = ap (total p) e ∙ omega int_laws

  Tracks-compose :
      (fs gs : List Fill) (v v' v'' : PaperVenue)
      → Tracks v fs v'
      → Tracks v' gs v''
      → Tracks v (fs ++ gs) v''
  Tracks-compose fs gs v v' v'' a b = let sum = traded-append p fs gs in omega int_laws

  Tracks-IsComposed : IsComposed Tracks
  Tracks-IsComposed = record {
    idle = λ v. Tracks-idle v v refl;
    compose = λ {fs} {gs} {s = v} {s' = v'} {s'' = v''} a b. Tracks-compose fs gs v v' v'' a b;
  }

  market_one-Tracks :
      (c : Candle) (o : Order) (v : PaperVenue) → Tracks v (market_one c o v).0 (market_one c o v).1
  unfolding market_one
  market_one-Tracks c o v =
      let r : Order × Fill = fill_market v o c in
      traded_once r.1 v (take_fill r v) (take_fill-total p r v)

  limit_one-Tracks :
      (c : Candle) (o : Order) (v : PaperVenue) → Tracks v (limit_one c o v).0 (limit_one c o v).1
  unfolding limit_one
  limit_one-Tracks c o v =
      on_some_ind (λ (r : List Fill × PaperVenue). Tracks v r.0 r.1) (limit_result v o c)
        (λ _. Tracks-idle v (expire o v) (unfold expire write in refl))
        (λ r _. traded_once r.1 v (take_fill r v) (take_fill-total p r v))

  abbrev KeptTracks : List Armed × PaperVenue → List Fill → List Armed × PaperVenue → Type 0
  KeptTracks s fs s' = Tracks s.1 fs s'.1

  protection_one-Tracks :
      (c : Candle) (a : Armed) (s : List Armed × PaperVenue)
      → KeptTracks s (protection_one c a s).0 (protection_one c a s).1
  unfolding protection_one
  protection_one-Tracks c a (kept, v) =
      let Q : List Fill × (List Armed × PaperVenue) → Type 0 = λ r. Tracks v r.0 r.1.1 in
      if_ind Q (leb_ℤ (total a.0.pair v.positions) (pos 0)) (λ _. Tracks-idle v v refl)
        λ _.
          on_some_ind Q (check_protection v a c) (λ _. Tracks-idle v v refl)
            (λ r _. traded_once r.1 v (take_exit a r v) (take_exit-total p a r v))

  pub market_step-Tracks :
      (c : Candle) (v : PaperVenue) → Tracks v (market_step c v).0 (market_step c v).1
  unfolding market_step prune_orders
  market_step-Tracks c v =
      each-keeps (market_one c) Tracks-IsComposed (λ o w _. market_one-Tracks c o w) v.market_queue
        (record (prune_orders v) { market_queue = [] }) (All-trivial v.market_queue)

  pub limit_step-Tracks :
      (c : Candle) (v : PaperVenue) → Tracks v (limit_step c v).0 (limit_step c v).1
  unfolding limit_step
  limit_step-Tracks c v =
      each-keeps (limit_one c) Tracks-IsComposed (λ o w _. limit_one-Tracks c o w) v.limit_open
        (record v { limit_open = [] }) (All-trivial v.limit_open)

  KeptTracks-IsComposed : IsComposed KeptTracks
  KeptTracks-IsComposed = record {
    idle = λ s. Tracks-idle s.1 s.1 refl;
    compose = λ {fs} {gs} {s} {s'} {s''} a b. Tracks-compose fs gs s.1 s'.1 s''.1 a b;
  }

  pub protection_step-Tracks :
      (c : Candle) (v : PaperVenue) → Tracks v (protection_step c v).0 (protection_step c v).1
  unfolding protection_step
  protection_step-Tracks c v =
      each-keeps (protection_one c) KeptTracks-IsComposed (λ a s _. protection_one-Tracks c a s)
        v.protections ([], v) (All-trivial v.protections)

  -- The venue's net position of every pair moves by exactly what the fills of the candle trade,
  -- whatever queues, limits and protections it works off.
  pub run_candle-traded :
      (c : Candle) (v : PaperVenue)
      → total p (run_candle c v).1.positions ≡ total p v.positions +ℤ traded p (run_candle c v).0
  unfolding run_candle
  run_candle-traded c v =
      let v1 : PaperVenue = (market_step c v).1 in
      let v2 : PaperVenue = (limit_step c v1).1 in
      let v3 : PaperVenue = (protection_step c v2).1 in
      let fs : List Fill = (market_step c v).0 in
      let gs : List Fill = (limit_step c v1).0 in
      let hs : List Fill = (protection_step c v2).0 in
      Tracks-compose (fs ++ gs) hs v v2 v3
        (Tracks-compose fs gs v v1 v2 (market_step-Tracks c v) (limit_step-Tracks c v1))
        (protection_step-Tracks c v2)
