-- ===== src/Trace/Peak.antt =====
-- The sweep over the sorted points finds the largest number of intervals that run at one moment.
use llm_kv_passthrough.Prelude.{
  ℕ, zero, suc, ◌+◌, ◌-◌, ◌≤◌, ◌≡◌, ◌⊎◌, inl, inr, refl, sym, ◌∙◌, max, Bool, true, false, not,
  List, [], ◌∷◌, All, Bool-cases, ltb, ltb→lt, ltb→le, arith,
}
use llm_kv_passthrough.Prelude.Int.{ℤ, pos, negsuc}
use llm_kv_passthrough.Trace.Concurrency.{
  TimeLine, Point, add_delta, max_peak, sweep, points, no_later, sort_points, max_concurrency,
  running, upto, IsSorted,
}
use llm_kv_passthrough.Trace.Sorted.{upto-sort, sort-IsSorted}

-- z is u - d.
abbrev IsDifference : ℤ → ℕ → ℕ → Type 0
IsDifference (pos n) u d = u ≡ n + d
IsDifference (negsuc n) u d = u + suc n ≡ d

up : Bool → ℕ
up true = 1
up false = 0

add_delta-IsDifference :
    (s : Bool) (z : ℤ) (u d : ℕ)
    → IsDifference z u d
    → IsDifference (add_delta s z) (u + up s) (d + up (not s))
unfolding add_delta up
add_delta-IsDifference true (pos n) u d h = omega arith
add_delta-IsDifference true (negsuc zero) u d h = omega arith
add_delta-IsDifference true (negsuc (suc n)) u d h = omega arith
add_delta-IsDifference false (pos zero) u d h = omega arith
add_delta-IsDifference false (pos (suc n)) u d h = omega arith
add_delta-IsDifference false (negsuc n) u d h = omega arith

max_peak-difference :
    (peak : ℕ) (z : ℤ) (u d : ℕ) → IsDifference z u d → max_peak peak z ≡ max peak (u - d)
unfolding max_peak
max_peak-difference peak (pos n) u d h = omega arith
max_peak-difference peak (negsuc n) u d h = omega arith

module _ {T : Type 0} (line : TimeLine T) where
  upto-reached :
      (t : T) (p : Point T) (ps : List (Point T))
      → line.before t p.0 ≡ false
      → (upto line true t (p ∷ ps) ≡ up p.1 + upto line true t ps)
        × (upto line false t (p ∷ ps) ≡ up (not p.1) + upto line false t ps)
  unfolding upto up
  upto-reached t (a, true) ps h = (ground arith, ground arith)
  upto-reached t (a, false) ps h = (ground arith, ground arith)

  -- Nothing of a sorted list is reached before its first point.
  later :
      (t : T) (p q : Point T)
      → line.before t p.0 ≡ true
      → no_later line p q ≡ true
      → line.before t q.0 ≡ true
  unfolding no_later
  later t (a, s) (b, u) h k = ground (arith, line.reaches t a b, line.asymmetric a b)

  upto-none :
      (b : Bool) (t : T) (ps : List (Point T))
      → All (λ q. line.before t q.0 ≡ true) ps
      → upto line b t ps ≡ 0
  unfolding upto
  upto-none b t [] h = refl
  upto-none b t (p ∷ ps) h = ground (arith, upto-none b t ps h.1)

  All-later :
      (t : T) (p : Point T) (ps : List (Point T))
      → line.before t p.0 ≡ true
      → All (λ q. no_later line p q ≡ true) ps
      → All (λ q. line.before t q.0 ≡ true) ps
  All-later t p [] h k = tt
  All-later t p (q ∷ ps) h k = (later t p q h k.0, All-later t p ps h k.1)

  sweep-grows : (ps : List (Point T)) (z : ℤ) (peak : ℕ) → peak ≤ sweep ps z peak
  unfolding sweep max_peak
  sweep-grows [] z peak = omega arith
  sweep-grows ((a, s) ∷ ps) z peak = omega (
    arith,
    sweep-grows ps (add_delta s z) (max_peak peak (add_delta s z)),
    max_peak-le peak (add_delta s z),
  )
    where
      max_peak-le : (peak : ℕ) (z : ℤ) → peak ≤ max_peak peak z
      max_peak-le peak (pos n) = omega arith
      max_peak-le peak (negsuc n) = omega arith

  -- No moment has more running than the peak.
  sweep-covers :
      (ps : List (Point T)) (z : ℤ) (peak u d : ℕ) (t : T)
      → IsSorted line ps
      → IsDifference z u d
      → u - d ≤ peak
      → (u + upto line true t ps) - (d + upto line false t ps) ≤ sweep ps z peak
  unfolding sweep
  sweep-covers [] z peak u d t h e le =
      omega (arith, upto-none true t [] tt, upto-none false t [] tt)
  sweep-covers (p ∷ ps) z peak u d t h e le = elim (Bool-cases (line.before t p.0)) [
    | inl early ↦
        let none_later : All (λ q. line.before t q.0 ≡ true) (p ∷ ps) =
          (early, All-later t p ps early h.0) in
        omega (
          arith,
          upto-none true t (p ∷ ps) none_later,
          upto-none false t (p ∷ ps) none_later,
          sweep-grows (p ∷ ps) z peak,
        )
    | inr reached ↦
        let e' = add_delta-IsDifference p.1 z u d e in
        let m = max_peak-difference peak (add_delta p.1 z) (u + up p.1) (d + up (not p.1)) e' in
        let ih =
          sweep-covers ps (add_delta p.1 z) (max_peak peak (add_delta p.1 z)) (u + up p.1)
            (d + up (not p.1)) t h.1 e' (omega (arith, m)) in
        let (a, b) = upto-reached t p ps reached in omega (arith, a, b, ih)
  ]

  -- t is the moment of one of these points: nothing that comes before all of them is later.
  abbrev Within : T → List (Point T) → Type 0
  Within t ps = (p : Point T) → All (λ q. no_later line p q ≡ true) ps → line.before t p.0 ≡ false

  irreflexive : (a : T) → line.before a a ≡ false
  irreflexive a = elim (Bool-cases (line.before a a)) [ inl e ↦ line.asymmetric a a e | inr e ↦ e ]

  not_before : (p q : Point T) → no_later line p q ≡ true → line.before q.0 p.0 ≡ false
  unfolding no_later
  not_before (a, s) (b, u) h = ground (arith, line.asymmetric a b)

  -- After a start, a sorted list has no end at the same moment.
  upto-ends :
      (a : T) (ps : List (Point T))
      → All (λ q. no_later line (a, true) q ≡ true) ps
      → upto line false a ps ≡ 0
  unfolding upto no_later
  upto-ends a [] h = refl
  upto-ends a ((b, true) ∷ ps) h = ground (arith, upto-ends a ps h.1)
  upto-ends a ((b, false) ∷ ps) h = ground (arith, upto-ends a ps h.1, h.0)

  -- The peak is one it had, or the number at the moment of a point.
  sweep-reached :
      (ps : List (Point T)) (z : ℤ) (peak u d : ℕ)
      → IsSorted line ps
      → IsDifference z u d
      → u - d ≤ peak
      → (sweep ps z peak ≡ peak)
        ⊎ ((t : T) × Within t ps
            × (sweep ps z peak ≡ (u + upto line true t ps) - (d + upto line false t ps)))
  unfolding sweep up
  sweep-reached [] z peak u d h e le = inl refl
  sweep-reached (p ∷ ps) z peak u d h e le =
      let e' = add_delta-IsDifference p.1 z u d e in
      let z' = add_delta p.1 z in
      let m = max_peak-difference peak z' (u + up p.1) (d + up (not p.1)) e' in
      let le' : u + up p.1 - (d + up (not p.1)) ≤ max_peak peak z' = omega (arith, m) in
      elim (sweep-reached ps z' (max_peak peak z') (u + up p.1) (d + up (not p.1)) h.1 e' le') [
        | inr (t, within, eq) ↦
            let (a, b) = upto-reached t p ps (within p h.0) in
            inr (t, (λ q all. within q all.1), omega (arith, a, b, eq))
        | inl eq ↦
            at_start p h eq m
              (sweep-covers ps z' (max_peak peak z') (u + up p.1) (d + up (not p.1)) p.0 h.1 e' le')
      ]
    where
      at_start :
          (p : Point T)
          → IsSorted line (p ∷ ps)
          → sweep ps (add_delta p.1 z) (max_peak peak (add_delta p.1 z))
            ≡ max_peak peak (add_delta p.1 z)
          → max_peak peak (add_delta p.1 z) ≡ max peak (u + up p.1 - (d + up (not p.1)))
          → (u + up p.1 + upto line true p.0 ps) - (d + up (not p.1) + upto line false p.0 ps)
            ≤ sweep ps (add_delta p.1 z) (max_peak peak (add_delta p.1 z))
          → (sweep (p ∷ ps) z peak ≡ peak)
            ⊎ ((t : T) × Within t (p ∷ ps)
                × (sweep (p ∷ ps) z peak
                    ≡ (u + upto line true t (p ∷ ps)) - (d + upto line false t (p ∷ ps))))
      at_start (a, false) h eq m c = inl (omega (arith, eq, m, le))
      at_start (a, true) h eq m c = elim (Bool-cases (ltb peak (u + 1 - d))) [
        | inr f ↦ let small = ltb→le peak (u + 1 - d) f in inl (omega (arith, eq, m, le))
        | inl f ↦
            let large = ltb→lt peak (u + 1 - d) f in
            let (x, y) = upto-reached a (a, true) ps (irreflexive a) in
            let ends = upto-ends a ps h.0 in
            inr (a, (λ q all. not_before q (a, true) all.0), omega (arith, eq, m, c, x, y, ends))
      ]

  upto-points :
      (t : T) (intervals : List (T × T))
      → All (λ i. line.before i.1 i.0 ≡ false) intervals
      → upto line true t (points intervals)
        ≡ upto line false t (points intervals) + running line t intervals
  unfolding upto points running
  upto-points t [] h = omega arith
  upto-points t ((start, end) ∷ intervals) h =
      ground (arith, upto-points t intervals h.1, line.reaches t start end, h.0)

  swept :
      (t : T) (intervals : List (T × T))
      → All (λ i. line.before i.1 i.0 ≡ false) intervals
      → (0 + upto line true t (sort_points line (points intervals)))
          - (0 + upto line false t (sort_points line (points intervals)))
        ≡ running line t intervals
  swept t intervals h = omega (
    arith,
    upto-sort line true t (points intervals),
    upto-sort line false t (points intervals),
    upto-points t intervals h,
  )

  -- If no interval ends before it starts, the reported concurrency is exactly the largest number
  -- of intervals that run at one moment, an interval from its start up to and without its end: no
  -- moment has more, and some moment has as many, or the report is 0.
  pub max_concurrency_lem :
      (intervals : List (T × T))
      → All (λ i. line.before i.1 i.0 ≡ false) intervals
      → ((t : T) → running line t intervals ≤ max_concurrency line intervals)
        × ((max_concurrency line intervals ≡ 0)
            ⊎ ((t : T) × (running line t intervals ≡ max_concurrency line intervals)))
  unfolding max_concurrency
  max_concurrency_lem [] h = ((λ t. (unfold running in omega arith)), inl refl)
  max_concurrency_lem (i ∷ intervals) h =
      let ps = sort_points line (points (i ∷ intervals)) in
      let sorted = sort-IsSorted line (points (i ∷ intervals)) in
      (
        (λ t. omega (
          arith,
          swept t (i ∷ intervals) h,
          sweep-covers ps (pos 0) 0 0 0 t sorted (omega arith) (omega arith),
        )),
        elim (sweep-reached ps (pos 0) 0 0 0 sorted (omega arith) (omega arith)) [
          | inl e ↦ inl e
          | inr (t, within, e) ↦ inr (t, sym (swept t (i ∷ intervals) h) ∙ sym e)
        ],
      )
