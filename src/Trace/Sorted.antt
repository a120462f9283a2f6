-- ===== src/Trace/Sorted.antt =====
-- The sorted points of a sweep: sorting keeps the points, and puts them in order.
use llm_kv_passthrough.Prelude.{
  ◌≡◌, inl, inr, refl, Bool, true, false, List, [], ◌∷◌, All, Bool-cases, arith,
}
use llm_kv_passthrough.Trace.Concurrency.{
  TimeLine, Point, no_later, insert_point, sort_points, upto, IsSorted,
}

module _ {T : Type 0} (line : TimeLine T) where
  no_later_trans :
      (p q r : Point T)
      → no_later line p q ≡ true
      → no_later line q r ≡ true
      → no_later line p r ≡ true
  unfolding no_later
  no_later_trans (a, s) (b, u) (c, v) h k = grind (
    arith,
    line.asymmetric a b,
    line.asymmetric b c,
    line.asymmetric c a,
    line.asymmetric c b,
    line.reaches a b c,
    line.reaches a c b,
    line.reaches b a c,
    line.reaches b c a,
    line.reaches c a b,
    line.reaches c b a,
  )

  no_later_total : (p q : Point T) → no_later line p q ≡ false → no_later line q p ≡ true
  unfolding no_later
  no_later_total (a, s) (b, u) h = ground (arith, line.asymmetric a b, line.asymmetric b a)

  upto-insert :
      (start : Bool) (t : T) (p : Point T) (ps : List (Point T))
      → upto line start t (insert_point line p ps) ≡ upto line start t (p ∷ ps)
  unfolding upto insert_point
  upto-insert start t p [] = refl
  upto-insert start t p (q ∷ ps) = ground (arith, upto-insert start t p ps)

  pub upto-sort :
      (start : Bool) (t : T) (ps : List (Point T))
      → upto line start t (sort_points line ps) ≡ upto line start t ps
  unfolding sort_points upto
  upto-sort start t [] = refl
  upto-sort start t (p ∷ ps) =
      ground (arith, upto-insert start t p (sort_points line ps), upto-sort start t ps)

  All-no_later :
      (p q : Point T) (ps : List (Point T))
      → no_later line p q ≡ true
      → All (λ r. no_later line q r ≡ true) ps
      → All (λ r. no_later line p r ≡ true) ps
  All-no_later p q [] h k = tt
  All-no_later p q (r ∷ ps) h k = (no_later_trans p q r h k.0, All-no_later p q ps h k.1)

  All-insert :
      (p q : Point T) (ps : List (Point T))
      → no_later line q p ≡ true
      → All (λ r. no_later line q r ≡ true) ps
      → All (λ r. no_later line q r ≡ true) (insert_point line p ps)
  unfolding insert_point
  All-insert p q [] h k = (h, tt)
  All-insert p q (r ∷ ps) h k = elim (Bool-cases (no_later line p r)) [
    | inl e ↦ rw e (h, k)
    | inr e ↦ rw e (k.0, All-insert p q ps h k.1)
  ]

  insert-IsSorted :
      (p : Point T) (ps : List (Point T))
      → IsSorted line ps
      → IsSorted line (insert_point line p ps)
  unfolding insert_point
  insert-IsSorted p [] h = (tt, tt)
  insert-IsSorted p (q ∷ ps) h = elim (Bool-cases (no_later line p q)) [
    | inl e ↦ rw e ((e, All-no_later p q ps e h.0), h)
    | inr e ↦ rw e (All-insert p q ps (no_later_total p q e) h.0, insert-IsSorted p ps h.1)
  ]

  pub sort-IsSorted : (ps : List (Point T)) → IsSorted line (sort_points line ps)
  unfolding sort_points
  sort-IsSorted [] = tt
  sort-IsSorted (p ∷ ps) = insert-IsSorted p (sort_points line ps) (sort-IsSorted ps)
