-- ===== src/Prelude/Range.antt =====
-- Python's range(start, stop, step) for a positive step, and the slices that a loop over it takes.
use llm_kv_passthrough.Prelude.Tests.{ltb, if◌then◌else◌, Bool-cases, ltb→le, le→ltb}
use llm_kv_passthrough.Prelude.Lists.{
  length, get_elem?, drop, slice, concat, drop-drop, take-append-drop, drop-all,
}
use Prim.Native.Nat.{ℕ, zero, suc, ◌+◌, ◌-◌, ◌*◌, ◌≤◌, ◌<◌}
use mathlib.Core.Path.{◌≡◌, refl, sym}
use mathlib.Core.Logic.{inl, inr}
use mathlib.Core.List.{List, [], ◌∷◌, map}
use mathlib.Core.Option.{none, some}
use mathlib.Core.Bool.{true}
use native.Mathlib.Omega.{arith}

-- The loop with fuel: one unit for each value that the range may yield.
unfoldable pub range_from : ℕ → ℕ → ℕ → ℕ → List ℕ
range_from zero start stop step = []
range_from (suc fuel) start stop step =
    let rest = range_from fuel (start + step) stop step in
    if ltb start stop then start ∷ rest else []

-- A positive step needs at most stop - start rounds.
unfoldable pub range : ℕ → ℕ → ℕ → List ℕ
unfolding range_from
range start stop step = range_from (stop - start) start stop step

-- The i-th value is start + i * step while that is below stop, and there is none after it.
pub get_elem?-range_from :
    (fuel start stop step i : ℕ)
    → 0 < step
    → stop ≤ start + fuel
    → get_elem? (range_from fuel start stop step) i
      ≡ (if ltb (start + i * step) stop then some (start + i * step) else none)
unfolding range_from
get_elem?-range_from zero start stop step i p h =
    rw (le→ltb (start + i * step) stop (grind arith)) refl
get_elem?-range_from (suc fuel) start stop step i p h = elim (Bool-cases (ltb start stop)) [
  | inr e ↦ rw e (rw (le→ltb (start + i * step) stop (grind (arith, ltb→le start stop e))) refl)
  | inl e ↦ rw e (later i (get_elem?-range_from fuel (start + step) stop step) e)
]
  where
    later :
        (i : ℕ)
        → ((j : ℕ)
            → 0 < step
            → stop ≤ start + step + fuel
            → get_elem? (range_from fuel (start + step) stop step) j ≡ (
                if ltb (start + step + j * step) stop
                then some (start + step + j * step)
                else none))
        → ltb start stop ≡ true
        → get_elem? (start ∷ range_from fuel (start + step) stop step) i
          ≡ (if ltb (start + i * step) stop then some (start + i * step) else none)
    later zero ih e = let same : start + 0 * step ≡ start = omega arith in rw same (rw e refl)
    later (suc j) ih e =
        let same : start + suc j * step ≡ start + step + j * step = grind arith in
        rw same (ih j p (omega arith))

-- Consecutive slices along the range make up the sequence from its start on.
pub concat-slices_from {ℓ} :
    {A : Type ℓ} (xs : List A) (fuel start step : ℕ)
    → 0 < step
    → length xs ≤ start + fuel
    → concat (map (λ i. slice xs i (i + step)) (range_from fuel start (length xs) step))
      ≡ drop start xs
unfolding range_from
concat-slices_from xs zero start step p h = sym (drop-all start xs (omega arith))
concat-slices_from xs (suc fuel) start step p h = elim (Bool-cases (ltb start (length xs))) [
  | inr e ↦ rw e (sym (drop-all start xs (ltb→le start (length xs) e)))
  | inl e ↦ rw e (
      let width : start + step - start ≡ step = omega arith in
      rw width (
        rw (concat-slices_from xs fuel (start + step) step p (omega arith))
          (rw (← drop-drop start step xs) (take-append-drop step (drop start xs)))))
]

-- The two facts for the range that a loop over a whole sequence takes.
pub get_elem?-range :
    (stop step i : ℕ)
    → 0 < step
    → get_elem? (range 0 stop step) i ≡ (if ltb (i * step) stop then some (i * step) else none)
unfolding range
get_elem?-range stop step i p =
    let same : 0 + i * step ≡ i * step = omega arith in
    rw same at (get_elem?-range_from (stop - 0) 0 stop step i p (omega arith))

pub concat-slices {ℓ} :
    {A : Type ℓ} (xs : List A) (step : ℕ)
    → 0 < step
    → concat (map (λ i. slice xs i (i + step)) (range 0 (length xs) step)) ≡ xs
unfolding range
concat-slices xs step p = concat-slices_from xs (length xs - 0) 0 step p (omega arith)
