-- ===== src/Trace/Concurrency.antt =====
-- _max_concurrency of src/kvbench/trace/analyze.py over any time line.
use llm_kv_passthrough.Prelude.{
  ℕ, zero, suc, ◌+◌, ◌≡◌, max, Bool, true, false, not, ◌&&◌, ◌||◌, List, [], ◌∷◌, All,
  if◌then◌else◌,
}
use llm_kv_passthrough.Prelude.Int.{ℤ, pos, negsuc}

-- Comparison of two moments, as Python's `<`.
pub record TimeLine (T : Type 0) : Type 0 where
  pub before : T → T → Bool
  pub asymmetric : (a b : T) → before a b ≡ true → before b a ≡ false
  pub reaches : (a b c : T) → before a b ≡ true → before c b ≡ false → before a c ≡ true

-- A point (moment, delta): the delta is 1 at a start and -1 at an end.
abbrev pub Point : Type 0 → Type 0
Point T = T × Bool

-- concurrency += delta
unfoldable pub add_delta : Bool → ℤ → ℤ
add_delta true (pos n) = pos (n + 1)
add_delta true (negsuc zero) = pos 0
add_delta true (negsuc (suc n)) = negsuc n
add_delta false (pos zero) = negsuc 0
add_delta false (pos (suc n)) = pos n
add_delta false (negsuc n) = negsuc (suc n)

-- max(peak, concurrency), where the peak is not negative
unfoldable pub max_peak : ℕ → ℤ → ℕ
max_peak peak (pos n) = max peak n
max_peak peak (negsuc n) = peak

unfoldable pub sweep : {T : Type 0} → List (Point T) → ℤ → ℕ → ℕ
unfolding add_delta max_peak
sweep [] concurrency peak = peak
sweep ((t, start) ∷ ps) concurrency peak =
    sweep ps (add_delta start concurrency) (max_peak peak (add_delta start concurrency))

unfoldable pub points : {T : Type 0} → List (T × T) → List (Point T)
points [] = []
points ((start, end) ∷ intervals) = (start, true) ∷ (end, false) ∷ points intervals

module _ {T : Type 0} (line : TimeLine T) where
  -- The sort key (moment, delta): p comes no later than q.
  unfoldable pub no_later : Point T → Point T → Bool
  no_later (a, s) (b, u) = line.before a b || not (line.before b a) && (not s || u)

  unfoldable pub insert_point : Point T → List (Point T) → List (Point T)
  unfolding no_later
  insert_point p [] = p ∷ []
  insert_point p (q ∷ ps) =
      let rest = insert_point p ps in if no_later p q then p ∷ q ∷ ps else q ∷ rest

  unfoldable pub sort_points : List (Point T) → List (Point T)
  unfolding insert_point
  sort_points [] = []
  sort_points (p ∷ ps) = insert_point p (sort_points ps)

  unfoldable pub max_concurrency : List (T × T) → ℕ
  unfolding sweep sort_points points
  max_concurrency [] = 0
  max_concurrency (i ∷ intervals) = sweep (sort_points (points (i ∷ intervals))) (pos 0) 0

  -- How many intervals run at a moment: those that have started, and end later.
  unfoldable pub running : T → List (T × T) → ℕ
  running t [] = 0
  running t ((start, end) ∷ intervals) =
      let rest = running t intervals in
      if not (line.before t start) && line.before t end then rest + 1 else rest

  -- Starts (or ends) up to a moment.
  unfoldable pub upto : Bool → T → List (Point T) → ℕ
  upto start t [] = 0
  upto start t ((a, s) ∷ ps) =
      let rest = upto start t ps in
      if not (line.before t a) && (if start then s else not s) then rest + 1 else rest

  abbrev pub IsSorted : List (Point T) → Type 0
  IsSorted [] = Unit
  IsSorted (p ∷ ps) = All (λ q. no_later p q ≡ true) ps × IsSorted ps
