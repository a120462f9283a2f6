-- ===== src/Prelude/Update.antt =====
-- In-place updates and removals of list elements, and sums over lists.
use llm_kv_passthrough.Prelude.Tests.{◌==◌, if◌then◌else◌}
use llm_kv_passthrough.Prelude.Lists.{length, get_elem?, set, All, replicate}
use Prim.Native.Nat.{ℕ, zero, suc, ◌+◌, ◌<◌}
use mathlib.Core.Path.{◌≡◌, refl, ap}
use mathlib.Core.Option
use mathlib.Core.Option.{Option, none, some}
use mathlib.Core.List.{List, [], ◌∷◌, ◌++◌}
use native.Mathlib.Omega.{arith}

module _ {ℓ} {A : Type ℓ} where
  -- xs[i] = f(xs[i]); out of range nothing changes.
  abbrev pub modify : ℕ → (A → A) → List A → List A
  modify i f [] = []
  modify zero f (x ∷ xs) = f x ∷ xs
  modify (suc i) f (x ∷ xs) = x ∷ modify i f xs

  -- del xs[i]; out of range nothing changes.
  abbrev pub remove_at : ℕ → List A → List A
  remove_at i [] = []
  remove_at zero (x ∷ xs) = xs
  remove_at (suc i) (x ∷ xs) = x ∷ remove_at i xs

  abbrev pub sum_of : (A → ℕ) → List A → ℕ
  sum_of f [] = 0
  sum_of f (x ∷ xs) = f x + sum_of f xs

  pub length-modify : (i : ℕ) (f : A → A) (xs : List A) → length (modify i f xs) ≡ length xs
  length-modify i f [] = refl
  length-modify zero f (x ∷ xs) = refl
  length-modify (suc i) f (x ∷ xs) = ap suc (length-modify i f xs)

  pub get_elem?-modify :
      (i j : ℕ) (f : A → A) (xs : List A)
      → get_elem? (modify i f xs) j
        ≡ (if i == j then Option.map f (get_elem? xs j) else get_elem? xs j)
  get_elem?-modify zero zero f [] = ground arith
  get_elem?-modify zero (suc j) f [] = ground arith
  get_elem?-modify (suc i) zero f [] = ground arith
  get_elem?-modify (suc i) (suc j) f [] = ground arith
  get_elem?-modify zero zero f (x ∷ xs) = ground arith
  get_elem?-modify zero (suc j) f (x ∷ xs) = ground arith
  get_elem?-modify (suc i) zero f (x ∷ xs) = ground arith
  get_elem?-modify (suc i) (suc j) f (x ∷ xs) = ground (arith, get_elem?-modify i j f xs)

  pub sum_of-append : (f : A → ℕ) (xs ys : List A) → sum_of f (xs ++ ys) ≡ sum_of f xs + sum_of f ys
  sum_of-append f [] ys = omega arith
  sum_of-append f (x ∷ xs) ys = omega (arith, sum_of-append f xs ys)

  pub sum_of-remove_at :
      (f : A → ℕ) (i : ℕ) (xs : List A) (x : A)
      → get_elem? xs i ≡ some x
      → sum_of f (remove_at i xs) + f x ≡ sum_of f xs
  sum_of-remove_at f i [] x h = cc
  sum_of-remove_at f zero (y ∷ ys) x h = let e : y ≡ x = cc in rw e (omega arith)
  sum_of-remove_at f (suc i) (y ∷ ys) x h = omega (arith, sum_of-remove_at f i ys x h)

  pub sum_of-set :
      (f : A → ℕ) (i : ℕ) (xs : List A) (x v : A)
      → get_elem? xs i ≡ some x
      → sum_of f (set xs i v) + f x ≡ sum_of f xs + f v
  sum_of-set f i [] x v h = cc
  sum_of-set f zero (y ∷ ys) x v h = let e : y ≡ x = cc in rw e (omega arith)
  sum_of-set f (suc i) (y ∷ ys) x v h = omega (arith, sum_of-set f i ys x v h)

  pub length-remove_at :
      (i : ℕ) (xs : List A) (x : A)
      → get_elem? xs i ≡ some x
      → length (remove_at i xs) + 1 ≡ length xs
  length-remove_at i [] x h = cc
  length-remove_at zero (y ∷ ys) x h = omega arith
  length-remove_at (suc i) (y ∷ ys) x h = omega (arith, length-remove_at i ys x h)

  -- A place inside the list holds an element, and only such a place does.
  pub get_elem?_total : (xs : List A) (i : ℕ) → i < length xs → (x : A) × (get_elem? xs i ≡ some x)
  get_elem?_total [] i h = absurd (omega arith)
  get_elem?_total (x ∷ xs) zero h = (x, refl)
  get_elem?_total (x ∷ xs) (suc i) h = get_elem?_total xs i (omega arith)

  pub get_elem?-lt : (xs : List A) (i : ℕ) (x : A) → get_elem? xs i ≡ some x → i < length xs
  get_elem?-lt [] i x h = cc
  get_elem?-lt (y ∷ ys) zero x h = omega arith
  get_elem?-lt (y ∷ ys) (suc i) x h = omega (arith, get_elem?-lt ys i x h)

module _ {ℓ κ} {A : Type ℓ} (P : A → Type κ) where
  pub All-set : (xs : List A) (i : ℕ) (v : A) → All P xs → P v → All P (set xs i v)
  All-set [] i v h p = h
  All-set (x ∷ xs) zero v h p = (p, h.1)
  All-set (x ∷ xs) (suc i) v h p = (h.0, All-set xs i v h.1 p)

  pub All-get_elem? : (xs : List A) (i : ℕ) (x : A) → All P xs → get_elem? xs i ≡ some x → P x
  All-get_elem? [] i x h at = cc
  All-get_elem? (y ∷ ys) zero x h at = let e : x ≡ y = cc in rw e h.0
  All-get_elem? (y ∷ ys) (suc i) x h at = All-get_elem? ys i x h.1 at

  pub All-replicate : (n : ℕ) (x : A) → P x → All P (replicate n x)
  All-replicate zero x p = tt
  All-replicate (suc n) x p = (p, All-replicate n x p)
