-- ===== src/Proxy/Fair.antt =====
-- Round robin is fair: as many selections as there are healthy servers take each of them once.
use llm_kv_passthrough.Prelude.{
  ℕ, zero, suc, ◌+◌, ◌-◌, ◌%◌, ◌≤◌, ◌<◌, ◌≡◌, refl, ap, sym, ◌∙◌, Option, some, List, [], ◌∷◌, ◌++◌,
  map, length, get_elem?, take, drop, take-all, length-drop, get_elem?_total, arith,
}
use mathlib.Core.Path.{ap₂}
use mathlib.Core.List.{map-append}
use native.Mathlib.Nat.{mod-lt, mod-add-mod, mod_self}
use llm_kv_passthrough.Proxy.{round_robin, ServerEndpoint, healthy_servers, choose, select}

-- The servers of k selections in a row while no server changes its health.
unfoldable pub selections : (ℕ → ℕ) → List ServerEndpoint → ℕ → ℕ → List (Option ℕ)
selections choice ss zero index = []
selections choice ss (suc k) index =
    (select choice round_robin ss index).0
    ∷ selections choice ss k (select choice round_robin ss index).1

next_place : (index n : ℕ) → index % n + 1 < n → (index + 1) % n ≡ index % n + 1
next_place index n h = grind arith

wrapped : (index n : ℕ) → 0 < n → (index + (n - index % n)) % n ≡ 0
wrapped index n h =
    let bound : index % n < n = mod-lt index h in
    let whole : index % n + (n - index % n) ≡ n = omega arith in
    sym (mod-add-mod index n (n - index % n)) ∙ ap (λ m. m % n) whole ∙ mod_self n

drop-get {ℓ} :
    {A : Type ℓ} (xs : List A) (i : ℕ) (x : A)
    → get_elem? xs i ≡ some x
    → drop i xs ≡ x ∷ drop (suc i) xs
drop-get [] i x h = cc
drop-get (y ∷ ys) zero x h = let e : y ≡ x = cc in rw e refl
drop-get (y ∷ ys) (suc i) x h = drop-get ys i x h

module _ (choice : ℕ → ℕ) (ss : List ServerEndpoint) (hs : List ℕ) (up : healthy_servers ss ≡ hs)
    (some_up : 0 < length hs) where
  choose_round :
      (hs : List ℕ) (index : ℕ)
      → 0 < length hs
      → choose choice round_robin ss index hs ≡ (get_elem? hs (index % length hs), index + 1)
  unfolding choose
  choose_round [] index h = absurd (omega arith)
  choose_round (x ∷ xs) index h = refl

  select_round :
      (index : ℕ)
      → select choice round_robin ss index ≡ (get_elem? hs (index % length hs), index + 1)
  unfolding select
  select_round index = rw up (choose_round hs index some_up)

  selections_cons :
      (k index : ℕ)
      → selections choice ss (suc k) index
        ≡ get_elem? hs (index % length hs) ∷ selections choice ss k (index + 1)
  unfolding selections
  selections_cons k index = rw (select_round index) refl

  -- Up to the end of the list the selections run through it.
  run :
      (k index : ℕ)
      → index % length hs + k ≤ length hs
      → selections choice ss k index ≡ map some (take k (drop (index % length hs) hs))
  run zero index h = unfold selections in refl
  run (suc zero) index h =
      let (x, at) = get_elem?_total hs (index % length hs) (omega arith) in
      rw (selections_cons 0 index)
        (rw (drop-get hs (index % length hs) x at) (rw at (unfold selections in refl)))
  run (suc (suc k)) index h =
      let (x, at) = get_elem?_total hs (index % length hs) (omega arith) in
      let next : (index + 1) % length hs ≡ suc (index % length hs) =
        next_place index (length hs) (omega arith) ∙ omega arith in
      let rest = run (suc k) (index + 1) (omega arith) in
      rw (selections_cons (suc k) index)
        (rw (drop-get hs (index % length hs) x at) (rw at (ap (λ l. some x ∷ l) (rw next at rest))))

  selections-add :
      (a b index : ℕ)
      → selections choice ss (a + b) index
        ≡ selections choice ss a index ++ selections choice ss b (index + a)
  selections-add zero b index =
      let left : 0 + b ≡ b = omega arith in
      let right : index + 0 ≡ index = omega arith in rw left (rw right (unfold selections in refl))
  selections-add (suc a) b index =
      let left : suc a + b ≡ suc (a + b) = omega arith in
      let right : index + suc a ≡ index + 1 + a = omega arith in
      rw left (
        rw right (
          selections_cons (a + b) index
          ∙ ap (λ l. get_elem? hs (index % length hs) ∷ l) (selections-add a b (index + 1))
          ∙ ap (λ l. l ++ selections choice ss b (index + 1 + a)) (sym (selections_cons a index))))

-- While no server changes its health, and some server is healthy, n selections in a row by round
-- robin, n being the number of healthy servers, take each healthy server once: the list of
-- healthy servers from the counter's place on, and then its start.
pub round_robin-rotation :
    (choice : ℕ → ℕ) (ss : List ServerEndpoint) (index : ℕ)
    → 0 < length (healthy_servers ss)
    → selections choice ss (length (healthy_servers ss)) index
      ≡ map some (
          drop (index % length (healthy_servers ss)) (healthy_servers ss)
          ++ take (index % length (healthy_servers ss)) (healthy_servers ss))
round_robin-rotation choice ss index h =
    let hs = healthy_servers ss in
    let n = length hs in
    let r = index % n in
    let bound : r < n = mod-lt index h in
    let whole : n ≡ n - r + r = omega arith in
    let restart : (index + (n - r)) % n ≡ 0 = wrapped index n h in
    let first : selections choice ss (n - r) index ≡ map some (drop r hs) =
      run choice ss hs refl h (n - r) index (omega arith)
      ∙ ap (map some) (take-all (n - r) (drop r hs) (omega (arith, length-drop r hs))) in
    let second : selections choice ss r (index + (n - r)) ≡ map some (take r hs) =
      rw restart at (run choice ss hs refl h r (index + (n - r)) (omega arith)) in
    ap (λ k. selections choice ss k index) whole
    ∙ selections-add choice ss hs refl h (n - r) r index
    ∙ ap₂ (λ a b. a ++ b) first second
    ∙ sym (map-append some (drop r hs) (take r hs))
