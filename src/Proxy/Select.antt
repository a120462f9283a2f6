-- ===== src/Proxy/Select.antt =====
-- Which server is selected.
use llm_kv_passthrough.Prelude.{
  ℕ, zero, suc, ◌+◌, ◌%◌, ◌≤◌, ◌<◌, ◌≡◌, refl, ap, ◌∙◌, true, some, List, [], ◌∷◌, length,
  get_elem?, get_elem?_total, ltb, Bool-cases, inl, inr, arith,
}
use native.Mathlib.Nat.{mod-lt}
use llm_kv_passthrough.Proxy.{
  Strategy, round_robin, least_connections, random, ServerEndpoint, healthy_from, healthy_servers,
  connections, least, choose, select,
}

-- The server is there and healthy.
abbrev pub IsUp : List ServerEndpoint → ℕ → Type 0
IsUp ss i = (s : ServerEndpoint) × (get_elem? ss i ≡ some s) × (s.healthy ≡ true)

healthy_from_sound :
    (ss : List ServerEndpoint) (base n i : ℕ)
    → get_elem? (healthy_from base ss) n ≡ some i
    → (d : ℕ) × (i ≡ base + d) × IsUp ss d
unfolding healthy_from
healthy_from_sound [] base n i h = cc
healthy_from_sound (s ∷ ss) base zero i h = elim (Bool-cases s.healthy) [
  | inr e ↦
      let (d, at, up) = healthy_from_sound ss (base + 1) zero i (rw e at h) in
      (suc d, omega arith, up)
  | inl e ↦
      let h' : some base ≡ some i = rw e at h in
      let same : base ≡ i = cc in (0, omega arith, (s, refl, e))
]
healthy_from_sound (s ∷ ss) base (suc n) i h = elim (Bool-cases s.healthy) [
  | inr e ↦
      let (d, at, up) = healthy_from_sound ss (base + 1) (suc n) i (rw e at h) in
      (suc d, omega arith, up)
  | inl e ↦
      let (d, at, up) = healthy_from_sound ss (base + 1) n i (rw e at h) in (suc d, omega arith, up)
]

healthy_servers_sound :
    (ss : List ServerEndpoint) (n i : ℕ) → get_elem? (healthy_servers ss) n ≡ some i → IsUp ss i
unfolding healthy_servers
healthy_servers_sound ss n i h =
    let (d, at, up) = healthy_from_sound ss 0 n i h in let same : i ≡ d = omega arith in rw same up

healthy_from_complete :
    (ss : List ServerEndpoint) (base d : ℕ)
    → IsUp ss d
    → (n : ℕ) × (get_elem? (healthy_from base ss) n ≡ some (base + d))
unfolding healthy_from
healthy_from_complete [] base d (s, at, up) = cc
healthy_from_complete (s ∷ ss) base zero (t, at, up) =
    let same : s ≡ t = cc in
    let e : s.healthy ≡ true = rw same up in (0, rw e (ap some (omega arith)))
healthy_from_complete (s ∷ ss) base (suc d) up =
    let (n, at) = healthy_from_complete ss (base + 1) d up in
    let next : base + suc d ≡ base + 1 + d = omega arith in
    elim (Bool-cases s.healthy) [
      | inl e ↦ (suc n, rw e (rw next at))
      | inr e ↦ (n, rw e (rw next at))
    ]

healthy_servers_complete :
    (ss : List ServerEndpoint) (i : ℕ)
    → IsUp ss i
    → (n : ℕ) × (get_elem? (healthy_servers ss) n ≡ some i)
unfolding healthy_servers
healthy_servers_complete ss i up =
    let (n, at) = healthy_from_complete ss 0 i up in
    let same : 0 + i ≡ i = omega arith in (n, rw same at at)

-- The least of a list is one of its elements, and no element has fewer connections.
least-mem :
    (ss : List ServerEndpoint) (best : ℕ) (is : List ℕ)
    → (n : ℕ) × (get_elem? (best ∷ is) n ≡ some (least ss best is))
unfolding least
least-mem ss best [] = (0, refl)
least-mem ss best (i ∷ is) = elim (Bool-cases (ltb (connections ss i) (connections ss best))) [
  | inl e ↦ let (n, at) = least-mem ss i is in (suc n, rw e at)
  | inr e ↦ rw e (behind (least-mem ss best is))
]
  where
    behind :
        (n : ℕ) × (get_elem? (best ∷ is) n ≡ some (least ss best is))
        → (n : ℕ) × (get_elem? (best ∷ i ∷ is) n ≡ some (least ss best is))
    behind (zero, at) = (zero, at)
    behind (suc n, at) = (suc (suc n), at)

least-le :
    (ss : List ServerEndpoint) (best : ℕ) (is : List ℕ) (n j : ℕ)
    → get_elem? (best ∷ is) n ≡ some j
    → connections ss (least ss best is) ≤ connections ss j
unfolding least
least-le ss best [] zero j h = let e : best ≡ j = cc in rw e (omega arith)
least-le ss best [] (suc n) j h = cc
least-le ss best (i ∷ is) zero j h =
    let e : best ≡ j = cc in
    let first = least-le ss i is 0 i refl in
    let kept = least-le ss best is 0 best refl in rw (← e) (ground (arith, first, kept))
least-le ss best (i ∷ is) (suc zero) j h =
    let e : i ≡ j = cc in
    let first = least-le ss i is 0 i refl in
    let kept = least-le ss best is 0 best refl in rw (← e) (ground (arith, first, kept))
least-le ss best (i ∷ is) (suc (suc n)) j h =
    ground (arith, least-le ss i is (suc n) j h, least-le ss best is (suc n) j h)

choose-mem :
    (choice : ℕ → ℕ) (strategy : Strategy) (ss : List ServerEndpoint) (index : ℕ) (hs : List ℕ)
    (i : ℕ)
    → (choose choice strategy ss index hs).0 ≡ some i
    → (n : ℕ) × (get_elem? hs n ≡ some i)
unfolding choose
choose-mem choice strategy ss index [] i h = cc
choose-mem choice round_robin ss index (x ∷ xs) i h = (index % length (x ∷ xs), h)
choose-mem choice least_connections ss index (x ∷ xs) i h =
    let (n, at) = least-mem ss x xs in (n, at ∙ h)
choose-mem choice random ss index (x ∷ xs) i h = (choice (length (x ∷ xs)), h)

-- A selected server is healthy.
pub select-IsUp :
    (choice : ℕ → ℕ) (strategy : Strategy) (ss : List ServerEndpoint) (index i : ℕ)
    → (select choice strategy ss index).0 ≡ some i
    → IsUp ss i
unfolding select
select-IsUp choice strategy ss index i h =
    let (n, at) = choose-mem choice strategy ss index (healthy_servers ss) i h in
    healthy_servers_sound ss n i at

choose_total :
    (choice : ℕ → ℕ) (strategy : Strategy) (ss : List ServerEndpoint) (index h : ℕ) (hs : List ℕ)
    → ((n : ℕ) → 0 < n → choice n < n)
    → (i : ℕ) × ((choose choice strategy ss index (h ∷ hs)).0 ≡ some i)
unfolding choose
choose_total choice round_robin ss index h hs fair =
    get_elem?_total (h ∷ hs) (index % length (h ∷ hs)) (mod-lt index (omega arith))
choose_total choice least_connections ss index h hs fair = (least ss h hs, refl)
choose_total choice random ss index h hs fair =
    get_elem?_total (h ∷ hs) (choice (length (h ∷ hs))) (fair (suc (length hs)) (omega arith))

-- Whatever the strategy: some server is healthy, and random.choice picks a place inside its list,
-- so a server is selected, and it is healthy.
pub select_total :
    (choice : ℕ → ℕ) (strategy : Strategy) (ss : List ServerEndpoint) (index i : ℕ)
    → ((n : ℕ) → 0 < n → choice n < n)
    → IsUp ss i
    → (j : ℕ) × ((select choice strategy ss index).0 ≡ some j) × IsUp ss j
unfolding select
select_total choice strategy ss index i fair up =
    let (j, e) = pick (healthy_servers ss) (healthy_servers_complete ss i up) in
    (j, e, select-IsUp choice strategy ss index j e)
  where
    pick :
        (hs : List ℕ)
        → (n : ℕ) × (get_elem? hs n ≡ some i)
        → (j : ℕ) × ((choose choice strategy ss index hs).0 ≡ some j)
    pick [] (n, at) = cc
    pick (h ∷ hs) found = choose_total choice strategy ss index h hs fair

-- Under least_connections no healthy server has fewer active connections than the selected one.
pub select-least :
    (choice : ℕ → ℕ) (ss : List ServerEndpoint) (index i j : ℕ)
    → (select choice least_connections ss index).0 ≡ some i
    → IsUp ss j
    → connections ss i ≤ connections ss j
unfolding select choose
select-least choice ss index i j h up = go (healthy_servers ss) h (healthy_servers_complete ss j up)
  where
    go :
        (hs : List ℕ)
        → (choose choice least_connections ss index hs).0 ≡ some i
        → (n : ℕ) × (get_elem? hs n ≡ some j)
        → connections ss i ≤ connections ss j
    go [] e found = cc
    go (x ∷ xs) e (n, at) =
        let same : least ss x xs ≡ i = cc in rw (← same) (least-le ss x xs n j at)
