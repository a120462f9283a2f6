-- ===== src/Proxy/Health.antt =====
-- The status of health_check in terms of the servers.
use llm_kv_passthrough.Prelude.{
  ℕ, ◌+◌, ◌≤◌, ◌<◌, ◌≡◌, refl, true, false, ◌||◌, List, [], ◌∷◌, ◌↔◌, ◌⊎◌, length, All, ltb, ◌==◌,
  if◌then◌else◌, Bool-cases, inl, inr, arith,
}
use llm_kv_passthrough.Proxy.{
  ServerEndpoint, Proxy, Status, healthy_from, healthy_servers, health_check,
}

length-healthy_from_le :
    (base : ℕ) (ss : List ServerEndpoint) → length (healthy_from base ss) ≤ length ss
unfolding healthy_from
length-healthy_from_le base [] = omega arith
length-healthy_from_le base (s ∷ ss) = ground (arith, length-healthy_from_le (base + 1) ss)

abbrev pub AllUp : List ServerEndpoint → Type 0
AllUp = All (λ s. s.healthy ≡ true)

abbrev pub AllDown : List ServerEndpoint → Type 0
AllDown = All (λ s. s.healthy ≡ false)

-- Every server is healthy exactly when none is missing among the healthy ones.
AllUp-iff :
    (base : ℕ) (ss : List ServerEndpoint) → (length (healthy_from base ss) ≡ length ss) ↔ AllUp ss
unfolding healthy_from
AllUp-iff base [] = (λ e. tt, λ e. refl)
AllUp-iff base (s ∷ ss) = elim (Bool-cases s.healthy) [
  | inl e ↦ rw e (
    λ h. (refl, (AllUp-iff (base + 1) ss).0 (omega arith)),
    λ h. let k = (AllUp-iff (base + 1) ss).1 h.1 in omega arith,
  )
  | inr e ↦ rw e (
    λ h. absurd (let b = length-healthy_from_le (base + 1) ss in omega arith),
    λ h. let no_way : false ≡ true = h.0 in cc,
  )
]

-- Every server is down exactly when there is no healthy one.
AllDown-iff :
    (base : ℕ) (ss : List ServerEndpoint) → (length (healthy_from base ss) ≡ 0) ↔ AllDown ss
unfolding healthy_from
AllDown-iff base [] = (λ e. tt, λ e. refl)
AllDown-iff base (s ∷ ss) = elim (Bool-cases s.healthy) [
  | inl e ↦ rw e (λ h. absurd (omega arith), λ h. let no_way : true ≡ false = h.0 in cc)
  | inr e ↦
      rw e (λ h. (refl, (AllDown-iff (base + 1) ss).0 h), λ h. (AllDown-iff (base + 1) ss).1 h.1)
]

abbrev status : ℕ → ℕ → ℕ → ℕ → Status
status hp hd np nd =
    if hp == 0 || hd == 0
    then Status.unhealthy
    else if ltb hp np || ltb hd nd
    then Status.degraded
    else Status.healthy

status-healthy :
    (hp hd np nd : ℕ)
    → hp ≤ np
    → hd ≤ nd
    → (status hp hd np nd ≡ Status.healthy) ↔ ((hp ≡ np) × (hd ≡ nd) × (0 < np) × (0 < nd))
status-healthy hp hd np nd a b = (λ e. ground arith, λ e. ground arith)

status-unhealthy :
    (hp hd np nd : ℕ) → (status hp hd np nd ≡ Status.unhealthy) ↔ ((hp ≡ 0) ⊎ (hd ≡ 0))
status-unhealthy hp hd np nd = (λ e. ground arith, λ e. ground arith)

-- The proxy reports healthy exactly when it has servers of both kinds and all are healthy, and
-- unhealthy exactly when all prefill servers or all decode servers are down; otherwise degraded.
pub health_check_iff :
    (p : Proxy)
    → ((health_check p ≡ Status.healthy) ↔ (
        AllUp p.prefill_servers
        × AllUp p.decode_servers
        × (0 < length p.prefill_servers)
        × (0 < length p.decode_servers)))
      × ((health_check p ≡ Status.unhealthy)
          ↔ (AllDown p.prefill_servers ⊎ AllDown p.decode_servers))
unfolding health_check healthy_servers
health_check_iff p =
    let ps = p.prefill_servers in
    let ds = p.decode_servers in
    let fit =
      status-healthy (length (healthy_from 0 ps)) (length (healthy_from 0 ds)) (length ps)
        (length ds) (length-healthy_from_le 0 ps) (length-healthy_from_le 0 ds) in
    let none_up =
      status-unhealthy (length (healthy_from 0 ps)) (length (healthy_from 0 ds)) (length ps)
        (length ds) in
    (
      (
        λ e. let (a, b, c, d) = fit.0 e in ((AllUp-iff 0 ps).0 a, (AllUp-iff 0 ds).0 b, c, d),
        λ (a, b, c, d). fit.1 ((AllUp-iff 0 ps).1 a, (AllUp-iff 0 ds).1 b, c, d),
      ),
      (
        λ e. elim (none_up.0 e) [
          | inl a ↦ inl ((AllDown-iff 0 ps).0 a)
          | inr b ↦ inr ((AllDown-iff 0 ds).0 b)
        ],
        λ e. none_up.1 (elim e [
          | inl a ↦ inl ((AllDown-iff 0 ps).1 a)
          | inr b ↦ inr ((AllDown-iff 0 ds).1 b)
        ]),
      ),
    )
