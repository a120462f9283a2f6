-- ===== src/Proxy/Connections.antt =====
-- How the updates of a server list change the connection counts.
use llm_kv_passthrough.Prelude.{
  ℕ, zero, suc, ◌+◌, ◌-◌, ◌≡◌, refl, Bool, some, List, [], ◌∷◌, map, get_elem?, modify, ◌==◌,
  if◌then◌else◌, arith, Text,
}
use llm_kv_passthrough.Proxy.{
  ServerEndpoint, endpoint, connections, open_connection, close_connection, complete, mark,
}

pub connections-open :
    (ss : List ServerEndpoint) (i j : ℕ) (s : ServerEndpoint)
    → get_elem? ss i ≡ some s
    → connections (modify i open_connection ss) j ≡ connections ss j + (if i == j then 1 else 0)
unfolding open_connection
connections-open [] i j s h = cc
connections-open (t ∷ ts) zero zero s h = ground arith
connections-open (t ∷ ts) zero (suc j) s h = ground arith
connections-open (t ∷ ts) (suc i) zero s h = ground arith
connections-open (t ∷ ts) (suc i) (suc j) s h = ground (arith, connections-open ts i j s h)

pub connections-close :
    (ss : List ServerEndpoint) (i j : ℕ)
    → connections (modify i close_connection ss) j ≡ connections ss j - (if i == j then 1 else 0)
unfolding close_connection
connections-close [] i j = ground arith
connections-close (t ∷ ts) zero zero = ground arith
connections-close (t ∷ ts) zero (suc j) = ground arith
connections-close (t ∷ ts) (suc i) zero = ground arith
connections-close (t ∷ ts) (suc i) (suc j) = ground (arith, connections-close ts i j)

pub connections-complete :
    (ss : List ServerEndpoint) (i j : ℕ)
    → connections (modify i complete ss) j ≡ connections ss j - (if i == j then 1 else 0)
unfolding complete
connections-complete [] i j = ground arith
connections-complete (t ∷ ts) zero zero = ground arith
connections-complete (t ∷ ts) zero (suc j) = ground arith
connections-complete (t ∷ ts) (suc i) zero = ground arith
connections-complete (t ∷ ts) (suc i) (suc j) = ground (arith, connections-complete ts i j)

pub connections-mark :
    (ss : List ServerEndpoint) (i j : ℕ) (up : Bool)
    → connections (modify i (mark up) ss) j ≡ connections ss j
unfolding mark
connections-mark [] i j up = refl
connections-mark (t ∷ ts) zero zero up = refl
connections-mark (t ∷ ts) zero (suc j) up = refl
connections-mark (t ∷ ts) (suc i) zero up = refl
connections-mark (t ∷ ts) (suc i) (suc j) up = connections-mark ts i j up

pub connections-init : (urls : List Text) (i : ℕ) → connections (map endpoint urls) i ≡ 0
connections-init [] i = refl
connections-init (u ∷ us) zero = refl
connections-init (u ∷ us) (suc i) = connections-init us i
