-- ===== src/Proxy/Examples.antt =====
-- The theorems about the proxy at small inputs, and runs of requests.
use llm_kv_passthrough.Prelude.{
  ℕ, ◌≤◌, ◌<◌, ◌≡◌, refl, Bool, true, false, none, some, List, [], ◌∷◌, ◌++◌, length, map, take,
  drop, ◌%◌, codes, arith,
}
use llm_kv_passthrough.Proxy.{
  round_robin, least_connections, random, ServerEndpoint, healthy_servers, connections, select,
  init, Event, arriving, arriving_stream, resuming, failing, cancelling, run, Status, health_check,
}
use llm_kv_passthrough.Proxy.Select.{IsUp, select_total, select-least}
use llm_kv_passthrough.Proxy.Fair.{selections, round_robin-rotation}
use llm_kv_passthrough.Proxy.Consistent.{IsConsistent}
use llm_kv_passthrough.Proxy.Requests.{run-IsConsistent}

abbrev server : Bool → ℕ → ServerEndpoint
server up n = record {
  url = codes "http://a";
  healthy = up;
  active_connections = n;
  total_requests = 0;
}

abbrev pool : List ServerEndpoint
pool = server true 3 ∷ server false 0 ∷ server true 1 ∷ []

first : ℕ → ℕ
first n = 0

first-lt : (n : ℕ) → 0 < n → first n < n
unfolding first
first-lt n h = omega arith

chosen : (select first least_connections pool 0).0 ≡ some 2
unfolding select
chosen = refl

select_total_example : (j : ℕ) × ((select first random pool 5).0 ≡ some j) × IsUp pool j
select_total_example = select_total first random pool 5 2 first-lt (server true 1, refl, refl)

select-least_example : connections pool 2 ≤ connections pool 0
select-least_example = select-least first pool 0 2 0 chosen (server true 3, refl, refl)

two_up : 0 < length (healthy_servers pool)
unfolding healthy_servers
two_up = omega arith

round_robin-rotation_example :
    selections first pool (length (healthy_servers pool)) 5
    ≡ map some (
        drop (5 % length (healthy_servers pool)) (healthy_servers pool)
        ++ take (5 % length (healthy_servers pool)) (healthy_servers pool))
round_robin-rotation_example = round_robin-rotation first pool 5 two_up

in_turn : selections first pool 2 5 ≡ some 2 ∷ some 0 ∷ []
unfolding selections select healthy_servers
in_turn = refl

-- One request without and one with a stream, an arrival that fails, one that is cancelled, and a
-- stream that its client leaves at its first token.
abbrev traffic : List Event
traffic =
    arriving first (some 2)
    ∷ arriving first none
    ∷ resuming first 0 0
    ∷ failing 1
    ∷ resuming first 0 0
    ∷ arriving first (some 1)
    ∷ cancelling 1
    ∷ resuming first 40 0
    ∷ arriving_stream first (some 1)
    ∷ resuming first 0 0
    ∷ resuming first 0 0
    ∷ resuming first 0 0
    ∷ resuming first 0 0
    ∷ resuming first 0 0
    ∷ resuming first 20 0
    ∷ arriving_stream first (some 5)
    ∷ resuming first 0 0
    ∷ resuming first 0 0
    ∷ resuming first 0 0
    ∷ cancelling 0
    ∷ []

served :
    let p = run traffic (init round_robin (codes "a" ∷ []) (codes "b" ∷ [])) in
    ◌≡◌ {A = List ℕ}
      (p.stats.requests_total
        ∷ p.stats.requests_success
        ∷ p.stats.requests_failed
        ∷ p.cancelled
        ∷ p.stats.total_latency
        ∷ connections p.decode_servers 0
        ∷ [])
      (5 ∷ 2 ∷ 1 ∷ 2 ∷ 60 ∷ 1 ∷ [])
unfolding run init
served = refl

run-IsConsistent_example :
    IsConsistent (run traffic (init round_robin (codes "a" ∷ []) (codes "b" ∷ [])))
run-IsConsistent_example = run-IsConsistent round_robin (codes "a" ∷ []) (codes "b" ∷ []) traffic

no_servers : health_check (init round_robin [] []) ≡ Status.unhealthy
unfolding health_check init
no_servers = refl
