-- ===== src/App/Routes.antt =====
-- The statuses that the routes answer after a start, and those of the warmup route.
use llm_kv_passthrough.Prelude.{
  ℕ, zero, suc, ◌≡◌, ◌⊎◌, inl, inr, refl, sym, ap, subst, ◌∙◌, Bool, true, false, not, Option, none,
  some, Option-cases, Bool-cases, Text, text_eq, text_eq_iff, codes, if◌then◌else◌,
}
use llm_kv_passthrough.Prelude.Result.{
  Result, ok, err, Error, runtime_error, Result-cases, ◌>>=◌, ◌>>◌, >>=-eq-ok, guard,
}
use llm_kv_passthrough.Warmup.{
  WarmupRequest, Capacity, Controller, is_running, start, capacity_info, target_bytes_of, or_else,
  started,
}
use llm_kv_passthrough.App.{
  App, Server, proxy_server, KvLife, kv_bench_app, create_server, create_kv_stack, start_server,
  start_kv, then_server, startup, server_status, kv_state_status, warmup_status, started_status,
  start_on, start_warmup, Handled, chat_status,
}

-- What the routes answer after a start that returned, or raised.
Served : Text → Result (Unit {0}) × App → Type 0
Served server_type r =
    ((r.0 ≡ ok tt)
      × (server_status r.1 ≡ 200)
      × (kv_state_status r.1 ≡ (if text_eq server_type (codes "proxy") then 404 else 200))
      × (warmup_status r.1 ≡ (if text_eq server_type (codes "proxy") then 404 else 200)))
    ⊎ ((e : Error) × (r.0 ≡ err e)
        × (server_status r.1 ≡ 503)
        × ((stream : Bool) (handled : Handled) → chat_status stream handled r.1 ≡ 503))

then_server-Served :
    (construct : Server → Result Server) (server_type : Text) (kv : Result KvLife)
    (kv_start : Result (Unit {0}))
    → text_eq server_type (codes "proxy") ≡ false
    → Served server_type (then_server construct server_type (start_kv kv kv_start kv_bench_app))
unfolding Served start_kv server_status chat_status
then_server-Served construct server_type (err e) kv_start other =
    inr (e, refl, refl, (λ stream handled. refl))
then_server-Served construct server_type (ok kv) (err e) other =
    inr (e, refl, refl, (λ stream handled. refl))
then_server-Served construct server_type (ok kv) (ok done) other =
    made (create_server construct server_type true)
  where
    made :
        (r : Result Server)
        → Served server_type (start_server r (start_kv (ok kv) (ok done) kv_bench_app).1)
    made (ok server) =
        unfold start_server kv_state_status warmup_status in rw other (inl (refl, refl, refl, refl))
    made (err e) = unfold start_server in inr (e, refl, refl, (λ stream handled. refl))

-- Whatever the names of the server and of the stack, and whatever the start of the stack and the
-- constructor of the server do: a
-- start that returns leaves every server route at 200, and the routes of the stack and of the
-- warmup at 404 for a proxy and at 200 for any other server; a start that raises leaves the
-- server routes and the chat route at 503.
pub startup-serves :
    (construct : Server → Result Server) (server_type stack : Text) (kv_start : Result (Unit {0}))
    → (((startup construct server_type stack kv_start kv_bench_app).0 ≡ ok tt)
        × (server_status (startup construct server_type stack kv_start kv_bench_app).1 ≡ 200)
        × (kv_state_status (startup construct server_type stack kv_start kv_bench_app).1
            ≡ (if text_eq server_type (codes "proxy") then 404 else 200))
        × (warmup_status (startup construct server_type stack kv_start kv_bench_app).1
            ≡ (if text_eq server_type (codes "proxy") then 404 else 200)))
      ⊎ ((e : Error) × ((startup construct server_type stack kv_start kv_bench_app).0 ≡ err e)
          × (server_status (startup construct server_type stack kv_start kv_bench_app).1 ≡ 503)
          × ((stream : Bool) (handled : Handled)
              → chat_status stream handled
                  (startup construct server_type stack kv_start kv_bench_app).1
                ≡ 503))
unfolding startup Served
startup-serves construct server_type stack kv_start =
    elim (Bool-cases (text_eq server_type (codes "proxy"))) [
      | inr other ↦
          subst
            (λ b. Served server_type (
              then_server construct server_type (
                if b
                then (ok tt, kv_bench_app)
                else start_kv (create_kv_stack stack) kv_start kv_bench_app)))
            (sym other)
            (then_server-Served construct server_type (create_kv_stack stack) kv_start other)
      | inl proxy ↦
          subst (λ t. Served t (startup construct t stack kv_start kv_bench_app))
            (sym ((text_eq_iff server_type (codes "proxy")).0 proxy)) (as_proxy stack kv_start)
    ]
  where
    proxied : (r : Result Server) → Served (codes "proxy") (start_server r kv_bench_app)
    proxied (ok server) =
        unfold start_server server_status kv_state_status warmup_status text_eq in
        inl (refl, refl, refl, refl)
    proxied (err e) =
        unfold start_server server_status chat_status in
        inr (e, refl, refl, (λ stream handled. refl))

    as_proxy :
        (stack : Text) (kv_start : Result (Unit {0}))
        → Served (codes "proxy") (startup construct (codes "proxy") stack kv_start kv_bench_app)
    as_proxy stack kv_start = unfold create_server text_eq in proxied (construct proxy_server)

-- A start raises only RuntimeError, and returns only when no warmup runs.
only_runtime :
    (idle : Bool) (info : Option Capacity) (target : Capacity → Option ℕ × ℕ) (fill : ℕ → ℕ)
    (next : Capacity → ℕ → Controller) (e : Error)
    → (guard idle runtime_error
        >> (capacity_info info >>= λ capacity.
            target_bytes_of (target capacity).0 fill (target capacity).1 >>= λ t.
            ok (next capacity t)))
      ≡ err e
    → e ≡ runtime_error
unfolding capacity_info
only_runtime false info target fill next e h = cc
only_runtime true none target fill next e h = cc
only_runtime true (some capacity) target fill next e h =
    chosen (target capacity).0 (target capacity).1 h
  where
    chosen :
        (given : Option ℕ) (total : ℕ)
        → (target_bytes_of given fill total >>= λ t. ok (next capacity t)) ≡ err e
        → e ≡ runtime_error
    chosen none zero h = unfold target_bytes_of in cc
    chosen none (suc n) h = unfold target_bytes_of in cc
    chosen (some t) total h = unfold target_bytes_of in cc

start-errors :
    (request : WarmupRequest) (info : Option Capacity) (c : Controller) (e : Error)
    → start request info c ≡ err e
    → e ≡ runtime_error
unfolding start
start-errors request info c e h =
    only_runtime (not (is_running c.task)) info
      (λ capacity. (request.target, or_else capacity.total_capacity_bytes 0)) request.fill
      (λ capacity target. started request capacity target c) e h

start-idle :
    (request : WarmupRequest) (info : Option Capacity) (c next : Controller)
    → start request info c ≡ ok next
    → is_running c.task ≡ false
unfolding start
start-idle request info c next h =
    let (done, passed, rest) = >>=-eq-ok (guard (not (is_running c.task)) runtime_error) _ h in
    idle (is_running c.task) passed
  where
    idle : (b : Bool) {u : Unit {0}} → guard (not b) runtime_error ≡ ok u → b ≡ false
    idle true h = cc
    idle false h = refl

-- POST /kvbench/warmup answers 404 without a stack; with one it answers 202 only when no warmup
-- runs, or else 409, and 404 and 409 change nothing.
pub start_warmup-statuses :
    (request : WarmupRequest) (info : Option Capacity) (app : App)
    → ((app.warmup ≡ none) × (start_warmup request info app ≡ (404, app)))
      ⊎ ((c : Controller) × (app.warmup ≡ some c)
          × (((is_running c.task ≡ false) × ((start_warmup request info app).0 ≡ 202))
              ⊎ (start_warmup request info app ≡ (409, app))))
unfolding start_warmup start_on started_status
start_warmup-statuses request info app = elim (Option-cases app.warmup) [
  | inl e ↦ inl (e, ap (start_on request info app) e)
  | inr (c, e) ↦ inr (
    c,
    e,
    (elim (Result-cases (start request info c)) [
      | inl (next, h) ↦
          let status = ap (start_on request info app) e ∙ ap (started_status app) h in
          inl (start-idle request info c next h, ap (λ r. r.0) status)
      | inr (raised, h) ↦
          let only = h ∙ ap err (start-errors request info c raised h) in
          inr (ap (start_on request info app) e ∙ ap (started_status app) only)
    ]),
  )
]
