-- ===== src/App/Examples.antt =====
-- A combined server that starts, and a warmup that is asked for on it.
use llm_kv_passthrough.Prelude.{
  ◌≡◌, ◌⊎◌, refl, Bool, false, none, some, codes, text_eq, if◌then◌else◌,
}
use llm_kv_passthrough.Prelude.Result.{ok, err, Error}
use llm_kv_passthrough.Warmup.{WarmupRequest, Controller, is_running}
use llm_kv_passthrough.App.{
  App, Handled, kv_bench_app, startup, server_status, kv_state_status, warmup_status, start_warmup,
  chat_status,
}
use llm_kv_passthrough.App.Routes.{startup-serves, start_warmup-statuses}

startup-serves_example :
    (((startup ok (codes "combined") (codes "lmcache") (ok tt) kv_bench_app).0 ≡ ok tt)
      × (server_status (startup ok (codes "combined") (codes "lmcache") (ok tt) kv_bench_app).1
          ≡ 200)
      × (kv_state_status (startup ok (codes "combined") (codes "lmcache") (ok tt) kv_bench_app).1
          ≡ (if text_eq (codes "combined") (codes "proxy") then 404 else 200))
      × (warmup_status (startup ok (codes "combined") (codes "lmcache") (ok tt) kv_bench_app).1
          ≡ (if text_eq (codes "combined") (codes "proxy") then 404 else 200)))
    ⊎ ((e : Error) × ((startup ok (codes "combined") (codes "lmcache") (ok tt) kv_bench_app).0
          ≡ err e)
        × (server_status (startup ok (codes "combined") (codes "lmcache") (ok tt) kv_bench_app).1
            ≡ 503)
        × ((stream : Bool) (handled : Handled)
            → chat_status stream handled
                (startup ok (codes "combined") (codes "lmcache") (ok tt) kv_bench_app).1
              ≡ 503))
startup-serves_example = startup-serves ok (codes "combined") (codes "lmcache") (ok tt)

-- kvbm is refused when the server starts.
refused_kvbm :
    server_status (startup ok (codes "combined") (codes "kvbm") (ok tt) kv_bench_app).1 ≡ 503
unfolding server_status startup text_eq
refused_kvbm = refl

abbrev request : WarmupRequest
request = record { concurrency = 1; seq_tokens = 512; fill = λ n. n; target = none }

abbrev running_app : App
running_app = (startup ok (codes "combined") (codes "lmcache") (ok tt) kv_bench_app).1

start_warmup-statuses_example :
    ((running_app.warmup ≡ none) × (start_warmup request none running_app ≡ (404, running_app)))
    ⊎ ((c : Controller) × (running_app.warmup ≡ some c)
        × (((is_running c.task ≡ false) × ((start_warmup request none running_app).0 ≡ 202))
            ⊎ (start_warmup request none running_app ≡ (409, running_app))))
start_warmup-statuses_example = start_warmup-statuses request none running_app
