-- ===== src/App.antt =====
-- KVBenchApp of src/kvbench/servers/app.py with create_server (src/kvbench/servers/factory.py) and
-- create_kv_stack (src/kvbench/kv/factory.py): start and shutdown, and the status of each route.
-- The answers' bodies are left out; what a handler of a server does is an argument.
pub mod Routes
mod Examples
use llm_kv_passthrough.Prelude.{
  ℕ, Bool, true, false, Option, none, some, Text, text_eq, codes, if◌then◌else◌,
}
use llm_kv_passthrough.Prelude.Result.{Result, ok, err, Error, value_error, runtime_error, ◌>>=◌}
use llm_kv_passthrough.Warmup.{WarmupRequest, Capacity, Controller, init, start, cancel}

pub data Server : Type 0 where
  prefill_server decode_server combined_server proxy_server : Server

-- A server that needs a KV stack.
abbrev pub with_kv : Bool → Result Server → Result Server
with_kv kv server = if kv then server else err value_error

-- create_server; the flag tells whether a stack was given, and `construct` is what the constructor
-- of a server does, which may raise.
unfoldable pub create_server : (Server → Result Server) → Text → Bool → Result Server
unfolding text_eq
create_server construct server_type kv =
    if text_eq server_type (codes "prefill")
    then with_kv kv (construct prefill_server)
    else if text_eq server_type (codes "decode")
    then with_kv kv (construct decode_server)
    else if text_eq server_type (codes "combined")
    then with_kv kv (construct combined_server)
    else if text_eq server_type (codes "proxy")
    then construct proxy_server
    else err value_error

-- The life of the KV stack.
pub data KvLife : Type 0 where
  created started closed : KvLife

-- create_kv_stack: kvbm is known, and refused like an unknown name.
unfoldable pub create_kv_stack : Text → Result KvLife
unfolding text_eq
create_kv_stack stack =
    if text_eq stack (codes "lmcache")
    then ok created
    else if text_eq stack (codes "kvbm")
    then err value_error
    else err value_error

pub record App : Type 0 where
  pub server : Option Server
  pub kv : Option KvLife
  pub warmup : Option Controller

abbrev pub kv_bench_app : App
kv_bench_app = record { server = none; kv = none; warmup = none }

abbrev pub is_some {ℓ} : {A : Type ℓ} → Option A → Bool
is_some none = false
is_some (some a) = true

-- The end of _startup: the server is made over the stack that is there.
unfoldable pub start_server : Result Server → App → Result (Unit {0}) × App
start_server (err raised) app = (err raised, app)
start_server (ok server) app = (ok tt, record app { server = some server })

-- The stack is made, and started; `kv_start` is what its start does.
unfoldable pub start_kv : Result KvLife → Result (Unit {0}) → App → Result (Unit {0}) × App
start_kv (err raised) kv_start app = (err raised, app)
start_kv (ok kv) (err raised) app = (err raised, record app { kv = some kv })
start_kv (ok kv) (ok done) app = (ok tt, record app { kv = some started; warmup = some init })

abbrev pub then_server :
    (Server → Result Server) → Text → Result (Unit {0}) × App → Result (Unit {0}) × App
then_server construct server_type (err raised, app) = (err raised, app)
then_server construct server_type (ok done, app) =
    start_server (create_server construct server_type (is_some app.kv)) app

unfoldable pub startup :
    (Server → Result Server) → Text → Text → Result (Unit {0}) → App → Result (Unit {0}) × App
unfolding create_kv_stack create_server start_server start_kv
startup construct server_type stack kv_start app = then_server construct server_type (
    if text_eq server_type (codes "proxy")
    then (ok tt, app)
    else start_kv (create_kv_stack stack) kv_start app)

abbrev pub cancelled_if : Option Controller → Option Controller
cancelled_if none = none
cancelled_if (some c) = some (cancel c.task c)

abbrev pub closed_if : Option KvLife → Option KvLife
closed_if none = none
closed_if (some kv) = some closed

-- _shutdown: a warmup is cancelled, the server is stopped, and the stack is closed last.
pub shutdown : App → App
shutdown app = record app { warmup = cancelled_if app.warmup; kv = closed_if app.kv }

-- The status of the routes that ask the server: /health, /stats and /v1/models.
unfoldable pub server_status : App → ℕ
server_status app = if is_some app.server then 200 else 503

-- GET /kvbench/state: capacity_info raises on a stack whose start has not returned.
abbrev capacity_status : Option KvLife → ℕ
capacity_status none = 404
capacity_status (some created) = 500
capacity_status (some started) = 200
capacity_status (some closed) = 200

unfoldable pub kv_state_status : App → ℕ
kv_state_status app = capacity_status app.kv

-- POST /kvbench/warmup
unfoldable pub started_status : App → Result Controller → ℕ × App
started_status app (ok c) = (202, record app { warmup = some c })
started_status app (err runtime_error) = (409, app)
started_status app (err raised) = (500, app)

unfoldable pub start_on : WarmupRequest → Option Capacity → App → Option Controller → ℕ × App
unfolding started_status
start_on request info app none = (404, app)
start_on request info app (some c) = started_status app (start request info c)

unfoldable pub start_warmup : WarmupRequest → Option Capacity → App → ℕ × App
unfolding start_on
start_warmup request info app = start_on request info app app.warmup

-- GET and DELETE /kvbench/warmup
unfoldable pub warmup_status : App → ℕ
warmup_status app = if is_some app.warmup then 200 else 404

unfoldable pub cancel_warmup : App → ℕ × App
cancel_warmup app = elim app.warmup [
  | none ↦ (404, app)
  | some c ↦ (200, record app { warmup = some (cancel c.task c) })
]

-- What a server's handler does with a chat request: a completion, an ErrorResponse, an exception.
pub data Handled : Type 0 where
  completed refused : Handled
  raised : Error → Handled

abbrev pub handled_status : Handled → ℕ
handled_status completed = 200
handled_status refused = 500
handled_status (raised e) = 500

-- POST /v1/chat/completions: a stream has begun with status 200 before its handler runs.
unfoldable pub chat_status : Bool → Handled → App → ℕ
chat_status stream handled app = elim app.server [
  | none ↦ 503
  | some server ↦ if stream then 200 else handled_status handled
]
