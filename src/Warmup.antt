-- ===== src/Warmup.antt =====
-- WarmupController of src/kvbench/servers/warmup.py. The run and its workers are tasks that
-- interleave at their awaits; a turn of a task up to its next await is a function on the state
-- of the controller. The tokens drawn by random, the outcome of the KV stack's calls and the
-- products with the float fill_factor are inputs. Time stamps and texts of errors are left out.
pub mod Kept
pub mod Runs
pub mod Stopped
pub mod Cancelled
pub mod Sound
pub mod Nonce
mod Examples
use llm_kv_passthrough.Prelude.{
  ℕ, zero, suc, ◌+◌, ◌-◌, ◌*◌, ◌/◌, ◌%◌, ◌^◌, max, Bool, true, false, not, ◌&&◌, ◌||◌, Option, none,
  some, List, [], ◌∷◌, ◌++◌, map, length, get_elem?, set, remove_at, replicate, ltb, ◌==◌,
  if◌then◌else◌,
}
use llm_kv_passthrough.Prelude.Result.{
  Result, ok, err, runtime_error, index_error, ◌>>=◌, ◌>>◌, guard,
}

-- The parameters of a run: int(target_gb * 1024**3), and int(capacity * fill_factor).
pub record WarmupRequest : Type 0 where
  pub target : Option ℕ
  pub fill : ℕ → ℕ
  pub seq_tokens : ℕ
  pub concurrency : ℕ

-- What capacity_info of the KV stack reports.
pub record Capacity : Type 0 where
  pub chunk_size : Option ℕ
  pub bytes_per_token : ℕ
  pub total_capacity_bytes : Option ℕ

pub data State : Type 0 where
  idle running done cancelled error : State

pub record WarmupState : Type 0 where
  pub state : State
  pub target_bytes : ℕ
  pub stored_bytes : ℕ
  pub sequences : ℕ
  pub evicting : Bool
  pub seq_tokens : ℕ
  pub concurrency : ℕ
  pub bytes_per_token : ℕ

-- Where the task of _run waits: not started yet, for its workers, or in the eviction check with
-- that many attempts left.
pub data Task : Type 0 where
  no_task created gathering finished : Task
  checking : (attempts : ℕ) → Task

-- Where a worker waits: for its first turn, or for its store; `ended` left the loop normally.
pub data Stage : Type 0 where
  starting storing ended failed stopped : Stage

-- A worker task, with the number of the run that made it.
pub record Worker : Type 0 where
  pub run : ℕ
  pub seq_bytes : ℕ
  pub stage : Stage

-- The controller; whether task.cancel() was called on the task of this run, the runs whose end the
-- calls of cancel await, and (which the code does not keep) whether a call that awaited another
-- run has set the state of this one.
pub record Controller : Type 0 where
  pub status : WarmupState
  pub task : Task
  pub first_seq : Option (List ℕ)
  pub seq_counter : ℕ
  pub workers : List Worker
  pub runs : ℕ
  pub requested : Bool
  pub awaiting : List ℕ
  pub overtaken : Bool

pub init : Controller
init = record {
  status = record {
    state = idle;
    target_bytes = 0;
    stored_bytes = 0;
    sequences = 0;
    evicting = false;
    seq_tokens = 0;
    concurrency = 0;
    bytes_per_token = 0;
  };
  task = no_task;
  first_seq = none;
  seq_counter = 0;
  workers = [];
  runs = 0;
  requested = false;
  awaiting = [];
  overtaken = false;
}

-- The property `running`: there is a task and it is not done.
unfoldable pub is_running : Task → Bool
is_running no_task = false
is_running created = true
is_running gathering = true
is_running finished = false
is_running (checking attempts) = true

-- `value or default` of an optional number.
abbrev pub or_else : Option ℕ → ℕ → ℕ
or_else none default = default
or_else (some zero) default = default
or_else (some (suc n)) default = suc n

unfoldable pub capacity_info : Option Capacity → Result Capacity
capacity_info none = err runtime_error
capacity_info (some capacity) = ok capacity

pub aligned_tokens : ℕ → ℕ → ℕ
aligned_tokens chunk_size seq_tokens = max chunk_size (seq_tokens / chunk_size * chunk_size)

unfoldable pub target_bytes_of : Option ℕ → (ℕ → ℕ) → ℕ → Result ℕ
target_bytes_of (some target) fill total = ok target
target_bytes_of none fill zero = err runtime_error
target_bytes_of none fill (suc total) = ok (fill (suc total))

pub started : WarmupRequest → Capacity → ℕ → Controller → Controller
unfolding aligned_tokens
started request capacity target c = record c {
  status = record {
    state = running;
    target_bytes = target;
    stored_bytes = 0;
    sequences = 0;
    evicting = false;
    seq_tokens = aligned_tokens (or_else capacity.chunk_size 256) request.seq_tokens;
    concurrency = request.concurrency;
    bytes_per_token = capacity.bytes_per_token;
  };
  first_seq = none;
  task = created;
  runs = c.runs + 1;
  requested = false;
  overtaken = false;
}

unfoldable pub start : WarmupRequest → Option Capacity → Controller → Result Controller
unfolding is_running capacity_info target_bytes_of started
start request info c = do
  guard (not (is_running c.task)) runtime_error
  capacity ← capacity_info info
  target ← target_bytes_of request.target request.fill (or_else capacity.total_capacity_bytes 0)
  ok (started request capacity target c)

-- The first turn of _run makes the workers.
pub enter : Task → Controller → Controller
enter created c = record c {
  task = gathering;
  workers =
      c.workers
      ++ replicate c.status.concurrency (record {
        run = c.runs;
        seq_bytes = c.status.seq_tokens * c.status.bytes_per_token;
        stage = starting;
      });
}
enter task c = c

-- Byte i of the nonce, (nonce >> (i * 8)) & 0xFF.
abbrev pub nonce_byte : ℕ → ℕ → ℕ
nonce_byte nonce i = nonce / 2 ^ (i * 8) % 256

-- tokens[i] = the byte, for i below 8; an index past the end raises.
pub write_nonce : ℕ → ℕ → ℕ → List ℕ → Result (List ℕ)
write_nonce nonce i zero tokens = ok tokens
write_nonce nonce i (suc n) [] = err index_error
write_nonce nonce i (suc n) (t ∷ ts) = do
  rest ← write_nonce nonce (i + 1) n ts
  ok (nonce_byte nonce i ∷ rest)

-- _next_sequence from the counter's new value and the tokens drawn.
pub next_sequence : ℕ → List ℕ → Result (List ℕ)
unfolding write_nonce
next_sequence nonce drawn = write_nonce nonce 0 8 drawn

-- The worker keeps the sequence if it is the first, and waits for its store.
pub begin : Result (List ℕ) → Controller → Stage × Controller
begin (err e) c = (failed, c)
begin (ok tokens) c = (storing, record c { first_seq = some (first c.first_seq) })
  where
    first : Option (List ℕ) → List ℕ
    first none = tokens
    first (some kept) = kept

pub loop_head : List ℕ → Controller → Stage × Controller
unfolding begin next_sequence
loop_head drawn c =
    if ltb c.status.stored_bytes c.status.target_bytes
    then begin (next_sequence (c.seq_counter + 1) drawn)
        (record c { seq_counter = c.seq_counter + 1 })
    else (ended, c)

abbrev count_sequence : ℕ → Controller → Controller
count_sequence seq_bytes c = record c {
  status = record c.status {
    stored_bytes = c.status.stored_bytes + seq_bytes;
    sequences = c.status.sequences + 1;
  };
}

-- A turn of a worker: its store has returned, or raised.
pub turn : Bool → List ℕ → ℕ → Stage → Controller → Stage × Controller
unfolding loop_head
turn stored drawn seq_bytes starting c = loop_head drawn c
turn true drawn seq_bytes storing c = loop_head drawn (count_sequence seq_bytes c)
turn false drawn seq_bytes storing c = (failed, c)
turn stored drawn seq_bytes stage c = (stage, c)

pub work_on : Bool → List ℕ → ℕ → Option Worker → Controller → Controller
unfolding turn
work_on stored drawn k none c = c
work_on stored drawn k (some w) c =
    let t = turn stored drawn w.seq_bytes w.stage c in
    record t.1 { workers = set c.workers k (record w { stage = t.0 }) }

pub work : Bool → List ℕ → ℕ → Controller → Controller
unfolding work_on
work stored drawn k c = work_on stored drawn k (get_elem? c.workers k) c

pub is_over : Stage → Bool
is_over ended = true
is_over failed = true
is_over stage = false

-- The stage of two workers together: failed if one is, ended if both are.
pub both : Stage → Stage → Stage
both failed rest = failed
both ended rest = rest
both stage failed = failed
both stage rest = storing

-- What gather reports of the workers of a run: the stage failed if one raised, ended if all
-- returned, storing while it still waits.
pub gathered : ℕ → List Worker → Stage
unfolding both
gathered run [] = ended
gathered run (w ∷ ws) =
    let rest = gathered run ws in if w.run == run then both w.stage rest else rest

pub finish : State → Controller → Controller
finish state c = record c { task = finished; status = record c.status { state = state } }

-- The eviction check has nothing to look up when no sequence was made.
pub begin_check : Option (List ℕ) → Controller → Controller
unfolding finish
begin_check none c = finish done c
begin_check (some first) c = record c { task = checking 5 }

pub settle_as : Stage → Controller → Controller
unfolding finish begin_check
settle_as failed c = finish error c
settle_as ended c = begin_check c.first_seq c
settle_as stage c = c

-- _run goes on once its workers are gathered.
pub settle : Task → Controller → Controller
unfolding settle_as gathered
settle gathering c = settle_as (gathered c.runs c.workers) c
settle task c = c

-- One lookup of the eviction check: none is a lookup that raised, which only logs.
pub evicted : ℕ → ℕ → Option (List ℕ) → Controller → Controller
unfolding finish
evicted attempts hit none c = finish done c
evicted attempts hit (some first) c =
    let found = record c { status = record c.status { evicting = ltb hit (length first) } } in
    if ltb hit (length first) || attempts == 1
    then finish done found
    else record found { task = checking (attempts - 1) }

pub check : Option ℕ → Task → Controller → Controller
unfolding finish evicted
check none (checking attempts) c = finish done c
check (some hit) (checking attempts) c = evicted attempts hit c.first_seq c
check hit task c = c

pub stop : ℕ → Worker → Worker
stop run w = if w.run == run && not (is_over w.stage) then record w { stage = stopped } else w

-- cancel, up to its await: a task that is not done is cancelled, and awaited.
pub request_cancel : Controller → Controller
unfolding is_running
request_cancel c =
    if is_running c.task
    then record c { requested = true; awaiting = c.awaiting ++ c.runs ∷ [] }
    else c

-- CancelledError ends the task. Before its first turn its coroutine never runs, so the state stays.
unfoldable pub unwind : Task → Controller → Controller
unfolding finish stop is_over
unwind created c = record c { task = finished }
unwind gathering c = finish cancelled (record c { workers = map (stop c.runs) c.workers })
unwind (checking attempts) c = finish cancelled c
unwind task c = c

-- A worker of the cancelled task ends before the others.
pub stop_worker : ℕ → Option Worker → Controller → Controller
unfolding stop is_over
stop_worker k none c = c
stop_worker k (some w) c = record c { workers = set c.workers k (stop c.runs w) }

-- The rest of cancel: a state that is still running is set.
unfoldable pub conclude : State → Controller → Controller
unfolding is_running
conclude running c = record c {
  status = record c.status { state = cancelled };
  overtaken = is_running c.task;
}
conclude state c = c

-- Call k of cancel goes on once the run that it awaits is done.
pub resume_cancel : ℕ → Option ℕ → Controller → Controller
unfolding conclude is_running
resume_cancel k none c = c
resume_cancel k (some run) c =
    if run == c.runs && is_running c.task
    then c
    else conclude c.status.state (record c { awaiting = remove_at k c.awaiting })

-- A call of cancel that nothing comes between.
unfoldable pub cancel : Task → Controller → Controller
unfolding unwind conclude
cancel no_task c = c
cancel finished c = c
cancel task c = let over = unwind task c in conclude over.status.state over

-- What happens next: a call of start, the first turn of _run, a turn of a worker, the end of the
-- wait for the workers, a lookup of the eviction check, a call of cancel, the end of a worker or of
-- the task by CancelledError, and the rest of a call of cancel.
pub data Event : Type 0 where
  starts : (request : WarmupRequest) (info : Option Capacity) → Event
  enters settles cancels unwinds : Event
  works : (stored : Bool) (drawn : List ℕ) (k : ℕ) → Event
  looks_up : (hit : Option ℕ) → Event
  stops resumes_cancel : (k : ℕ) → Event

-- A call of start that raises changes nothing.
abbrev pub after : Controller → Result Controller → Controller
after c (ok next) = next
after c (err e) = c

-- Once task.cancel() was called, the next turn of the task raises CancelledError.
pub step : Event → Controller → Controller
unfolding start enter settle check work request_cancel unwind stop_worker resume_cancel
step (starts request info) c = after c (start request info c)
step enters c = if c.requested then c else enter c.task c
step settles c = if c.requested then c else settle c.task c
step cancels c = request_cancel c
step unwinds c = if c.requested then unwind c.task c else c
step (works stored drawn k) c = work stored drawn k c
step (looks_up hit) c = if c.requested then c else check hit c.task c
step (stops k) c = if c.requested then stop_worker k (get_elem? c.workers k) c else c
step (resumes_cancel k) c = resume_cancel k (get_elem? c.awaiting k) c

pub run : List Event → Controller → Controller
unfolding step
run [] c = c
run (e ∷ es) c = run es (step e c)
