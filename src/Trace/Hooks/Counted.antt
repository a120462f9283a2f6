-- ===== src/Trace/Hooks/Counted.antt =====
-- The counters of a recorder (src/kvbench/trace/recorder.py) and the calls of record.
use llm_kv_passthrough.Prelude.{
  ℕ, ◌≡◌, refl, ap, ◌∙◌, Bool, true, false, List, [], ◌∷◌, ◌++◌, if◌then◌else◌, arith,
}
use llm_kv_passthrough.Trace.{
  TraceEvent, Call, Clock, Json, CounterKey, same_key, counter, or_zero, open_trace, Act,
  record_call, flush, close, drain, run, event_of,
}
use llm_kv_passthrough.Trace.Log.{
  EventLog, log_step, log_run, totals, plus, totals-snoc, event_of-matches,
}
use llm_kv_passthrough.Trace.Refine.{run-Refines}
use llm_kv_passthrough.Trace.Hooks.Operations.{add}

-- The calls of record before the recorder is closed.
unfoldable pub accepted_calls : List Act → List Call
accepted_calls [] = []
accepted_calls (record_call clock call ∷ acts) = call ∷ accepted_calls acts
accepted_calls (flush ∷ acts) = accepted_calls acts
accepted_calls (close ∷ acts) = []
accepted_calls (drain n ∷ acts) = accepted_calls acts

unfoldable pub count_calls : CounterKey → List Call → ℕ × ℕ
unfolding same_key
count_calls k [] = (0, 0)
count_calls k (c ∷ cs) =
    let rest = count_calls k cs in
    if same_key (c.event, c.op, c.backend) k then plus (or_zero c.size) rest else rest

add-plus :
    (b : Bool) (n : ℕ) (s t : ℕ × ℕ)
    → add (if b then plus n s else s) t ≡ add s (if b then plus n t else t)
add-plus b n s t = ground arith

zero-add : (s : ℕ × ℕ) → add (0, 0) s ≡ s
zero-add s = ground arith

abbrev no_counts : ℕ × ℕ
no_counts = (0, 0)

zero-if : (b : Bool) → no_counts ≡ (if b then no_counts else no_counts)
zero-if true = refl
zero-if false = refl

pub count_calls-append :
    (k : CounterKey) (xs ys : List Call)
    → count_calls k (xs ++ ys) ≡ add (count_calls k xs) (count_calls k ys)
unfolding count_calls
count_calls-append k [] ys = ground arith
count_calls-append k (c ∷ xs) ys = rw (count_calls-append k xs ys) (ground arith)

abbrev log_of : ℕ → ℕ → List TraceEvent → Bool → EventLog
log_of perf wall events ended = record {
  perf0 = perf;
  wall0 = wall;
  events = events;
  ended = ended;
}

-- The log gains the calls that are accepted.
log_run-totals :
    (k : CounterKey) (acts : List Act) (perf wall : ℕ) (es : List TraceEvent) (ended : Bool)
    → totals k (log_run acts (log_of perf wall es ended)).events
      ≡ add (totals k es) (if ended then (0, 0) else count_calls k (accepted_calls acts))
unfolding log_run log_step accepted_calls count_calls
log_run-totals k [] p w es ended = ground arith
log_run-totals k (record_call clock call ∷ acts) p w es true = log_run-totals k acts p w es true
log_run-totals k (record_call clock call ∷ acts) p w es false =
    let e = event_of p w clock call in
    log_run-totals k acts p w (es ++ e ∷ []) false
    ∙ ap (λ t. add t (count_calls k (accepted_calls acts))) (totals-snoc k es e)
    ∙ ap
        (λ b.
          add (if b then plus (or_zero e.size) (totals k es) else totals k es)
            (count_calls k (accepted_calls acts)))
        (event_of-matches p w clock call k)
    ∙ add-plus (same_key (call.event, call.op, call.backend) k) (or_zero call.size) (totals k es)
        (count_calls k (accepted_calls acts))
log_run-totals k (flush ∷ acts) p w es ended = log_run-totals k acts p w es ended
log_run-totals k (close ∷ acts) p w es ended =
    log_run-totals k acts p w es true ∙ ap (λ t. add (totals k es) t) (zero-if ended)
log_run-totals k (drain n ∷ acts) p w es ended = log_run-totals k acts p w es ended

-- Each counter has the calls of its name.
pub counter-accepted :
    (json : Json) (acts : List Act) (wall_us : ℕ) (clock : Clock) (k : CounterKey)
    → counter k (run json acts (open_trace wall_us clock)).counters
      ≡ count_calls k (accepted_calls acts)
unfolding totals
counter-accepted json acts wall_us clock k =
    (run-Refines json acts wall_us clock).counted k
    ∙ log_run-totals k acts clock.perf_us wall_us [] false
    ∙ zero-add (count_calls k (accepted_calls acts))
