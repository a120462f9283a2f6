-- ===== src/Trace/Examples.antt =====
-- A trace of two writes and a removal, closed while it is used, and the theorems about it.
use llm_kv_passthrough.Prelude.{
  ℕ, ◌+◌, ◌*◌, ◌≤◌, ◌<◌, ◌≡◌, ◌⊎◌, refl, max, true, Option, none, some, List, [], ◌∷◌, ◌==◌,
  if◌then◌else◌, All, Text, text_eq, codes, arith, length, ◌++◌,
}
use llm_kv_passthrough.Prelude.Int.{ℤ}
use llm_kv_passthrough.Prelude.Result.{ok, err, value_error}
use llm_kv_passthrough.Trace.{
  TraceEvent, Call, Clock, Json, Act, record_call, flush, close, drain, event_of, open_trace, run,
  or_zero, counter, same_key, CounterKey,
}
use llm_kv_passthrough.Trace.Log.{Refines, empty_log, log_run, totals, encode}
use llm_kv_passthrough.Trace.Refine.{run-Refines}
use llm_kv_passthrough.Trace.Durable.{disk-run}
use llm_kv_passthrough.Trace.Load.{ReadsBack, load_events, load_events-run}
use llm_kv_passthrough.Trace.Moments.{moments}
use llm_kv_passthrough.Trace.Concurrency.{running, max_concurrency}
use llm_kv_passthrough.Trace.Collect.{op_stats, collect_from, collect, summarize}
use llm_kv_passthrough.Trace.Counters.{collect-counter, collect-concurrency}
use llm_kv_passthrough.Trace.Fio.{FioJob, writes, generate_fio_job, generate_fio_job-cases}

abbrev disk_backend : Text
disk_backend = codes "LocalDiskBackend"

abbrev call_of : Text → Text → Option ℕ → Call
call_of event op size = record {
  event = event;
  op = op;
  backend = disk_backend;
  key = none;
  size = size;
  dur_us = some 5;
  path = none;
  hit = none;
  use_odirect = none;
  os_disk_bs = none;
  name = none;
  n = none;
}

abbrev at_time : ℕ → Clock
at_time now = record { perf_us = now; monotonic_us = now; tid = 1; thread = codes "main" }

abbrev write_call : Call
write_call = call_of (codes "io") (codes "write") (some 8)

abbrev remove_call : Call
remove_call = call_of (codes "logical") (codes "remove") none

abbrev acts : List Act
acts =
    record_call (at_time 10) write_call
    ∷ drain 1
    ∷ record_call (at_time 12) write_call
    ∷ flush
    ∷ record_call (at_time 20) remove_call
    ∷ close
    ∷ record_call (at_time 30) write_call
    ∷ []

abbrev at_start : Clock
at_start = at_time 0

abbrev events : List TraceEvent
events =
    event_of 0 100 (at_time 10) write_call
    ∷ event_of 0 100 (at_time 12) write_call
    ∷ event_of 0 100 (at_time 20) remove_call
    ∷ []

logged :
    log_run acts (empty_log 100 at_start)
    ≡ record { perf0 = 0; wall0 = 100; events = events; ended = true }
unfolding log_run
logged = refl

-- A notation that writes the time of an event, for the three events above.
abbrev nth_event : ℕ → Option TraceEvent
nth_event t =
    if t == 10
    then some (event_of 0 100 (at_time 10) write_call)
    else if t == 12
    then some (event_of 0 100 (at_time 12) write_call)
    else some (event_of 0 100 (at_time 20) remove_call)

abbrev short_loads : Text → Option TraceEvent
short_loads (a ∷ t ∷ rest) = nth_event (if t == 110 then 10 else if t == 112 then 12 else 20)
short_loads other = none

abbrev short : Json
short = record { dumps = λ e. b'{' ∷ (100 + or_zero e.mono_us) ∷ b'}' ∷ []; loads = short_loads }

reads_back : All (ReadsBack short) events
unfolding event_of
reads_back = (
  record {
    body = 110 ∷ [];
    object = refl;
    one_line = ((omega arith, omega arith), tt);
    decodes = refl;
  },
  (
    record {
      body = 112 ∷ [];
      object = refl;
      one_line = ((omega arith, omega arith), tt);
      decodes = refl;
    },
    (
      record {
        body = 120 ∷ [];
        object = refl;
        one_line = ((omega arith, omega arith), tt);
        decodes = refl;
      },
      tt,
    ),
  ),
)

run-Refines_example :
    Refines short (run short acts (open_trace 100 at_start)) (log_run acts (empty_log 100 at_start))
run-Refines_example = run-Refines short acts 100 at_start

load_events-run_example :
    load_events short (run short acts (open_trace 100 at_start)).disk
    ≡ (log_run acts (empty_log 100 at_start)).events
unfolding log_run
load_events-run_example = load_events-run short acts 100 at_start refl reads_back

abbrev two_writes : CounterKey
two_writes = (codes "io", codes "write", disk_backend)

collect-counter_example :
    ((collect (load_events short (run short acts (open_trace 100 at_start)).disk) two_writes).count
      ≡ (counter two_writes (run short acts (open_trace 100 at_start)).counters).0)
    × ((collect
          (load_events short (run short acts (open_trace 100 at_start)).disk)
          two_writes).total_bytes
        ≡ (counter two_writes (run short acts (open_trace 100 at_start)).counters).1)
unfolding log_run
collect-counter_example = collect-counter short acts 100 at_start two_writes refl reads_back

counted_twice : counter two_writes (run short acts (open_trace 100 at_start)).counters ≡ (2, 16)
unfolding counter run open_trace same_key
counted_twice = refl

-- The two writes overlap.
overlapping : (collect events two_writes).max_concurrency ≡ 2
unfolding collect event_of max_concurrency text_eq
overlapping = refl

collect-concurrency_example :
    ((t : ℤ)
      → running moments t (collect_from two_writes events (op_stats, [])).1
        ≤ (collect events two_writes).max_concurrency)
    × (((collect events two_writes).max_concurrency ≡ 0)
        ⊎ ((t : ℤ) × (running moments t (collect_from two_writes events (op_stats, [])).1
              ≡ (collect events two_writes).max_concurrency)))
collect-concurrency_example = collect-concurrency events two_writes

generate_fio_job-cases_example :
    (((totals (writes disk_backend) events).1 ≡ 0)
      × (generate_fio_job (summarize events disk_backend) ≡ err value_error))
    ⊎ ((job : FioJob) × (0 < (totals (writes disk_backend) events).1)
        × (generate_fio_job (summarize events disk_backend) ≡ ok job)
        × (0 < job.chunk_bytes)
        × (0 < job.write_jobs)
        × (0 < job.files_per_write_job)
        × (job.write_jobs * job.files_per_write_job
            ≤ max (max (summarize events disk_backend).steady_state_files job.write_jobs) 16))
generate_fio_job-cases_example = generate_fio_job-cases events disk_backend

disk-run_example :
    (kept : List TraceEvent) × (recent : List TraceEvent) × (part : Text) × (rest : Text)
    × ((log_run acts (empty_log 100 at_start)).events ≡ kept ++ recent)
    × (length recent < 256)
    × ((run short acts (open_trace 100 at_start)).disk ≡ encode short kept ++ part)
    × (part ++ rest ≡ encode short recent)
disk-run_example = disk-run short acts 100 at_start
