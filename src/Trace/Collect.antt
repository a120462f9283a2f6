-- ===== src/Trace/Collect.antt =====
-- _collect and summarize of src/kvbench/trace/analyze.py, and _fmt_bytes and the job numbers of
-- src/kvbench/trace/fio.py. Times are whole microseconds and may be negative; the medians and
-- the rates, which are floats, are left out.
use llm_kv_passthrough.Prelude.{
  ℕ, zero, suc, ◌+◌, ◌-◌, Bool, false, ◌&&◌, ◌||◌, Option, none, some, List, [], ◌∷◌, ◌++◌, length,
  ◌==◌, ltb, if◌then◌else◌, Text, codes, contains,
}
use llm_kv_passthrough.Prelude.Int.{ℤ, pos}
use llm_kv_passthrough.Trace.{TraceEvent, CounterKey, or_zero}
use llm_kv_passthrough.Trace.Log.{is_text, matches}
use llm_kv_passthrough.Trace.Concurrency.{max_concurrency}
use llm_kv_passthrough.Trace.Moments.{minus, earlier, moments}

pub record OpStats : Type 0 where
  pub count : ℕ
  pub total_bytes : ℕ
  pub sizes : List (ℕ × ℕ)
  pub durations_us : List ℕ
  pub threads : List ℕ
  pub max_concurrency : ℕ
  pub first_mono_us : Option ℤ
  pub last_mono_us : Option ℤ

abbrev pub op_stats : OpStats
op_stats = record {
  count = 0;
  total_bytes = 0;
  sizes = [];
  durations_us = [];
  threads = [];
  max_concurrency = 0;
  first_mono_us = none;
  last_mono_us = none;
}

-- sizes[size] += 1, a Counter that keeps the order of first insertion
unfoldable pub count_size : ℕ → List (ℕ × ℕ) → List (ℕ × ℕ)
count_size size [] = (size, 1) ∷ []
count_size size ((s, n) ∷ rest) =
    let more = count_size size rest in if s == size then (s, n + 1) ∷ rest else (s, n) ∷ more

-- most_common(1)[0][0]: the first of the largest counts.
unfoldable pub most_common : ℕ → ℕ → List (ℕ × ℕ) → ℕ
most_common size n [] = size
most_common size n ((s, m) ∷ rest) =
    let change = most_common s m rest in
    let keep = most_common size n rest in if ltb n m then change else keep

unfoldable pub dominant_of : List (ℕ × ℕ) → Option ℕ
unfolding most_common
dominant_of [] = none
dominant_of ((s, n) ∷ rest) = some (most_common s n rest)

unfoldable pub dominant_size : OpStats → Option ℕ
unfolding dominant_of
dominant_size stats = dominant_of stats.sizes

unfoldable pub add_thread : Option ℕ → List ℕ → List ℕ
add_thread none threads = threads
add_thread (some tid) [] = tid ∷ []
add_thread (some tid) (t ∷ ts) =
    let rest = add_thread (some tid) ts in if t == tid then t ∷ ts else t ∷ rest

unfoldable pub add_duration : Option ℕ → List ℕ → List ℕ
add_duration none durations = durations
add_duration (some dur) durations = durations ++ dur ∷ []

unfoldable pub add_size : ℕ → List (ℕ × ℕ) → List (ℕ × ℕ)
unfolding count_size
add_size zero sizes = sizes
add_size (suc n) sizes = count_size (suc n) sizes

unfoldable pub first_moment : ℤ → Option ℤ → Option ℤ
unfolding earlier
first_moment start none = some start
first_moment start (some first) = some (if earlier start first then start else first)

unfoldable pub last_moment : ℤ → Option ℤ → Option ℤ
unfolding earlier
last_moment end none = some end
last_moment end (some last) = some (if earlier last end then end else last)

abbrev pub Intervals : Type 0
Intervals = List (ℤ × ℤ)

-- The end of the loop's body: the interval of an event with a time.
unfoldable pub add_interval : Option ℕ → ℕ → OpStats × Intervals → OpStats × Intervals
unfolding first_moment last_moment minus
add_interval none dur (stats, intervals) = (stats, intervals)
add_interval (some mono) dur (stats, intervals) = (
  record stats {
    first_mono_us = first_moment (minus mono dur) stats.first_mono_us;
    last_mono_us = last_moment (pos mono) stats.last_mono_us;
  },
  intervals ++ (minus mono dur, pos mono) ∷ [],
)

unfoldable pub observe : TraceEvent → OpStats × Intervals → OpStats × Intervals
unfolding add_size add_duration add_thread add_interval
observe e (stats, intervals) = add_interval e.mono_us (or_zero e.dur_us) (
  record stats {
    count = stats.count + 1;
    total_bytes = stats.total_bytes + or_zero e.size;
    sizes = add_size (or_zero e.size) stats.sizes;
    durations_us = add_duration e.dur_us stats.durations_us;
    threads = add_thread e.tid stats.threads;
  },
  intervals,
)

unfoldable pub collect_from :
    CounterKey → List TraceEvent → OpStats × Intervals → OpStats × Intervals
unfolding matches observe
collect_from k [] s = s
collect_from k (e ∷ es) s = collect_from k es (if matches k e then observe e s else s)

unfoldable pub collect : List TraceEvent → CounterKey → OpStats
unfolding collect_from
collect es k =
    let s = collect_from k es (op_stats, []) in
    record s.0 { max_concurrency = max_concurrency moments s.1 }

pub record TraceSummary : Type 0 where
  pub io_write : OpStats
  pub io_read : OpStats
  pub logical_put : OpStats
  pub logical_get : OpStats
  pub logical_remove : OpStats
  pub unique_write_paths : ℕ
  pub unique_read_paths : ℕ
  pub steady_state_files : ℕ
  pub use_odirect : Bool
  pub events_total : ℕ

-- The paths of the events of one name, each once; an empty path is none.
unfoldable pub add_path : Option Text → List Text → List Text
add_path none paths = paths
add_path (some []) paths = paths
add_path (some (c ∷ cs)) paths = if contains paths (c ∷ cs) then paths else (c ∷ cs) ∷ paths

unfoldable pub paths_of : CounterKey → List TraceEvent → List Text
unfolding matches add_path
paths_of k [] = []
paths_of k (e ∷ es) = let rest = paths_of k es in if matches k e then add_path e.path rest else rest

abbrev pub is_set : Option Bool → Bool
is_set none = false
is_set (some b) = b

unfoldable pub any_odirect : Text → List TraceEvent → Bool
any_odirect backend [] = false
any_odirect backend (e ∷ es) =
    is_text e.event (codes "meta") && is_text e.backend backend && is_set e.use_odirect
    || any_odirect backend es

-- max(0, io_write.count - logical_remove.count) is the difference that stops at 0.
unfoldable pub summarize : List TraceEvent → Text → TraceSummary
unfolding collect paths_of any_odirect
summarize events backend =
    let io_write = collect events (codes "io", codes "write", backend) in
    let logical_remove = collect events (codes "logical", codes "remove", backend) in
    record {
      io_write = io_write;
      io_read = collect events (codes "io", codes "read", backend);
      logical_put = collect events (codes "logical", codes "put", backend);
      logical_get = collect events (codes "logical", codes "get", backend);
      logical_remove = logical_remove;
      unique_write_paths = length (paths_of (codes "io", codes "write", backend) events);
      unique_read_paths = length (paths_of (codes "io", codes "read", backend) events);
      steady_state_files = io_write.count - logical_remove.count;
      use_odirect = any_odirect backend events;
      events_total = length events;
    }
