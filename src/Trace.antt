-- ===== src/Trace.antt =====
-- TraceRecorder of src/kvbench/trace/recorder.py: the lines of a trace file, the counters of its
-- events, and when what is buffered reaches the disk. Clocks count whole microseconds. The body
-- of a call under the recorder's lock is one step; a run is a list of such steps, in the order in
-- which the threads take the lock. json.dumps and json.loads are parameters.
pub mod Log
pub mod Refine
pub mod Durable
pub mod Sorted
pub mod Concurrency
pub mod Peak
pub mod Moments
pub mod Counters
pub mod Fio
pub mod Load
pub mod Collect
pub mod Hooks
mod Examples
use llm_kv_passthrough.Prelude.{
  ℕ, zero, suc, ◌+◌, ◌-◌, Bool, true, false, ◌&&◌, ◌||◌, Option, none, some, List, [], ◌∷◌, ◌++◌,
  take, drop, leb, if◌then◌else◌, Text, text_eq,
}

-- The keys that the program writes to a record; a key that is missing or null is none.
pub record TraceEvent : Type 0 where
  pub ts_us : Option ℕ
  pub mono_us : Option ℕ
  pub tid : Option ℕ
  pub thread : Option Text
  pub event : Option Text
  pub op : Option Text
  pub backend : Option Text
  pub key : Option Text
  pub size : Option ℕ
  pub dur_us : Option ℕ
  pub path : Option Text
  pub hit : Option Bool
  pub use_odirect : Option Bool
  pub os_disk_bs : Option ℕ
  pub name : Option Text
  pub n : Option ℕ

-- The arguments of record; the last four are those that its callers pass as extras.
pub record Call : Type 0 where
  pub event : Text
  pub op : Text
  pub backend : Text
  pub key : Option Text
  pub size : Option ℕ
  pub dur_us : Option ℕ
  pub path : Option Text
  pub hit : Option Bool
  pub use_odirect : Option Bool
  pub os_disk_bs : Option ℕ
  pub name : Option Text
  pub n : Option ℕ

-- What a call reads of the clocks and of its thread.
pub record Clock : Type 0 where
  pub perf_us : ℕ
  pub monotonic_us : ℕ
  pub tid : ℕ
  pub thread : Text

-- json.dumps and json.loads, the latter with no value where it raises JSONDecodeError.
pub record Json : Type 0 where
  pub dumps : TraceEvent → Text
  pub loads : Text → Option TraceEvent

-- The name of a counter: event, op and backend.
abbrev pub CounterKey : Type 0
CounterKey = Text × Text × Text

unfoldable pub same_key : CounterKey → CounterKey → Bool
unfolding text_eq
same_key (a, b, c) (a', b', c') = text_eq a a' && text_eq b b' && text_eq c c'

abbrev pub Counters : Type 0
Counters = List (CounterKey × (ℕ × ℕ))

-- counters[key], a defaultdict that starts at [0, 0]
unfoldable pub counter : CounterKey → Counters → ℕ × ℕ
counter k [] = (0, 0)
counter k ((j, v) ∷ cs) = let rest = counter k cs in if same_key j k then v else rest

unfoldable pub bump : CounterKey → ℕ → Counters → Counters
bump k size [] = (k, (1, size)) ∷ []
bump k size ((j, v) ∷ cs) =
    let rest = bump k size cs in
    if same_key j k then (j, (v.0 + 1, v.1 + size)) ∷ cs else (j, v) ∷ rest

-- `size or 0`
abbrev pub or_zero : Option ℕ → ℕ
or_zero none = 0
or_zero (some n) = n

pub record Recorder : Type 0 where
  pub disk : Text
  pub buffer : Text
  pub perf0 : ℕ
  pub wall0 : ℕ
  pub counters : Counters
  pub closed : Bool
  pub unflushed : ℕ
  pub last_flush : ℕ

-- __init__: the file is truncated, and both clocks are anchored.
pub open_trace : ℕ → Clock → Recorder
open_trace wall_us clock = record {
  disk = [];
  buffer = [];
  perf0 = clock.perf_us;
  wall0 = wall_us;
  counters = [];
  closed = false;
  unflushed = 0;
  last_flush = clock.monotonic_us;
}

abbrev pub flush_every_records : ℕ
flush_every_records = 256

abbrev pub flush_every_us : ℕ
flush_every_us = 1000000

-- The dict that record builds.
pub event_of : ℕ → ℕ → Clock → Call → TraceEvent
event_of perf0 wall0 clock call = record {
  ts_us = some (wall0 + (clock.perf_us - perf0));
  mono_us = some (clock.perf_us - perf0);
  tid = some clock.tid;
  thread = some clock.thread;
  event = some call.event;
  op = some call.op;
  backend = some call.backend;
  key = call.key;
  size = call.size;
  dur_us = call.dur_us;
  path = call.path;
  hit = call.hit;
  use_odirect = call.use_odirect;
  os_disk_bs = call.os_disk_bs;
  name = call.name;
  n = call.n;
}

abbrev pub line_of : Json → TraceEvent → Text
line_of json e = json.dumps e ++ 10 ∷ []

-- The file's own flush: everything buffered reaches the disk.
abbrev pub flushed : Recorder → Recorder
flushed r = record r { disk = r.disk ++ r.buffer; buffer = [] }

unfoldable pub due : Recorder → ℕ → Bool
due r now = leb flush_every_records r.unflushed || leb flush_every_us (now - r.last_flush)

-- The end of record: a flush when one is due.
unfoldable pub flush_due : ℕ → Recorder → Recorder
unfolding due
flush_due now r = if due r now then record (flushed r) { unflushed = 0; last_flush = now } else r

unfoldable pub write_event : Json → TraceEvent → CounterKey → ℕ → Recorder → Recorder
unfolding bump
write_event json e k size r = record r {
  buffer = r.buffer ++ line_of json e;
  counters = bump k size r.counters;
  unflushed = r.unflushed + 1;
}

-- The steps: the three methods, and the file object, which may write a part of its buffer out at
-- any time.
pub data Act : Type 0 where
  record_call : Clock → Call → Act
  flush close : Act
  drain : ℕ → Act

unfoldable pub step : Json → Act → Recorder → Recorder
unfolding flush_due write_event event_of
step json (record_call clock call) r =
    if r.closed
    then r
    else flush_due clock.monotonic_us (
        write_event json (event_of r.perf0 r.wall0 clock call) (call.event, call.op, call.backend)
          (or_zero call.size) r)
step json flush r = if r.closed then r else flushed r
step json close r = if r.closed then r else record (flushed r) { closed = true }
step json (drain k) r = record r { disk = r.disk ++ take k r.buffer; buffer = drop k r.buffer }

unfoldable pub run : Json → List Act → Recorder → Recorder
unfolding step
run json [] r = r
run json (a ∷ acts) r = run json acts (step json a r)
