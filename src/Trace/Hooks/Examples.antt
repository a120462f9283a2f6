-- ===== src/Trace/Hooks/Examples.antt =====
-- A storage backend that keeps its files in memory, with the hooks, and one that always raises.
use llm_kv_passthrough.Prelude.{
  ℕ, ◌≡◌, ◌+◌, refl, Bool, true, false, Option, none, some, List, [], ◌∷◌, length, Text, text_eq,
  codes, if◌then◌else◌, All, arith,
}
use llm_kv_passthrough.Prelude.Result.{Result, ok, err, runtime_error}
use llm_kv_passthrough.Trace.{
  TraceEvent, Call, Clock, Json, CounterKey, same_key, or_zero, event_of, open_trace, Act,
  record_call, flush, close, drain, run,
}
use llm_kv_passthrough.Trace.Log.{log_run, empty_log}
use llm_kv_passthrough.Trace.Load.{ReadsBack, load_events}
use llm_kv_passthrough.Trace.Collect.{collect}
use llm_kv_passthrough.Trace.Hooks.{
  StorageBackend, BackendInfo, install_lmcache_trace, plain_call, wrap_all,
}
use llm_kv_passthrough.Trace.Hooks.Operations.{
  Operation, put, write, read, Answer, invoke_all, invoke_all_traced, tally, announced,
}
use llm_kv_passthrough.Trace.Hooks.Counted.{accepted_calls}
use llm_kv_passthrough.Trace.Hooks.Transparent.{invoke_all_traced-invoke_all, collect-tally}

-- The objects are lists of bytes; a read of a file that is missing raises.
abbrev Files : Type 0
Files = List (Text × List ℕ)

lookup : Text → Files → Option (List ℕ)
unfolding text_eq
lookup path [] = none
lookup path ((name, bytes) ∷ files) =
    let rest = lookup path files in if text_eq name path then some bytes else rest

abbrev store_all : List Text → List (List ℕ) → Files → Files
store_all [] objs files = files
store_all (key ∷ keys) [] files = files
store_all (key ∷ keys) (o ∷ objs) files = (key, o) ∷ store_all keys objs files

abbrev is_some : Option (List ℕ) → Bool
is_some none = false
is_some (some bytes) = true

abbrev read_result : Option (List ℕ) → Result (Unit {0})
read_result none = err runtime_error
read_result (some bytes) = ok tt

abbrev in_memory : StorageBackend Files (List ℕ)
in_memory = record {
  batched_submit_put_task = λ keys objs files. (ok tt, store_all keys objs files);
  get_blocking = λ key files. (ok (lookup key files), files);
  contains = λ key files. (ok (is_some (lookup key files)), files);
  remove = λ key files. (ok (is_some (lookup key files)), files);
  batched_contains = λ keys files. (ok 0, files);
  batched_get_non_blocking = λ keys files. (ok [], files);
  write_file = λ buffer path files. (ok tt, (path, buffer) ∷ files);
  read_file = λ key buffer path files. (read_result (lookup path files), files);
}

abbrev size_of : List ℕ → Option ℕ
size_of bytes = some (length bytes)

abbrev disk_backend : Text
disk_backend = codes "LocalDiskBackend"

-- A put of two keys with one object, a write, a read that raises, and one that does not.
abbrev ops : List (Operation (List ℕ))
ops =
    put (codes "a" ∷ codes "b" ∷ []) ((1 ∷ 2 ∷ 3 ∷ []) ∷ [])
    ∷ write 5 (7 ∷ 8 ∷ []) (codes "f")
    ∷ read 6 (codes "a") (0 ∷ 0 ∷ []) (codes "g")
    ∷ read 7 (codes "a") (0 ∷ 0 ∷ []) (codes "f")
    ∷ []

answered :
    (invoke_all in_memory ops []).0
    ≡ ok Answer.nothing ∷ ok Answer.nothing ∷ err runtime_error ∷ ok Answer.nothing ∷ []
unfolding invoke_all lookup text_eq
answered = refl

invoke_all_traced-invoke_all_example :
    ((invoke_all_traced in_memory size_of disk_backend ops ([], [])).0
      ≡ (invoke_all in_memory ops []).0)
    × ((invoke_all_traced in_memory size_of disk_backend ops ([], [])).1.0
        ≡ (invoke_all in_memory ops []).1)
invoke_all_traced-invoke_all_example =
    invoke_all_traced-invoke_all in_memory size_of disk_backend ops [] []

-- The tier in memory is left as it is, and the first event tells of the disk.
abbrev cpu : BackendInfo
cpu = record {
  name = codes "cpu";
  cls_name = codes "LocalCPUBackend";
  has_files = false;
  use_odirect = false;
  os_disk_bs = none;
}

abbrev disk : BackendInfo
disk = record {
  name = codes "disk";
  cls_name = disk_backend;
  has_files = true;
  use_odirect = true;
  os_disk_bs = some 4096;
}

abbrev meta_call : Call
meta_call = record (plain_call (codes "meta") (codes "backend_info") disk_backend) {
  use_odirect = some true;
  os_disk_bs = some 4096;
  name = some (codes "disk");
}

installed : install_lmcache_trace (cpu ∷ disk ∷ []) ≡ ok (codes "disk" ∷ [], meta_call ∷ [])
unfolding install_lmcache_trace wrap_all text_eq
installed = refl

without_backends : install_lmcache_trace [] ≡ err runtime_error
unfolding install_lmcache_trace
without_backends = refl

abbrev put_call : Call
put_call = record (plain_call (codes "logical") (codes "put") disk_backend) {
  key = some (codes "a");
  size = some 3;
}

abbrev write_call : Call
write_call = record (plain_call (codes "io") (codes "write") disk_backend) {
  size = some 2;
  dur_us = some 5;
  path = some (codes "f");
}

abbrev read_call : Call
read_call = record (plain_call (codes "io") (codes "read") disk_backend) {
  size = some 2;
  dur_us = some 7;
  path = some (codes "f");
}

abbrev at_time : ℕ → Clock
at_time now = record { perf_us = now; monotonic_us = now; tid = 1; thread = codes "main" }

abbrev acts : List Act
acts =
    record_call (at_time 5) meta_call
    ∷ record_call (at_time 10) put_call
    ∷ drain 1
    ∷ record_call (at_time 12) write_call
    ∷ flush
    ∷ record_call (at_time 20) read_call
    ∷ close
    ∷ []

recorded :
    accepted_calls acts
    ≡ (invoke_all_traced in_memory size_of disk_backend ops ([], meta_call ∷ [])).1.1
unfolding invoke_all_traced accepted_calls lookup text_eq
recorded = refl

abbrev reads : CounterKey
reads = (codes "io", codes "read", disk_backend)

-- A notation that writes the time of an event.
abbrev loads_of : Text → Option TraceEvent
loads_of (a ∷ t ∷ rest) =
    if text_eq (t ∷ []) (105 ∷ [])
    then some (event_of 0 100 (at_time 5) meta_call)
    else if text_eq (t ∷ []) (110 ∷ [])
    then some (event_of 0 100 (at_time 10) put_call)
    else if text_eq (t ∷ []) (112 ∷ [])
    then some (event_of 0 100 (at_time 12) write_call)
    else some (event_of 0 100 (at_time 20) read_call)
loads_of other = none

abbrev short : Json
short = record { dumps = λ e. b'{' ∷ (100 + or_zero e.mono_us) ∷ b'}' ∷ []; loads = loads_of }

one_read : tally size_of disk_backend reads ops (invoke_all in_memory ops []).0 ≡ (1, 2)
unfolding tally invoke_all lookup text_eq same_key
one_read = refl

reads_back : All (ReadsBack short) (log_run acts (empty_log 100 (at_time 0))).events
unfolding event_of log_run text_eq
reads_back = (
  record {
    body = 105 ∷ [];
    object = refl;
    one_line = ((omega arith, omega arith), tt);
    decodes = refl;
  },
  (
    record {
      body = 110 ∷ [];
      object = refl;
      one_line = ((omega arith, omega arith), tt);
      decodes = refl;
    },
    (
      record {
        body = 112 ∷ [];
        object = refl;
        one_line = ((omega arith, omega arith), tt);
        decodes = refl;
      },
      (
        record {
          body = 120 ∷ [];
          object = refl;
          one_line = ((omega arith, omega arith), tt);
          decodes = refl;
        },
        tt,
      ),
    ),
  ),
)

abbrev backend_info : CounterKey
backend_info = (codes "meta", codes "backend_info", disk_backend)

once : announced backend_info (cpu ∷ disk ∷ []) ≡ 1
unfolding announced same_key text_eq
once = refl

collect-tally_example :
    ((collect
        (load_events short (run short acts (open_trace 100 (at_time 0))).disk)
        backend_info).count
      ≡ announced backend_info (cpu ∷ disk ∷ [])
        + (tally size_of disk_backend backend_info ops (invoke_all in_memory ops []).0).0)
    × ((collect
          (load_events short (run short acts (open_trace 100 (at_time 0))).disk)
          backend_info).total_bytes
        ≡ (tally size_of disk_backend backend_info ops (invoke_all in_memory ops []).0).1)
unfolding log_run
collect-tally_example =
    collect-tally short in_memory size_of disk_backend (cpu ∷ disk ∷ []) (codes "disk" ∷ [])
      (meta_call ∷ []) ops [] acts 100 (at_time 0) backend_info installed recorded refl reads_back
