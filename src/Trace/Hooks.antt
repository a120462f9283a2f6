-- ===== src/Trace/Hooks.antt =====
-- install_lmcache_trace of src/kvbench/trace/recorder.py: the hooks around the calls of an LMCache
-- storage backend. The backend is a record of its calls, each of which answers or raises; a key is
-- its str(), and the size of a memory object (_obj_size) is an argument. A hook hands record its
-- arguments: the calls of record are listed in their order, with the time that was measured.
pub mod Operations
pub mod Counted
pub mod Transparent
mod Examples
use llm_kv_passthrough.Prelude.{
  ℕ, ◌+◌, Bool, true, false, Option, none, some, List, [], ◌∷◌, ◌++◌, ltb, length, Text, text_eq,
  codes, if◌then◌else◌,
}
use llm_kv_passthrough.Prelude.Result.{Result, ok, err, runtime_error}
use llm_kv_passthrough.Trace.{Call, or_zero}

pub record StorageBackend (B O : Type 0) : Type 0 where
  pub batched_submit_put_task : List Text → List O → B → Result (Unit {0}) × B
  pub get_blocking : Text → B → Result (Option O) × B
  pub contains : Text → B → Result Bool × B
  pub remove : Text → B → Result Bool × B
  pub batched_contains : List Text → B → Result ℕ × B
  pub batched_get_non_blocking : List Text → B → Result (List (Option O)) × B
  pub write_file : List ℕ → Text → B → Result (Unit {0}) × B
  pub read_file : Text → List ℕ → Text → B → Result (Unit {0}) × B

-- What the backend's attributes say of it.
pub record BackendInfo : Type 0 where
  pub name : Text
  pub cls_name : Text
  pub has_files : Bool
  pub use_odirect : Bool
  pub os_disk_bs : Option ℕ

-- The arguments of record that were not given.
abbrev pub plain_call : Text → Text → Text → Call
plain_call event op backend = record {
  event = event;
  op = op;
  backend = backend;
  key = none;
  size = none;
  dur_us = none;
  path = none;
  hit = none;
  use_odirect = none;
  os_disk_bs = none;
  name = none;
  n = none;
}

-- The meta event of a backend with files.
abbrev meta_calls : BackendInfo → List Call
meta_calls b =
    if b.has_files
    then record (plain_call (codes "meta") (codes "backend_info") b.cls_name) {
      use_odirect = some b.use_odirect;
      os_disk_bs = b.os_disk_bs;
      name = some b.name;
    }
      ∷ []
    else []

-- The names that were wrapped and the calls of record that were made meanwhile.
pub wrap_all : List BackendInfo → List Text × List Call
unfolding text_eq
wrap_all [] = ([], [])
wrap_all (b ∷ backends) =
    let rest = wrap_all backends in
    if text_eq b.cls_name (codes "LocalCPUBackend")
    then rest
    else (b.name ∷ rest.0, meta_calls b ++ rest.1)

unfoldable pub install_lmcache_trace : List BackendInfo → Result (List Text × List Call)
unfolding wrap_all
install_lmcache_trace [] = err runtime_error
install_lmcache_trace (b ∷ backends) = ok (wrap_all (b ∷ backends))

-- A record that is made once the call has returned.
abbrev pub record_after :
    {A B : Type 0} → Result A × B → List Call → (A → Call) → Result A × (B × List Call)
record_after (ok a, b) calls made = (ok a, (b, calls ++ made a ∷ []))
record_after (err raised, b) calls made = (err raised, (b, calls))

-- bool(result) of a count
abbrev truth : ℕ → Bool
truth n = ltb 0 n

abbrev is_found : {O : Type 0} → Option O → Bool
is_found none = false
is_found (some o) = true

abbrev pub logical : Text → Text → Call
logical cls_name op = plain_call (codes "logical") op cls_name

module _ {O : Type 0} (obj_size : O → Option ℕ) where
  abbrev pub found_size : Option O → Option ℕ
  found_size none = some 0
  found_size (some o) = obj_size o

  -- sum(filter(None, (_obj_size(o) for o in result)))
  abbrev pub sum_sizes : List (Option O) → ℕ
  sum_sizes [] = 0
  sum_sizes (none ∷ os) = sum_sizes os
  sum_sizes (some o ∷ os) = or_zero (obj_size o) + sum_sizes os

  -- One event for each key with its object, before the call.
  abbrev pub put_calls : Text → List Text → List O → List Call
  put_calls cls_name [] objs = []
  put_calls cls_name (key ∷ keys) [] = []
  put_calls cls_name (key ∷ keys) (o ∷ objs) =
      record (logical cls_name (codes "put")) { key = some key; size = obj_size o }
      ∷ put_calls cls_name keys objs

module _ {B O : Type 0} (backend : StorageBackend B O) (obj_size : O → Option ℕ)
    (cls_name : Text) where
  unfoldable pub traced_batched_submit_put_task :
      List Text → List O → B × List Call → Result (Unit {0}) × (B × List Call)
  traced_batched_submit_put_task keys memory_objs (b, calls) =
      let r = backend.batched_submit_put_task keys memory_objs b in
      (r.0, (r.1, calls ++ put_calls obj_size cls_name keys memory_objs))

  unfoldable pub traced_get_blocking :
      ℕ → Text → B × List Call → Result (Option O) × (B × List Call)
  traced_get_blocking dur_us key (b, calls) =
      record_after (backend.get_blocking key b) calls (λ result.
        record (logical cls_name (codes "get")) {
          key = some key;
          size = found_size obj_size result;
          dur_us = some dur_us;
          hit = some (is_found result);
        })

  unfoldable pub traced_contains : Text → B × List Call → Result Bool × (B × List Call)
  traced_contains key (b, calls) =
      record_after (backend.contains key b) calls (λ result.
        record (logical cls_name (codes "contains")) { key = some key; hit = some result })

  unfoldable pub traced_remove : ℕ → Text → B × List Call → Result Bool × (B × List Call)
  traced_remove dur_us key (b, calls) = record_after (backend.remove key b) calls (λ result.
      record (logical cls_name (codes "remove")) {
        key = some key;
        dur_us = some dur_us;
        hit = some result;
      })

  unfoldable pub traced_batched_contains : List Text → B × List Call → Result ℕ × (B × List Call)
  traced_batched_contains keys (b, calls) =
      record_after (backend.batched_contains keys b) calls (λ result.
        record (logical cls_name (codes "batched_contains")) {
          hit = some (truth result);
          n = some (length keys);
        })

  unfoldable pub traced_batched_get_non_blocking :
      ℕ → List Text → B × List Call → Result (List (Option O)) × (B × List Call)
  traced_batched_get_non_blocking dur_us keys (b, calls) =
      record_after (backend.batched_get_non_blocking keys b) calls (λ result.
        record (logical cls_name (codes "batched_get")) {
          size = some (sum_sizes obj_size result);
          dur_us = some dur_us;
        })

  unfoldable pub traced_write_file :
      ℕ → List ℕ → Text → B × List Call → Result (Unit {0}) × (B × List Call)
  traced_write_file dur_us buffer path (b, calls) =
      record_after (backend.write_file buffer path b) calls (λ result.
        record (plain_call (codes "io") (codes "write") cls_name) {
          size = some (length buffer);
          dur_us = some dur_us;
          path = some path;
        })

  unfoldable pub traced_read_file :
      ℕ → Text → List ℕ → Text → B × List Call → Result (Unit {0}) × (B × List Call)
  traced_read_file dur_us key buffer path (b, calls) =
      record_after (backend.read_file key buffer path b) calls (λ result.
        record (plain_call (codes "io") (codes "read") cls_name) {
          size = some (length buffer);
          dur_us = some dur_us;
          path = some path;
        })
