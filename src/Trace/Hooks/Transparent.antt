-- ===== src/Trace/Hooks/Transparent.antt =====
-- The hooks of src/kvbench/trace/recorder.py around any sequence of operations: what the callers
-- see, and what the recorder counts.
use llm_kv_passthrough.Prelude.{
  ℕ, ◌+◌, ◌≡◌, refl, sym, ap, ◌∙◌, Bool, true, false, not, ◌&&◌, text_eq, Option, none, some, List,
  [], ◌∷◌, ◌++◌, Text, codes, if◌then◌else◌, All, arith,
}
use llm_kv_passthrough.Prelude.Result.{Error, Result, ok, err, ok-injective}
use llm_kv_passthrough.Trace.{
  Call, Clock, Json, CounterKey, same_key, counter, or_zero, open_trace, Act, run,
}
use llm_kv_passthrough.Trace.Hooks.{
  StorageBackend, BackendInfo, plain_call, wrap_all, install_lmcache_trace, record_after,
  found_size, sum_sizes, put_calls, traced_batched_submit_put_task, traced_get_blocking,
  traced_contains, traced_remove, traced_batched_contains, traced_batched_get_non_blocking,
  traced_write_file, traced_read_file,
}
use llm_kv_passthrough.Trace.Hooks.Operations.{
  Operation, put, get, remove_key, has, has_all, get_all, write, read, Answer, nothing, object,
  flag, count, objects, as_answer, add, invoke, invoke_all, invoke_traced, invoke_all_traced,
  key_of, object_bytes, all_bytes, paired, moved, share, tally, announced,
}
use llm_kv_passthrough.Trace.Hooks.Counted.{
  accepted_calls, count_calls, count_calls-append, counter-accepted,
}
use llm_kv_passthrough.Trace.Log.{log_run, empty_log}
use llm_kv_passthrough.Trace.Load.{ReadsBack, load_events}
use llm_kv_passthrough.Trace.Collect.{collect}
use llm_kv_passthrough.Trace.Counters.{collect-counter}

add-none : (s : ℕ × ℕ) (b : Bool) → s ≡ add s (if b then (0, 0) else (0, 0))
add-none s b = ground arith

-- One call of record with this name and these bytes.
one_call :
    (call : Call) (k : CounterKey)
    → count_calls k (call ∷ [])
      ≡ (if same_key (call.event, call.op, call.backend) k then (1, or_zero call.size) else (0, 0))
unfolding count_calls
one_call call k = ground arith

add_assoc : (s t u : ℕ × ℕ) → add (add s t) u ≡ add s (add t u)
add_assoc s t u = ground arith

-- The calls that were made before leave the answer as it is.
as_answer-made :
    {A B O : Type 0} (f : A → Answer O) (r : Result A × B) (calls : List Call)
    → (◌≡◌) {A = Result (Answer O) × (B × List Call)}
        (as_answer f (r.0, (r.1, calls)))
        ((as_answer f r).0, ((as_answer f r).1, calls))
as_answer-made f (ok a, b) calls = refl
as_answer-made f (err raised, b) calls = refl

module _ {O : Type 0} (obj_size : O → Option ℕ) (cls : Text) where
  put_calls-counts :
      (keys : List Text) (objs : List O) (k : CounterKey)
      → count_calls k (put_calls obj_size cls keys objs) ≡ (
          if same_key (codes "logical", codes "put", cls) k
          then paired obj_size keys objs
          else (0, 0))
  unfolding count_calls
  put_calls-counts [] objs k = ground arith
  put_calls-counts (key ∷ keys) [] k = ground arith
  put_calls-counts (key ∷ keys) (o ∷ objs) k = rw (put_calls-counts keys objs k) (ground arith)

  found_size-bytes : (o : Option O) → or_zero (found_size obj_size o) ≡ object_bytes obj_size o
  found_size-bytes none = refl
  found_size-bytes (some o) = refl

  sum_sizes-bytes : (os : List (Option O)) → sum_sizes obj_size os ≡ all_bytes obj_size os
  sum_sizes-bytes [] = refl
  sum_sizes-bytes (none ∷ os) = omega (arith, sum_sizes-bytes os)
  sum_sizes-bytes (some o ∷ os) = ap (λ n. or_zero (obj_size o) + n) (sum_sizes-bytes os)

module _ {B O : Type 0} (obj_size : O → Option ℕ) (cls : Text) where
  -- The answer and the backend's state are the same, and the operation is counted.
  record IsTraced (op : Operation O) (plain : Result (Answer O) × B)
      (traced : Result (Answer O) × (B × List Call)) (calls : List Call) : Type 0 where
    answered : traced.0 ≡ plain.0
    same_state : traced.1.0 ≡ plain.1
    counted :
        (k : CounterKey)
        → count_calls k traced.1.1 ≡ add (count_calls k calls) (share obj_size cls k op plain.0)

  after-IsTraced :
      {A : Type 0} (op : Operation O) (f : A → Answer O) (r : Result A × B) (calls : List Call)
      (made : A → Call)
      → ((a : A) (k : CounterKey)
          → count_calls k (made a ∷ []) ≡ share obj_size cls k op (ok (f a)))
      → ((e : Error) → moved obj_size op (err e) ≡ (0, 0))
      → IsTraced op (as_answer f r) (as_answer f (record_after r calls made)) calls
  after-IsTraced op f (ok a, b) calls made one failed = record {
    answered = refl;
    same_state = refl;
    counted = λ k.
        count_calls-append k calls (made a ∷ []) ∙ ap (λ t. add (count_calls k calls) t) (one a k);
  }
  after-IsTraced op f (err raised, b) calls made one failed = record {
    answered = refl;
    same_state = refl;
    counted = λ k.
        add-none (count_calls k calls) (same_key (key_of obj_size cls op) k)
        ∙ ap
            (λ m.
              add (count_calls k calls) (if same_key (key_of obj_size cls op) k then m else (0, 0)))
            (sym (failed raised));
  }

  invoke_traced-IsTraced :
      (backend : StorageBackend B O) (op : Operation O) (b : B) (calls : List Call)
      → IsTraced op (invoke backend op b) (invoke_traced backend obj_size cls op (b, calls)) calls
  unfolding invoke invoke_traced traced_batched_submit_put_task traced_get_blocking traced_contains
      traced_remove traced_batched_contains traced_batched_get_non_blocking traced_write_file
      traced_read_file key_of
  invoke_traced-IsTraced backend (put keys objs) b calls =
      let r = backend.batched_submit_put_task keys objs b in
      let made = put_calls obj_size cls keys objs in
      let same = as_answer-made {O = O} (λ u. nothing) r (calls ++ made) in
      record {
        answered = ap (λ s. s.0) same;
        same_state = ap (λ s. s.1.0) same;
        counted = λ k.
            ap (λ s. count_calls k s.1.1) same
            ∙ count_calls-append k calls made
            ∙ ap (λ t. add (count_calls k calls) t) (put_calls-counts obj_size cls keys objs k);
      }
  invoke_traced-IsTraced backend (get t key) b calls =
      after-IsTraced (get t key) object (backend.get_blocking key b) calls _
        (λ o k.
          one_call _ k
          ∙ ap (λ n. if same_key (key_of obj_size cls (get t key)) k then (1, n) else (0, 0))
              (found_size-bytes obj_size cls o))
        (λ e. refl)
  invoke_traced-IsTraced backend (remove_key t key) b calls =
      after-IsTraced (remove_key t key) flag (backend.remove key b) calls _ (λ a k. one_call _ k)
        (λ e. refl)
  invoke_traced-IsTraced backend (has key) b calls =
      after-IsTraced (has key) flag (backend.contains key b) calls _ (λ a k. one_call _ k)
        (λ e. refl)
  invoke_traced-IsTraced backend (has_all keys) b calls =
      after-IsTraced (has_all keys) count (backend.batched_contains keys b) calls _
        (λ a k. one_call _ k) (λ e. refl)
  invoke_traced-IsTraced backend (get_all t keys) b calls =
      after-IsTraced (get_all t keys) objects (backend.batched_get_non_blocking keys b) calls _
        (λ os k.
          one_call _ k
          ∙ ap (λ n. if same_key (key_of obj_size cls (get_all t keys)) k then (1, n) else (0, 0))
              (sum_sizes-bytes obj_size cls os))
        (λ e. refl)
  invoke_traced-IsTraced backend (write t buffer path) b calls =
      after-IsTraced (write t buffer path) (λ u. nothing) (backend.write_file buffer path b) calls _
        (λ a k. one_call _ k) (λ e. refl)
  invoke_traced-IsTraced backend (read t key buffer path) b calls =
      after-IsTraced (read t key buffer path) (λ u. nothing) (backend.read_file key buffer path b)
        calls _ (λ a k. one_call _ k) (λ e. refl)

  invoke_all_traced-IsTraced :
      (backend : StorageBackend B O) (ops : List (Operation O)) (b : B) (calls : List Call)
      → ((invoke_all_traced backend obj_size cls ops (b, calls)).0 ≡ (invoke_all backend ops b).0)
        × ((invoke_all_traced backend obj_size cls ops (b, calls)).1.0
            ≡ (invoke_all backend ops b).1)
        × ((k : CounterKey)
            → count_calls k (invoke_all_traced backend obj_size cls ops (b, calls)).1.1
              ≡ add (count_calls k calls) (tally obj_size cls k ops (invoke_all backend ops b).0))
  unfolding invoke_all invoke_all_traced tally
  invoke_all_traced-IsTraced backend [] b calls = (refl, refl, λ k. add-none _ true)
  invoke_all_traced-IsTraced backend (op ∷ ops) b calls =
      let s = invoke_traced backend obj_size cls op (b, calls) in
      let r = invoke backend op b in
      let one = invoke_traced-IsTraced backend op b calls in
      let (answers, state, counts) = invoke_all_traced-IsTraced backend ops s.1.0 s.1.1 in
      let same = ap (λ x. invoke_all backend ops x) one.same_state in
      (
        cc,
        state ∙ ap (λ x. x.1) same,
        λ k.
            counts k
            ∙ ap (λ x. add (count_calls k s.1.1) (tally obj_size cls k ops x.0)) same
            ∙ ap (λ x. add x (tally obj_size cls k ops (invoke_all backend ops r.1).0))
                (one.counted k)
            ∙ add_assoc (count_calls k calls) _ _,
      )

-- What installing the hooks records.
wrap_all-announced :
    (k : CounterKey) (backends : List BackendInfo)
    → count_calls k (wrap_all backends).1 ≡ (announced k backends, 0)
unfolding wrap_all count_calls announced
wrap_all-announced k [] = refl
wrap_all-announced k (b ∷ backends) =
    one (wrap_all-announced k backends) (text_eq b.cls_name (codes "LocalCPUBackend")) b.has_files
  where
    meta : Call
    meta = record (plain_call (codes "meta") (codes "backend_info") b.cls_name) {
      use_odirect = some b.use_odirect;
      os_disk_bs = b.os_disk_bs;
      name = some b.name;
    }

    here : Bool
    here = same_key (codes "meta", codes "backend_info", b.cls_name) k

    one :
        count_calls k (wrap_all backends).1 ≡ (announced k backends, 0)
        → (cpu files : Bool)
        → count_calls k
            (if cpu then wrap_all backends else (
              b.name ∷ (wrap_all backends).0,
              (if files then meta ∷ [] else []) ++ (wrap_all backends).1,
            )).1
          ≡ (if not cpu && files && here then 1 + announced k backends else announced k backends, 0)
    one ih true files = ih
    one ih false false = ih
    one ih false true = rw ih (ground arith)

install-announced :
    (k : CounterKey) (backends : List BackendInfo) (wrapped : List Text) (calls : List Call)
    → install_lmcache_trace backends ≡ ok (wrapped, calls)
    → count_calls k calls ≡ (announced k backends, 0)
unfolding install_lmcache_trace
install-announced k [] wrapped calls e = cc
install-announced k (b ∷ backends) wrapped calls e =
    ap (λ r. count_calls k r.1) (sym (ok-injective e)) ∙ wrap_all-announced k (b ∷ backends)

-- Whatever a backend does: over any sequence of its operations the callers get the same answers
-- and exceptions with the hooks as without them, and the backend is left in the same state.
pub invoke_all_traced-invoke_all :
    {B O : Type 0} (backend : StorageBackend B O) (obj_size : O → Option ℕ) (cls : Text)
    (ops : List (Operation O)) (b : B) (calls : List Call)
    → ((invoke_all_traced backend obj_size cls ops (b, calls)).0 ≡ (invoke_all backend ops b).0)
      × ((invoke_all_traced backend obj_size cls ops (b, calls)).1.0 ≡ (invoke_all backend ops b).1)
invoke_all_traced-invoke_all backend obj_size cls ops b calls =
    let (answers, state, counts) = invoke_all_traced-IsTraced obj_size cls backend ops b calls in
    (answers, state)

-- Each counter has what the hooks counted, installed or called.
counter-tally :
    {B O : Type 0} (json : Json) (backend : StorageBackend B O) (obj_size : O → Option ℕ)
    (cls : Text) (backends : List BackendInfo) (wrapped : List Text) (installed : List Call)
    (ops : List (Operation O)) (b : B) (acts : List Act) (wall_us : ℕ) (clock : Clock)
    (k : CounterKey)
    → install_lmcache_trace backends ≡ ok (wrapped, installed)
    → accepted_calls acts ≡ (invoke_all_traced backend obj_size cls ops (b, installed)).1.1
    → counter k (run json acts (open_trace wall_us clock)).counters
      ≡ add (announced k backends, 0) (tally obj_size cls k ops (invoke_all backend ops b).0)
counter-tally json backend obj_size cls backends wrapped installed ops b acts wall_us clock k wrote
      same =
    let (answers, state, counts) =
      invoke_all_traced-IsTraced obj_size cls backend ops b installed in
    counter-accepted json acts wall_us clock k
    ∙ ap (λ calls. count_calls k calls) same
    ∙ counts k
    ∙ ap (λ c. add c (tally obj_size cls k ops (invoke_all backend ops b).0))
        (install-announced k backends wrapped installed wrote)

-- The hooks were installed on the backends of an engine, then a sequence of operations was called
-- on one of them, and the calls of record before the recorder was closed are those of both. Once it
-- is closed, when JSON reads each record back: the analysis of the trace file counts, for every
-- event, operation and backend, the operations of this name and their bytes, as the answers of the
-- backend without the hooks tell them, and one record without bytes for each backend with files
-- that the installation announced. A put counts for each key with its object, also when it raises;
-- another operation counts when it returned.
pub collect-tally :
    {B O : Type 0} (json : Json) (backend : StorageBackend B O) (obj_size : O → Option ℕ)
    (cls : Text) (backends : List BackendInfo) (wrapped : List Text) (installed : List Call)
    (ops : List (Operation O)) (b : B) (acts : List Act) (wall_us : ℕ) (clock : Clock)
    (k : CounterKey)
    → install_lmcache_trace backends ≡ ok (wrapped, installed)
    → accepted_calls acts ≡ (invoke_all_traced backend obj_size cls ops (b, installed)).1.1
    → (log_run acts (empty_log wall_us clock)).ended ≡ true
    → All (ReadsBack json) (log_run acts (empty_log wall_us clock)).events
    → ((collect (load_events json (run json acts (open_trace wall_us clock)).disk) k).count
        ≡ announced k backends + (tally obj_size cls k ops (invoke_all backend ops b).0).0)
      × ((collect (load_events json (run json acts (open_trace wall_us clock)).disk) k).total_bytes
          ≡ (tally obj_size cls k ops (invoke_all backend ops b).0).1)
collect-tally json backend obj_size cls backends wrapped installed ops b acts wall_us clock k wrote
      same ended back =
    let (counted, summed) = collect-counter json acts wall_us clock k ended back in
    let told =
      counter-tally json backend obj_size cls backends wrapped installed ops b acts wall_us clock k
        wrote same in
    (counted ∙ ap (λ v. v.0) told, omega (arith, summed, ap (λ v. v.1) told))
