-- ===== src/Trace/Hooks/Operations.antt =====
-- Sequences of the operations that src/kvbench/trace/recorder.py wraps, on a storage backend as it
-- is and on one with the hooks, and what of each the trace is to count.
use llm_kv_passthrough.Prelude.{
  ℕ, ◌+◌, Bool, not, ◌&&◌, text_eq, Option, none, some, List, [], ◌∷◌, length, Text, codes,
  if◌then◌else◌,
}
use llm_kv_passthrough.Prelude.Result.{Result, ok, err}
use llm_kv_passthrough.Trace.{Call, CounterKey, same_key, or_zero}
use llm_kv_passthrough.Trace.Hooks.{
  StorageBackend, BackendInfo, traced_batched_submit_put_task, traced_get_blocking, traced_contains,
  traced_remove, traced_batched_contains, traced_batched_get_non_blocking, traced_write_file,
  traced_read_file,
}

-- The calls with their arguments, the number being the time that the hook measures.
pub data Operation (O : Type 0) : Type 0 where
  put : List Text → List O → Operation O
  get remove_key : ℕ → Text → Operation O
  has : Text → Operation O
  has_all : List Text → Operation O
  get_all : ℕ → List Text → Operation O
  write : ℕ → List ℕ → Text → Operation O
  read : ℕ → Text → List ℕ → Text → Operation O

pub data Answer (O : Type 0) : Type 0 where
  nothing : Answer O
  object : Option O → Answer O
  flag : Bool → Answer O
  count : ℕ → Answer O
  objects : List (Option O) → Answer O

abbrev pub as_answer : {A O S : Type 0} → (A → Answer O) → Result A × S → Result (Answer O) × S
as_answer f (ok a, s) = (ok (f a), s)
as_answer f (err raised, s) = (err raised, s)

abbrev pub add : ℕ × ℕ → ℕ × ℕ → ℕ × ℕ
add (a, b) (c, d) = (a + c, b + d)

module _ {B O : Type 0} (backend : StorageBackend B O) where
  unfoldable pub invoke : Operation O → B → Result (Answer O) × B
  invoke (put keys objs) b = as_answer (λ u. nothing) (backend.batched_submit_put_task keys objs b)
  invoke (get t key) b = as_answer object (backend.get_blocking key b)
  invoke (remove_key t key) b = as_answer flag (backend.remove key b)
  invoke (has key) b = as_answer flag (backend.contains key b)
  invoke (has_all keys) b = as_answer count (backend.batched_contains keys b)
  invoke (get_all t keys) b = as_answer objects (backend.batched_get_non_blocking keys b)
  invoke (write t buffer path) b = as_answer (λ u. nothing) (backend.write_file buffer path b)
  invoke (read t key buffer path) b = as_answer (λ u. nothing) (backend.read_file key buffer path b)

  -- The answers in their order, and the backend's last state.
  unfoldable pub invoke_all : List (Operation O) → B → List (Result (Answer O)) × B
  unfolding invoke
  invoke_all [] b = ([], b)
  invoke_all (op ∷ ops) b =
      let r = invoke op b in let rest = invoke_all ops r.1 in (r.0 ∷ rest.0, rest.1)

  module _ (obj_size : O → Option ℕ) (cls_name : Text) where
    unfoldable pub invoke_traced : Operation O → B × List Call → Result (Answer O) × (B × List Call)
    unfolding traced_batched_submit_put_task traced_get_blocking traced_contains traced_remove
        traced_batched_contains traced_batched_get_non_blocking traced_write_file traced_read_file
    invoke_traced (put keys objs) s =
        as_answer (λ u. nothing)
          (traced_batched_submit_put_task backend obj_size cls_name keys objs s)
    invoke_traced (get t key) s =
        as_answer object (traced_get_blocking backend obj_size cls_name t key s)
    invoke_traced (remove_key t key) s =
        as_answer flag (traced_remove backend obj_size cls_name t key s)
    invoke_traced (has key) s = as_answer flag (traced_contains backend obj_size cls_name key s)
    invoke_traced (has_all keys) s =
        as_answer count (traced_batched_contains backend obj_size cls_name keys s)
    invoke_traced (get_all t keys) s =
        as_answer objects (traced_batched_get_non_blocking backend obj_size cls_name t keys s)
    invoke_traced (write t buffer path) s =
        as_answer (λ u. nothing) (traced_write_file backend obj_size cls_name t buffer path s)
    invoke_traced (read t key buffer path) s =
        as_answer (λ u. nothing) (traced_read_file backend obj_size cls_name t key buffer path s)

    unfoldable pub invoke_all_traced :
        List (Operation O) → B × List Call → List (Result (Answer O)) × (B × List Call)
    unfolding invoke_traced
    invoke_all_traced [] s = ([], s)
    invoke_all_traced (op ∷ ops) s =
        let r = invoke_traced op s in let rest = invoke_all_traced ops r.1 in (r.0 ∷ rest.0, rest.1)

-- What is counted of an operation with its answer.
module _ {O : Type 0} (obj_size : O → Option ℕ) where
  unfoldable pub key_of : Text → Operation O → CounterKey
  key_of cls (put keys objs) = (codes "logical", codes "put", cls)
  key_of cls (get t key) = (codes "logical", codes "get", cls)
  key_of cls (remove_key t key) = (codes "logical", codes "remove", cls)
  key_of cls (has key) = (codes "logical", codes "contains", cls)
  key_of cls (has_all keys) = (codes "logical", codes "batched_contains", cls)
  key_of cls (get_all t keys) = (codes "logical", codes "batched_get", cls)
  key_of cls (write t buffer path) = (codes "io", codes "write", cls)
  key_of cls (read t key buffer path) = (codes "io", codes "read", cls)

  abbrev pub object_bytes : Option O → ℕ
  object_bytes none = 0
  object_bytes (some o) = or_zero (obj_size o)

  abbrev pub all_bytes : List (Option O) → ℕ
  all_bytes [] = 0
  all_bytes (o ∷ os) = object_bytes o + all_bytes os

  -- The objects that have a key, and their bytes.
  abbrev pub paired : List Text → List O → ℕ × ℕ
  paired [] objs = (0, 0)
  paired (key ∷ keys) [] = (0, 0)
  paired (key ∷ keys) (o ∷ objs) = add (1, object_bytes (some o)) (paired keys objs)

  abbrev bytes : Operation O → Answer O → ℕ
  bytes (write t buffer path) a = length buffer
  bytes (read t key buffer path) a = length buffer
  bytes op (object o) = object_bytes o
  bytes op (objects os) = all_bytes os
  bytes op a = 0

  -- A put counts when it is submitted, any other operation when it has returned.
  abbrev pub moved : Operation O → Result (Answer O) → ℕ × ℕ
  moved (put keys objs) r = paired keys objs
  moved op (ok a) = (1, bytes op a)
  moved op (err raised) = (0, 0)

  abbrev pub share : Text → CounterKey → Operation O → Result (Answer O) → ℕ × ℕ
  share cls k op r = if same_key (key_of cls op) k then moved op r else (0, 0)

  -- The operations of this name, and their bytes.
  unfoldable pub tally : Text → CounterKey → List (Operation O) → List (Result (Answer O)) → ℕ × ℕ
  unfolding same_key key_of
  tally cls k [] answers = (0, 0)
  tally cls k (op ∷ ops) [] = (0, 0)
  tally cls k (op ∷ ops) (r ∷ answers) = add (share cls k op r) (tally cls k ops answers)

-- The backends with files that are announced under this name.
unfoldable pub announced : CounterKey → List BackendInfo → ℕ
unfolding same_key text_eq
announced k [] = 0
announced k (b ∷ backends) =
    let rest = announced k backends in
    if not (text_eq b.cls_name (codes "LocalCPUBackend"))
      && b.has_files
      && same_key (codes "meta", codes "backend_info", b.cls_name) k
    then 1 + rest
    else rest
