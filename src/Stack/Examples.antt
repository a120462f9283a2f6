-- ===== src/Stack/Examples.antt =====
-- The theorems about the stack over a small engine, and runs of its calls.
use llm_kv_passthrough.Prelude.{
  codes, ℕ, ◌+◌, ◌*◌, ◌-◌, ◌%◌, ◌≡◌, refl, none, some, List, [], ◌∷◌, length, ◌==◌, if◌then◌else◌,
  arith, range,
}
use llm_kv_passthrough.Prelude.Result.{ok, err, runtime_error, value_error}
use llm_kv_passthrough.Models.{
  ModelProfile, bf16, total_kv_cache_bytes_per_token, head_dim, bytes_per_element,
  effective_kv_layers,
}
use llm_kv_passthrough.Stack.{Engine, stack, lookup, CapacityInfo, capacity_info}
use llm_kv_passthrough.Stack.Counts.{Call, starts, closes, looks_up, stores, retrieves, perform_all}
use llm_kv_passthrough.Stack.Sizes.{capacity_info-dropped}

-- An engine that counts the tokens stored, and that raises on an empty store.
abbrev counter : Engine ℕ
counter = record {
  create = λ rank. 0;
  lookup = λ tokens n. (ok n, n);
  store =
      λ tokens skip n. (if length tokens == 0 then err value_error else ok tt, n + length tokens);
  retrieve = λ tokens n. (ok n, n);
}

not_started : (lookup counter (1 ∷ []) (stack 2)).0 ≡ err runtime_error
unfolding lookup stack
not_started = refl

abbrev calls : List Call
calls =
    looks_up (1 ∷ [])
    ∷ starts
    ∷ stores (1 ∷ 2 ∷ []) 0
    ∷ stores [] 0
    ∷ looks_up (1 ∷ [])
    ∷ closes
    ∷ retrieves (1 ∷ [])
    ∷ []

counted :
    let s = perform_all counter calls (stack 2) in
    (s.stats.errors ≡ 1)
    × (s.stats.stores ≡ 1)
    × (s.stats.hit_tokens ≡ 2)
    × (s.engines ≡ 2 ∷ 2 ∷ [])
unfolding perform_all stack range
counted = (refl, refl, refl, refl)

-- After close and start the stack still asks the engine of the first start.
restarted :
    let s = perform_all counter (starts ∷ stores (1 ∷ []) 0 ∷ closes ∷ starts ∷ []) (stack 1) in
    s.engines ≡ 1 ∷ 0 ∷ []
unfolding perform_all stack range
restarted = refl

abbrev llama : ModelProfile
llama = record {
  name = codes "Llama 3.1 8B";
  layers = 32;
  hidden = 4096;
  kv_heads = 8;
  intermediate = 14336;
  num_heads = some 32;
  vocab_size = 128256;
  max_seq_len = 131072;
  dtype = bf16;
  kv_layers = none;
  head_dim_override = none;
  params_billions_override = none;
}

abbrev info : ℕ → CapacityInfo
info tp = record {
  bytes_per_token = 131072;
  chunk_bytes = 131072 * 256;
  stored_bytes_per_token = if tp == 2 then 131072 else if tp == 3 then 98304 else 262144;
  files_per_chunk = tp;
}

info_two : capacity_info llama 256 2 ≡ ok (info 2)
unfolding capacity_info total_kv_cache_bytes_per_token head_dim bytes_per_element
    effective_kv_layers
info_two = refl

info_three : capacity_info llama 256 3 ≡ ok (info 3)
unfolding capacity_info total_kv_cache_bytes_per_token head_dim bytes_per_element
    effective_kv_layers
info_three = refl

info_many : capacity_info llama 256 16 ≡ ok (info 16)
unfolding capacity_info total_kv_cache_bytes_per_token head_dim bytes_per_element
    effective_kv_layers
info_many = refl

capacity_info-dropped_example :
    (info 3).stored_bytes_per_token * 8 ≡ (info 3).bytes_per_token * (8 - 8 % 3)
capacity_info-dropped_example =
    capacity_info-dropped llama 256 3 (info 3) (omega arith) (omega arith) info_three
