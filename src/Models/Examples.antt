-- ===== src/Models/Examples.antt =====
-- Registered models and the KV cache that they need.
use llm_kv_passthrough.Prelude.{ℕ, ◌*◌, ◌≤◌, ◌<◌, ◌≡◌, refl, none, Text, codes, text_eq, find_named}
use llm_kv_passthrough.Prelude.Result.{ok, err, key_error}
use llm_kv_passthrough.Models.{head_dim}
use llm_kv_passthrough.Models.Registry.{
  profile_llama_3_1_8b, get_model_profile, seq_len_or, Requirements,
  calculate_kv_cache_requirements,
}
use llm_kv_passthrough.Models.Fits.{
  token_bytes, get_model_profile-fits, calculate_kv_cache_requirements-bytes,
}

abbrev llama : Text
llama = codes "llama-3.1-8b"

found : get_model_profile llama ≡ ok profile_llama_3_1_8b
unfolding get_model_profile find_named text_eq
found = refl

not_found : get_model_profile (codes "llama") ≡ err key_error
unfolding get_model_profile find_named text_eq
not_found = refl

get_model_profile-fits_example :
    (dim : ℕ) × (head_dim profile_llama_3_1_8b ≡ ok dim)
    × (0 < token_bytes profile_llama_3_1_8b dim)
    × (token_bytes profile_llama_3_1_8b dim ≤ 2 * 4096 * 32)
get_model_profile-fits_example = get_model_profile-fits llama profile_llama_3_1_8b found

calculate_kv_cache_requirements-bytes_example :
    (r : Requirements) × (calculate_kv_cache_requirements llama 4 none ≡ ok r)
    × (r.max_seq_len ≡ seq_len_or none 131072)
    × (r.total_bytes ≡ r.bytes_per_token * (r.max_seq_len * 4))
    × (0 < r.bytes_per_token)
calculate_kv_cache_requirements-bytes_example =
    calculate_kv_cache_requirements-bytes llama profile_llama_3_1_8b 4 none found
