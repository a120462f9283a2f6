-- ===== src/Models/Registry.antt =====
-- MODEL_PROFILES of src/kvbench/core/models.py, its lookups, and the KV cache that a batch of
-- requests needs.

use llm_kv_passthrough.Prelude.{
  ℕ, zero, suc, ◌*◌, Option, none, some, List, [], ◌∷◌, map, Text, codes, find_named, sort_texts,
}
use llm_kv_passthrough.Prelude.Result.{Result, ok, ◌>>=◌}
use llm_kv_passthrough.Models.{
  ModelProfile, bf16, fp8, kv_cache_size_bytes, total_kv_cache_bytes_per_token,
}

abbrev pub profile_llama_3_1_8b : ModelProfile
profile_llama_3_1_8b = record {
  name = codes "Llama 3.1 8B";
  layers = 32;
  hidden = 4096;
  kv_heads = 8;
  intermediate = 14336;
  num_heads = some 32;
  vocab_size = 128256;
  max_seq_len = 131072;
  dtype = bf16;
  kv_layers = none;
  head_dim_override = none;
  params_billions_override = none;
}

abbrev profile_llama_3_1_70b : ModelProfile
profile_llama_3_1_70b = record {
  name = codes "Llama 3.1 70B";
  layers = 80;
  hidden = 8192;
  kv_heads = 8;
  intermediate = 28672;
  num_heads = some 64;
  vocab_size = 128256;
  max_seq_len = 131072;
  dtype = bf16;
  kv_layers = none;
  head_dim_override = none;
  params_billions_override = none;
}

abbrev profile_llama_3_1_405b : ModelProfile
profile_llama_3_1_405b = record {
  name = codes "Llama 3.1 405B";
  layers = 126;
  hidden = 16384;
  kv_heads = 8;
  intermediate = 53248;
  num_heads = some 128;
  vocab_size = 128256;
  max_seq_len = 131072;
  dtype = bf16;
  kv_layers = none;
  head_dim_override = none;
  params_billions_override = none;
}

abbrev profile_llama_3_2_1b : ModelProfile
profile_llama_3_2_1b = record {
  name = codes "Llama 3.2 1B";
  layers = 16;
  hidden = 2048;
  kv_heads = 8;
  intermediate = 8192;
  num_heads = some 32;
  vocab_size = 128256;
  max_seq_len = 131072;
  dtype = bf16;
  kv_layers = none;
  head_dim_override = none;
  params_billions_override = none;
}

abbrev profile_llama_3_2_3b : ModelProfile
profile_llama_3_2_3b = record {
  name = codes "Llama 3.2 3B";
  layers = 28;
  hidden = 3072;
  kv_heads = 8;
  intermediate = 8192;
  num_heads = some 24;
  vocab_size = 128256;
  max_seq_len = 131072;
  dtype = bf16;
  kv_layers = none;
  head_dim_override = none;
  params_billions_override = none;
}

abbrev profile_llama_4_scout : ModelProfile
profile_llama_4_scout = record {
  name = codes "Llama 4 Scout 17B-16E";
  layers = 48;
  hidden = 5120;
  kv_heads = 8;
  intermediate = 16384;
  num_heads = some 40;
  vocab_size = 202048;
  max_seq_len = 10485760;
  dtype = bf16;
  kv_layers = none;
  head_dim_override = some 128;
  params_billions_override = none;
}

abbrev profile_deepseek_v3_2 : ModelProfile
profile_deepseek_v3_2 = record {
  name = codes "DeepSeek V3.2 (MLA)";
  layers = 61;
  hidden = 7168;
  kv_heads = 1;
  intermediate = 18432;
  num_heads = some 128;
  vocab_size = 129280;
  max_seq_len = 163840;
  dtype = bf16;
  kv_layers = none;
  head_dim_override = some 288;
  params_billions_override = none;
}

abbrev profile_qwen3_8_27b : ModelProfile
profile_qwen3_8_27b = record {
  name = codes "Qwen3.8 27B";
  layers = 64;
  hidden = 5120;
  kv_heads = 4;
  intermediate = 17408;
  num_heads = some 24;
  vocab_size = 248320;
  max_seq_len = 262144;
  dtype = bf16;
  kv_layers = some 16;
  head_dim_override = some 256;
  params_billions_override = none;
}

abbrev profile_gpt_oss_120b : ModelProfile
profile_gpt_oss_120b = record {
  name = codes "GPT-OSS 120B (MoE, 5.1B active)";
  layers = 36;
  hidden = 2880;
  kv_heads = 8;
  intermediate = 2880;
  num_heads = some 64;
  vocab_size = 201088;
  max_seq_len = 131072;
  dtype = fp8;
  kv_layers = none;
  head_dim_override = some 64;
  params_billions_override = some (record { digits = 51; places = 1 });
}

abbrev profile_qwen_2_5_7b : ModelProfile
profile_qwen_2_5_7b = record {
  name = codes "Qwen 2.5 7B";
  layers = 28;
  hidden = 3584;
  kv_heads = 4;
  intermediate = 18944;
  num_heads = some 28;
  vocab_size = 152064;
  max_seq_len = 131072;
  dtype = bf16;
  kv_layers = none;
  head_dim_override = none;
  params_billions_override = none;
}

abbrev profile_qwen_2_5_72b : ModelProfile
profile_qwen_2_5_72b = record {
  name = codes "Qwen 2.5 72B";
  layers = 80;
  hidden = 8192;
  kv_heads = 8;
  intermediate = 29568;
  num_heads = some 64;
  vocab_size = 152064;
  max_seq_len = 131072;
  dtype = bf16;
  kv_layers = none;
  head_dim_override = none;
  params_billions_override = none;
}

abbrev profile_mistral_7b : ModelProfile
profile_mistral_7b = record {
  name = codes "Mistral 7B";
  layers = 32;
  hidden = 4096;
  kv_heads = 8;
  intermediate = 14336;
  num_heads = some 32;
  vocab_size = 32000;
  max_seq_len = 32768;
  dtype = bf16;
  kv_layers = none;
  head_dim_override = none;
  params_billions_override = none;
}

abbrev profile_mixtral_8x7b : ModelProfile
profile_mixtral_8x7b = record {
  name = codes "Mixtral 8x7B";
  layers = 32;
  hidden = 4096;
  kv_heads = 8;
  intermediate = 14336;
  num_heads = some 32;
  vocab_size = 32000;
  max_seq_len = 32768;
  dtype = bf16;
  kv_layers = none;
  head_dim_override = none;
  params_billions_override = none;
}

-- MODEL_PROFILES
abbrev pub model_profiles : List (Text × ModelProfile)
model_profiles =
    (codes "llama-3.1-8b", profile_llama_3_1_8b)
    ∷ (codes "llama-3.1-70b", profile_llama_3_1_70b)
    ∷ (codes "llama-3.1-405b", profile_llama_3_1_405b)
    ∷ (codes "llama-3.2-1b", profile_llama_3_2_1b)
    ∷ (codes "llama-3.2-3b", profile_llama_3_2_3b)
    ∷ (codes "llama-4-scout", profile_llama_4_scout)
    ∷ (codes "deepseek-v3.2", profile_deepseek_v3_2)
    ∷ (codes "qwen3.8-27b", profile_qwen3_8_27b)
    ∷ (codes "gpt-oss-120b", profile_gpt_oss_120b)
    ∷ (codes "qwen-2.5-7b", profile_qwen_2_5_7b)
    ∷ (codes "qwen-2.5-72b", profile_qwen_2_5_72b)
    ∷ (codes "mistral-7b", profile_mistral_7b)
    ∷ (codes "mixtral-8x7b", profile_mixtral_8x7b)
    ∷ []

unfoldable pub get_model_profile : Text → Result ModelProfile
unfolding find_named
get_model_profile name = find_named name model_profiles

pub list_model_profiles : List Text
unfolding sort_texts
list_model_profiles = sort_texts (map (λ e. e.0) model_profiles)

-- `max_seq_len or profile.max_seq_len`
unfoldable pub seq_len_or : Option ℕ → ℕ → ℕ
seq_len_or none default = default
seq_len_or (some zero) default = default
seq_len_or (some (suc n)) default = suc n

-- The counts of the answer. Its two sizes in GB are these bytes over 1024 ^ 3.
pub record Requirements : Type 0 where
  pub max_seq_len : ℕ
  pub per_request_bytes : ℕ
  pub total_bytes : ℕ
  pub bytes_per_token : ℕ

unfoldable pub calculate_kv_cache_requirements : Text → ℕ → Option ℕ → Result Requirements
unfolding get_model_profile seq_len_or kv_cache_size_bytes total_kv_cache_bytes_per_token
calculate_kv_cache_requirements model_name max_batch_size max_seq_len = do
  profile ← get_model_profile model_name
  per_request ← kv_cache_size_bytes profile (seq_len_or max_seq_len profile.max_seq_len)
  per_token ← total_kv_cache_bytes_per_token profile
  ok (record {
    max_seq_len = seq_len_or max_seq_len profile.max_seq_len;
    per_request_bytes = per_request;
    total_bytes = per_request * max_batch_size;
    bytes_per_token = per_token;
  })
