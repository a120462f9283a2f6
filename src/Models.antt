-- ===== src/Models.antt =====
-- ModelProfile of src/kvbench/core/models.py: the sizes of the KV cache of a model. The registered
-- profiles are in Registry.
pub mod Registry
pub mod Fits
pub mod Params
mod Examples
use llm_kv_passthrough.Prelude.{ℕ, zero, suc, ◌*◌, ◌/◌, Option, none, some, Text}
use llm_kv_passthrough.Numbers.{Decimal}
use llm_kv_passthrough.Prelude.Result.{Result, ok, err, zero_division, ◌>>=◌}

pub data Dtype : Type 0 where
  fp16 bf16 fp8 : Dtype

pub record ModelProfile : Type 0 where
  pub name : Text
  pub layers : ℕ
  pub hidden : ℕ
  pub kv_heads : ℕ
  pub intermediate : ℕ
  pub num_heads : Option ℕ
  pub vocab_size : ℕ
  pub max_seq_len : ℕ
  pub dtype : Dtype
  pub kv_layers : Option ℕ
  pub head_dim_override : Option ℕ
  pub params_billions_override : Option Decimal

-- __post_init__: without a number of heads there is one for each 128 hidden dimensions.
unfoldable pub heads_or : Option ℕ → ℕ → ℕ
heads_or none hidden = hidden / 128
heads_or (some n) hidden = n

divided : ℕ → ℕ → Result ℕ
divided hidden zero = err zero_division
divided hidden (suc n) = ok (hidden / suc n)

head_dim_or : Option ℕ → ℕ → ℕ → Result ℕ
unfolding divided
head_dim_or (some dim) hidden heads = ok dim
head_dim_or none hidden heads = divided hidden heads

unfoldable pub head_dim : ModelProfile → Result ℕ
unfolding head_dim_or heads_or
head_dim p = head_dim_or p.head_dim_override p.hidden (heads_or p.num_heads p.hidden)

abbrev layers_or : Option ℕ → ℕ → ℕ
layers_or none layers = layers
layers_or (some n) layers = n

unfoldable pub effective_kv_layers : ModelProfile → ℕ
effective_kv_layers p = layers_or p.kv_layers p.layers

bytes_of_dtype : Dtype → ℕ
bytes_of_dtype fp16 = 2
bytes_of_dtype bf16 = 2
bytes_of_dtype fp8 = 1

unfoldable pub bytes_per_element : ModelProfile → ℕ
unfolding bytes_of_dtype
bytes_per_element p = bytes_of_dtype p.dtype

unfoldable pub kv_cache_bytes_per_token : ModelProfile → Result ℕ
kv_cache_bytes_per_token p = do dim ← head_dim p; ok (2 * p.kv_heads * dim * bytes_per_element p)

unfoldable pub total_kv_cache_bytes_per_token : ModelProfile → Result ℕ
unfolding kv_cache_bytes_per_token
total_kv_cache_bytes_per_token p = do
  per_layer ← kv_cache_bytes_per_token p
  ok (per_layer * effective_kv_layers p)

unfoldable pub kv_cache_size_bytes : ModelProfile → ℕ → Result ℕ
kv_cache_size_bytes p num_tokens = do
  per_token ← total_kv_cache_bytes_per_token p
  ok (per_token * num_tokens)
