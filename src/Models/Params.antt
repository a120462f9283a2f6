-- ===== src/Models/Params.antt =====
-- ModelProfile.estimated_params_billions, model_size_gb and kv_cache_size_gb of
-- src/kvbench/core/models.py.
use llm_kv_passthrough.Prelude.{ℕ, ◌+◌, ◌*◌, ◌^◌, ◌≡◌, refl, Option, none, some}
use llm_kv_passthrough.Prelude.Result.{Result, ok, ◌>>=◌}
use llm_kv_passthrough.Numbers.{Decimal, Numbers, power_of_ten}
use llm_kv_passthrough.Models.{
  ModelProfile, heads_or, head_dim, bytes_per_element, kv_cache_size_bytes,
}

-- total_params, of a model with heads of so many dimensions.
unfoldable pub total_params : ModelProfile → ℕ → ℕ
unfolding heads_or
total_params p dim =
    let num_heads = heads_or p.num_heads p.hidden in
    let qkv_params = p.hidden * (num_heads + 2 * p.kv_heads) * dim in
    let output_params = p.hidden * p.hidden in
    let ffn_params = p.hidden * p.intermediate * 3 in
    let norm_params = p.hidden * 2 in
    p.vocab_size * p.hidden
    + (qkv_params + output_params + ffn_params + norm_params) * p.layers
    + (p.hidden + p.hidden * p.vocab_size)

module _ {R : Type 0} (numbers : Numbers R) where
  unfoldable pub params_or : Option Decimal → ModelProfile → Result R
  unfolding total_params
  params_or (some d) p = ok (numbers.of_decimal d)
  params_or none p = do
    dim ← head_dim p
    ok (numbers.divide (numbers.of_int (total_params p dim)) (power_of_ten numbers 9))

  unfoldable pub estimated_params_billions : ModelProfile → Result R
  unfolding params_or
  estimated_params_billions p = params_or p.params_billions_override p

  pub model_size_gb : ModelProfile → Result R
  unfolding estimated_params_billions bytes_per_element
  model_size_gb p = do
    params ← estimated_params_billions p
    ok (numbers.times params (numbers.of_int (bytes_per_element p)))

  pub kv_cache_size_gb : ModelProfile → ℕ → Result R
  unfolding kv_cache_size_bytes
  kv_cache_size_gb p num_tokens = do
    size ← kv_cache_size_bytes p num_tokens
    ok (numbers.divide (numbers.of_int size) (numbers.of_int (1024 ^ 3)))

  -- With a head dimension the estimate is there.
  pub estimated_params_billions_total :
      (p : ModelProfile) (dim : ℕ)
      → head_dim p ≡ ok dim
      → (params : R) × (estimated_params_billions p ≡ ok params)
  unfolding estimated_params_billions
  estimated_params_billions_total p dim e = total p.params_billions_override
    where
      total : (given : Option Decimal) → (params : R) × (params_or given p ≡ ok params)
      total (some d) = (_, unfold params_or in refl)
      total none = (
        numbers.divide (numbers.of_int (total_params p dim)) (power_of_ten numbers 9),
        unfold params_or in rw e refl,
      )
