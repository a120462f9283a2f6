-- ===== src/Models/Fits.antt =====
-- What all registered models have in common.
use llm_kv_passthrough.Prelude.{
  ℕ, ◌*◌, ◌≤◌, ◌<◌, ◌≡◌, refl, Bool, true, false, ◌&&◌, Text, Option, arith, leb, ltb, leb→le,
  ltb→lt, &&-eq-true, find_named-passes,
}
use llm_kv_passthrough.Prelude.Result.{Result, ok, err}
use llm_kv_passthrough.Models.{
  ModelProfile, head_dim, bytes_per_element, effective_kv_layers, kv_cache_bytes_per_token,
  total_kv_cache_bytes_per_token, kv_cache_size_bytes,
}
use llm_kv_passthrough.Models.Registry.{
  model_profiles, get_model_profile, Requirements, seq_len_or, calculate_kv_cache_requirements,
}

-- The KV cache of one token, with heads of so many dimensions.
abbrev pub token_bytes : ModelProfile → ℕ → ℕ
token_bytes p dim = 2 * p.kv_heads * dim * bytes_per_element p * effective_kv_layers p

abbrev fits_with : ModelProfile → Result ℕ → Bool
fits_with p (ok dim) =
    ltb 0 (token_bytes p dim) && leb (token_bytes p dim) (2 * p.hidden * p.layers)
fits_with p (err raised) = false

all_fit :
    (name : Text) {p : ModelProfile}
    → get_model_profile name ≡ ok p
    → fits_with p (head_dim p) ≡ true
unfolding get_model_profile head_dim bytes_per_element effective_kv_layers
all_fit name found =
    find_named-passes (λ p. fits_with p (head_dim p)) name model_profiles refl found

fits_cases :
    (p : ModelProfile) (r : Result ℕ)
    → fits_with p r ≡ true
    → (dim : ℕ) × (r ≡ ok dim)
      × (0 < token_bytes p dim)
      × (token_bytes p dim ≤ 2 * p.hidden * p.layers)
fits_cases p (ok dim) h =
    let (some_bytes, few_bytes) =
      &&-eq-true (ltb 0 (token_bytes p dim)) (leb (token_bytes p dim) (2 * p.hidden * p.layers))
        h in
    (dim, refl, ltb→lt 0 _ some_bytes, leb→le _ _ few_bytes)
fits_cases p (err raised) h = cc

-- Every registered model has a head dimension, and the KV cache of one of its tokens takes at
-- least one byte and at most 2 * hidden * layers.
pub get_model_profile-fits :
    (name : Text) (p : ModelProfile)
    → get_model_profile name ≡ ok p
    → (dim : ℕ) × (head_dim p ≡ ok dim)
      × (0 < token_bytes p dim)
      × (token_bytes p dim ≤ 2 * p.hidden * p.layers)
get_model_profile-fits name p found = fits_cases p (head_dim p) (all_fit name found)

times_assoc : (a b c : ℕ) → a * b * c ≡ a * (b * c)
times_assoc a b c = grind arith

-- For every registered model, batch size and sequence length, calculate_kv_cache_requirements
-- returns; a token takes at least one byte, and the batch takes that many bytes for each token of
-- each of its sequences, of the given length unless it is none or zero.
pub calculate_kv_cache_requirements-bytes :
    (name : Text) (p : ModelProfile) (batch : ℕ) (max_seq_len : Option ℕ)
    → get_model_profile name ≡ ok p
    → (r : Requirements) × (calculate_kv_cache_requirements name batch max_seq_len ≡ ok r)
      × (r.max_seq_len ≡ seq_len_or max_seq_len p.max_seq_len)
      × (r.total_bytes ≡ r.bytes_per_token * (r.max_seq_len * batch))
      × (0 < r.bytes_per_token)
unfolding calculate_kv_cache_requirements kv_cache_size_bytes total_kv_cache_bytes_per_token
    kv_cache_bytes_per_token
calculate_kv_cache_requirements-bytes name p batch max_seq_len found =
    let (dim, e, some_bytes, few_bytes) = get_model_profile-fits name p found in
    let seq_len = seq_len_or max_seq_len p.max_seq_len in
    (
      record {
        max_seq_len = seq_len;
        per_request_bytes = token_bytes p dim * seq_len;
        total_bytes = token_bytes p dim * seq_len * batch;
        bytes_per_token = token_bytes p dim;
      },
      rw (found, e) refl,
      refl,
      times_assoc (token_bytes p dim) seq_len batch,
      some_bytes,
    )
