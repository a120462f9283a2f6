-- ===== src/Latency/Times.antt =====
-- LatencyCalculator of src/kvbench/core/latency.py: the bytes that a step moves, the roofline time of
-- a step, and the estimates for a request. An int becomes a float without an overflow.
use llm_kv_passthrough.Prelude.{ℕ, zero, suc, ◌+◌, ◌-◌, ◌*◌, Bool, Text, codes, if◌then◌else◌}
use llm_kv_passthrough.Prelude.Result.{Result, ok, ◌>>=◌}
use llm_kv_passthrough.Numbers.{Numbers, nought, power_of_ten, ratio, larger}
use llm_kv_passthrough.Gpus.{GpuProfile, hbm_bandwidth_gb_s}
use llm_kv_passthrough.Gpus.Registry.{get_gpu_profile}
use llm_kv_passthrough.Models.{
  ModelProfile, heads_or, head_dim, bytes_per_element, kv_cache_size_bytes,
  total_kv_cache_bytes_per_token,
}
use llm_kv_passthrough.Models.Params.{estimated_params_billions}
use llm_kv_passthrough.Models.Registry.{get_model_profile}
use llm_kv_passthrough.Latency.{Shape, prefill_flops, decode_flops}

pub record LatencyBreakdown (R : Type 0) : Type 0 where
  pub compute_ms : R
  pub memory_ms : R
  pub total_ms : R
  pub is_compute_bound : Bool
  pub flops : ℕ
  pub bytes_accessed : ℕ

pub record Calculator (R : Type 0) : Type 0 where
  pub gpu : GpuProfile
  pub model : ModelProfile
  pub tp_size : ℕ
  pub efficiency : R

-- A profile, or the name of a registered one.
pub data Reference (P : Type 0) : Type 0 where
  named : Text → Reference P
  given : P → Reference P

abbrev pub resolve : {P : Type 0} → (Text → Result P) → Reference P → Result P
resolve get (named name) = get name
resolve get (given profile) = ok profile

-- LatencyCalculator(gpu, model, tp_size, efficiency)
unfoldable pub create_calculator :
    {R : Type 0} → Reference GpuProfile → Reference ModelProfile → ℕ → R → Result (Calculator R)
unfolding get_gpu_profile get_model_profile
create_calculator gpu_ref model_ref tp_size efficiency = do
  gpu ← resolve get_gpu_profile gpu_ref
  model ← resolve get_model_profile model_ref
  ok (record { gpu = gpu; model = model; tp_size = tp_size; efficiency = efficiency })

-- `self.model.num_heads or 32`
abbrev heads_or_default : ℕ → ℕ
heads_or_default zero = 32
heads_or_default (suc n) = suc n

unfoldable pub shape : ModelProfile → ℕ → Shape
unfolding heads_or
shape p dim = record {
  hidden = p.hidden;
  intermediate = p.intermediate;
  layers = p.layers;
  num_heads = heads_or_default (heads_or p.num_heads p.hidden);
  kv_heads = p.kv_heads;
  head_dim = dim;
}

-- What the FLOP counts read off the model.
unfoldable pub shape_of : ModelProfile → Result Shape
unfolding shape
shape_of p = do dim ← head_dim p; ok (shape p dim)

pub bottleneck : {R : Type 0} → LatencyBreakdown R → Text
bottleneck b = if b.is_compute_bound then codes "compute" else codes "memory"

module _ {R : Type 0} (numbers : Numbers R) where
  unfoldable pub effective_compute_tflops : Calculator R → R
  effective_compute_tflops c =
      numbers.times (numbers.times (numbers.of_decimal c.gpu.bf16_tflops) c.efficiency)
        (numbers.of_int c.tp_size)

  unfoldable pub effective_memory_bandwidth_gb_s : Calculator R → R
  unfolding hbm_bandwidth_gb_s
  effective_memory_bandwidth_gb_s c =
      numbers.times (numbers.times (hbm_bandwidth_gb_s numbers c.gpu) c.efficiency)
        (numbers.of_int c.tp_size)

  -- int(params * 1e9 * bytes_per_element)
  unfoldable pub model_bytes : R → ModelProfile → ℕ
  unfolding bytes_per_element
  model_bytes params p = numbers.truncate (
      numbers.times (numbers.times params (power_of_ten numbers 9))
        (numbers.of_int (bytes_per_element p)))

  unfoldable pub compute_bytes_for_prefill : ModelProfile → ℕ → ℕ → ℕ → Result ℕ
  unfolding estimated_params_billions kv_cache_size_bytes model_bytes
  compute_bytes_for_prefill p num_tokens batch_size context_tokens = do
    params ← estimated_params_billions numbers p
    written ← kv_cache_size_bytes p num_tokens
    cached ← kv_cache_size_bytes p context_tokens
    ok (
        model_bytes params p
        + written * batch_size
        + cached * batch_size
        + p.hidden * num_tokens * batch_size * 2 * p.layers)

  unfoldable pub compute_bytes_for_decode : ModelProfile → ℕ → ℕ → Result ℕ
  unfolding estimated_params_billions kv_cache_size_bytes total_kv_cache_bytes_per_token model_bytes
  compute_bytes_for_decode p context_length batch_size = do
    params ← estimated_params_billions numbers p
    cached ← kv_cache_size_bytes p context_length
    written ← total_kv_cache_bytes_per_token p
    ok (model_bytes params p + cached * batch_size + written * batch_size)

  -- total_ms is the larger of the two times.
  unfoldable pub breakdown_of : R → R → ℕ → ℕ → LatencyBreakdown R
  unfolding larger
  breakdown_of compute_ms memory_ms flops bytes_accessed = record {
    compute_ms = compute_ms;
    memory_ms = memory_ms;
    total_ms = larger numbers compute_ms memory_ms;
    is_compute_bound = numbers.le memory_ms compute_ms;
    flops = flops;
    bytes_accessed = bytes_accessed;
  }

  -- The time of so many operations and bytes, in ms.
  unfoldable pub roofline : Calculator R → ℕ → ℕ → Result (LatencyBreakdown R)
  unfolding ratio effective_compute_tflops effective_memory_bandwidth_gb_s breakdown_of
  roofline c flops bytes_accessed = do
    compute ←
        ratio numbers (numbers.of_int flops)
          (numbers.times (effective_compute_tflops c) (power_of_ten numbers 12))
    memory ←
        ratio numbers (numbers.of_int bytes_accessed)
          (numbers.times (effective_memory_bandwidth_gb_s c) (power_of_ten numbers 9))
    ok (
        breakdown_of (numbers.times compute (numbers.of_int 1000))
          (numbers.times memory (numbers.of_int 1000)) flops bytes_accessed)

  unfoldable pub prefill_latency : Calculator R → ℕ → ℕ → ℕ → Result (LatencyBreakdown R)
  unfolding shape_of compute_bytes_for_prefill roofline prefill_flops
  prefill_latency c num_tokens batch_size context_tokens = do
    m ← shape_of c.model
    total_bytes ← compute_bytes_for_prefill c.model num_tokens batch_size context_tokens
    roofline c (prefill_flops m num_tokens batch_size context_tokens) total_bytes

  unfoldable pub decode_latency : Calculator R → ℕ → ℕ → Result (LatencyBreakdown R)
  unfolding shape_of compute_bytes_for_decode roofline decode_flops
  decode_latency c context_length batch_size = do
    m ← shape_of c.model
    total_bytes ← compute_bytes_for_decode c.model context_length batch_size
    roofline c (decode_flops m context_length batch_size) total_bytes

  pub kv_transfer_latency : Calculator R → ℕ → R → R → Result R
  unfolding ratio kv_cache_size_bytes
  kv_transfer_latency c zero bandwidth_gb_s overhead_ms = ok (nought numbers)
  kv_transfer_latency c (suc n) bandwidth_gb_s overhead_ms = do
    kv_bytes ← kv_cache_size_bytes c.model (suc n)
    transfer ←
        ratio numbers (numbers.of_int kv_bytes)
          (numbers.times bandwidth_gb_s (power_of_ten numbers 9))
    ok (numbers.plus (numbers.times transfer (numbers.of_int 1000)) overhead_ms)

  -- The time of the first token with so many tokens to prefill.
  unfoldable pub first_token : Calculator R → ℕ → ℕ → ℕ → Result R
  unfolding prefill_latency decode_latency
  first_token c input_tokens zero batch_size = do
    decode ← decode_latency c input_tokens batch_size
    ok decode.total_ms
  first_token c input_tokens (suc n) batch_size = do
    prefill ← prefill_latency c (suc n) batch_size (input_tokens - suc n)
    ok prefill.total_ms

  unfoldable pub estimate_ttft : Calculator R → ℕ → ℕ → ℕ → Result R
  unfolding first_token
  estimate_ttft c input_tokens cache_hit_tokens batch_size =
      first_token c input_tokens (input_tokens - cache_hit_tokens) batch_size

  -- decode_ms over so many steps from step i on.
  unfoldable pub decode_loop : Calculator R → ℕ → ℕ → ℕ → ℕ → R → Result R
  unfolding decode_latency
  decode_loop c input_tokens batch_size zero i decode_ms = ok decode_ms
  decode_loop c input_tokens batch_size (suc n) i decode_ms = do
    decode ← decode_latency c (input_tokens + i) batch_size
    decode_loop c input_tokens batch_size n (i + 1) (numbers.plus decode_ms decode.total_ms)

  unfoldable pub tokens_per_second_of : ℕ → R → Result R
  unfolding ratio
  tokens_per_second_of output_tokens total_ms =
      if numbers.lt (nought numbers) total_ms
      then ratio numbers (numbers.of_int output_tokens)
          (numbers.divide total_ms (numbers.of_int 1000))
      else ok (nought numbers)

  -- The answer of estimate_generation_time, its three arguments left out.
  pub record Generation : Type 0 where
    pub prefill_ms : R
    pub decode_ms : R
    pub total_ms : R
    pub ttft_ms : R
    pub tokens_per_second : R

  unfoldable pub estimate_generation_time : Calculator R → ℕ → ℕ → ℕ → ℕ → Result Generation
  unfolding first_token decode_loop tokens_per_second_of estimate_ttft
  estimate_generation_time c input_tokens output_tokens cache_hit_tokens batch_size = do
    prefill_ms ← first_token c input_tokens (input_tokens - cache_hit_tokens) batch_size
    decode_ms ← decode_loop c input_tokens batch_size (output_tokens - 1) 1 (nought numbers)
    speed ← tokens_per_second_of output_tokens (numbers.plus prefill_ms decode_ms)
    ttft_ms ← estimate_ttft c input_tokens cache_hit_tokens batch_size
    ok (record {
      prefill_ms = prefill_ms;
      decode_ms = decode_ms;
      total_ms = numbers.plus prefill_ms decode_ms;
      ttft_ms = ttft_ms;
      tokens_per_second = speed;
    })
