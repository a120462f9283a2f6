-- ===== src/Latency/Examples.antt =====
-- The FLOP counts at a small model, and the times of a registered one in fixed-point numbers.
use llm_kv_passthrough.Prelude.{ℕ, ◌+◌, ◌≡◌, refl, inl, Text, codes, text_eq, find_named, arith}
use llm_kv_passthrough.Prelude.Result.{ok, err, key_error}
use llm_kv_passthrough.Numbers.{◌≼◌}
use llm_kv_passthrough.Numbers.Fixed.{fixed, fixed-NumberLaws}
use llm_kv_passthrough.Gpus.Registry.{get_gpu_profile, gpu_h100_sxm}
use llm_kv_passthrough.Models.{head_dim, effective_kv_layers}
use llm_kv_passthrough.Models.Registry.{get_model_profile, profile_llama_3_1_8b}
use llm_kv_passthrough.Latency.Times.{
  Calculator, named, create_calculator, estimate_ttft, Generation, estimate_generation_time,
}
use llm_kv_passthrough.Latency.Costs.{HasRates}
use llm_kv_passthrough.Latency.Hits.{estimate_ttft_antitone}
use llm_kv_passthrough.Latency.Registered.{rates_pos, estimate_ttft-registered}
use llm_kv_passthrough.Latency.Generation.{estimate_generation_time-estimate_ttft}
use llm_kv_passthrough.Latency.{Shape, pairs_between, prefill_flops}
use llm_kv_passthrough.Latency.Split.{prefill_flops-add}

abbrev small : Shape
small = record {
  hidden = 8;
  intermediate = 16;
  layers = 2;
  num_heads = 2;
  kv_heads = 1;
  head_dim = 4;
}

pairs : pairs_between 3 7 ≡ 22
unfolding pairs_between
pairs = refl

prefill_flops-add_example :
    prefill_flops small (3 + 4) 1 2 ≡ prefill_flops small 3 1 2 + prefill_flops small 4 1 (2 + 3)
prefill_flops-add_example = prefill_flops-add small 3 4 1 2

abbrev h100_llama : Calculator ℕ
h100_llama = record {
  gpu = gpu_h100_sxm;
  model = profile_llama_3_1_8b;
  tp_size = 2;
  efficiency = 700;
}

abbrev h100 : Text
h100 = codes "H100_SXM"

abbrev llama : Text
llama = codes "llama-3.1-8b"

made : create_calculator (named h100) (named llama) 2 700 ≡ ok h100_llama
unfolding create_calculator get_gpu_profile get_model_profile find_named text_eq
made = refl

llama_head_dim : head_dim profile_llama_3_1_8b ≡ ok 128
unfolding head_dim
llama_head_dim = refl

h100_llama_rates : HasRates h100_llama
h100_llama_rates = rates_pos fixed-NumberLaws h100_llama refl (omega arith) refl

unknown_gpu : create_calculator {R = ℕ} (named llama) (named llama) 2 700 ≡ err key_error
unfolding create_calculator get_gpu_profile find_named text_eq
unknown_gpu = refl

-- In thousandths: half of the prompt in the cache.
half : estimate_ttft fixed h100_llama 2000 1000 1 ≡ ok 11000
unfolding estimate_ttft head_dim effective_kv_layers
half = refl

estimate_ttft_antitone_example :
    (ms : ℕ) × (less : ℕ) × (estimate_ttft fixed h100_llama 2000 0 1 ≡ ok ms)
    × (estimate_ttft fixed h100_llama 2000 1000 1 ≡ ok less)
    × (less ≼ ms)
estimate_ttft_antitone_example =
    estimate_ttft_antitone fixed-NumberLaws h100_llama 128 2000 0 1000 1 h100_llama_rates
      llama_head_dim (omega arith) (inl (omega arith))

estimate_ttft-registered_example :
    (ms : ℕ) × (less : ℕ) × (estimate_ttft fixed h100_llama 2000 1000 1 ≡ ok ms)
    × (estimate_ttft fixed h100_llama 2000 2500 1 ≡ ok less)
    × (less ≼ ms)
estimate_ttft-registered_example =
    estimate_ttft-registered fixed-NumberLaws h100 llama 2 700 h100_llama 2000 1000 2500 1 made
      (omega arith) refl (omega arith)

estimate_generation_time-estimate_ttft_example :
    (g : Generation fixed) × (estimate_generation_time fixed h100_llama 100 8 50 1 ≡ ok g)
    × (estimate_ttft fixed h100_llama 100 50 1 ≡ ok g.ttft_ms)
    × (g.ttft_ms ≡ g.prefill_ms)
    × (g.total_ms ≡ g.prefill_ms + g.decode_ms)
    × (0 ≼ g.prefill_ms)
    × (0 ≼ g.decode_ms)
    × (0 ≼ g.total_ms)
estimate_generation_time-estimate_ttft_example =
    estimate_generation_time-estimate_ttft fixed-NumberLaws h100_llama 128 100 8 50 1
      h100_llama_rates llama_head_dim
