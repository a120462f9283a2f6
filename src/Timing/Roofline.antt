-- ===== src/Timing/Roofline.antt =====
-- RooflineTimingStrategy of src/kvbench/timing/roofline.py.
use llm_kv_passthrough.Prelude.{
  ℕ, ◌-◌, ◌*◌, Bool, not, ◌||◌, Option, none, some, List, [], ◌∷◌, ◌++◌, Text, codes, leb,
  if◌then◌else◌,
}
use llm_kv_passthrough.Prelude.Result.{Result, ok, ◌>>=◌}
use llm_kv_passthrough.Numbers.{Decimal, Numbers, nought}
use llm_kv_passthrough.Gpus.{GpuProfile}
use llm_kv_passthrough.Models.{ModelProfile, bytes_per_element}
use llm_kv_passthrough.Models.Registry.{get_model_profile}
use llm_kv_passthrough.Latency.Times
use llm_kv_passthrough.Latency.Times.{
  Calculator, LatencyBreakdown, Reference, resolve, create_calculator,
}
use llm_kv_passthrough.Timing.{
  TimingResult, calculate_allreduce_message_size, calculate_allreduce_ms, calculate_activation_size,
  calculate_pipeline_send_recv_ms, timing_result,
}

pub record RooflineStrategy (R : Type 0) : Type 0 where
  pub calculator : Calculator R
  pub model : ModelProfile
  pub pp_size : ℕ
  pub include_tp_communication : Bool
  pub include_pp_communication : Bool
  pub interconnect_bandwidth_gb_s : R

module _ {R : Type 0} (numbers : Numbers R) where
  -- DEFAULT_INTERCONNECT_BANDWIDTH_GB_S
  abbrev pub default_bandwidth : R
  default_bandwidth = numbers.of_decimal (record { digits = 900; places = 0 })

  -- The override, or `profile.nvlink_bandwidth_gb_s or DEFAULT_INTERCONNECT_BANDWIDTH_GB_S`.
  unfoldable pub interconnect : Option R → Option Decimal → R
  interconnect (some bandwidth) link = bandwidth
  interconnect none none = default_bandwidth
  interconnect none (some d) =
      if numbers.is_zero (numbers.of_decimal d) then default_bandwidth else numbers.of_decimal d

  -- __init__
  unfoldable pub create_roofline :
      Reference GpuProfile
      → Reference ModelProfile
      → ℕ
      → ℕ
      → R
      → Bool
      → Bool
      → Option R
      → Result (RooflineStrategy R)
  unfolding create_calculator get_model_profile interconnect
  create_roofline gpu model_ref tp_size pp_size efficiency include_tp include_pp nvlink = do
    calculator ← create_calculator gpu model_ref tp_size efficiency
    model ← resolve get_model_profile model_ref
    ok (record {
      calculator = calculator;
      model = model;
      pp_size = pp_size;
      include_tp_communication = include_tp;
      include_pp_communication = include_pp;
      interconnect_bandwidth_gb_s = interconnect nvlink calculator.gpu.nvlink_bandwidth_gb_s;
    })

  -- _allreduce_overhead_ms
  unfoldable pub allreduce_overhead_ms : RooflineStrategy R → ℕ → ℕ → Result R
  unfolding calculate_allreduce_message_size calculate_allreduce_ms bytes_per_element
  allreduce_overhead_ms s num_tokens batch_size =
      let message_size =
        calculate_allreduce_message_size (batch_size * num_tokens) s.model.hidden
          (bytes_per_element s.model) in
      let total =
        calculate_allreduce_ms numbers message_size s.calculator.tp_size
          s.interconnect_bandwidth_gb_s
        >>= λ per_op. ok (numbers.times per_op (numbers.of_int (s.model.layers * 2))) in
      if not s.include_tp_communication || leb s.calculator.tp_size 1
      then ok (nought numbers)
      else total

  -- _pipeline_overhead_ms, with the default overhead of 5.0 microseconds for a message
  unfoldable pub pipeline_overhead_ms : RooflineStrategy R → ℕ → ℕ → Result R
  unfolding calculate_activation_size calculate_pipeline_send_recv_ms bytes_per_element
  pipeline_overhead_ms s num_tokens batch_size =
      let activation_size =
        calculate_activation_size batch_size num_tokens s.model.hidden
          (bytes_per_element s.model) in
      let total =
        calculate_pipeline_send_recv_ms numbers activation_size s.interconnect_bandwidth_gb_s
          (numbers.of_decimal (record { digits = 5; places = 0 }))
        >>= λ send_recv. ok (numbers.times send_recv (numbers.of_int (s.pp_size - 1))) in
      if not s.include_pp_communication || leb s.pp_size 1 then ok (nought numbers) else total

  -- The entry of a positive time.
  abbrev pub entry : Text → R → List (Text × R)
  entry key ms = if numbers.lt (nought numbers) ms then (key, ms) ∷ [] else []

  unfoldable pub build_result : LatencyBreakdown R → R → R → Result (TimingResult R)
  unfolding timing_result
  build_result base allreduce_ms pipeline_ms =
      timing_result numbers (numbers.plus (numbers.plus base.total_ms allreduce_ms) pipeline_ms)
        ((codes "compute_ms", base.compute_ms)
          ∷ (codes "memory_ms", base.memory_ms)
          ∷ (entry (codes "allreduce_ms") allreduce_ms ++ entry (codes "pipeline_ms") pipeline_ms))
        base.is_compute_bound

  unfoldable pub prefill_latency : RooflineStrategy R → ℕ → ℕ → ℕ → Result (TimingResult R)
  unfolding Times.prefill_latency allreduce_overhead_ms pipeline_overhead_ms build_result
  prefill_latency s num_tokens batch_size context_tokens = do
    base ← Times.prefill_latency numbers s.calculator num_tokens batch_size context_tokens
    allreduce_ms ← allreduce_overhead_ms s num_tokens batch_size
    pipeline_ms ← pipeline_overhead_ms s num_tokens batch_size
    build_result base allreduce_ms pipeline_ms

  unfoldable pub decode_latency : RooflineStrategy R → ℕ → ℕ → Result (TimingResult R)
  unfolding Times.decode_latency allreduce_overhead_ms pipeline_overhead_ms build_result
  decode_latency s context_length batch_size = do
    base ← Times.decode_latency numbers s.calculator context_length batch_size
    allreduce_ms ← allreduce_overhead_ms s 1 batch_size
    pipeline_ms ← pipeline_overhead_ms s 1 batch_size
    build_result base allreduce_ms pipeline_ms
