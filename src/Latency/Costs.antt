-- ===== src/Latency/Costs.antt =====
-- The steps of a calculator whose model has a head dimension and whose rates are positive: they
-- return, and their times are monotone in the operations and the bytes.
use llm_kv_passthrough.Prelude.{ℕ, ◌+◌, ◌*◌, ◌≤◌, ◌≡◌, refl, arith}
use llm_kv_passthrough.Prelude.Result.{ok}
use llm_kv_passthrough.Numbers.{Numbers, NumberLaws, nought, power_of_ten, ◌≼◌, ◌≺◌}
use llm_kv_passthrough.Numbers.Order.{ratio_pos, larger_mono, le_larger_left}
use llm_kv_passthrough.Models.{ModelProfile, head_dim, total_kv_cache_bytes_per_token}
use llm_kv_passthrough.Models.Fits.{token_bytes}
use llm_kv_passthrough.Models.Params.{estimated_params_billions}
use llm_kv_passthrough.Latency.{prefill_flops, decode_flops}
use llm_kv_passthrough.Latency.Times.{
  Calculator, LatencyBreakdown, shape, shape_of, effective_compute_tflops,
  effective_memory_bandwidth_gb_s, model_bytes, compute_bytes_for_prefill, compute_bytes_for_decode,
  breakdown_of, roofline, prefill_latency, decode_latency,
}

module _ {R : Type 0} ⦃numbers : Numbers R⦄ where
  abbrev pub compute_rate : Calculator R → R
  compute_rate c = numbers.times (effective_compute_tflops numbers c) (power_of_ten numbers 12)

  abbrev pub memory_rate : Calculator R → R
  memory_rate c = numbers.times (effective_memory_bandwidth_gb_s numbers c) (power_of_ten numbers 9)

  -- The rates that the counts are divided by.
  pub record HasRates (c : Calculator R) : Type 0 where
    pub compute : nought numbers ≺ compute_rate c
    pub memory : nought numbers ≺ memory_rate c

  abbrev pub millis : ℕ → R → R
  millis amount rate =
      numbers.times (numbers.divide (numbers.of_int amount) rate) (numbers.of_int 1000)

  abbrev pub step : Calculator R → ℕ → ℕ → LatencyBreakdown R
  step c flops bytes =
      breakdown_of numbers (millis flops (compute_rate c)) (millis bytes (memory_rate c)) flops
        bytes

  abbrev pub prefill_bytes : R → ModelProfile → ℕ → ℕ → ℕ → ℕ → ℕ
  prefill_bytes params p dim n batch context =
      model_bytes numbers params p
      + token_bytes p dim * n * batch
      + token_bytes p dim * context * batch
      + p.hidden * n * batch * 2 * p.layers

  abbrev pub decode_bytes : R → ModelProfile → ℕ → ℕ → ℕ → ℕ
  decode_bytes params p dim context batch =
      model_bytes numbers params p + token_bytes p dim * context * batch + token_bytes p dim * batch

  module _ (law : NumberLaws R) (c : Calculator R) (rates : HasRates c) where
    roofline-ok : (flops bytes : ℕ) → roofline numbers c flops bytes ≡ ok (step c flops bytes)
    unfolding roofline
    roofline-ok flops bytes =
        rw
          (
            ratio_pos law (numbers.of_int flops) (compute_rate c) rates.compute,
            ratio_pos law (numbers.of_int bytes) (memory_rate c) rates.memory,
          )
          refl

    millis_mono :
        (m n : ℕ) (rate : R) → m ≤ n → nought numbers ≺ rate → millis m rate ≼ millis n rate
    millis_mono m n rate h pos =
        law.times_mono _ _ _ (law.divide_mono _ _ rate (law.of_int_mono m n h) pos)
          (law.of_int_mono 0 1000 (omega arith))

    pub step_mono :
        (flops flops' bytes bytes' : ℕ)
        → flops ≤ flops'
        → bytes ≤ bytes'
        → (step c flops bytes).total_ms ≼ (step c flops' bytes').total_ms
    unfolding breakdown_of
    step_mono flops flops' bytes bytes' h k =
        larger_mono law _ _ _ _ (millis_mono flops flops' (compute_rate c) h rates.compute)
          (millis_mono bytes bytes' (memory_rate c) k rates.memory)

    pub step_nonneg : (flops bytes : ℕ) → nought numbers ≼ (step c flops bytes).total_ms
    unfolding breakdown_of
    step_nonneg flops bytes =
        law.le_trans _ _ _
          (law.times_nonneg _ _
            (law.divide_nonneg _ _ (law.of_int_mono 0 flops (omega arith)) rates.compute)
            (law.of_int_mono 0 1000 (omega arith)))
          (le_larger_left law _ _)

    module _ (dim : ℕ) (dim_eq : head_dim c.model ≡ ok dim) (params : R)
        (params_eq : estimated_params_billions numbers c.model ≡ ok params) where
      pub prefill_latency-ok :
          (n batch context : ℕ)
          → prefill_latency numbers c n batch context
            ≡ ok (
                step c
                  (prefill_flops (shape c.model dim) n batch context)
                  (prefill_bytes params c.model dim n batch context))
      unfolding prefill_latency shape_of compute_bytes_for_prefill total_kv_cache_bytes_per_token
      prefill_latency-ok n batch context =
          rw (dim_eq, params_eq)
            (roofline-ok (prefill_flops (shape c.model dim) n batch context)
              (prefill_bytes params c.model dim n batch context))

      pub decode_latency-ok :
          (context batch : ℕ)
          → decode_latency numbers c context batch
            ≡ ok (
                step c
                  (decode_flops (shape c.model dim) context batch)
                  (decode_bytes params c.model dim context batch))
      unfolding decode_latency shape_of compute_bytes_for_decode
      decode_latency-ok context batch =
          rw (dim_eq, params_eq)
            (roofline-ok (decode_flops (shape c.model dim) context batch)
              (decode_bytes params c.model dim context batch))
