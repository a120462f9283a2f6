-- ===== src/Latency/Generation.antt =====
-- estimate_generation_time against estimate_ttft.
use llm_kv_passthrough.Prelude.{
  ℕ, zero, suc, ◌+◌, ◌-◌, ◌≡◌, refl, ap, ◌∙◌, inl, inr, Bool-cases, arith,
}
use llm_kv_passthrough.Prelude.Result.{ok, ◌>>=◌}
use llm_kv_passthrough.Numbers.{Numbers, NumberLaws, nought, ◌≼◌}
use llm_kv_passthrough.Numbers.Order.{ratio_pos}
use llm_kv_passthrough.Models.{head_dim}
use llm_kv_passthrough.Latency.Times.{
  Calculator, estimate_ttft, decode_loop, tokens_per_second_of, Generation,
  estimate_generation_time,
}
use llm_kv_passthrough.Latency.Costs.{HasRates}
use llm_kv_passthrough.Latency.Hits.{decode_latency-StepsNoSlower, estimate_ttft_total}

module _ {R : Type 0} ⦃numbers : Numbers R⦄ (law : NumberLaws R) (c : Calculator R)
    (rates : HasRates c) (dim : ℕ) (dim_eq : head_dim c.model ≡ ok dim) where
  -- The sum of the decode steps returns, and is no less than what was there before.
  decode_loop_total :
      (input batch n i : ℕ) (before : R)
      → (after : R) × (decode_loop numbers c input batch n i before ≡ ok after) × (before ≼ after)
  unfolding decode_loop
  decode_loop_total input batch zero i before = (before, refl, law.le_refl _)
  decode_loop_total input batch (suc n) i before =
      let base =
        decode_latency-StepsNoSlower law c dim (input + i) (input + i) batch rates dim_eq
          (omega arith) in
      let d = base.fast_step.total_ms in
      let (after, e, h) = decode_loop_total input batch n (i + 1) (numbers.plus before d) in
      (
        after,
        ap
              (λ r. r >>= λ s.
                decode_loop numbers c input batch n (i + 1) (numbers.plus before s.total_ms))
              base.fast_returns
            ∙ e,
        law.le_trans _ _ _ (law.le_plus before d base.nonneg) h,
      )

  tokens_per_second_of_total :
      (output : ℕ) (total : R)
      → (speed : R) × (tokens_per_second_of numbers output total ≡ ok speed)
  unfolding tokens_per_second_of
  tokens_per_second_of_total output total = elim (Bool-cases (numbers.lt (nought numbers) total)) [
    | inl e ↦
        let pos =
          law.divide_pos total (numbers.of_int 1000) e (law.of_int_pos 1000 (omega arith)) in
        (
          numbers.divide (numbers.of_int output) (numbers.divide total (numbers.of_int 1000)),
          rw e (ratio_pos law _ _ pos),
        )
    | inr e ↦ (nought numbers, rw e refl)
  ]

-- Where the floats keep their laws, the model has a head dimension and the two rates of the
-- calculator are positive: estimate_generation_time returns for every prompt, output and hit, its
-- ttft_ms is its prefill_ms and is what estimate_ttft answers, total_ms is prefill_ms plus
-- decode_ms, and none of the three parts is below zero.
pub estimate_generation_time-estimate_ttft :
    {R : Type 0} ⦃numbers : Numbers R⦄ (law : NumberLaws R) (c : Calculator R) (dim : ℕ)
    (input_tokens output_tokens hit batch_size : ℕ)
    → HasRates c
    → head_dim c.model ≡ ok dim
    → (g : Generation numbers) × (estimate_generation_time numbers c input_tokens output_tokens hit
          batch_size
        ≡ ok g)
      × (estimate_ttft numbers c input_tokens hit batch_size ≡ ok g.ttft_ms)
      × (g.ttft_ms ≡ g.prefill_ms)
      × (g.total_ms ≡ numbers.plus g.prefill_ms g.decode_ms)
      × (nought numbers ≼ g.prefill_ms)
      × (nought numbers ≼ g.decode_ms)
      × (nought numbers ≼ g.total_ms)
unfolding estimate_generation_time estimate_ttft
estimate_generation_time-estimate_ttft ⦃numbers⦄ law c dim input output hit batch rates dim_eq =
    let (first, e, h) = estimate_ttft_total law c dim input hit batch rates dim_eq in
    let (decode, f, k) =
      decode_loop_total law c rates dim dim_eq input batch (output - 1) 1 (nought numbers) in
    let (speed, l) =
      tokens_per_second_of_total law c rates dim dim_eq output (numbers.plus first decode) in
    (
      record {
        prefill_ms = first;
        decode_ms = decode;
        total_ms = numbers.plus first decode;
        ttft_ms = first;
        tokens_per_second = speed;
      },
      rw (e, f, l) refl,
      e,
      refl,
      refl,
      h,
      k,
      law.le_trans _ _ _ h (law.le_plus first decode k),
    )
