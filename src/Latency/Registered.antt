-- ===== src/Latency/Registered.antt =====
-- A calculator over a registered GPU and a registered model.
use llm_kv_passthrough.Prelude.{
  ℕ, ◌≤◌, ◌<◌, ◌≡◌, sym, ap, ◌∙◌, subst, inr, true, Text, ltb, ltb→lt, &&-eq-true, arith,
}
use llm_kv_passthrough.Prelude.Result.{ok, ok-injective, >>=-eq-ok}
use llm_kv_passthrough.Numbers.{Numbers, NumberLaws, nought, ◌≼◌, ◌≺◌}
use llm_kv_passthrough.Gpus.{hbm_bandwidth_gb_s}
use llm_kv_passthrough.Gpus.Registry.{get_gpu_profile, has_power, get_gpu_profile-has_power}
use llm_kv_passthrough.Models.Registry.{get_model_profile}
use llm_kv_passthrough.Models.Fits.{get_model_profile-fits}
use llm_kv_passthrough.Latency.Times.{
  Calculator, named, create_calculator, effective_compute_tflops, effective_memory_bandwidth_gb_s,
  estimate_ttft,
}
use llm_kv_passthrough.Latency.Costs.{HasRates}
use llm_kv_passthrough.Latency.Hits.{estimate_ttft_antitone}

-- What a calculator over two names has of them.
pub create_calculator-named :
    {R : Type 0} (gpu_name model_name : Text) (tp_size : ℕ) (efficiency : R) (c : Calculator R)
    → create_calculator (named gpu_name) (named model_name) tp_size efficiency ≡ ok c
    → (get_gpu_profile gpu_name ≡ ok c.gpu)
      × (get_model_profile model_name ≡ ok c.model)
      × (c.tp_size ≡ tp_size)
      × (c.efficiency ≡ efficiency)
unfolding create_calculator
create_calculator-named gpu_name model_name tp_size efficiency c made =
    let (gpu, g, rest) = >>=-eq-ok (get_gpu_profile gpu_name) _ made in
    let (model, m, built) = >>=-eq-ok (get_model_profile model_name) _ rest in
    let e = ok-injective built in
    (
      g ∙ ap (λ x. ok x.gpu) e,
      m ∙ ap (λ x. ok x.model) e,
      sym (ap (λ x. x.tp_size) e),
      sym (ap (λ x. x.efficiency) e),
    )

pub rates_pos :
    {R : Type 0} ⦃numbers : Numbers R⦄ (law : NumberLaws R) (c : Calculator R)
    → has_power c.gpu ≡ true
    → 0 < c.tp_size
    → nought numbers ≺ c.efficiency
    → HasRates c
unfolding effective_compute_tflops effective_memory_bandwidth_gb_s hbm_bandwidth_gb_s
rates_pos law c power tp eff =
    let (peak, bandwidth) =
      &&-eq-true (ltb 0 c.gpu.bf16_tflops.digits) (ltb 0 c.gpu.hbm_bandwidth_tb_s.digits) power in
    let tp_pos = law.of_int_pos c.tp_size tp in
    let peak_pos = law.of_decimal_pos c.gpu.bf16_tflops (ltb→lt 0 _ peak) in
    let band_pos = law.of_decimal_pos c.gpu.hbm_bandwidth_tb_s (ltb→lt 0 _ bandwidth) in
    let giga_pos = law.times_pos _ _ band_pos (law.of_int_pos 1000 (omega arith)) in
    record {
      compute =
          law.times_pos _ _ (law.times_pos _ _ (law.times_pos _ _ peak_pos eff) tp_pos)
            (law.of_decimal_pos _ (omega arith));
      memory =
          law.times_pos _ _ (law.times_pos _ _ (law.times_pos _ _ giga_pos eff) tp_pos)
            (law.of_decimal_pos _ (omega arith));
    }

-- A calculator that was created over the names of a GPU and of a model, with at least one GPU
-- and a positive efficiency, where the floats keep their laws: estimate_ttft returns for every
-- prompt and every hit, and a longer hit, up to the whole prompt and past it, takes no longer.
pub estimate_ttft-registered :
    {R : Type 0} ⦃numbers : Numbers R⦄ (law : NumberLaws R) (gpu_name model_name : Text)
    (tp_size : ℕ) (efficiency : R) (c : Calculator R) (input_tokens hit longer batch_size : ℕ)
    → create_calculator (named gpu_name) (named model_name) tp_size efficiency ≡ ok c
    → 0 < tp_size
    → nought numbers ≺ efficiency
    → hit ≤ longer
    → (ms : R) × (less : R) × (estimate_ttft numbers c input_tokens hit batch_size ≡ ok ms)
      × (estimate_ttft numbers c input_tokens longer batch_size ≡ ok less)
      × (less ≼ ms)
estimate_ttft-registered ⦃numbers⦄ law gpu_name model_name tp efficiency c input hit longer batch
      made tp_pos eff h =
    let (g, m, t, f) = create_calculator-named gpu_name model_name tp efficiency c made in
    let (dim, dim_eq, more, small) = get_model_profile-fits model_name c.model m in
    let rates =
      rates_pos law c (get_gpu_profile-has_power gpu_name g) (subst (λ x. 0 < x) (sym t) tp_pos)
        (subst (λ x. nought numbers ≺ x) (sym f) eff) in
    estimate_ttft_antitone law c dim input hit longer batch rates dim_eq h (inr small)
