-- ===== src/Timing/Prefix.antt =====
-- What a RooflineTimingStrategy says of a prompt with a cached prefix.
use llm_kv_passthrough.Prelude.{
  ℕ, ◌+◌, ◌-◌, ◌≤◌, ◌<◌, ◌≡◌, refl, sym, ap, ◌∙◌, subst, inl, inr, Bool, true, Option, none, some,
  Text, find_named-err, ltb→lt, arith,
}
use llm_kv_passthrough.Prelude.Result.{
  ok, err, Error, key_error, ok-injective, >>=-eq-ok, >>=-eq-err,
}
use llm_kv_passthrough.Numbers.{Decimal, Numbers, NumberLaws, nought, ◌≼◌, ◌≺◌}
use llm_kv_passthrough.Gpus.Registry.{
  gpu_profiles, get_gpu_profile, has_link, get_gpu_profile-has_power, get_gpu_profile-has_link,
}
use llm_kv_passthrough.Models.{head_dim}
use llm_kv_passthrough.Models.Registry.{model_profiles, get_model_profile}
use llm_kv_passthrough.Models.Fits.{get_model_profile-fits}
use llm_kv_passthrough.Latency.Times
use llm_kv_passthrough.Latency.Times.{
  Calculator, LatencyBreakdown, named, create_calculator, resolve,
}
use llm_kv_passthrough.Latency.Costs.{HasRates}
use llm_kv_passthrough.Latency.Hits.{prefill_latency-StepsNoSlower, decode_latency-StepsNoSlower}
use llm_kv_passthrough.Latency.Registered.{create_calculator-named, rates_pos}
use llm_kv_passthrough.Timing.Contract.{TakesNoLonger, IsMonotone, timing_result-TakesNoLonger}
use llm_kv_passthrough.Timing.Roofline.{
  RooflineStrategy, interconnect, create_roofline, build_result, prefill_latency, decode_latency,
  allreduce_overhead_ms, pipeline_overhead_ms,
}
use llm_kv_passthrough.Timing.Overhead.{
  allreduce_overhead_ms-NoSlower, pipeline_overhead_ms-NoSlower,
}

-- An override of the bandwidth that is positive, where there is one.
abbrev pub IsPositive : {R : Type 0} ⦃numbers : Numbers R⦄ → Option R → Type 0
IsPositive none = Unit
IsPositive ⦃numbers⦄ (some bandwidth) = nought numbers ≺ bandwidth

module _ {R : Type 0} ⦃numbers : Numbers R⦄ where
  -- A model with a head dimension, positive rates and a link with bandwidth.
  pub record IsReady (s : RooflineStrategy R) : Type 0 where
    pub rates : HasRates s.calculator
    pub dim : ℕ
    pub dim_eq : head_dim s.calculator.model ≡ ok dim
    pub link : nought numbers ≺ s.interconnect_bandwidth_gb_s

module _ {R : Type 0} ⦃numbers : Numbers R⦄ (law : NumberLaws R) where
  interconnect_pos :
      (nvlink : Option R) (link : Option Decimal)
      → IsPositive nvlink
      → has_link link ≡ true
      → nought numbers ≺ interconnect numbers nvlink link
  unfolding interconnect
  interconnect_pos (some bandwidth) link given there = given
  interconnect_pos none none given there = law.of_decimal_pos _ (omega arith)
  interconnect_pos none (some d) given there =
      let pos = law.of_decimal_pos d (ltb→lt 0 _ there) in rw (law.is_zero_of_lt _ pos) pos

  build_result-TakesNoLonger :
      (fast slow : LatencyBreakdown R) (a b p q : R)
      → fast.total_ms ≼ slow.total_ms
      → a ≼ b
      → p ≼ q
      → nought numbers ≼ fast.total_ms
      → nought numbers ≼ a
      → nought numbers ≼ p
      → TakesNoLonger (build_result numbers fast a p) (build_result numbers slow b q)
  unfolding build_result
  build_result-TakesNoLonger fast slow a b p q h k l hf ha hp =
      timing_result-TakesNoLonger law _ _ _ _ fast.is_compute_bound slow.is_compute_bound
        (law.plus_mono _ _ _ _ (law.plus_mono _ _ _ _ h k) l)
        (law.le_trans _ _ _ (law.le_trans _ _ _ hf (law.le_plus _ a ha)) (law.le_plus _ p hp))

  prefill_latency-parts :
      (s : RooflineStrategy R) (n batch context : ℕ) (base : LatencyBreakdown R) (a p : R)
      → Times.prefill_latency numbers s.calculator n batch context ≡ ok base
      → allreduce_overhead_ms numbers s n batch ≡ ok a
      → pipeline_overhead_ms numbers s n batch ≡ ok p
      → prefill_latency numbers s n batch context ≡ build_result numbers base a p
  unfolding prefill_latency
  prefill_latency-parts s n batch context base a p e f g = rw (e, f, g) refl

  decode_latency-parts :
      (s : RooflineStrategy R) (context batch : ℕ) (base : LatencyBreakdown R) (a p : R)
      → Times.decode_latency numbers s.calculator context batch ≡ ok base
      → allreduce_overhead_ms numbers s 1 batch ≡ ok a
      → pipeline_overhead_ms numbers s 1 batch ≡ ok p
      → decode_latency numbers s context batch ≡ build_result numbers base a p
  unfolding decode_latency
  decode_latency-parts s context batch base a p e f g = rw (e, f, g) refl

  pub prefill_latency-TakesNoLonger :
      (s : RooflineStrategy R) (n n' context context' batch : ℕ)
      → IsReady s
      → n ≤ n'
      → n + context ≡ n' + context'
      → TakesNoLonger
          (prefill_latency numbers s n batch context)
          (prefill_latency numbers s n' batch context')
  prefill_latency-TakesNoLonger s n n' context context' batch ready h total =
      let base =
        prefill_latency-StepsNoSlower law s.calculator ready.dim n n' context context' batch
          ready.rates ready.dim_eq h total in
      let a = allreduce_overhead_ms-NoSlower law s ready.link n n' batch h in
      let p = pipeline_overhead_ms-NoSlower law s ready.link n n' batch h in
      rw
        (
          prefill_latency-parts s n batch context _ _ _ base.fast_returns a.fast_returns
              p.fast_returns,
          prefill_latency-parts s n' batch context' _ _ _ base.slow_returns a.slow_returns
              p.slow_returns,
        )
        (build_result-TakesNoLonger _ _ _ _ _ _ base.no_slower a.no_slower p.no_slower base.nonneg
          a.nonneg p.nonneg)

  decode_latency-TakesNoLonger :
      (s : RooflineStrategy R) (context longer batch : ℕ)
      → IsReady s
      → context ≤ longer
      → TakesNoLonger
          (decode_latency numbers s context batch)
          (decode_latency numbers s longer batch)
  decode_latency-TakesNoLonger s context longer batch ready h =
      let base =
        decode_latency-StepsNoSlower law s.calculator ready.dim context longer batch ready.rates
          ready.dim_eq h in
      let a = allreduce_overhead_ms-NoSlower law s ready.link 1 1 batch (omega arith) in
      let p = pipeline_overhead_ms-NoSlower law s ready.link 1 1 batch (omega arith) in
      rw
        (
          decode_latency-parts s context batch _ _ _ base.fast_returns a.fast_returns
              p.fast_returns,
          decode_latency-parts s longer batch _ _ _ base.slow_returns a.fast_returns p.fast_returns,
        )
        (build_result-TakesNoLonger _ _ _ _ _ _ base.no_slower (law.le_refl _) (law.le_refl _)
          base.nonneg a.nonneg p.nonneg)

  pub IsReady-IsMonotone :
      (s : RooflineStrategy R)
      → IsReady s
      → IsMonotone (prefill_latency numbers s) (decode_latency numbers s)
  IsReady-IsMonotone s ready = record {
    prefill = λ prompt cached longer batch h k.
        prefill_latency-TakesNoLonger s (prompt - longer) (prompt - cached) longer cached batch
          ready (omega arith) (omega arith);
    decode = λ context longer batch h. decode_latency-TakesNoLonger s context longer batch ready h;
  }

-- What a strategy over two names has of them.
create_roofline-named :
    {R : Type 0} (numbers : Numbers R) (gpu_name model_name : Text) (tp_size pp_size : ℕ)
    (efficiency : R) (include_tp include_pp : Bool) (nvlink : Option R) (s : RooflineStrategy R)
    → create_roofline numbers
        (named gpu_name)
        (named model_name)
        tp_size
        pp_size
        efficiency
        include_tp
        include_pp
        nvlink
      ≡ ok s
    → (create_calculator (named gpu_name) (named model_name) tp_size efficiency ≡ ok s.calculator)
      × (interconnect numbers nvlink s.calculator.gpu.nvlink_bandwidth_gb_s
          ≡ s.interconnect_bandwidth_gb_s)
unfolding create_roofline
create_roofline-named numbers gpu_name model_name tp pp eff itp ipp nvlink s made =
    let (c, e, rest) =
      >>=-eq-ok (create_calculator (named gpu_name) (named model_name) tp eff) _ made in
    let (m, f, built) = >>=-eq-ok (get_model_profile model_name) _ rest in
    let k = ok-injective built in
    (
      e ∙ ap (λ x. ok x.calculator) k,
      ap (λ x. interconnect numbers nvlink x.calculator.gpu.nvlink_bandwidth_gb_s) (sym k)
          ∙ ap (λ x. x.interconnect_bandwidth_gb_s) k,
    )

pub create_roofline-IsReady :
    {R : Type 0} ⦃numbers : Numbers R⦄ (law : NumberLaws R) (gpu_name model_name : Text)
    (tp_size pp_size : ℕ) (efficiency : R) (include_tp include_pp : Bool) (nvlink : Option R)
    (s : RooflineStrategy R)
    → create_roofline numbers
        (named gpu_name)
        (named model_name)
        tp_size
        pp_size
        efficiency
        include_tp
        include_pp
        nvlink
      ≡ ok s
    → 0 < tp_size
    → nought numbers ≺ efficiency
    → IsPositive nvlink
    → IsReady s
create_roofline-IsReady ⦃numbers⦄ law gpu_name model_name tp pp eff itp ipp nvlink s made tp_pos
      eff_pos given =
    let (made_c, link) =
      create_roofline-named numbers gpu_name model_name tp pp eff itp ipp nvlink s made in
    let (g, m, t, f) = create_calculator-named gpu_name model_name tp eff s.calculator made_c in
    let (dim, dim_eq, more, small) = get_model_profile-fits model_name s.calculator.model m in
    record {
      rates =
          rates_pos law s.calculator (get_gpu_profile-has_power gpu_name g)
            (subst (λ x. 0 < x) (sym t) tp_pos) (subst (λ x. nought numbers ≺ x) (sym f) eff_pos);
      dim = dim;
      dim_eq = dim_eq;
      link =
          subst (λ x. nought numbers ≺ x) link
            (interconnect_pos law nvlink s.calculator.gpu.nvlink_bandwidth_gb_s given
              (get_gpu_profile-has_link gpu_name g));
    }

-- A name that is not registered is the one thing that can be wrong.
pub create_roofline-err :
    {R : Type 0} (numbers : Numbers R) (gpu_name model_name : Text) (tp_size pp_size : ℕ)
    (efficiency : R) (include_tp include_pp : Bool) (nvlink : Option R) (raised : Error)
    → create_roofline numbers
        (named gpu_name)
        (named model_name)
        tp_size
        pp_size
        efficiency
        include_tp
        include_pp
        nvlink
      ≡ err raised
    → raised ≡ key_error
unfolding create_roofline create_calculator get_gpu_profile get_model_profile
create_roofline-err numbers gpu_name model_name tp pp eff itp ipp nvlink raised h =
    let model : get_model_profile model_name ≡ err raised → raised ≡ key_error =
      λ e. find_named-err model_name model_profiles e in
    elim (>>=-eq-err (create_calculator (named gpu_name) (named model_name) tp eff) _ h) [
      | inr (c, e, rest) ↦ elim (>>=-eq-err (get_model_profile model_name) _ rest) [
        | inl f ↦ model f
        | inr (m, f, built) ↦ cc
      ]
      | inl e ↦ elim (>>=-eq-err (get_gpu_profile gpu_name) _ e) [
        | inl f ↦ find_named-err gpu_name gpu_profiles f
        | inr (g, f, rest) ↦ elim (>>=-eq-err (get_model_profile model_name) _ rest) [
          | inl k ↦ model k
          | inr (m, k, built) ↦ cc
        ]
      ]
    ]
