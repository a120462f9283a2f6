-- ===== src/Timing/Strategies.antt =====
-- The contract of the strategy that the configuration describes, in each of the three modes.
use llm_kv_passthrough.Prelude.{
  ◌<◌, ◌≡◌, ◌⊎◌, sym, ap, ◌∙◌, inl, inr, subst, true, List, All, Bool-cases, if◌then◌else◌,
}
use llm_kv_passthrough.Prelude.Result.{Result, ok, ◌>>=◌, ok-injective, >>=-eq-ok}
use llm_kv_passthrough.Numbers.{Numbers, NumberLaws, nought, ◌≼◌, ◌≺◌}
use llm_kv_passthrough.Latency.Times.{named}
use llm_kv_passthrough.Timing.Roofline.{RooflineStrategy, create_roofline}
use llm_kv_passthrough.Timing.Simple.{
  SimpleStrategy, create_simple, create_simple-nonneg, simple-IsMonotone,
}
use llm_kv_passthrough.Timing.Contract.{IsMonotone}
use llm_kv_passthrough.Timing.Prefix.{IsPositive, IsReady-IsMonotone, create_roofline-IsReady}
use llm_kv_passthrough.Calibration.{
  Elementary, TimingAnchor, AnchorFiles, anchor_pool, CalibratedStrategy, min_scale, max_scale,
  create_calibrated,
}
use llm_kv_passthrough.Calibration.Prefix.{create_calibrated-IsMonotone}
use llm_kv_passthrough.Timing.Factory.{
  StrategyConfig, Strategy, calibrated_timing, simple_timing, roofline_timing,
  create_timing_strategy, prefill_latency, decode_latency,
}

module _ {R : Type 0} ⦃numbers : Numbers R⦄ (law : NumberLaws R) (elementary : Elementary R)
    (files : AnchorFiles R) (builtin : List (TimingAnchor R)) (config : StrategyConfig R)
    (ordered : min_scale numbers ≼ max_scale numbers)
    (tps : config.calibrated ≡ true
      → (pool : List (TimingAnchor R)) → anchor_pool files builtin config.anchors_file ≡ ok pool
      → All (λ a. 0 < a.tp_size) pool) where
  abbrev calibrated_of : Result (CalibratedStrategy R)
  calibrated_of =
      create_calibrated numbers elementary config.gpu_profile config.model_profile config.tp_size
        config.pp_size config.include_tp_communication config.include_pp_communication
        config.nvlink_bandwidth_gb_s files builtin config.anchors_file

  abbrev simple_of : Result (SimpleStrategy R)
  simple_of = create_simple numbers config.prefill_ms_per_token config.decode_ms_per_token

  abbrev roofline_of : Result (RooflineStrategy R)
  roofline_of =
      create_roofline numbers (named config.gpu_profile) (named config.model_profile) config.tp_size
        config.pp_size config.efficiency_factor config.include_tp_communication
        config.include_pp_communication config.nvlink_bandwidth_gb_s

  -- The constructor of the mode is the one that was called.
  created :
      (r : Result (Strategy R))
      → create_timing_strategy numbers elementary files builtin config ≡ r
      → ((config.calibrated ≡ true) × ((calibrated_of >>= λ s. ok (calibrated_timing s)) ≡ r))
        ⊎ (((config.simple_mode ≡ true) × ((simple_of >>= λ s. ok (simple_timing s)) ≡ r))
            ⊎ ((roofline_of >>= λ s. ok (roofline_timing s)) ≡ r))
  unfolding create_timing_strategy
  created r h = elim (Bool-cases config.calibrated) [
    | inl e ↦ inl (e, ap (λ b. if b then calibrated else rest) (sym e) ∙ h)
    | inr e ↦
        let other = ap (λ b. if b then calibrated else rest) (sym e) ∙ h in
        elim (Bool-cases config.simple_mode) [
          | inl f ↦ inr (inl (f, ap (λ b. if b then simple else roofline) (sym f) ∙ other))
          | inr f ↦ inr (inr (ap (λ b. if b then simple else roofline) (sym f) ∙ other))
        ]
  ]
    where
      calibrated : Result (Strategy R)
      calibrated = calibrated_of >>= λ s. ok (calibrated_timing s)

      simple : Result (Strategy R)
      simple = simple_of >>= λ s. ok (simple_timing s)

      roofline : Result (Strategy R)
      roofline = roofline_of >>= λ s. ok (roofline_timing s)

      rest : Result (Strategy R)
      rest = if config.simple_mode then simple else roofline

  abbrev Monotone : Strategy R → Type 0
  Monotone s = IsMonotone (prefill_latency numbers s) (decode_latency numbers s)

  calibrated_case :
      (s : Strategy R)
      → config.calibrated ≡ true
      → ((a : R) → nought numbers ≼ elementary.exp a)
      → 0 < config.tp_size
      → IsPositive config.nvlink_bandwidth_gb_s
      → (calibrated_of >>= λ c. ok (calibrated_timing c)) ≡ ok s
      → Monotone s
  unfolding prefill_latency decode_latency
  calibrated_case s mode mean tp given h =
      let (c, made, e) = >>=-eq-ok calibrated_of _ h in
      subst Monotone (ok-injective e) (
        create_calibrated-IsMonotone law elementary files builtin config.anchors_file ordered
          (tps mode) config.gpu_profile config.model_profile config.tp_size config.pp_size
          config.include_tp_communication config.include_pp_communication
          config.nvlink_bandwidth_gb_s c mean tp given made)

  simple_case : (s : Strategy R) → (simple_of >>= λ c. ok (simple_timing c)) ≡ ok s → Monotone s
  unfolding prefill_latency decode_latency
  simple_case s h =
      let (c, made, e) = >>=-eq-ok simple_of _ h in
      let (p, d) =
        create_simple-nonneg law config.prefill_ms_per_token config.decode_ms_per_token c made in
      subst Monotone (ok-injective e) (simple-IsMonotone law c p d)

  roofline_case :
      (s : Strategy R)
      → 0 < config.tp_size
      → nought numbers ≺ config.efficiency_factor
      → IsPositive config.nvlink_bandwidth_gb_s
      → (roofline_of >>= λ c. ok (roofline_timing c)) ≡ ok s
      → Monotone s
  unfolding prefill_latency decode_latency
  roofline_case s tp eff given h =
      let (c, made, e) = >>=-eq-ok roofline_of _ h in
      subst Monotone (ok-injective e) (
        IsReady-IsMonotone law c (
          create_roofline-IsReady law config.gpu_profile config.model_profile config.tp_size
            config.pp_size config.efficiency_factor config.include_tp_communication
            config.include_pp_communication config.nvlink_bandwidth_gb_s c made tp eff given))

-- The strategy that create_timing_strategy creates, in whichever of its three modes, where the
-- floats keep their laws, MIN_SCALE is at most MAX_SCALE, exp is not below zero,
-- every anchor, built in or loaded, and the configuration have a GPU, the efficiency is positive and so is the
-- bandwidth if it is overridden: every prefill and decode returns, none with a time below zero;
-- what a prompt has beyond a longer cached prefix takes no longer to prefill, and a decode step
-- over a longer context takes no less.
pub create_timing_strategy-IsMonotone :
    {R : Type 0} ⦃numbers : Numbers R⦄ (law : NumberLaws R) (elementary : Elementary R)
    (files : AnchorFiles R) (builtin : List (TimingAnchor R)) (config : StrategyConfig R)
    (s : Strategy R)
    → min_scale numbers ≼ max_scale numbers
    → ((a : R) → nought numbers ≼ elementary.exp a)
    → (config.calibrated ≡ true
        → (pool : List (TimingAnchor R)) → anchor_pool files builtin config.anchors_file ≡ ok pool
        → All (λ a. 0 < a.tp_size) pool)
    → 0 < config.tp_size
    → nought numbers ≺ config.efficiency_factor
    → IsPositive config.nvlink_bandwidth_gb_s
    → create_timing_strategy numbers elementary files builtin config ≡ ok s
    → IsMonotone (prefill_latency numbers s) (decode_latency numbers s)
create_timing_strategy-IsMonotone law elementary files builtin config s ordered mean tps tp eff
      given made =
    elim (created law elementary files builtin config ordered tps (ok s) made) [
      | inl (mode, e) ↦
          calibrated_case law elementary files builtin config ordered tps s mode mean tp given e
      | inr (inl (mode, e)) ↦ simple_case law elementary files builtin config ordered tps s e
      | inr (inr e) ↦ roofline_case law elementary files builtin config ordered tps s tp eff given e
    ]
