-- ===== src/Calibration/Prefix.antt =====
-- What a CalibratedTimingStrategy says of a prompt with a cached prefix.
use llm_kv_passthrough.Prelude.{
  ℕ, ◌<◌, ◌≡◌, ◌⊎◌, sym, ◌∙◌, inl, inr, subst, Bool, Option, List, ◌∷◌, All, Text, arith,
}
use llm_kv_passthrough.Prelude.Result.{
  Result, ok, err, Error, key_error, ◌>>=◌, ok-injective, >>=-eq-ok, >>=-eq-err,
}
use llm_kv_passthrough.Numbers.{Numbers, NumberLaws, nought, ◌≼◌}
use llm_kv_passthrough.Latency.Times.{named}
use llm_kv_passthrough.Timing.{TimingResult}
use llm_kv_passthrough.Timing.Roofline.{create_roofline}
use llm_kv_passthrough.Timing.Contract.{TakesNoLonger, IsMonotone, timing_result-TakesNoLonger}
use llm_kv_passthrough.Timing.Prefix.{
  IsPositive, IsReady, IsReady-IsMonotone, create_roofline-IsReady, create_roofline-err,
}
use llm_kv_passthrough.Calibration.{
  Elementary, geomean, TimingAnchor, AnchorFiles, anchor_pool, Calibrated, CalibratedStrategy, one,
  min_scale, max_scale, default_scale, calibrate, create_calibrated, apply, prefill_latency,
  decode_latency,
}
use llm_kv_passthrough.Calibration.Range.{InRange, calibrate-InRange}

module _ {R : Type 0} ⦃numbers : Numbers R⦄ (law : NumberLaws R) where
  -- The scaled results of two calls in order.
  apply-TakesNoLonger :
      (fast slow : Result (TimingResult R)) (scale : R)
      → nought numbers ≼ scale
      → TakesNoLonger fast slow
      → TakesNoLonger (fast >>= λ t. apply numbers t scale) (slow >>= λ t. apply numbers t scale)
  unfolding apply
  apply-TakesNoLonger fast slow scale h k =
      rw (k.fast_returns, k.slow_returns)
        (timing_result-TakesNoLonger law _ _ _ _ k.fast_result.is_compute_bound
          k.slow_result.is_compute_bound (law.times_mono _ _ _ k.no_slower h)
          (law.times_nonneg _ _ k.nonneg h))

  calibrated-IsMonotone :
      (s : CalibratedStrategy R)
      → IsReady s.backbone
      → nought numbers ≼ s.scales.prefill_scale
      → nought numbers ≼ s.scales.decode_scale
      → IsMonotone (prefill_latency numbers s) (decode_latency numbers s)
  unfolding prefill_latency decode_latency
  calibrated-IsMonotone s ready h k =
      let base = IsReady-IsMonotone law s.backbone ready in
      record {
        prefill = λ prompt cached longer batch l m.
            apply-TakesNoLonger _ _ s.scales.prefill_scale h
              (base.prefill prompt cached longer batch l m);
        decode = λ context longer batch l.
            apply-TakesNoLonger _ _ s.scales.decode_scale k (base.decode context longer batch l);
      }

  geomean_nonneg :
      (elementary : Elementary R) (values : List R)
      → ((a : R) → nought numbers ≼ elementary.exp a)
      → nought numbers ≼ geomean numbers elementary values
  unfolding geomean
  geomean_nonneg elementary values h = h _

  mean_nonneg :
      (elementary : Elementary R) (scale : R)
      → ((a : R) → nought numbers ≼ elementary.exp a)
      → ((scale ≡ default_scale numbers)
          ⊎ ((v : R) × (values : List R) × (scale ≡ geomean numbers elementary (v ∷ values))
              × All InRange (v ∷ values)))
      → nought numbers ≼ scale
  mean_nonneg elementary scale h (inl e) = rw e (
      law.divide_nonneg _ _ (law.le_of_lt _ _ (law.of_decimal_pos _ (omega arith)))
        (law.of_decimal_pos _ (omega arith)))
  mean_nonneg elementary scale h (inr (v, values, e, k)) =
      rw e (geomean_nonneg elementary (v ∷ values) h)

  module _ (elementary : Elementary R) (pool : List (TimingAnchor R))
      (ordered : min_scale numbers ≼ max_scale numbers) (tps : All (λ a. 0 < a.tp_size) pool) where
    calibrate_nonneg :
        (model gpu : Text) (s : Calibrated R)
        → ((a : R) → nought numbers ≼ elementary.exp a)
        → calibrate numbers elementary model gpu pool ≡ ok s
        → (nought numbers ≼ s.prefill_scale) × (nought numbers ≼ s.decode_scale)
    calibrate_nonneg model gpu s h made =
        let (t, e, p, d) = calibrate-InRange law elementary model gpu pool ordered tps in
        let k : t ≡ s = ok-injective (sym e ∙ made) in
        (
          subst (λ x. nought numbers ≼ x.prefill_scale) k (mean_nonneg elementary _ h p),
          subst (λ x. nought numbers ≼ x.decode_scale) k (mean_nonneg elementary _ h d),
        )

  -- The pool is what the built-in anchors and the file of anchors make.
  module _ (elementary : Elementary R) (files : AnchorFiles R) (builtin : List (TimingAnchor R))
      (file : Option Text) (ordered : min_scale numbers ≼ max_scale numbers)
      (tps : (pool : List (TimingAnchor R))
        → anchor_pool files builtin file ≡ ok pool
        → All (λ a. 0 < a.tp_size) pool) where
    pub create_calibrated-IsMonotone :
        (gpu model : Text) (tp pp : ℕ) (itp ipp : Bool) (nvlink : Option R)
        (s : CalibratedStrategy R)
        → ((a : R) → nought numbers ≼ elementary.exp a)
        → 0 < tp
        → IsPositive nvlink
        → create_calibrated numbers elementary gpu model tp pp itp ipp nvlink files builtin file
          ≡ ok s
        → IsMonotone (prefill_latency numbers s) (decode_latency numbers s)
    unfolding create_calibrated
    create_calibrated-IsMonotone gpu model tp pp itp ipp nvlink s h tp_pos given made =
        let (b, e, rest) =
          >>=-eq-ok
            (create_roofline numbers (named gpu) (named model) tp pp (one numbers) itp ipp nvlink) _
            made in
        let (pool, found, rest) = >>=-eq-ok (anchor_pool files builtin file) _ rest in
        let (scales, f, built) = >>=-eq-ok (calibrate numbers elementary model gpu pool) _ rest in
        let (p, d) =
          calibrate_nonneg elementary pool ordered (tps pool found) model gpu scales h f in
        let ready =
          create_roofline-IsReady law gpu model tp pp (one numbers) itp ipp nvlink b e tp_pos
            (law.of_decimal_pos _ (omega arith)) given in
        let whole : CalibratedStrategy R = record { backbone = b; scales = scales } in
        subst (λ x. IsMonotone (prefill_latency numbers x) (decode_latency numbers x))
          (ok-injective built) (calibrated-IsMonotone whole ready p d)

    pub create_calibrated-err :
        (gpu model : Text) (tp pp : ℕ) (itp ipp : Bool) (nvlink : Option R) (raised : Error)
        → create_calibrated numbers elementary gpu model tp pp itp ipp nvlink files builtin file
          ≡ err raised
        → (raised ≡ key_error) ⊎ (anchor_pool files builtin file ≡ err raised)
    unfolding create_calibrated
    create_calibrated-err gpu model tp pp itp ipp nvlink raised h =
        let backbone =
          create_roofline numbers (named gpu) (named model) tp pp (one numbers) itp ipp nvlink in
        elim (>>=-eq-err backbone _ h) [
          | inl f ↦
              inl
                (create_roofline-err numbers gpu model tp pp (one numbers) itp ipp nvlink raised f)
          | inr (b, f, rest) ↦ elim (>>=-eq-err (anchor_pool files builtin file) _ rest) [
            | inl k ↦ inr k
            | inr (pool, found, next) ↦
                let (t, e, p, d) =
                  calibrate-InRange law elementary model gpu pool ordered (tps pool found) in
                elim (>>=-eq-err (calibrate numbers elementary model gpu pool) _ next) [
                  | inl k ↦ inl cc
                  | inr (scales, k, built) ↦ inl cc
                ]
          ]
        ]
