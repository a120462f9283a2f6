-- ===== src/Calibration/Range.antt =====
-- The scales that a calibration chooses stay in their range.
use llm_kv_passthrough.Prelude.{
  ◌<◌, ◌≡◌, ◌⊎◌, inl, inr, refl, ap, ◌∙◌, Bool, true, false, ◌&&◌, Option, none, some, List, [],
  ◌∷◌, All, Bool-cases, Text, text_eq, ltb, if◌then◌else◌, arith,
}
use llm_kv_passthrough.Prelude.Result.{Result, ok, err, Result-cases}
use llm_kv_passthrough.Numbers.{Numbers, NumberLaws, nought, ◌≼◌}
use llm_kv_passthrough.Timing.{TimingResult}
use llm_kv_passthrough.Timing.Roofline.{RooflineStrategy}
use llm_kv_passthrough.Timing.Prefix.{
  prefill_latency-TakesNoLonger, IsReady-IsMonotone, create_roofline-IsReady, create_roofline-err,
}
use llm_kv_passthrough.Calibration.{
  Elementary, geomean, TimingAnchor, AnchorScale, Kind, prefill, decode, Calibrated, one, min_scale,
  max_scale, default_scale, clamp, scale_of, add_scored, score_anchor, backbone_of, score_anchors,
  usable, keep, values_of, first_tier, tiers_of, select_scale, calibrate,
}

-- At least MIN_SCALE and at most MAX_SCALE.
pub record InRange {R : Type 0} ⦃numbers : Numbers R⦄ (scale : R) : Type 0 where
  pub at_least : min_scale numbers ≼ scale
  pub at_most : scale ≼ max_scale numbers

module _ {R : Type 0} ⦃numbers : Numbers R⦄ (law : NumberLaws R) (elementary : Elementary R)
    (ordered : min_scale numbers ≼ max_scale numbers) where
  clamp-InRange : (scale : R) → InRange (clamp numbers scale)
  unfolding clamp
  clamp-InRange scale = elim (Bool-cases (numbers.lt scale (min_scale numbers))) [
    | inl e ↦ rw e (low (min_scale numbers) (law.le_refl _))
    | inr e ↦ rw e (low scale (law.le_of_not_lt _ _ e))
  ]
    where
      low :
          (m : R)
          → min_scale numbers ≼ m
          → InRange (if numbers.lt (max_scale numbers) m then max_scale numbers else m)
      low m h = elim (Bool-cases (numbers.lt (max_scale numbers) m)) [
        | inl e ↦ rw e (record { at_least = ordered; at_most = law.le_refl _ })
        | inr e ↦ rw e (record { at_least = h; at_most = law.le_of_not_lt _ _ e })
      ]

  OptionInRange : Option R → Type 0
  OptionInRange none = Unit
  OptionInRange (some v) = InRange v

  ScoredInRange : AnchorScale R → Type 0
  ScoredInRange s = OptionInRange s.prefill_scale × OptionInRange s.decode_scale

  scale_of-OptionInRange :
      (measured : Option R) (pred : Result (TimingResult R)) (t : TimingResult R)
      → pred ≡ ok t
      → (scale : Option R) × (scale_of numbers measured pred ≡ ok scale) × OptionInRange scale
  unfolding scale_of OptionInRange
  scale_of-OptionInRange none pred t e = (none, refl, tt)
  scale_of-OptionInRange (some v) pred t e =
      elim (Bool-cases (numbers.lt (nought numbers) t.total_ms)) [
        | inl f ↦
            (some (clamp numbers (numbers.divide v t.total_ms)), rw (e, f) refl, clamp-InRange _)
        | inr f ↦ (none, rw (e, f) refl, tt)
      ]

  add_scored-ScoredInRange :
      (a : TimingAnchor R) (pf df : Option R) (scored : List (AnchorScale R))
      → OptionInRange pf
      → OptionInRange df
      → All ScoredInRange scored
      → All ScoredInRange (add_scored numbers a pf df scored)
  unfolding add_scored ScoredInRange OptionInRange
  add_scored-ScoredInRange a none none scored h k rest = rest
  add_scored-ScoredInRange a (some pf) df scored h k rest = ((h, k), rest)
  add_scored-ScoredInRange a none (some df) scored h k rest = ((tt, k), rest)

  backbone-ScoredInRange :
      (a : TimingAnchor R) (b : RooflineStrategy R) (scored : List (AnchorScale R))
      → 0 < a.tp_size
      → backbone_of numbers a ≡ ok b
      → All ScoredInRange scored
      → (all : List (AnchorScale R)) × (score_anchor numbers a (ok b) (ok scored) ≡ ok all)
        × All ScoredInRange all
  unfolding score_anchor
  backbone-ScoredInRange a b scored tp made h =
      let ready =
        create_roofline-IsReady law a.gpu a.model a.tp_size 1 (one numbers) (ltb 1 a.tp_size) false
          none b made tp (law.of_decimal_pos _ (omega arith)) tt in
      let pf_pred =
        prefill_latency-TakesNoLonger law b a.isl a.isl 0 0 1 ready (omega arith) refl in
      let df_pred = (IsReady-IsMonotone law b ready).decode a.isl a.isl 1 (omega arith) in
      let (pf, e, p) = scale_of-OptionInRange a.ttft_ms _ _ pf_pred.fast_returns in
      let (df, f, q) = scale_of-OptionInRange a.tpot_ms _ _ df_pred.fast_returns in
      (
        add_scored numbers a pf df scored,
        rw (e, f) refl,
        add_scored-ScoredInRange a pf df scored p q h,
      )

  score_anchor-ScoredInRange :
      (a : TimingAnchor R) (scored : List (AnchorScale R))
      → 0 < a.tp_size
      → All ScoredInRange scored
      → (all : List (AnchorScale R)) × (score_anchor numbers a (backbone_of numbers a) (ok scored)
          ≡ ok all)
        × All ScoredInRange all
  unfolding score_anchor
  score_anchor-ScoredInRange a scored tp h = elim (Result-cases (backbone_of numbers a)) [
    | inl (b, e) ↦
        let (all, f, k) = backbone-ScoredInRange a b scored tp e h in
        (all, ap (λ x. score_anchor numbers a x (ok scored)) e ∙ f, k)
    | inr (raised, e) ↦
        let key =
          create_roofline-err numbers a.gpu a.model a.tp_size 1 (one numbers) (ltb 1 a.tp_size)
            false none raised e in
        (scored, ap (λ x. score_anchor numbers a x (ok scored)) (e ∙ ap err key), h)
  ]

  score_anchors-ScoredInRange :
      (pool : List (TimingAnchor R))
      → All (λ a. 0 < a.tp_size) pool
      → (scored : List (AnchorScale R)) × (score_anchors numbers pool ≡ ok scored)
        × All ScoredInRange scored
  unfolding score_anchors
  score_anchors-ScoredInRange [] tps = ([], refl, tt)
  score_anchors-ScoredInRange (a ∷ pool) tps =
      let (scored, e, h) = score_anchors-ScoredInRange pool tps.1 in
      let (all, added, k) = score_anchor-ScoredInRange a scored tps.0 h in
      (all, ap (score_anchor numbers a (backbone_of numbers a)) e ∙ added, k)

  keep-InRange :
      (b : Bool) (v : Option R) (values : List R)
      → OptionInRange v
      → All (InRange) values
      → All (InRange) (keep numbers b v values)
  unfolding keep OptionInRange
  keep-InRange false v values h k = k
  keep-InRange true none values h k = k
  keep-InRange true (some v) values h k = (h, k)

  values_of-InRange :
      (kind : Kind) (test : TimingAnchor R → Bool) (scored : List (AnchorScale R))
      → All ScoredInRange scored
      → All (InRange) (values_of numbers kind test scored)
  unfolding values_of
  values_of-InRange kind test [] h = tt
  values_of-InRange kind test (s ∷ scored) h =
      keep-InRange (test s.anchor) (usable numbers kind s) (values_of numbers kind test scored)
        (of_kind kind) (values_of-InRange kind test scored h.1)
    where
      of_kind : (kind : Kind) → OptionInRange (usable numbers kind s)
      of_kind prefill = unfold ScoredInRange in h.0.0
      of_kind decode = unfold ScoredInRange in h.0.1

  -- A scale is the default, or the mean of scales in range.
  abbrev IsMean : R → Type 0
  IsMean scale =
      (scale ≡ default_scale numbers)
      ⊎ ((v : R) × (values : List R) × (scale ≡ geomean numbers elementary (v ∷ values))
          × All InRange (v ∷ values))

  first_tier-IsMean :
      (tiers : List (Text × List R))
      → All (λ t. All (InRange) t.1) tiers
      → IsMean (first_tier numbers elementary tiers).0
  unfolding first_tier
  first_tier-IsMean [] h = inl refl
  first_tier-IsMean ((name, []) ∷ tiers) h = first_tier-IsMean tiers h.1
  first_tier-IsMean ((name, v ∷ values) ∷ tiers) h = inr (v, values, refl, h.0)

  select_scale-IsMean :
      (model gpu : Text) (kind : Kind) (scored : List (AnchorScale R))
      → All ScoredInRange scored
      → IsMean (select_scale numbers elementary model gpu kind scored).0
  unfolding select_scale
  select_scale-IsMean model gpu kind scored h =
      first_tier-IsMean (tiers_of numbers elementary model gpu kind scored) (
        values_of-InRange kind (λ a. text_eq a.model model && text_eq a.gpu gpu) scored h,
        (
          values_of-InRange kind (λ a. text_eq a.gpu gpu) scored h,
          (
            values_of-InRange kind (λ a. text_eq a.model model) scored h,
            (values_of-InRange kind (λ a. true) scored h, tt),
          ),
        ),
      )

pub calibrate-InRange :
    {R : Type 0} ⦃numbers : Numbers R⦄ (law : NumberLaws R) (elementary : Elementary R)
    (model gpu : Text) (pool : List (TimingAnchor R))
    → min_scale numbers ≼ max_scale numbers
    → All (λ a. 0 < a.tp_size) pool
    → (s : Calibrated R) × (calibrate numbers elementary model gpu pool ≡ ok s)
      × ((s.prefill_scale ≡ default_scale numbers)
          ⊎ ((v : R) × (values : List R) × (s.prefill_scale
                ≡ geomean numbers elementary (v ∷ values))
              × All InRange (v ∷ values)))
      × ((s.decode_scale ≡ default_scale numbers)
          ⊎ ((v : R) × (values : List R) × (s.decode_scale
                ≡ geomean numbers elementary (v ∷ values))
              × All InRange (v ∷ values)))
unfolding calibrate
calibrate-InRange ⦃numbers⦄ law elementary model gpu pool ordered tps =
    let (scored, e, h) = score_anchors-ScoredInRange law elementary ordered pool tps in
    (
      record {
        scored = scored;
        prefill_scale = (select_scale numbers elementary model gpu prefill scored).0;
        prefill_tier = (select_scale numbers elementary model gpu prefill scored).1;
        decode_scale = (select_scale numbers elementary model gpu decode scored).0;
        decode_tier = (select_scale numbers elementary model gpu decode scored).1;
      },
      rw e refl,
      select_scale-IsMean law elementary ordered model gpu prefill scored h,
      select_scale-IsMean law elementary ordered model gpu decode scored h,
    )
