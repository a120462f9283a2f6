-- ===== src/Timing/Simple.antt =====
-- SimpleTimingStrategy of src/kvbench/timing/simple.py.
use llm_kv_passthrough.Prelude.{
  ℕ, ◌≡◌, ◌⊎◌, arith, refl, subst, inl, inr, Bool, true, false, [], ◌∷◌, codes, if◌then◌else◌,
  Bool-cases,
}
use llm_kv_passthrough.Prelude.Result.{Result, ok, err, Error, value_error, ok-injective}
use llm_kv_passthrough.Numbers.Order.{of_int_nonneg, times_mono_right}
use llm_kv_passthrough.Timing.Contract.{IsMonotone, timing_result-TakesNoLonger}
use llm_kv_passthrough.Numbers.{Numbers, NumberLaws, nought, ◌≼◌}
use llm_kv_passthrough.Timing.{TimingResult, timing_result}

pub record SimpleStrategy (R : Type 0) : Type 0 where
  pub prefill_ms_per_token : R
  pub decode_ms_per_token : R

module _ {R : Type 0} (numbers : Numbers R) where
  -- __init__
  unfoldable pub create_simple : R → R → Result (SimpleStrategy R)
  create_simple prefill_ms_per_token decode_ms_per_token =
      if numbers.le prefill_ms_per_token (nought numbers)
      then err value_error
      else (if numbers.le decode_ms_per_token (nought numbers)
          then err value_error
          else ok (record {
            prefill_ms_per_token = prefill_ms_per_token;
            decode_ms_per_token = decode_ms_per_token;
          }))

  unfoldable pub prefill_latency : SimpleStrategy R → ℕ → ℕ → ℕ → Result (TimingResult R)
  unfolding timing_result
  prefill_latency s num_tokens batch_size context_tokens =
      let total_ms =
        numbers.times (numbers.times s.prefill_ms_per_token (numbers.of_int num_tokens))
          (numbers.of_int batch_size) in
      timing_result numbers total_ms ((codes "simple_prefill", total_ms) ∷ []) true

  unfoldable pub decode_latency : SimpleStrategy R → ℕ → ℕ → Result (TimingResult R)
  unfolding timing_result
  decode_latency s context_length batch_size =
      let total_ms = numbers.times s.decode_ms_per_token (numbers.of_int batch_size) in
      timing_result numbers total_ms ((codes "simple_decode", total_ms) ∷ []) false

-- Two guards that raise ValueError.
two_guards-ok :
    {A : Type 0} (b c : Bool) (a x : A)
    → (if b then err value_error else (if c then err value_error else ok a)) ≡ ok x
    → (b ≡ false) × (c ≡ false) × (a ≡ x)
two_guards-ok true c a x h = cc
two_guards-ok false true a x h = cc
two_guards-ok false false a x h = (refl, refl, ok-injective h)

two_guards-err :
    {A : Type 0} (b c : Bool) (a : A) (raised : Error)
    → (if b then err value_error else (if c then err value_error else ok a)) ≡ err raised
    → (raised ≡ value_error) × ((b ≡ true) ⊎ (c ≡ true))
two_guards-err true c a raised h = (cc, inl refl)
two_guards-err false true a raised h = (cc, inr refl)
two_guards-err false false a raised h = cc

-- The constructor raises ValueError, and only for a time that is not positive.
pub create_simple-err :
    {R : Type 0} (numbers : Numbers R) (p d : R) (raised : Error)
    → create_simple numbers p d ≡ err raised
    → (raised ≡ value_error)
      × ((numbers.le p (nought numbers) ≡ true) ⊎ (numbers.le d (nought numbers) ≡ true))
unfolding create_simple
create_simple-err numbers p d raised h =
    two_guards-err (numbers.le p (nought numbers)) (numbers.le d (nought numbers)) _ raised h

module _ {R : Type 0} ⦃numbers : Numbers R⦄ (law : NumberLaws R) where
  not_le_nonneg : (a : R) → numbers.le a (nought numbers) ≡ false → nought numbers ≼ a
  not_le_nonneg a h = elim (Bool-cases (numbers.lt a (nought numbers))) [
    | inl e ↦ let below = law.le_of_lt _ _ e in cc
    | inr e ↦ law.le_of_not_lt _ _ e
  ]

  pub create_simple-nonneg :
      (p d : R) (s : SimpleStrategy R)
      → create_simple numbers p d ≡ ok s
      → (nought numbers ≼ s.prefill_ms_per_token) × (nought numbers ≼ s.decode_ms_per_token)
  unfolding create_simple
  create_simple-nonneg p d s made =
      let (e, f, k) =
        two_guards-ok (numbers.le p (nought numbers)) (numbers.le d (nought numbers)) _ s made in
      (
        subst (λ x. nought numbers ≼ x.prefill_ms_per_token) k (not_le_nonneg p e),
        subst (λ x. nought numbers ≼ x.decode_ms_per_token) k (not_le_nonneg d f),
      )

  pub simple-IsMonotone :
      (s : SimpleStrategy R)
      → nought numbers ≼ s.prefill_ms_per_token
      → nought numbers ≼ s.decode_ms_per_token
      → IsMonotone (prefill_latency numbers s) (decode_latency numbers s)
  unfolding prefill_latency decode_latency
  simple-IsMonotone s h k = record {
    prefill = λ prompt cached longer batch l m.
        timing_result-TakesNoLonger law _ _ _ _ true true
          (law.times_mono _ _ _ (times_mono_right law _ _ _ (law.of_int_mono _ _ (omega arith)) h)
            (of_int_nonneg law batch))
          (law.times_nonneg _ _ (law.times_nonneg _ _ h (of_int_nonneg law _))
            (of_int_nonneg law batch));
    decode = λ context longer batch l.
        timing_result-TakesNoLonger law _ _ _ _ false false (law.le_refl _)
          (law.times_nonneg _ _ k (of_int_nonneg law batch));
  }
