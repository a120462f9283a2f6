-- ===== src/Timing/Contract.antt =====
-- What a server relies on of a TimingStrategy (src/kvbench/timing/strategy.py).
use llm_kv_passthrough.Prelude.{ℕ, ◌-◌, ◌≤◌, ◌≡◌, refl, ap, Bool, List, Text, if◌then◌else◌}
use llm_kv_passthrough.Prelude.Result.{Result, ok, err, value_error}
use llm_kv_passthrough.Numbers.{Numbers, NumberLaws, nought, ◌≼◌}
use llm_kv_passthrough.Timing.{TimingResult, timing_result}

module _ {R : Type 0} ⦃numbers : Numbers R⦄ where
  -- Two results that are returned, the first no slower, and neither time below zero.
  pub record TakesNoLonger (fast slow : Result (TimingResult R)) : Type 0 where
    pub fast_result : TimingResult R
    pub slow_result : TimingResult R
    pub fast_returns : fast ≡ ok fast_result
    pub slow_returns : slow ≡ ok slow_result
    pub no_slower : fast_result.total_ms ≼ slow_result.total_ms
    pub nonneg : nought numbers ≼ fast_result.total_ms

  -- prefill_latency over tokens, batch size and context, and decode_latency over context and batch
  -- size: of a prompt, what is beyond a longer prefix takes no longer, and over a longer context
  -- a decode step takes no less.
  pub record IsMonotone (prefill_latency : ℕ → ℕ → ℕ → Result (TimingResult R))
      (decode_latency : ℕ → ℕ → Result (TimingResult R)) : Type 0 where
    pub prefill :
        (prompt cached longer batch_size : ℕ)
        → cached ≤ longer
        → longer ≤ prompt
        → TakesNoLonger
            (prefill_latency (prompt - longer) batch_size longer)
            (prefill_latency (prompt - cached) batch_size cached)
    pub decode :
        (context longer batch_size : ℕ)
        → context ≤ longer
        → TakesNoLonger (decode_latency context batch_size) (decode_latency longer batch_size)

  pub timing_result-ok :
      (law : NumberLaws R) (total : R) (breakdown : List (Text × R)) (bound : Bool)
      → nought numbers ≼ total
      → (t : TimingResult R) × (timing_result numbers total breakdown bound ≡ ok t)
        × (t.total_ms ≡ total)
  unfolding timing_result
  timing_result-ok law total breakdown bound h =
      let t : TimingResult R = record {
        total_ms = total;
        breakdown = breakdown;
        is_compute_bound = bound;
      } in
      (t, ap (λ b. if b then err value_error else ok t) (law.not_lt_of_le _ _ h), refl)

  -- Two checked results of times in order.
  pub timing_result-TakesNoLonger :
      (law : NumberLaws R) (fast slow : R) (fast_parts slow_parts : List (Text × R)) (b c : Bool)
      → fast ≼ slow
      → nought numbers ≼ fast
      → TakesNoLonger
          (timing_result numbers fast fast_parts b)
          (timing_result numbers slow slow_parts c)
  timing_result-TakesNoLonger law fast slow fast_parts slow_parts b c h k =
      let (f, fr, ft) = timing_result-ok law fast fast_parts b k in
      let (s, sr, st) = timing_result-ok law slow slow_parts c (law.le_trans _ _ _ k h) in
      record {
        fast_result = f;
        slow_result = s;
        fast_returns = fr;
        slow_returns = sr;
        no_slower = rw (ft, st) h;
        nonneg = rw ft k;
      }
