-- ===== src/Combined/Delays/Sleeps.antt =====
-- The sleeps of a prefill and of decode steps, over a timing strategy that keeps its contract.
use llm_kv_passthrough.Prelude.{
  ℕ, zero, suc, ◌+◌, ◌-◌, ◌≤◌, ◌<◌, ◌≡◌, refl, sym, ap, ◌∙◌, subst, inl, inr, List, [], ◌∷◌, length,
  ltb, ltb→lt, ltb→le, Bool-cases, arith,
}
use llm_kv_passthrough.Prelude.Result.{ok, ◌>>=◌, ok-injective}
use llm_kv_passthrough.Numbers.{Numbers, NumberLaws, nought, ◌≼◌}
use llm_kv_passthrough.Timing.Contract.{IsMonotone}
use llm_kv_passthrough.Timing.Factory.{Strategy, prefill_latency, decode_latency}
use llm_kv_passthrough.Combined.Delays.{
  calculate_prefill_latency_ms, calculate_decode_latency_ms, prefill_delay, decode_delays,
}

-- From low on, each time is no less than the one before it.
abbrev pub IsRising : {R : Type 0} ⦃numbers : Numbers R⦄ → R → List R → Type 0
IsRising low [] = Unit
IsRising low (ms ∷ times) = (low ≼ ms) × IsRising ms times

pub self-le : (n : ℕ) → n ≤ n
self-le n = omega arith

module _ {R : Type 0} ⦃numbers : Numbers R⦄ (law : NumberLaws R) (timing : Strategy R)
    (mono : IsMonotone (prefill_latency numbers timing) (decode_latency numbers timing)) where
  prefill_delay-pos :
      (miss hit : ℕ)
      → 0 < miss
      → prefill_delay numbers timing miss hit ≡ calculate_prefill_latency_ms numbers timing miss hit
  unfolding prefill_delay
  prefill_delay-pos zero hit h = absurd (omega arith)
  prefill_delay-pos (suc n) hit h = refl

  prefill_delay-none :
      (miss hit : ℕ) → miss ≡ 0 → prefill_delay numbers timing miss hit ≡ ok (nought numbers)
  unfolding prefill_delay
  prefill_delay-none zero hit h = refl
  prefill_delay-none (suc n) hit h = absurd (omega arith)

  -- The sleep of a prefill with a longer hit is no longer.
  pub prefill_delay_antitone :
      (prompt hit longer : ℕ)
      → hit ≤ longer
      → longer ≤ prompt
      → (less : R) × (ms : R) × (prefill_delay numbers timing (prompt - longer) longer ≡ ok less)
        × (prefill_delay numbers timing (prompt - hit) hit ≡ ok ms)
        × (less ≼ ms)
        × (nought numbers ≼ less)
  unfolding calculate_prefill_latency_ms
  prefill_delay_antitone prompt hit longer h k =
      let t = mono.prefill prompt hit longer 1 h k in
      let fast = ap (λ r. r >>= λ x. ok x.total_ms) t.fast_returns in
      let slow = ap (λ r. r >>= λ x. ok x.total_ms) t.slow_returns in
      elim (Bool-cases (ltb 0 (prompt - longer))) [
        | inl e ↦
            let pos = ltb→lt 0 (prompt - longer) e in
            (
              t.fast_result.total_ms,
              t.slow_result.total_ms,
              prefill_delay-pos (prompt - longer) longer pos ∙ fast,
              prefill_delay-pos (prompt - hit) hit (omega arith) ∙ slow,
              t.no_slower,
              t.nonneg,
            )
        | inr e ↦
            let none = ltb→le 0 (prompt - longer) e in
            elim (Bool-cases (ltb 0 (prompt - hit))) [
              | inl f ↦ (
                nought numbers,
                t.slow_result.total_ms,
                prefill_delay-none (prompt - longer) longer (omega arith),
                prefill_delay-pos (prompt - hit) hit (ltb→lt 0 (prompt - hit) f) ∙ slow,
                law.le_trans _ _ _ t.nonneg t.no_slower,
                law.le_refl _,
              )
              | inr f ↦
                  let same = ltb→le 0 (prompt - hit) f in
                  (
                    nought numbers,
                    nought numbers,
                    prefill_delay-none (prompt - longer) longer (omega arith),
                    prefill_delay-none (prompt - hit) hit (omega arith),
                    law.le_refl _,
                    law.le_refl _,
                  )
            ]
      ]

  pub prefill_delay_total :
      (n hit : ℕ) → (ms : R) × (prefill_delay numbers timing (n - hit) hit ≡ ok ms)
  prefill_delay_total n hit = elim (Bool-cases (ltb n hit)) [
    | inl e ↦
        let past = ltb→lt n hit e in
        (nought numbers, prefill_delay-none (n - hit) hit (omega arith))
    | inr e ↦
        let (less, ms, f, g, le, pos) =
          prefill_delay_antitone n hit hit (omega arith) (ltb→le n hit e) in
        (ms, g)
  ]

  -- The sleep of a decode step.
  abbrev pub step_ms : ℕ → R
  step_ms context = (mono.decode context context 1 (self-le context)).fast_result.total_ms

  step_ms-ok :
      (context : ℕ) → calculate_decode_latency_ms numbers timing context ≡ ok (step_ms context)
  unfolding calculate_decode_latency_ms
  step_ms-ok context =
      ap (λ r. r >>= λ x. ok x.total_ms)
        (mono.decode context context 1 (self-le context)).fast_returns

  step_ms_mono : (context longer : ℕ) → context ≤ longer → step_ms context ≼ step_ms longer
  step_ms_mono context longer h =
      let t = mono.decode context longer 1 h in
      let at = mono.decode context context 1 (self-le context) in
      let next = mono.decode longer longer 1 (self-le longer) in
      let e : t.fast_result ≡ at.fast_result =
        ok-injective (sym t.fast_returns ∙ at.fast_returns) in
      let f : t.slow_result ≡ next.fast_result =
        ok-injective (sym t.slow_returns ∙ next.fast_returns) in
      subst (λ x. x.total_ms ≼ step_ms longer) e
        (subst (λ x. t.fast_result.total_ms ≼ x.total_ms) f t.no_slower)

  -- The steps of a request return, one for each token, and each takes no less than the last.
  pub decode_delays_total :
      (context n i : ℕ) (low : R)
      → low ≼ step_ms (context + i)
      → (times : List R) × (decode_delays numbers timing context n i ≡ ok times)
        × (length times ≡ n)
        × IsRising low times
  unfolding decode_delays
  decode_delays_total context zero i low h = ([], refl, refl, tt)
  decode_delays_total context (suc n) i low h =
      let (times, e, l, rising) =
        decode_delays_total context n (i + 1) (step_ms (context + i))
          (step_ms_mono (context + i) (context + (i + 1)) (omega arith)) in
      (step_ms (context + i) ∷ times, rw (step_ms-ok (context + i), e) refl, ap suc l, (h, rising))

  pub step_ms_nonneg : (context : ℕ) → nought numbers ≼ step_ms context
  step_ms_nonneg context = (mono.decode context context 1 (self-le context)).nonneg
