-- ===== src/Latency/Hits.antt =====
-- The time to the first token against the length of the cache hit.
use llm_kv_passthrough.Prelude.{
  ℕ, zero, suc, ◌+◌, ◌-◌, ◌*◌, ◌≤◌, ◌<◌, ◌≡◌, refl, subst, ◌⊎◌, inl, inr, arith,
}
use native.Mathlib.Nat.{mul-le-mul_right, mul-le-mul_left}
use llm_kv_passthrough.Prelude.Result.{Result, ok}
use llm_kv_passthrough.Numbers.{Numbers, NumberLaws, nought, ◌≼◌}
use llm_kv_passthrough.Models.{ModelProfile, head_dim}
use llm_kv_passthrough.Models.Fits.{token_bytes}
use llm_kv_passthrough.Models.Params.{estimated_params_billions, estimated_params_billions_total}
use llm_kv_passthrough.Latency.{prefill_flops, decode_flops}
use llm_kv_passthrough.Latency.Split.{
  prefill_flops-add, decode_flops-prefill_flops, decode_flops_mono,
}
use llm_kv_passthrough.Latency.Times.{
  Calculator, LatencyBreakdown, shape, first_token, estimate_ttft, prefill_latency, decode_latency,
}
use llm_kv_passthrough.Latency.Costs.{
  HasRates, step, step_mono, step_nonneg, prefill_bytes, decode_bytes, prefill_latency-ok,
  decode_latency-ok,
}

-- A decode step costs no more KV traffic than the activations of a prefilled token: what the
-- KV cache of a token takes in memory is at most twice the hidden states of all layers.
abbrev pub HasSmallTokens : ModelProfile → ℕ → Type 0
HasSmallTokens p dim = token_bytes p dim ≤ 2 * p.hidden * p.layers

bytes_shift :
    (w t k b h l m n : ℕ)
    → w + t * n * b + t * (k + m) * b + h * n * b * 2 * l
      ≤ w + t * (m + n) * b + t * k * b + h * (m + n) * b * 2 * l
bytes_shift w t k b h l m n =
    let e : w + t * (m + n) * b + t * k * b + h * (m + n) * b * 2 * l
        ≡ (w + t * n * b + t * (k + m) * b + h * n * b * 2 * l) + h * m * b * 2 * l =
      grind arith in
    omega (arith, e)

bytes_last :
    (w t k b h l : ℕ)
    → t ≤ 2 * h * l
    → w + t * (k + 1) * b + t * b ≤ w + t * 1 * b + t * k * b + h * 1 * b * 2 * l
bytes_last w t k b h l small =
    let scaled : t * b ≤ 2 * h * l * b = mul-le-mul_right b small in
    let e : t * (k + 1) * b ≡ t * k * b + t * b = grind arith in
    let f : h * 1 * b * 2 * l ≡ 2 * h * l * b = grind arith in omega (arith, e, f, scaled)

module _ {R : Type 0} ⦃numbers : Numbers R⦄ (law : NumberLaws R) (c : Calculator R)
    (rates : HasRates c) (dim : ℕ) (dim_eq : head_dim c.model ≡ ok dim) where
  -- total_ms of a prefill of n tokens on top of so many cached ones, and of a decode step.
  abbrev prefill_ms : R → ℕ → ℕ → ℕ → R
  prefill_ms params batch n context =
      (step c (prefill_flops (shape c.model dim) n batch context)
        (prefill_bytes params c.model dim n batch context)).total_ms

  abbrev decode_ms : R → ℕ → ℕ → R
  decode_ms params batch context =
      (step c (decode_flops (shape c.model dim) context batch)
        (decode_bytes params c.model dim context batch)).total_ms

  prefill_ms_le :
      (params : R) (batch m n context : ℕ)
      → prefill_ms params batch n (context + m) ≼ prefill_ms params batch (m + n) context
  prefill_ms_le params batch m n context =
      let s = shape c.model dim in
      step_mono law c rates (prefill_flops s n batch (context + m))
        (prefill_flops s (m + n) batch context)
        (prefill_bytes params c.model dim n batch (context + m))
        (prefill_bytes params c.model dim (m + n) batch context)
        (omega (arith, prefill_flops-add s m n batch context))
        (bytes_shift _ (token_bytes c.model dim) context batch c.model.hidden c.model.layers m n)

  decode_ms_le :
      (params : R) (batch context : ℕ)
      → HasSmallTokens c.model dim
      → decode_ms params batch (context + 1) ≼ prefill_ms params batch 1 context
  decode_ms_le params batch context small =
      let s = shape c.model dim in
      step_mono law c rates (decode_flops s (context + 1) batch) (prefill_flops s 1 batch context)
        (decode_bytes params c.model dim (context + 1) batch)
        (prefill_bytes params c.model dim 1 batch context)
        (omega (arith, decode_flops-prefill_flops s context batch))
        (bytes_last _ (token_bytes c.model dim) context batch c.model.hidden c.model.layers small)

  -- The time of the first token with so many tokens that miss.
  abbrev first_ms : R → ℕ → ℕ → ℕ → R
  first_ms params batch input zero = decode_ms params batch input
  first_ms params batch input (suc n) = prefill_ms params batch (suc n) (input - suc n)

  first_token-ok :
      (params : R)
      → estimated_params_billions numbers c.model ≡ ok params
      → (input miss batch : ℕ)
      → first_token numbers c input miss batch ≡ ok (first_ms params batch input miss)
  unfolding first_token
  first_token-ok params params_eq input zero batch =
      rw (decode_latency-ok law c rates dim dim_eq params params_eq input batch) refl
  first_token-ok params params_eq input (suc n) batch =
      rw (prefill_latency-ok law c rates dim dim_eq params params_eq (suc n) batch (input - suc n))
        refl

  first_ms_nonneg :
      (params : R) (batch input miss : ℕ) → nought numbers ≼ first_ms params batch input miss
  first_ms_nonneg params batch input zero = step_nonneg law c rates _ _
  first_ms_nonneg params batch input (suc n) = step_nonneg law c rates _ _

  shrink :
      (params : R) (batch n n' context context' : ℕ)
      → n ≤ n'
      → n + context ≡ n' + context'
      → prefill_ms params batch n context ≼ prefill_ms params batch n' context'
  shrink params batch n n' context context' h total =
      let e : context' + (n' - n) ≡ context = omega arith in
      let f : n' - n + n ≡ n' = omega arith in
      subst (λ x. prefill_ms params batch n x ≼ prefill_ms params batch n' context') e
        (subst
          (λ x.
            prefill_ms params batch n (context' + (n' - n)) ≼ prefill_ms params batch x context')
          f (prefill_ms_le params batch (n' - n) n context'))

  -- Fewer tokens that miss take no longer.
  first_ms_mono :
      (params : R) (batch input miss fewer : ℕ)
      → fewer ≤ miss
      → miss ≤ input
      → (0 < fewer) ⊎ HasSmallTokens c.model dim
      → first_ms params batch input fewer ≼ first_ms params batch input miss
  first_ms_mono params batch input zero zero h k either = law.le_refl _
  first_ms_mono params batch input zero (suc n) h k either = absurd (omega arith)
  first_ms_mono params batch input (suc m) (suc n) h k either =
      shrink params batch (suc n) (suc m) (input - suc n) (input - suc m) h (omega arith)
  first_ms_mono params batch input (suc m) zero h k (inl pos) = absurd (omega arith)
  first_ms_mono params batch input (suc m) zero h k (inr small) =
      let e : input - 1 + 1 ≡ input = omega arith in
      law.le_trans _ (prefill_ms params batch 1 (input - 1)) _
        (subst (λ x. decode_ms params batch x ≼ prefill_ms params batch 1 (input - 1)) e
          (decode_ms_le params batch (input - 1) small))
        (shrink params batch 1 (suc m) (input - 1) (input - suc m) (omega arith) (omega arith))

-- Two steps that return, the first no slower.
pub record StepsNoSlower {R : Type 0} ⦃numbers : Numbers R⦄
    (fast slow : Result (LatencyBreakdown R)) : Type 0 where
  pub fast_step : LatencyBreakdown R
  pub slow_step : LatencyBreakdown R
  pub fast_returns : fast ≡ ok fast_step
  pub slow_returns : slow ≡ ok slow_step
  pub no_slower : fast_step.total_ms ≼ slow_step.total_ms
  pub nonneg : nought numbers ≼ fast_step.total_ms

pub prefill_latency-StepsNoSlower :
    {R : Type 0} ⦃numbers : Numbers R⦄ (law : NumberLaws R) (c : Calculator R) (dim : ℕ)
    (n n' context context' batch_size : ℕ)
    → HasRates c
    → head_dim c.model ≡ ok dim
    → n ≤ n'
    → n + context ≡ n' + context'
    → StepsNoSlower
        (prefill_latency numbers c n batch_size context)
        (prefill_latency numbers c n' batch_size context')
prefill_latency-StepsNoSlower ⦃numbers⦄ law c dim n n' context context' batch rates dim_eq h total =
    let (params, e) = estimated_params_billions_total numbers c.model dim dim_eq in
    record {
      fast_step = _;
      slow_step = _;
      fast_returns = prefill_latency-ok law c rates dim dim_eq params e n batch context;
      slow_returns = prefill_latency-ok law c rates dim dim_eq params e n' batch context';
      no_slower = shrink law c rates dim dim_eq params batch n n' context context' h total;
      nonneg = step_nonneg law c rates _ _;
    }

longer_bytes : (w t b c d : ℕ) → c ≤ d → w + t * c * b + t * b ≤ w + t * d * b + t * b
longer_bytes w t b c d h =
    let e : t * c * b ≤ t * d * b = mul-le-mul_right b (mul-le-mul_left t h) in omega (arith, e)

pub decode_latency-StepsNoSlower :
    {R : Type 0} ⦃numbers : Numbers R⦄ (law : NumberLaws R) (c : Calculator R) (dim : ℕ)
    (context longer batch_size : ℕ)
    → HasRates c
    → head_dim c.model ≡ ok dim
    → context ≤ longer
    → StepsNoSlower
        (decode_latency numbers c context batch_size)
        (decode_latency numbers c longer batch_size)
decode_latency-StepsNoSlower ⦃numbers⦄ law c dim context longer batch rates dim_eq h =
    let (params, e) = estimated_params_billions_total numbers c.model dim dim_eq in
    record {
      fast_step = _;
      slow_step = _;
      fast_returns = decode_latency-ok law c rates dim dim_eq params e context batch;
      slow_returns = decode_latency-ok law c rates dim dim_eq params e longer batch;
      no_slower =
          step_mono law c rates _ _ _ _
            (decode_flops_mono (shape c.model dim) context longer batch h)
            (longer_bytes _ (token_bytes c.model dim) batch context longer h);
      nonneg = step_nonneg law c rates _ _;
    }

pub estimate_ttft_total :
    {R : Type 0} ⦃numbers : Numbers R⦄ (law : NumberLaws R) (c : Calculator R) (dim : ℕ)
    (input hit batch : ℕ)
    → HasRates c
    → head_dim c.model ≡ ok dim
    → (ms : R) × (estimate_ttft numbers c input hit batch ≡ ok ms) × (nought numbers ≼ ms)
unfolding estimate_ttft
estimate_ttft_total ⦃numbers⦄ law c dim input hit batch rates dim_eq =
    let (params, e) = estimated_params_billions_total numbers c.model dim dim_eq in
    (
      _,
      first_token-ok law c rates dim dim_eq params e input (input - hit) batch,
      first_ms_nonneg law c rates dim dim_eq params batch input (input - hit),
    )

-- Where the floats keep their laws, the model has a head dimension and the two rates of the
-- calculator are positive: estimate_ttft returns for every hit, and a longer hit takes no longer,
-- so long as a token still misses, or the KV cache of a token takes at most 2 * hidden * layers
-- bytes.
pub estimate_ttft_antitone :
    {R : Type 0} ⦃numbers : Numbers R⦄ (law : NumberLaws R) (c : Calculator R) (dim : ℕ)
    (input_tokens hit longer batch_size : ℕ)
    → HasRates c
    → head_dim c.model ≡ ok dim
    → hit ≤ longer
    → (longer < input_tokens) ⊎ HasSmallTokens c.model dim
    → (ms : R) × (less : R) × (estimate_ttft numbers c input_tokens hit batch_size ≡ ok ms)
      × (estimate_ttft numbers c input_tokens longer batch_size ≡ ok less)
      × (less ≼ ms)
unfolding estimate_ttft
estimate_ttft_antitone ⦃numbers⦄ law c dim input hit longer batch rates dim_eq h either =
    let (params, e) = estimated_params_billions_total numbers c.model dim dim_eq in
    let misses : (0 < input - longer) ⊎ HasSmallTokens c.model dim = elim either [
      | inl lt ↦ inl (omega arith)
      | inr small ↦ inr small
    ] in
    (
      _,
      _,
      first_token-ok law c rates dim dim_eq params e input (input - hit) batch,
      first_token-ok law c rates dim dim_eq params e input (input - longer) batch,
      first_ms_mono law c rates dim dim_eq params batch input (input - hit) (input - longer)
          (omega arith) (omega arith) misses,
    )
