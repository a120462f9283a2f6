-- ===== src/Stack/Sizes.antt =====
-- The stored bytes against the logical bytes of the KV cache when heads are split over ranks.
use llm_kv_passthrough.Prelude.{
  ℕ, zero, suc, ◌*◌, ◌+◌, ◌-◌, ◌%◌, ◌/◌, ◌≤◌, ◌<◌, max, ◌≡◌, sym, ap, ◌∙◌, arith,
}
use llm_kv_passthrough.Prelude.Result.{Result, ok, err, ◌>>=◌, ok-injective}
use native.Mathlib.Nat.{mul-div_cancel, div-add-mod', mod-lt}
use llm_kv_passthrough.Models.{
  ModelProfile, head_dim, effective_kv_layers, bytes_per_element, kv_cache_bytes_per_token,
  total_kv_cache_bytes_per_token,
}
use llm_kv_passthrough.Stack.{CapacityInfo, heads_per_rank, capacity_info}

regroup : (kv dim b l : ℕ) → 2 * kv * dim * b * l ≡ kv * (2 * l * dim * b)
regroup kv dim b l = grind arith

regroup_ranks : (l h dim b tp : ℕ) → 2 * l * h * dim * b * tp ≡ h * tp * (2 * l * dim * b)
regroup_ranks l h dim b tp = grind arith

scale : (a b c : ℕ) → a ≤ b → a * c ≤ b * c
scale a b c h = grind arith

-- The two numbers of a report, as multiples of the bytes of one head.
sizes :
    (profile : ModelProfile) (chunk_size tp : ℕ) (info : CapacityInfo)
    → capacity_info profile chunk_size tp ≡ ok info
    → (unit : ℕ) × (info.bytes_per_token ≡ profile.kv_heads * unit)
      × (info.stored_bytes_per_token ≡ heads_per_rank profile.kv_heads tp * tp * unit)
unfolding capacity_info total_kv_cache_bytes_per_token kv_cache_bytes_per_token
sizes profile chunk_size tp info e = go (head_dim profile) e
  where
    l : ℕ
    l = effective_kv_layers profile

    b : ℕ
    b = bytes_per_element profile

    go :
        (r : Result ℕ)
        → (((r >>= λ dim. ok (2 * profile.kv_heads * dim * b)) >>= λ per_layer. ok (per_layer * l))
            >>= λ bytes. r >>= λ dim. ok (record {
              bytes_per_token = bytes;
              chunk_bytes = bytes * chunk_size;
              stored_bytes_per_token = 2 * l * heads_per_rank profile.kv_heads tp * dim * b * tp;
              files_per_chunk = tp;
            }))
          ≡ ok info
        → (unit : ℕ) × (info.bytes_per_token ≡ profile.kv_heads * unit)
          × (info.stored_bytes_per_token ≡ heads_per_rank profile.kv_heads tp * tp * unit)
    go (err raised) e = cc
    go (ok dim) e =
        let made = ok-injective e in
        (
          2 * l * dim * b,
          sym (ap (λ (i : CapacityInfo). i.bytes_per_token) made)
              ∙ regroup profile.kv_heads dim b l,
          sym (ap (λ (i : CapacityInfo). i.stored_bytes_per_token) made)
              ∙ regroup_ranks l (heads_per_rank profile.kv_heads tp) dim b tp,
        )

heads-even : (q tp : ℕ) → 0 < q → 0 < tp → heads_per_rank (q * tp) tp ≡ q
unfolding heads_per_rank
heads-even q zero hq ht = absurd (omega arith)
heads-even q (suc n) hq ht =
    let exact : q * suc n / suc n ≡ q = mul-div_cancel q ht in rw exact (omega arith)

heads-shared : (kv tp : ℕ) → 0 < tp → tp ≤ kv → heads_per_rank kv tp * tp ≡ kv - kv % tp
unfolding heads_per_rank
heads-shared kv zero ht h = absurd (omega arith)
heads-shared kv (suc n) ht h = at_least_one (kv / suc n) (div-add-mod' kv (suc n))
  where
    at_least_one : (q : ℕ) → q * suc n + kv % suc n ≡ kv → max 1 q * suc n ≡ kv - kv % suc n
    at_least_one zero parts = absurd (omega (arith, mod-lt kv ht))
    at_least_one (suc q) parts = let e : max 1 (suc q) ≡ suc q = omega arith in rw e (omega arith)

swap : (q unit kv : ℕ) → q * unit * kv ≡ kv * unit * q
swap q unit kv = grind arith

heads-positive : (kv tp : ℕ) → 0 < heads_per_rank kv tp
unfolding heads_per_rank
heads-positive kv zero = omega arith
heads-positive kv (suc n) = omega arith

-- When the ranks share the heads evenly, what they store together is what the model needs.
pub capacity_info-even :
    (profile : ModelProfile) (chunk_size tp q : ℕ) (info : CapacityInfo)
    → 0 < q
    → 0 < tp
    → profile.kv_heads ≡ q * tp
    → capacity_info profile chunk_size tp ≡ ok info
    → info.stored_bytes_per_token ≡ info.bytes_per_token
capacity_info-even profile chunk_size tp q info hq ht even e =
    let (unit, a, b) = sizes profile chunk_size tp info e in
    b
    ∙ ap (λ h. h * tp * unit) (ap (λ kv. heads_per_rank kv tp) even ∙ heads-even q tp hq ht)
    ∙ ap (λ kv. kv * unit) (sym even)
    ∙ sym a

-- With at least as many ranks as heads, what they store is at least what the model needs.
pub capacity_info-replicated :
    (profile : ModelProfile) (chunk_size tp : ℕ) (info : CapacityInfo)
    → profile.kv_heads ≤ tp
    → capacity_info profile chunk_size tp ≡ ok info
    → info.bytes_per_token ≤ info.stored_bytes_per_token
capacity_info-replicated profile chunk_size tp info h e =
    let (unit, a, b) = sizes profile chunk_size tp info e in
    let one = heads-positive profile.kv_heads tp in
    let enough : profile.kv_heads ≤ heads_per_rank profile.kv_heads tp * tp = grind arith in
    omega (arith, a, b, scale _ _ unit enough)

-- With no more ranks than heads, the heads that are left over when they are shared evenly are
-- dropped: what the ranks store together is to what the model needs as the heads without the
-- remainder are to all heads.
pub capacity_info-dropped :
    (profile : ModelProfile) (chunk_size tp : ℕ) (info : CapacityInfo)
    → 0 < tp
    → tp ≤ profile.kv_heads
    → capacity_info profile chunk_size tp ≡ ok info
    → info.stored_bytes_per_token * profile.kv_heads
      ≡ info.bytes_per_token * (profile.kv_heads - profile.kv_heads % tp)
capacity_info-dropped profile chunk_size tp info ht h e =
    let (unit, a, b) = sizes profile chunk_size tp info e in
    let shared = heads-shared profile.kv_heads tp ht h in
    ap (λ n. n * profile.kv_heads) (b ∙ ap (λ n. n * unit) shared)
    ∙ swap (profile.kv_heads - profile.kv_heads % tp) unit profile.kv_heads
    ∙ ap (λ n. n * (profile.kv_heads - profile.kv_heads % tp)) (sym a)
