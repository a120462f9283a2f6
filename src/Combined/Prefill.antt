-- ===== src/Combined/Prefill.antt =====
-- The counts that a prefill returns.
use llm_kv_passthrough.Prelude.{
  ℕ, ◌+◌, ◌-◌, ◌*◌, ◌/◌, ◌≤◌, ◌<◌, ◌≡◌, refl, sym, ap, subst, ◌∙◌, List, length, arith,
}
use llm_kv_passthrough.Prelude.Result.{Result, ok, err, ok-injective}
use llm_kv_passthrough.Combined.{
  KvStack, and_then, Prefilled, counts, read_hit, store_missed, process_tokens,
}
use native.Mathlib.Nat.{mul-div_cancel, add-mul-div_right}

-- The documented contract of a lookup: it answers a number of tokens of the sequence, in chunks.
pub record AnswersChunks {S : Type 0} (kv : KvStack S) : Type 0 where
  pub positive : 0 < kv.chunk_size
  pub bounded :
      (tokens : List ℕ) (s : S) (hit : ℕ) → (kv.lookup tokens s).0 ≡ ok hit → hit ≤ length tokens
  pub whole :
      (tokens : List ℕ) (s : S) (hit : ℕ)
      → (kv.lookup tokens s).0 ≡ ok hit
      → (q : ℕ) × (hit ≡ q * kv.chunk_size)

pub and_then-eq-ok :
    {A B S : Type 0} (m : Result A × S) (next : A → S → Result B × S) (b : B)
    → (and_then m next).0 ≡ ok b
    → (a : A) × (m.0 ≡ ok a) × ((next a m.1).0 ≡ ok b)
and_then-eq-ok (ok a, s) next b e = (a, refl, e)
and_then-eq-ok (err raised, s) next b e = cc

-- A prefill that returned had an answer of the lookup, and counts by it.
pub process_tokens-counts :
    {S : Type 0} (kv : KvStack S) (tokens : List ℕ) (s : S) (p : Prefilled)
    → (process_tokens kv tokens s).0 ≡ ok p
    → (hit : ℕ) × ((kv.lookup tokens s).0 ≡ ok hit) × (p ≡ counts kv (length tokens) hit)
unfolding process_tokens
process_tokens-counts kv tokens s p e =
    let (hit, found, rest) = and_then-eq-ok (kv.lookup tokens s) _ p e in
    let (read, was_read, rest') =
      and_then-eq-ok (read_hit kv tokens hit (kv.lookup tokens s).1) _ p rest in
    let (stored, was_stored, done) =
      and_then-eq-ok (store_missed kv tokens hit (read_hit kv tokens hit (kv.lookup tokens s).1).1)
        _ p rest' in
    (hit, found, sym (ok-injective done))

chunks_split :
    (n q c : ℕ) → 0 < c → q * c ≤ n → q * c / c + (n - q * c + c - 1) / c ≡ (n + c - 1) / c
chunks_split n q c h le =
    let whole : q * c / c ≡ q = mul-div_cancel q h in
    let e : n + c - 1 ≡ n - q * c + c - 1 + q * c = omega arith in
    let split : (n - q * c + c - 1 + q * c) / c ≡ (n - q * c + c - 1) / c + q =
      add-mul-div_right (n - q * c + c - 1) q h in
    rw whole (omega (arith, ap (λ x. x / c) e, split))

-- A prefill that returned has counted the tokens of the prompt, and each of its chunks, the last
-- partial one included, as a hit or as a miss; the hits are the tokens that the lookup answered.
pub process_tokens-splits :
    {S : Type 0} (kv : KvStack S) (tokens : List ℕ) (s : S) (p : Prefilled)
    → AnswersChunks kv
    → (process_tokens kv tokens s).0 ≡ ok p
    → (p.num_tokens ≡ length tokens)
      × (p.cache_hits + p.cache_misses ≡ (length tokens + kv.chunk_size - 1) / kv.chunk_size)
      × ((kv.lookup tokens s).0 ≡ ok (p.cache_hits * kv.chunk_size))
process_tokens-splits kv tokens s p law e =
    let (hit, found, counted) = process_tokens-counts kv tokens s p e in
    let (q, whole) = law.whole tokens s hit found in
    let le = law.bounded tokens s hit found in
    let c = kv.chunk_size in
    let back : hit / c ≡ q = ap (λ h. h / c) whole ∙ mul-div_cancel q law.positive in
    let answered : hit ≡ hit / c * c = whole ∙ ap (λ x. x * c) (sym back) in
    let sum : hit / c + (length tokens - hit + c - 1) / c ≡ (length tokens + c - 1) / c =
      subst (λ h. h / c + (length tokens - h + c - 1) / c ≡ (length tokens + c - 1) / c) (sym whole)
        (chunks_split (length tokens) q c law.positive (omega arith)) in
    rw counted (refl, sum, found ∙ ap ok answered)
