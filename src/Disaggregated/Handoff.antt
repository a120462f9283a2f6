-- ===== src/Disaggregated/Handoff.antt =====
-- What the prefill server wrote is what the decode server reads.
use llm_kv_passthrough.Prelude.{ℕ, ◌+◌, ◌-◌, ◌*◌, ◌/◌, ◌≡◌, refl, sym, ap, ◌∙◌, List, ◌∷◌, length}
use llm_kv_passthrough.Prelude.Result.{ok, ok-injective}
use llm_kv_passthrough.Chunks.{Sha256, simulate_tokenize}
use llm_kv_passthrough.Combined.{KvStack, Prefilled, counts, read_hit, process_tokens}
use llm_kv_passthrough.Combined.Prefill.{AnswersChunks}
use llm_kv_passthrough.Combined.Repeat.{KeepsStored, and_then-ok, read_found, process_tokens-found}
use llm_kv_passthrough.Disaggregated.{prefill_prompt, load_context_kv}
use native.Mathlib.Nat.{mul-div_cancel}

-- Over a stack that raises nothing and evicts nothing: after the prefill server has processed a
-- prompt, the decode server loads all of its full chunks and misses at most the partial one.
pub load_context_kv-prefill_prompt :
    {S : Type 0} (kv : KvStack S) (sha : Sha256) (b : ℕ) (bs : List ℕ) (s : S)
    → AnswersChunks kv
    → KeepsStored kv
    → (p : Prefilled) × ((load_context_kv kv sha (b ∷ bs) (prefill_prompt kv sha (b ∷ bs) s).1).0
        ≡ ok p)
      × (p.num_tokens ≡ length (simulate_tokenize sha (b ∷ bs) 4))
      × (p.cache_hits ≡ p.num_tokens / kv.chunk_size)
      × (p.cache_misses
          ≡ (p.num_tokens - p.num_tokens / kv.chunk_size * kv.chunk_size + kv.chunk_size - 1)
            / kv.chunk_size)
unfolding load_context_kv prefill_prompt
load_context_kv-prefill_prompt kv sha b bs s law keeps =
    let tokens = simulate_tokenize sha (b ∷ bs) 4 in
    let c = kv.chunk_size in
    let (p, done, found) = process_tokens-found kv tokens s law keeps in
    let s' = (process_tokens kv tokens s).1 in
    let (hit, got, again) = keeps.looks_up tokens s' in
    let s1 = (kv.lookup tokens s').1 in
    let (u, read, last) = read_found kv law keeps tokens s1 hit again in
    let loaded =
      and_then-ok {B = Prefilled} (kv.lookup tokens s') _ hit got
      ∙ and_then-ok (read_hit kv tokens hit s1) (λ done s. (ok (counts kv (length tokens) hit), s))
          u read in
    let all : hit ≡ length tokens / c * c = ok-injective (sym got ∙ found) in
    (
      counts kv (length tokens) hit,
      ap (λ r. r.0) loaded,
      refl,
      ap (λ h. h / c) all ∙ mul-div_cancel (length tokens / c) law.positive,
      ap (λ h. (length tokens - h + c - 1) / c) all,
    )
