-- ===== src/Stack/Contract.antt =====
-- The stack of src/kvbench/kv/lmcache_stack.py fulfils the contract that the servers ask of a KV
-- stack (src/kvbench/kv/base.py).
use llm_kv_passthrough.Prelude.{ℕ, ◌*◌, ◌≤◌, ◌<◌, ◌≡◌, Bool, true, false, List, [], ◌∷◌, length}
use llm_kv_passthrough.Prelude.Result.{ok}
use llm_kv_passthrough.Stack.{
  Engine, LmCacheStack, lookup_first, count_lookup, required, lookup, store, retrieve,
}
use llm_kv_passthrough.Combined.{KvStack}
use llm_kv_passthrough.Combined.Prefill.{AnswersChunks}

-- LMCacheStack as the server sees it.
abbrev pub kv_stack : {E : Type 0} → Engine E → ℕ → KvStack (LmCacheStack E)
kv_stack engine chunk_size = record {
  chunk_size = chunk_size;
  lookup = λ tokens s. lookup engine tokens s;
  store = λ tokens skip s. store engine tokens skip s;
  retrieve = λ tokens s. retrieve engine tokens s;
}

-- What LMCache documents of an engine's lookup: the length of a prefix, in whole chunks.
pub record EngineAnswers {E : Type 0} (engine : Engine E) (chunk_size : ℕ) : Type 0 where
  pub positive : 0 < chunk_size
  pub bounded :
      (tokens : List ℕ) (e : E) (hit : ℕ)
      → (engine.lookup tokens e).0 ≡ ok hit
      → hit ≤ length tokens
  pub whole :
      (tokens : List ℕ) (e : E) (hit : ℕ)
      → (engine.lookup tokens e).0 ≡ ok hit
      → (q : ℕ) × (hit ≡ q * chunk_size)

module _ {E : Type 0} (engine : Engine E) where
  -- An answer of the stack is an answer of its first engine.
  lookup-first :
      (tokens : List ℕ) (s : LmCacheStack E) (hit : ℕ)
      → (lookup engine tokens s).0 ≡ ok hit
      → (e : E) × ((engine.lookup tokens e).0 ≡ ok hit)
  unfolding lookup required lookup_first
  lookup-first tokens s hit h = active s.active s.engines h
    where
      active :
          (b : Bool) (engines : List E)
          → (required engine b
              (λ s.
                let r = lookup_first engine tokens s.engines in
                (
                  r.0,
                  record s {
                    engines = r.1;
                    stats = count_lookup engine (length tokens) r.0 s.stats;
                  },
                ))
              (record s { engines = engines })).0
            ≡ ok hit
          → (e : E) × ((engine.lookup tokens e).0 ≡ ok hit)
      active false engines h = cc
      active true [] h = cc
      active true (e ∷ es) h = (e, h)

-- Over engines that answer as documented, the stack answers lookups as the server asks of it,
-- started or not.
pub kv_stack-AnswersChunks :
    {E : Type 0} (engine : Engine E) (chunk_size : ℕ)
    → EngineAnswers engine chunk_size
    → AnswersChunks (kv_stack engine chunk_size)
kv_stack-AnswersChunks engine chunk_size law = record {
  positive = law.positive;
  bounded = λ tokens s hit h.
      let (e, answered) = lookup-first engine tokens s hit h in law.bounded tokens e hit answered;
  whole = λ tokens s hit h.
      let (e, answered) = lookup-first engine tokens s hit h in law.whole tokens e hit answered;
}
