-- ===== src/Stack/Agreement.antt =====
-- The statistics of the stack (src/kvbench/kv/lmcache_stack.py) against those of the combined
-- server that runs over it.
use llm_kv_passthrough.Prelude.{
  ℕ, zero, suc, ◌+◌, ◌-◌, ◌*◌, ◌/◌, ◌≤◌, ◌≡◌, ◌⊎◌, refl, sym, ap, ◌∙◌, Bool, true, false, Option,
  List, [], ◌∷◌, length, take, ltb, ◌==◌, inl, inr, if◌then◌else◌, arith,
}
use llm_kv_passthrough.Prelude.Result.{
  Result, ok, err, Error, runtime_error, Result-cases, ok-injective,
}
use llm_kv_passthrough.Chunks.{Sha256, simulate_tokenize}
use llm_kv_passthrough.Stack.{
  Engine, KvStackStats, LmCacheStack, lookup_first, count_lookup, count_store, count_retrieve,
  required, lookup, store, retrieve,
}
use llm_kv_passthrough.Combined.{
  KvStack, Prefilled, CombinedStats, no_stats, and_then, counts, store_end, read_hit, store_missed,
  process_tokens, process_prefill, count_request, chat_completions,
}
use llm_kv_passthrough.Combined.Prefill.{and_then-eq-ok}
use native.Mathlib.Nat.{div-mul-le_self}
use llm_kv_passthrough.Combined.Stats.{Request, serve}
use llm_kv_passthrough.Stack.Contract.{kv_stack}

-- The server has counted no more than the stack: the tokens of its prompts were looked up, and
-- the tokens of its hits were answered.
pub record Agrees (chunk_size : ℕ) (st : CombinedStats) (s : KvStackStats) : Type 0 where
  pub prompts : st.prompt_tokens ≤ s.lookup_tokens
  pub hits : st.cache_hits * chunk_size ≤ s.hit_tokens

times_add : (a b c : ℕ) → (a + b) * c ≡ a * c + b * c
times_add a b c = grind arith

-- A call that counts no lookup.
abbrev Keeps : KvStackStats → KvStackStats → Type 0
Keeps s t = (t.lookup_tokens ≡ s.lookup_tokens) × (t.hit_tokens ≡ s.hit_tokens)

Keeps-trans : (s t u : KvStackStats) → Keeps s t → Keeps t u → Keeps s u
Keeps-trans s t u (a, b) (c, d) = (c ∙ a, d ∙ b)

module _ {E : Type 0} (engine : Engine E) where
  -- A lookup of the stack counts its tokens and its answer, or raises.
  abbrev IsCounted : List ℕ → LmCacheStack E → Type 0
  IsCounted tokens s =
      ((hit : ℕ) × ((lookup engine tokens s).0 ≡ ok hit)
        × ((lookup engine tokens s).1.stats.lookup_tokens ≡ s.stats.lookup_tokens + length tokens)
        × ((lookup engine tokens s).1.stats.hit_tokens ≡ s.stats.hit_tokens + hit))
      ⊎ ((e : Error) × ((lookup engine tokens s).0 ≡ err e)
          × Keeps s.stats (lookup engine tokens s).1.stats)

  lookup-IsCounted : (tokens : List ℕ) (s : LmCacheStack E) → IsCounted tokens s
  lookup-IsCounted tokens s = go s.active s.engines
    where
      go :
          (b : Bool) (engines : List E)
          → IsCounted tokens (record s { active = b; engines = engines })
      go false engines = unfold lookup required in inr (runtime_error, refl, (refl, refl))
      go true [] =
          unfold lookup required lookup_first count_lookup in
          inr (runtime_error, refl, (refl, refl))
      go true (e ∷ es) =
          unfold lookup required lookup_first count_lookup in
          elim (Result-cases (engine.lookup tokens e).0) [
            | inl (hit, h) ↦
                let st = λ (r : Result ℕ). count_lookup engine (length tokens) r s.stats in
                inl (hit, h, ap (λ r. (st r).lookup_tokens) h, ap (λ r. (st r).hit_tokens) h)
            | inr (raised, h) ↦
                let st = λ (r : Result ℕ). count_lookup engine (length tokens) r s.stats in
                inr (raised, h, (ap (λ r. (st r).lookup_tokens) h, ap (λ r. (st r).hit_tokens) h))
          ]

  count_retrieve-Keeps : (r : Result ℕ) (s : KvStackStats) → Keeps s (count_retrieve engine r s)
  unfolding count_retrieve
  count_retrieve-Keeps (ok n) s = (refl, refl)
  count_retrieve-Keeps (err e) s = (refl, refl)

  count_store-Keeps :
      (n skip : ℕ) (r : Result (Unit {0})) (s : KvStackStats)
      → Keeps s (count_store engine n skip r s)
  unfolding count_store
  count_store-Keeps n skip (ok done) s = (refl, refl)
  count_store-Keeps n skip (err e) s = (refl, refl)

  retrieve-Keeps :
      (tokens : List ℕ) (s : LmCacheStack E) → Keeps s.stats (retrieve engine tokens s).1.stats
  retrieve-Keeps tokens s = go s.active
    where
      go : (b : Bool) → Keeps s.stats (retrieve engine tokens (record s { active = b })).1.stats
      go false = unfold retrieve required in (refl, refl)
      go true = unfold retrieve required in count_retrieve-Keeps _ s.stats

  store-Keeps :
      (tokens : List ℕ) (skip : ℕ) (s : LmCacheStack E)
      → Keeps s.stats (store engine tokens skip s).1.stats
  store-Keeps tokens skip s = go s.active
    where
      go : (b : Bool) → Keeps s.stats (store engine tokens skip (record s { active = b })).1.stats
      go false = unfold store required in (refl, refl)
      go true = unfold store required in count_store-Keeps (length tokens) skip _ s.stats

  and_then-Keeps :
      {A B : Type 0} (t : KvStackStats) (m : Result A × LmCacheStack E)
      (next : A → LmCacheStack E → Result B × LmCacheStack E)
      → Keeps t m.1.stats
      → ((a : A) → Keeps m.1.stats (next a m.1).1.stats)
      → Keeps t (and_then m next).1.stats
  and_then-Keeps t (ok a, s) next h k = Keeps-trans t s.stats (next a s).1.stats h (k a)
  and_then-Keeps t (err e, s) next h k = h

module _ {E : Type 0} (engine : Engine E) (chunk_size : ℕ) where
  kv : KvStack (LmCacheStack E)
  kv = kv_stack engine chunk_size

  read_hit-Keeps :
      (tokens : List ℕ) (hit : ℕ) (s : LmCacheStack E)
      → Keeps s.stats (read_hit kv tokens hit s).1.stats
  unfolding read_hit kv
  read_hit-Keeps tokens zero s = (refl, refl)
  read_hit-Keeps tokens (suc hit) s =
      and_then-Keeps engine s.stats (retrieve engine (take (suc hit) tokens) s) _
        (retrieve-Keeps engine (take (suc hit) tokens) s) (λ n. (refl, refl))

  store_missed-Keeps :
      (tokens : List ℕ) (hit : ℕ) (s : LmCacheStack E)
      → Keeps s.stats (store_missed kv tokens hit s).1.stats
  unfolding store_missed kv
  store_missed-Keeps tokens hit s =
      by_tests (length tokens - hit == 0) (ltb hit (store_end chunk_size (length tokens)))
    where
      stored : Result (Unit {0}) × LmCacheStack E
      stored = store engine (take (store_end chunk_size (length tokens)) tokens) hit s

      by_tests :
          (none_missed more : Bool)
          → Keeps s.stats
              (if none_missed then (ok tt, s) else if more then stored else (ok tt, s)).1.stats
      by_tests true more = (refl, refl)
      by_tests false true =
          store-Keeps engine (take (store_end chunk_size (length tokens)) tokens) hit s
      by_tests false false = (refl, refl)

  -- The rest of a prefill, after its lookup.
  after_lookup : List ℕ → ℕ → LmCacheStack E → Result Prefilled × LmCacheStack E
  after_lookup tokens hit s = and_then (read_hit kv tokens hit s) (λ read s.
      and_then (store_missed kv tokens hit s) (λ stored s. (ok (counts kv (length tokens) hit), s)))

  after_lookup-Keeps :
      (tokens : List ℕ) (hit : ℕ) (s : LmCacheStack E)
      → Keeps s.stats (after_lookup tokens hit s).1.stats
  unfolding after_lookup
  after_lookup-Keeps tokens hit s =
      let t = (read_hit kv tokens hit s).1 in
      let u = (store_missed kv tokens hit t).1 in
      and_then-Keeps engine s.stats (read_hit kv tokens hit s) _ (read_hit-Keeps tokens hit s)
        (λ read.
          and_then-Keeps engine t.stats (store_missed kv tokens hit t)
            (λ stored s. (ok (counts kv (length tokens) hit), s)) (store_missed-Keeps tokens hit t)
            (λ stored. (refl, refl)))

  after_lookup-counts :
      (tokens : List ℕ) (hit : ℕ) (s : LmCacheStack E) (p : Prefilled)
      → (after_lookup tokens hit s).0 ≡ ok p
      → p ≡ counts kv (length tokens) hit
  unfolding after_lookup
  after_lookup-counts tokens hit s p h =
      let (read, was_read, more) = and_then-eq-ok (read_hit kv tokens hit s) _ p h in
      let (stored, was_stored, done) =
        and_then-eq-ok (store_missed kv tokens hit (read_hit kv tokens hit s).1) _ p more in
      sym (ok-injective done)

  -- The server's statistics after a prefill, against those of the stack after its lookup.
  count_request-Agrees :
      (n hit : ℕ) (m : Option ℕ) (elapsed : ℕ) (st : CombinedStats) (s t : KvStackStats)
      (r : Result Prefilled)
      → Agrees chunk_size st s
      → ((p : Prefilled) → r ≡ ok p → p ≡ counts kv n hit)
      → t.lookup_tokens ≡ s.lookup_tokens + n
      → t.hit_tokens ≡ s.hit_tokens + hit
      → Agrees chunk_size (count_request kv m elapsed r st) t
  unfolding count_request kv
  count_request-Agrees n hit m elapsed st s t (err e) h c a b = record {
    prompts = omega (arith, h.prompts);
    hits = omega (arith, h.hits);
  }
  count_request-Agrees n hit m elapsed st s t (ok p) h c a b =
      let counted = c p refl in
      let tokens : p.num_tokens ≡ n = ap (λ (q : Prefilled). q.num_tokens) counted in
      let chunks : p.cache_hits ≡ hit / chunk_size = ap (λ (q : Prefilled). q.cache_hits) counted in
      let fits = div-mul-le_self hit chunk_size in
      let whole = ap (λ x. x * chunk_size) chunks in
      record {
        prompts = omega (arith, h.prompts, tokens);
        hits = omega (arith, h.hits, whole, fits, times_add st.cache_hits p.cache_hits chunk_size);
      }

  -- What a request adds to the statistics of the stack covers what it adds to the server's.
  process_tokens-Agrees :
      (tokens : List ℕ) (s : LmCacheStack E) (m : Option ℕ) (elapsed : ℕ) (st : CombinedStats)
      → Agrees chunk_size st s.stats
      → Agrees chunk_size
          (count_request kv m elapsed (process_tokens kv tokens s).0 st)
          (process_tokens kv tokens s).1.stats
  unfolding process_tokens kv after_lookup
  process_tokens-Agrees tokens s m elapsed st h =
      go (lookup engine tokens s) (lookup-IsCounted engine tokens s)
    where
      go :
          (r : Result ℕ × LmCacheStack E)
          → ((hit : ℕ) × (r.0 ≡ ok hit)
              × (r.1.stats.lookup_tokens ≡ s.stats.lookup_tokens + length tokens)
              × (r.1.stats.hit_tokens ≡ s.stats.hit_tokens + hit))
            ⊎ ((e : Error) × (r.0 ≡ err e) × Keeps s.stats r.1.stats)
          → Agrees chunk_size
              (count_request kv m elapsed (and_then r (after_lookup tokens)).0 st)
              (and_then r (after_lookup tokens)).1.stats
      go (ok hit, t) (inl (hit', found, all, hits)) =
          let (a, b) = after_lookup-Keeps tokens hit t in
          let same : hit ≡ hit' = ok-injective found in
          count_request-Agrees (length tokens) hit m elapsed st s.stats
            (after_lookup tokens hit t).1.stats (after_lookup tokens hit t).0 h
            (after_lookup-counts tokens hit t) (omega (arith, a, all))
            (omega (arith, b, hits, same))
      go (ok hit, t) (inr (raised, found, keeps)) = cc
      go (err e, t) (inl (hit', found, all, hits)) = cc
      go (err e, t) (inr (raised, found, (a, b))) =
          unfold count_request in
          record { prompts = omega (arith, h.prompts, a); hits = omega (arith, h.hits, b) }

  serve_keeps :
      (sha : Sha256) (rs : List Request) (st : CombinedStats) (s : LmCacheStack E)
      → Agrees chunk_size st s.stats
      → Agrees chunk_size (serve kv sha rs (st, s)).0 (serve kv sha rs (st, s)).1.stats
  unfolding serve chat_completions process_prefill
  serve_keeps sha [] st s h = h
  serve_keeps sha (r ∷ rs) st s h = serve_keeps sha rs _ _ (
      process_tokens-Agrees (simulate_tokenize sha r.prompt 4) s r.max_tokens r.elapsed
        (record st { requests_total = st.requests_total + 1 })
        (record { prompts = h.prompts; hits = h.hits }))

-- After any sequence of requests to a combined server over an LMCache stack, whatever the engines
-- answer or raise and whether the stack is started or not: the prompt tokens that the server has
-- counted were all looked up, and the tokens of the chunks that it counts as hits were all
-- answered, as the stack's own statistics count them.
pub serve-Agrees :
    {E : Type 0} (engine : Engine E) (chunk_size : ℕ) (sha : Sha256) (rs : List Request)
    (s : LmCacheStack E)
    → Agrees chunk_size
        (serve (kv_stack engine chunk_size) sha rs (no_stats, s)).0
        (serve (kv_stack engine chunk_size) sha rs (no_stats, s)).1.stats
unfolding kv
serve-Agrees engine chunk_size sha rs s =
    serve_keeps engine chunk_size sha rs no_stats s
      (record { prompts = omega arith; hits = omega arith })
