-- ===== src/Combined/Stats.antt =====
-- The statistics of the combined server over any sequence of requests.
use llm_kv_passthrough.Prelude.{
  ℕ, ◌+◌, ◌-◌, ◌*◌, ◌/◌, ◌≤◌, ◌<◌, ◌≡◌, refl, ap, Option, List, [], ◌∷◌, length, arith,
}
use llm_kv_passthrough.Prelude.Result.{Result, ok, err}
use llm_kv_passthrough.Chunks.{Sha256, simulate_tokenize}
use llm_kv_passthrough.Combined.{
  KvStack, Prefilled, CombinedStats, no_stats, process_tokens, process_prefill, count_request,
  chat_completions,
}
use llm_kv_passthrough.Combined.Prefill.{AnswersChunks, process_tokens-splits}
use native.Mathlib.Nat.{div-add-mod', mod-lt}

pub record Request : Type 0 where
  pub prompt : List ℕ
  pub max_tokens : Option ℕ
  pub elapsed : ℕ

module _ {S : Type 0} (kv : KvStack S) where
  unfoldable pub serve : Sha256 → List Request → CombinedStats × S → CombinedStats × S
  unfolding chat_completions
  serve sha [] state = state
  serve sha (r ∷ rs) state =
      serve sha rs (chat_completions kv sha r.prompt r.max_tokens r.elapsed state)

-- Every request has an end, and the hits and misses cover the prompts: the chunks that were hit
-- hold no more than the prompt tokens, and all chunks counted hold at least them.
pub record IsBalanced (chunk_size : ℕ) (st : CombinedStats) : Type 0 where
  pub ended : st.requests_total ≡ st.requests_success + st.requests_failed
  pub hits_fit : st.cache_hits * chunk_size ≤ st.prompt_tokens
  pub chunks_cover : st.prompt_tokens ≤ (st.cache_hits + st.cache_misses) * chunk_size

ceil_bounds : (n c : ℕ) → 0 < c → n ≤ (n + c - 1) / c * c
ceil_bounds n c h =
    let d = div-add-mod' (n + c - 1) c in let r = mod-lt (n + c - 1) h in omega arith

add_times : (a b c : ℕ) → (a + b) * c ≡ a * c + b * c
add_times a b c = grind arith

module _ {S : Type 0} (kv : KvStack S) (law : AnswersChunks kv) where
  count-IsBalanced :
      (tokens : List ℕ) (s : S) (m : Option ℕ) (elapsed : ℕ) (st : CombinedStats)
      → IsBalanced kv.chunk_size st
      → IsBalanced kv.chunk_size (
          count_request kv m elapsed
            (process_tokens kv tokens s).0
            (record st { requests_total = st.requests_total + 1 }))
  count-IsBalanced tokens s m elapsed st h = go (process_tokens kv tokens s).0 refl
    where
      c : ℕ
      c = kv.chunk_size

      go :
          (r : Result Prefilled)
          → (process_tokens kv tokens s).0 ≡ r
          → IsBalanced kv.chunk_size
              (count_request kv m elapsed r (record st { requests_total = st.requests_total + 1 }))
      go (err raised) e =
          unfold count_request in
          record {
            ended = omega (arith, h.ended);
            hits_fit = h.hits_fit;
            chunks_cover = h.chunks_cover;
          }
      go (ok p) e =
          unfold count_request in
          let (all, sum, answered) = process_tokens-splits kv tokens s p law e in
          let fits = law.bounded tokens s (p.cache_hits * kv.chunk_size) answered in
          let cover = ceil_bounds (length tokens) kv.chunk_size law.positive in
          let sum' = ap (λ x. x * kv.chunk_size) sum in
          record {
            ended = omega (arith, h.ended);
            hits_fit =
                omega (
                  arith,
                  h.hits_fit,
                  fits,
                  all,
                  add_times st.cache_hits p.cache_hits kv.chunk_size,
                );
            chunks_cover = omega (
              arith,
              h.chunks_cover,
              all,
              sum',
              cover,
              add_times st.cache_hits st.cache_misses kv.chunk_size,
              add_times p.cache_hits p.cache_misses kv.chunk_size,
              add_times (st.cache_hits + p.cache_hits) (st.cache_misses + p.cache_misses)
                  kv.chunk_size,
              add_times st.cache_hits p.cache_hits kv.chunk_size,
              add_times st.cache_misses p.cache_misses kv.chunk_size,
            );
          }

  serve_keeps :
      (sha : Sha256) (rs : List Request) (st : CombinedStats) (s : S)
      → IsBalanced kv.chunk_size st
      → IsBalanced kv.chunk_size (serve kv sha rs (st, s)).0
  unfolding serve chat_completions process_prefill
  serve_keeps sha [] st s h = h
  serve_keeps sha (r ∷ rs) st s h =
      serve_keeps sha rs _ _
        (count-IsBalanced (simulate_tokenize sha r.prompt 4) s r.max_tokens r.elapsed st h)

-- Over a stack that answers lookups in chunks, and may raise anywhere: after any sequence of
-- requests the total is the successes and the failures, and the hits and misses counted cover
-- the prompt tokens counted.
pub serve-IsBalanced :
    {S : Type 0} (kv : KvStack S) (sha : Sha256) (rs : List Request) (s : S)
    → AnswersChunks kv
    → IsBalanced kv.chunk_size (serve kv sha rs (no_stats, s)).0
serve-IsBalanced kv sha rs s law =
    serve_keeps kv law sha rs no_stats s
      (record { ended = omega arith; hits_fit = omega arith; chunks_cover = omega arith })
