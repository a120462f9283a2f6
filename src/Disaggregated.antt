-- ===== src/Disaggregated.antt =====
-- PrefillServer of src/kvbench/servers/prefill.py and DecodeServer of
-- src/kvbench/servers/decode.py over one KV stack: one writes the KV cache of a prompt, the other
-- reads it. Requests run one at a time; sleeps are left out, the elapsed time is an input. The
-- prefill of a prompt is written in both servers with the same statements as in the combined one.
pub mod Handoff
pub mod Counted
mod Examples
use llm_kv_passthrough.Prelude.{
  ℕ, zero, suc, ◌+◌, max, Bool, true, false, Option, List, [], ◌∷◌, length,
}
use llm_kv_passthrough.Prelude.Result.{Result, ok, err}
use llm_kv_passthrough.Chunks.{Sha256, simulate_tokenize}
use llm_kv_passthrough.Proxy.{max_tokens_of}
use llm_kv_passthrough.Combined.{KvStack, and_then, Prefilled, counts, read_hit, process_tokens}

pub record PrefillStats : Type 0 where
  pub requests_total : ℕ
  pub requests_success : ℕ
  pub requests_failed : ℕ
  pub tokens_processed : ℕ
  pub cache_hits : ℕ
  pub cache_misses : ℕ
  pub total_latency : ℕ

pub record DecodeStats : Type 0 where
  pub requests_total : ℕ
  pub requests_success : ℕ
  pub requests_failed : ℕ
  pub tokens_generated : ℕ
  pub cache_hits : ℕ
  pub cache_misses : ℕ
  pub total_latency : ℕ

module _ {S : Type 0} (kv : KvStack S) where
  -- PrefillServer.process_prefill.
  pub prefill_prompt : Sha256 → List ℕ → S → Result Prefilled × S
  prefill_prompt sha prompt s = process_tokens kv (simulate_tokenize sha prompt 4) s

  pub count_prefill : ℕ → Result Prefilled → PrefillStats → PrefillStats
  count_prefill latency (err raised) st = record st { requests_failed = st.requests_failed + 1 }
  count_prefill latency (ok p) st = record st {
    tokens_processed = st.tokens_processed + p.num_tokens;
    cache_hits = st.cache_hits + p.cache_hits;
    cache_misses = st.cache_misses + p.cache_misses;
    total_latency = st.total_latency + latency;
    requests_success = st.requests_success + 1;
  }

  -- PrefillServer.chat_completions.
  pub prefill_completions : Sha256 → List ℕ → ℕ → PrefillStats × S → PrefillStats × S
  unfolding prefill_prompt count_prefill
  prefill_completions sha prompt latency (st, s) =
      let r = prefill_prompt sha prompt s in
      (count_prefill latency r.0 (record st { requests_total = st.requests_total + 1 }), r.1)

  -- DecodeServer._load_context_kv: the tokens of the prompt, the chunks loaded and those missing.
  pub load_context_kv : Sha256 → List ℕ → S → Result Prefilled × S
  load_context_kv sha [] s = (ok (record { num_tokens = 0; cache_hits = 0; cache_misses = 0 }), s)
  load_context_kv sha (b ∷ bs) s =
      let tokens = simulate_tokenize sha (b ∷ bs) 4 in
      and_then (kv.lookup tokens s) (λ hit s.
        and_then (read_hit kv tokens hit s) (λ read s. (ok (counts kv (length tokens) hit), s)))

  -- After the load: the tokens are generated and the request is a success.
  pub count_decoded : Option ℕ → ℕ → Prefilled → DecodeStats → DecodeStats
  unfolding max_tokens_of
  count_decoded max_tokens elapsed p st = record st {
    cache_hits = st.cache_hits + p.cache_hits;
    cache_misses = st.cache_misses + p.cache_misses;
    tokens_generated = st.tokens_generated + max_tokens_of max_tokens;
    total_latency = st.total_latency + elapsed;
    requests_success = st.requests_success + 1;
  }

  -- DecodeServer.chat_completions catches what the load raises.
  pub answer : Option ℕ → ℕ → Result Prefilled → DecodeStats → Result (Unit {0}) × DecodeStats
  unfolding count_decoded
  answer max_tokens elapsed (err raised) st =
      (ok tt, record st { requests_failed = st.requests_failed + 1 })
  answer max_tokens elapsed (ok p) st = (ok tt, count_decoded max_tokens elapsed p st)

  -- DecodeServer.chat_completions_stream lets it go up to its caller.
  pub answer_stream :
      Option ℕ → ℕ → Result Prefilled → DecodeStats → Result (Unit {0}) × DecodeStats
  unfolding count_decoded
  answer_stream max_tokens elapsed (err raised) st = (err raised, st)
  answer_stream max_tokens elapsed (ok p) st = (ok tt, count_decoded max_tokens elapsed p st)

  pub respond :
      Bool → Option ℕ → ℕ → Result Prefilled → DecodeStats → Result (Unit {0}) × DecodeStats
  unfolding answer answer_stream
  respond true max_tokens elapsed r st = answer_stream max_tokens elapsed r st
  respond false max_tokens elapsed r st = answer max_tokens elapsed r st

  pub decode_completions :
      Bool
      → Sha256
      → List ℕ
      → Option ℕ
      → ℕ
      → DecodeStats × S
      → Result (Unit {0}) × (DecodeStats × S)
  unfolding load_context_kv respond
  decode_completions streamed sha prompt max_tokens elapsed (st, s) =
      let r = load_context_kv sha prompt s in
      let begun = record st { requests_total = st.requests_total + 1 } in
      let a = respond streamed max_tokens elapsed r.0 begun in (a.0, (a.1, r.1))
