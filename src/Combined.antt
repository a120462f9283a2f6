-- ===== src/Combined.antt =====
-- CombinedServer of src/kvbench/servers/combined.py over a KV stack: the prefill of a prompt and
-- the handling of one request at a time, from its arrival to its answer. The stack is a record
-- of its calls; a lookup answers no more tokens than it was asked for. The elapsed time of
-- a request is an input; the sleeps stand in Delays.
pub mod Prefill
pub mod Repeat
pub mod Stream
pub mod Delays
pub mod Stats
pub mod Examples
use llm_kv_passthrough.Prelude.{
  ℕ, zero, suc, ◌+◌, ◌-◌, ◌*◌, ◌/◌, Bool, true, false, Option, List, [], ◌∷◌, length, take, ltb,
  ◌==◌, if◌then◌else◌,
}
use llm_kv_passthrough.Prelude.Result.{Result, ok, err}
use llm_kv_passthrough.Chunks.{Sha256, simulate_tokenize}
use llm_kv_passthrough.Proxy.{max_tokens_of}

-- KVStack of src/kvbench/kv/base.py: each call answers or raises, and changes the stack.
pub record KvStack (S : Type 0) : Type 0 where
  pub chunk_size : ℕ
  pub lookup : List ℕ → S → Result ℕ × S
  pub store : List ℕ → ℕ → S → Result (Unit {0}) × S
  pub retrieve : List ℕ → S → Result ℕ × S

-- A call, and what follows unless it raised.
abbrev pub and_then : {A B S : Type 0} → Result A × S → (A → S → Result B × S) → Result B × S
and_then (ok a, s) next = next a s
and_then (err e, s) next = (err e, s)

-- What _process_prefill returns.
pub record Prefilled : Type 0 where
  pub num_tokens : ℕ
  pub cache_hits : ℕ
  pub cache_misses : ℕ

pub record CombinedStats : Type 0 where
  pub requests_total : ℕ
  pub requests_success : ℕ
  pub requests_failed : ℕ
  pub prompt_tokens : ℕ
  pub completion_tokens : ℕ
  pub cache_hits : ℕ
  pub cache_misses : ℕ
  pub total_latency : ℕ

abbrev pub no_stats : CombinedStats
no_stats = record {
  requests_total = 0;
  requests_success = 0;
  requests_failed = 0;
  prompt_tokens = 0;
  completion_tokens = 0;
  cache_hits = 0;
  cache_misses = 0;
  total_latency = 0;
}

-- The end of the last full chunk.
abbrev pub store_end : ℕ → ℕ → ℕ
store_end chunk_size num_tokens = num_tokens / chunk_size * chunk_size

module _ {S : Type 0} (kv : KvStack S) where
  -- The cached prefix is read.
  unfoldable pub read_hit : List ℕ → ℕ → S → Result (Unit {0}) × S
  read_hit tokens zero s = (ok tt, s)
  read_hit tokens (suc hit) s =
      and_then (kv.retrieve (take (suc hit) tokens) s) (λ retrieved s. (ok tt, s))

  -- What was missed is computed, and the full chunks are stored, unless all of them were hit.
  unfoldable pub store_missed : List ℕ → ℕ → S → Result (Unit {0}) × S
  store_missed tokens hit s =
      let end = store_end kv.chunk_size (length tokens) in
      if length tokens - hit == 0
      then (ok tt, s)
      else if ltb hit end
      then kv.store (take end tokens) hit s
      else (ok tt, s)

  abbrev pub counts : ℕ → ℕ → Prefilled
  counts num_tokens hit = record {
    num_tokens = num_tokens;
    cache_hits = hit / kv.chunk_size;
    cache_misses = (num_tokens - hit + kv.chunk_size - 1) / kv.chunk_size;
  }

  unfoldable pub process_tokens : List ℕ → S → Result Prefilled × S
  unfolding read_hit store_missed
  process_tokens tokens s = and_then (kv.lookup tokens s) (λ hit s.
      and_then (read_hit tokens hit s) (λ read s.
        and_then (store_missed tokens hit s) (λ stored s. (ok (counts (length tokens) hit), s))))

  unfoldable pub process_prefill : Sha256 → List ℕ → S → Result Prefilled × S
  unfolding process_tokens
  process_prefill sha prompt s = process_tokens (simulate_tokenize sha prompt 4) s

  -- The rest of the request: max_tokens tokens are generated, or the exception is counted.
  unfoldable pub count_request : Option ℕ → ℕ → Result Prefilled → CombinedStats → CombinedStats
  unfolding max_tokens_of
  count_request max_tokens elapsed (err raised) st = record st {
    requests_failed = st.requests_failed + 1;
  }
  count_request max_tokens elapsed (ok p) st = record st {
    prompt_tokens = st.prompt_tokens + p.num_tokens;
    cache_hits = st.cache_hits + p.cache_hits;
    cache_misses = st.cache_misses + p.cache_misses;
    completion_tokens = st.completion_tokens + max_tokens_of max_tokens;
    total_latency = st.total_latency + elapsed;
    requests_success = st.requests_success + 1;
  }

  unfoldable pub chat_completions :
      Sha256 → List ℕ → Option ℕ → ℕ → CombinedStats × S → CombinedStats × S
  unfolding process_prefill count_request
  chat_completions sha prompt max_tokens elapsed (st, s) =
      let r = process_prefill sha prompt s in
      (
        count_request max_tokens elapsed r.0 (record st { requests_total = st.requests_total + 1 }),
        r.1,
      )
