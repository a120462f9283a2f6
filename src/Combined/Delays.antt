-- ===== src/Combined/Delays.antt =====
-- The delays of CombinedServer in src/kvbench/servers/combined.py: the prefill of a prompt and the
-- handling of a request with the times that asyncio.sleep is called for, over the timing strategy
-- of the server. PrefillServer sleeps with the same statements. A lookup answers no more tokens than
-- it was asked for, as in Combined, so the tokens that miss are not below zero.
pub mod Sleeps
pub mod Faster
mod Examples
use llm_kv_passthrough.Prelude.{ℕ, zero, suc, ◌+◌, ◌-◌, Option, List, [], ◌∷◌, length}
use llm_kv_passthrough.Prelude.Result.{Result, ok, ◌>>=◌}
use llm_kv_passthrough.Numbers.{Numbers, nought}
use llm_kv_passthrough.Timing.Factory.{Strategy, prefill_latency, decode_latency}
use llm_kv_passthrough.Chunks.{Sha256, simulate_tokenize}
use llm_kv_passthrough.Proxy.{max_tokens_of}
use llm_kv_passthrough.Combined.{KvStack, and_then, Prefilled, counts, read_hit, store_missed}

-- The sleeps of a request, in ms: that of its prefill, 0 without one, and one for each token.
pub record Delays (R : Type 0) : Type 0 where
  pub prefill_ms : R
  pub decode_ms : List R

module _ {R : Type 0} (numbers : Numbers R) (timing : Strategy R) where
  -- _calculate_prefill_latency_ms
  unfoldable pub calculate_prefill_latency_ms : ℕ → ℕ → Result R
  calculate_prefill_latency_ms num_tokens context_tokens = do
    result ← prefill_latency numbers timing num_tokens 1 context_tokens
    ok result.total_ms

  -- _calculate_decode_latency_ms
  unfoldable pub calculate_decode_latency_ms : ℕ → Result R
  calculate_decode_latency_ms context_length = do
    result ← decode_latency numbers timing context_length 1
    ok result.total_ms

  -- `if miss_tokens:`
  unfoldable pub prefill_delay : ℕ → ℕ → Result R
  unfolding calculate_prefill_latency_ms
  prefill_delay zero hit_tokens = ok (nought numbers)
  prefill_delay (suc n) hit_tokens = calculate_prefill_latency_ms (suc n) hit_tokens

  -- The loop over the tokens from token i on.
  unfoldable pub decode_delays : ℕ → ℕ → ℕ → Result (List R)
  unfolding calculate_decode_latency_ms
  decode_delays context_length zero i = ok []
  decode_delays context_length (suc n) i = do
    latency_ms ← calculate_decode_latency_ms (context_length + i)
    later ← decode_delays context_length n (i + 1)
    ok (latency_ms ∷ later)

  module _ {S : Type 0} (kv : KvStack S) where
    -- The prefill with its sleep, which stands between the read and the store.
    unfoldable pub delayed_prefill : List ℕ → S → Result (Prefilled × R) × S
    unfolding read_hit prefill_delay store_missed
    delayed_prefill tokens s = and_then (kv.lookup tokens s) (λ hit s.
        and_then (read_hit kv tokens hit s) (λ read s.
          and_then (prefill_delay (length tokens - hit) hit, s)
            (λ ms s.
              and_then (store_missed kv tokens hit s)
                (λ stored s. (ok (counts kv (length tokens) hit, ms), s)))))

    -- The sleeps of both chat handlers.
    unfoldable pub request_delays : Sha256 → List ℕ → Option ℕ → S → Result (Delays R) × S
    unfolding delayed_prefill decode_delays max_tokens_of simulate_tokenize
    request_delays sha prompt max_tokens s =
        and_then (delayed_prefill (simulate_tokenize sha prompt 4) s) (λ prefilled s. (
          decode_delays prefilled.0.num_tokens (max_tokens_of max_tokens) 0 >>= λ decode_ms.
              ok (record { prefill_ms = prefilled.1; decode_ms = decode_ms }),
          s,
        ))
