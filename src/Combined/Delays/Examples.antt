-- ===== src/Combined/Delays/Examples.antt =====
-- The sleeps of requests to a server with the timing of a registered GPU and model, in
-- thousandths of a ms.
use llm_kv_passthrough.Prelude.{
  ℕ, ◌+◌, ◌≡◌, refl, false, some, List, [], ◌∷◌, codes, length, le→leb, arith,
}
use llm_kv_passthrough.Prelude.Result.{ok}
use llm_kv_passthrough.Numbers.{◌≼◌}
use llm_kv_passthrough.Numbers.Fixed.{fixed, fixed-NumberLaws}
use llm_kv_passthrough.Models.{head_dim, effective_kv_layers}
use llm_kv_passthrough.Timing.Contract.{IsMonotone}
use llm_kv_passthrough.Timing.Factory.{prefill_latency, decode_latency}
use llm_kv_passthrough.Timing.Strategies.{create_timing_strategy-IsMonotone}
use llm_kv_passthrough.Timing.Examples.{
  elementary, no_anchors, no_pool, config, h100, over_h100, made,
}
use llm_kv_passthrough.Chunks.{simulate_tokenize}
use llm_kv_passthrough.Proxy.{max_tokens_of}
use llm_kv_passthrough.Combined.Delays.{Delays, request_delays}
use llm_kv_passthrough.Combined.Delays.Sleeps.{IsRising}
use llm_kv_passthrough.Combined.Delays.Faster.{request_delays-repeat}
use llm_kv_passthrough.Combined.Examples.{
  last_one, last_one-AnswersChunks, last_one-KeepsStored, plain,
}

over_h100-IsMonotone : IsMonotone (prefill_latency fixed over_h100) (decode_latency fixed over_h100)
over_h100-IsMonotone =
    create_timing_strategy-IsMonotone fixed-NumberLaws elementary no_anchors []
      (config false h100 100) over_h100 refl (λ a. le→leb 0 (500 + a) (omega arith)) no_pool
      (omega arith) refl tt made

abbrev tokens : List ℕ
tokens = 7 ∷ 8 ∷ 9 ∷ 10 ∷ 11 ∷ []

abbrev asked : List ℕ
asked = codes "a question of any length"

request_delays-repeat_example :
    (first : Delays ℕ) × (again : Delays ℕ) × ((request_delays fixed over_h100 last_one plain asked
        (some 2)
        []).0
      ≡ ok first)
    × ((request_delays fixed over_h100 last_one plain asked
          (some 2)
          (request_delays fixed over_h100 last_one plain asked (some 2) []).1).0
        ≡ ok again)
    × (again.prefill_ms ≼ first.prefill_ms)
    × (0 ≼ again.prefill_ms)
    × (again.decode_ms ≡ first.decode_ms)
    × (length first.decode_ms ≡ max_tokens_of (some 2))
    × IsRising 0 first.decode_ms
request_delays-repeat_example =
    request_delays-repeat fixed-NumberLaws over_h100 last_one plain asked (some 2) []
      over_h100-IsMonotone last_one-AnswersChunks last_one-KeepsStored

-- Six tokens, none of them cached, and then all of them.
abbrev sleeps : ℕ → Delays ℕ
sleeps prefill_ms = record { prefill_ms = prefill_ms; decode_ms = 2070 ∷ 2070 ∷ [] }

missed : (request_delays fixed over_h100 last_one plain asked (some 2) []).0 ≡ ok (sleeps 2070)
unfolding request_delays prefill_latency decode_latency head_dim effective_kv_layers
missed = refl

hit :
    (request_delays fixed over_h100 last_one plain asked
      (some 2)
      (simulate_tokenize plain asked 4)).0
    ≡ ok (sleeps 0)
unfolding request_delays prefill_latency decode_latency head_dim effective_kv_layers
hit = refl
