-- ===== src/Disaggregated/Examples.antt =====
-- The theorems about the two servers over a small stack.
use llm_kv_passthrough.Prelude.{
  ℕ, ◌+◌, ◌-◌, ◌*◌, ◌/◌, ◌≤◌, ◌≡◌, refl, true, false, none, some, List, [], ◌∷◌, length, sum_of,
}
use llm_kv_passthrough.Prelude.Result.{ok, err, runtime_error}
use llm_kv_passthrough.Chunks.{simulate_tokenize}
use llm_kv_passthrough.Combined.{KvStack, Prefilled}
use llm_kv_passthrough.Combined.Examples.{
  plain, last_one, last_one-AnswersChunks, last_one-KeepsStored,
}
use llm_kv_passthrough.Disaggregated.{prefill_prompt, load_context_kv}
use llm_kv_passthrough.Disaggregated.Handoff.{load_context_kv-prefill_prompt}
use llm_kv_passthrough.Disaggregated.Counted.{
  DecodeRequest, HasUnended, as_one, no_decodes, decode_all, decode_all-HasUnended,
}

-- A stack whose lookups raise.
abbrev broken : KvStack (List ℕ)
broken = record last_one { lookup = λ tokens s. (err runtime_error, s) }

abbrev prompt : List ℕ
prompt = 66 ∷ 67 ∷ 68 ∷ 69 ∷ 70 ∷ 71 ∷ 72 ∷ 73 ∷ 74 ∷ []

load_context_kv-prefill_prompt_example :
    (p : Prefilled) × ((load_context_kv last_one plain
        (65 ∷ prompt)
        (prefill_prompt last_one plain (65 ∷ prompt) []).1).0
      ≡ ok p)
    × (p.num_tokens ≡ length (simulate_tokenize plain (65 ∷ prompt) 4))
    × (p.cache_hits ≡ p.num_tokens / 2)
    × (p.cache_misses ≡ (p.num_tokens - p.num_tokens / 2 * 2 + 2 - 1) / 2)
load_context_kv-prefill_prompt_example =
    load_context_kv-prefill_prompt last_one plain 65 prompt [] last_one-AnswersChunks
      last_one-KeepsStored

abbrev requests : List DecodeRequest
requests =
    record { streamed = true; prompt = prompt; max_tokens = none; elapsed = 5 }
    ∷ record { streamed = false; prompt = prompt; max_tokens = some 2; elapsed = 5 }
    ∷ record { streamed = true; prompt = []; max_tokens = some 2; elapsed = 5 }
    ∷ []

-- The stream whose load raises is neither a success nor a failure.
lost :
    let (n, (st, s)) = decode_all broken plain requests (no_decodes, []) in
    (n ≡ 1) × (st.requests_total ≡ 3) × (st.requests_success ≡ 1) × (st.requests_failed ≡ 1)
unfolding decode_all
lost = (refl, refl, refl, refl)

decode_all-HasUnended_example :
    HasUnended
      (decode_all broken plain requests (no_decodes, [])).1.0
      (decode_all broken plain requests (no_decodes, [])).0
    × ((decode_all broken plain requests (no_decodes, [])).0
        ≤ sum_of (λ (r : DecodeRequest). as_one r.streamed) requests)
decode_all-HasUnended_example = decode_all-HasUnended broken plain requests []
