-- ===== src/Disaggregated/Counted.antt =====
-- The statistics of the two servers over any sequence of requests.
use llm_kv_passthrough.Prelude.{
  ℕ, ◌+◌, ◌≤◌, ◌≡◌, sum_of, Bool, true, false, Option, List, [], ◌∷◌, arith,
}
use llm_kv_passthrough.Prelude.Result.{Result, ok, err}
use llm_kv_passthrough.Chunks.{Sha256}
use llm_kv_passthrough.Combined.{KvStack, Prefilled}
use llm_kv_passthrough.Disaggregated.{
  DecodeStats, load_context_kv, answer, answer_stream, respond, decode_completions, count_decoded,
}

-- A request of the decode server, for its streaming handler or for the other one.
pub record DecodeRequest : Type 0 where
  pub streamed : Bool
  pub prompt : List ℕ
  pub max_tokens : Option ℕ
  pub elapsed : ℕ

abbrev pub no_decodes : DecodeStats
no_decodes = record {
  requests_total = 0;
  requests_success = 0;
  requests_failed = 0;
  tokens_generated = 0;
  cache_hits = 0;
  cache_misses = 0;
  total_latency = 0;
}

abbrev pub as_one : Bool → ℕ
as_one true = 1
as_one false = 0

-- A handler that raised counts as one escaped request.
abbrev pub escaped : Result (Unit {0}) → ℕ
escaped (ok done) = 0
escaped (err raised) = 1

-- So many requests were counted as begun, but neither as a success nor as a failure.
abbrev pub HasUnended : DecodeStats → ℕ → Type 0
HasUnended st n = st.requests_total ≡ st.requests_success + st.requests_failed + n

module _ {S : Type 0} (kv : KvStack S) where
  -- The requests in turn, and how many of the handlers raised.
  unfoldable pub decode_all : Sha256 → List DecodeRequest → DecodeStats × S → ℕ × (DecodeStats × S)
  unfolding decode_completions
  decode_all sha [] state = (0, state)
  decode_all sha (r ∷ rs) state =
      let a = decode_completions kv r.streamed sha r.prompt r.max_tokens r.elapsed state in
      let rest = decode_all sha rs a.1 in (escaped a.0 + rest.0, rest.1)

  respond-HasUnended :
      (b : Bool) (m : Option ℕ) (elapsed : ℕ) (o : Result Prefilled) (st : DecodeStats) (n : ℕ)
      → HasUnended st n
      → (let a = respond kv b m elapsed o (record st { requests_total = st.requests_total + 1 }) in
          HasUnended a.1 (n + escaped a.0) × (escaped a.0 ≤ as_one b))
  unfolding respond answer answer_stream count_decoded
  respond-HasUnended true m elapsed (ok p) st n h = (omega (arith, h), omega arith)
  respond-HasUnended true m elapsed (err raised) st n h = (omega (arith, h), omega arith)
  respond-HasUnended false m elapsed (ok p) st n h = (omega (arith, h), omega arith)
  respond-HasUnended false m elapsed (err raised) st n h = (omega (arith, h), omega arith)

  decode_all_keeps :
      (sha : Sha256) (rs : List DecodeRequest) (st : DecodeStats) (s : S) (n : ℕ)
      → HasUnended st n
      → (let a = decode_all sha rs (st, s) in
          HasUnended a.1.0 (n + a.0) × (a.0 ≤ sum_of (λ (r : DecodeRequest). as_one r.streamed) rs))
  unfolding decode_all decode_completions
  decode_all_keeps sha [] st s n h = (omega (arith, h), omega arith)
  decode_all_keeps sha (r ∷ rs) st s n h =
      let load = load_context_kv kv sha r.prompt s in
      let a =
        respond kv r.streamed r.max_tokens r.elapsed load.0
          (record st { requests_total = st.requests_total + 1 }) in
      let (now, few) = respond-HasUnended r.streamed r.max_tokens r.elapsed load.0 st n h in
      let (later, few_later) = decode_all_keeps sha rs a.1 load.1 (n + escaped a.0) now in
      (omega (arith, later), omega (arith, few, few_later))

-- After any sequence of requests of the decode server, over a stack that may raise anywhere: the
-- requests are the successes, the failures, and those whose handler raised, which only the
-- streaming handler does.
pub decode_all-HasUnended :
    {S : Type 0} (kv : KvStack S) (sha : Sha256) (rs : List DecodeRequest) (s : S)
    → (let a = decode_all kv sha rs (no_decodes, s) in
        HasUnended a.1.0 a.0 × (a.0 ≤ sum_of (λ (r : DecodeRequest). as_one r.streamed) rs))
decode_all-HasUnended kv sha rs s =
    let (all, few) = decode_all_keeps kv sha rs no_decodes s 0 (omega arith) in
    (omega (arith, all), few)
