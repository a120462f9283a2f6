-- ===== src/Combined/Delays/Faster.antt =====
-- A cached prompt is served with shorter sleeps, over a timing strategy that keeps its contract.
use llm_kv_passthrough.Prelude.{
  ℕ, ◌+◌, ◌-◌, ◌*◌, ◌/◌, ◌≤◌, ◌≡◌, refl, sym, ap, ◌∙◌, subst, Option, List, length,
}
use llm_kv_passthrough.Prelude.Result.{Result, ok, err, ◌>>=◌}
use llm_kv_passthrough.Numbers.{Numbers, NumberLaws, nought, ◌≼◌}
use llm_kv_passthrough.Timing.Contract.{IsMonotone}
use llm_kv_passthrough.Timing.Factory.{Strategy, prefill_latency, decode_latency}
use llm_kv_passthrough.Chunks.{Sha256, simulate_tokenize}
use llm_kv_passthrough.Proxy.{max_tokens_of}
use llm_kv_passthrough.Combined.{
  KvStack, and_then, Prefilled, read_hit, store_missed, process_tokens,
}
use llm_kv_passthrough.Combined.Delays.{
  Delays, prefill_delay, decode_delays, delayed_prefill, request_delays,
}
use llm_kv_passthrough.Combined.Delays.Sleeps.{
  IsRising, prefill_delay_antitone, decode_delays_total, step_ms_nonneg,
}
use llm_kv_passthrough.Combined.Prefill.{AnswersChunks, process_tokens-splits}
use llm_kv_passthrough.Combined.Repeat.{KeepsStored, and_then-ok, whole-le, process_tokens-found}

-- A call whose answer carries something more.
abbrev with_answer : {A B S : Type 0} → (A → B) → Result A × S → Result B × S
with_answer f r = (r.0 >>= λ a. ok (f a), r.1)

and_then-with_answer :
    {A B C S : Type 0} (f : B → C) (m : Result A × S) (next : A → S → Result B × S)
    (more : A → S → Result C × S)
    → ((a : A) (s : S) → more a s ≡ with_answer f (next a s))
    → and_then m more ≡ with_answer f (and_then m next)
and_then-with_answer f (ok a, s) next more h = h a s
and_then-with_answer f (err raised, s) next more h = refl

-- The answer alone.
abbrev pub answer_of : {A B : Type 0} → Result (A × B) → Result A
answer_of (ok x) = ok x.0
answer_of (err raised) = err raised

answer_of-with :
    {A B : Type 0} (b : B) (r : Result A) → answer_of {B = B} (r >>= λ a. ok (a, b)) ≡ r
answer_of-with b (ok a) = refl
answer_of-with b (err raised) = refl

module _ {R : Type 0} ⦃numbers : Numbers R⦄ (law : NumberLaws R) (timing : Strategy R)
    (mono : IsMonotone (prefill_latency numbers timing) (decode_latency numbers timing)) where
  module _ {S : Type 0} (kv : KvStack S) where
    -- A prefill whose lookup answered: the delay is carried beside what it returns.
    delayed_prefill-found :
        (tokens : List ℕ) (s : S) (hit : ℕ) (ms : R)
        → (kv.lookup tokens s).0 ≡ ok hit
        → prefill_delay numbers timing (length tokens - hit) hit ≡ ok ms
        → delayed_prefill numbers timing kv tokens s
          ≡ with_answer (λ p. (p, ms)) (process_tokens kv tokens s)
    unfolding delayed_prefill process_tokens
    delayed_prefill-found tokens s hit ms found delay =
        let s1 = (kv.lookup tokens s).1 in
        and_then-ok (kv.lookup tokens s) _ hit found
        ∙ and_then-with_answer (λ p. (p, ms)) (read_hit kv tokens hit s1) _ _
            (λ read s2. rw delay (
              and_then-with_answer (λ p. (p, ms)) (store_missed kv tokens hit s2) _ _
                (λ stored s3. refl)))
        ∙ ap (with_answer (λ p. (p, ms))) (sym (and_then-ok (kv.lookup tokens s) _ hit found))

    -- Both requests of a handler whose prefill returned.
    request_delays-found :
        (sha : Sha256) (prompt : List ℕ) (max_tokens : Option ℕ) (s : S) (hit : ℕ) (p : Prefilled)
        (ms : R) (times : List R)
        → (kv.lookup (simulate_tokenize sha prompt 4) s).0 ≡ ok hit
        → (process_tokens kv (simulate_tokenize sha prompt 4) s).0 ≡ ok p
        → prefill_delay numbers timing (length (simulate_tokenize sha prompt 4) - hit) hit ≡ ok ms
        → decode_delays numbers timing p.num_tokens (max_tokens_of max_tokens) 0 ≡ ok times
        → request_delays numbers timing kv sha prompt max_tokens s ≡ (
          ok (record { prefill_ms = ms; decode_ms = times }),
          (process_tokens kv (simulate_tokenize sha prompt 4) s).1,
        )
    unfolding request_delays
    request_delays-found sha prompt max_tokens s hit p ms times found returned delay decoded =
        let tokens = simulate_tokenize sha prompt 4 in
        let e = delayed_prefill-found tokens s hit ms found delay in
        let answered : (delayed_prefill numbers timing kv tokens s).0 ≡ ok (p, ms) =
          ap (λ r. r.0) e ∙ ap (λ r. r >>= λ a. ok (a, ms)) returned in
        and_then-ok (delayed_prefill numbers timing kv tokens s) _ (p, ms) answered
        ∙ ap
            (λ r. (
              r >>= (λ times. ok (record { prefill_ms = ms; decode_ms = times })),
              (delayed_prefill numbers timing kv tokens s).1,
            ))
            decoded
        ∙ ap (λ r. (ok (record { prefill_ms = ms; decode_ms = times }), r.1)) e

-- What a lookup answers lies in the full chunks.
hit-le-full :
    {S : Type 0} (kv : KvStack S) (tokens : List ℕ) (s : S) (hit : ℕ)
    → AnswersChunks kv
    → (kv.lookup tokens s).0 ≡ ok hit
    → hit ≤ length tokens / kv.chunk_size * kv.chunk_size
hit-le-full kv tokens s hit answers found =
    let full = length tokens / kv.chunk_size * kv.chunk_size in
    let (chunks, whole) = answers.whole tokens s hit found in
    let fits = answers.bounded tokens s hit found in
    subst (λ h. h ≤ full) (sym whole)
      (whole-le (length tokens) chunks kv.chunk_size answers.positive
        (subst (λ h. h ≤ length tokens) whole fits))

-- Over a strategy that keeps the contract of Timing.Contract, and a stack that raises nothing and
-- evicts nothing: a request and then one with the same prompt and max_tokens sleep without an
-- error. The second sleeps no longer for its prefill, which is not below zero, and the same for its
-- tokens: once for each of max_tokens, no sleep below zero or shorter than the one before it.
pub request_delays-repeat :
    {R S : Type 0} ⦃numbers : Numbers R⦄ (law : NumberLaws R) (timing : Strategy R) (kv : KvStack S)
    (sha : Sha256) (prompt : List ℕ) (max_tokens : Option ℕ) (s : S)
    → IsMonotone (prefill_latency numbers timing) (decode_latency numbers timing)
    → AnswersChunks kv
    → KeepsStored kv
    → (first : Delays R) × (again : Delays R) × ((request_delays numbers timing kv sha prompt
          max_tokens s).0
        ≡ ok first)
      × ((request_delays numbers timing kv sha prompt max_tokens
            (request_delays numbers timing kv sha prompt max_tokens s).1).0
          ≡ ok again)
      × (again.prefill_ms ≼ first.prefill_ms)
      × (nought numbers ≼ again.prefill_ms)
      × (again.decode_ms ≡ first.decode_ms)
      × (length first.decode_ms ≡ max_tokens_of max_tokens)
      × IsRising (nought numbers) first.decode_ms
request_delays-repeat {R} {S} ⦃numbers⦄ law timing kv sha prompt max_tokens s mono answers keeps =
    let tokens = simulate_tokenize sha prompt 4 in
    let n = length tokens in
    let c = kv.chunk_size in
    let s1 = (process_tokens kv tokens s).1 in
    let (hit, found, again') = keeps.looks_up tokens s in
    let (p, returned, kept) = process_tokens-found kv tokens s answers keeps in
    let (q, returned', kept') = process_tokens-found kv tokens s1 answers keeps in
    let (num, rest, hits) = process_tokens-splits kv tokens s p answers returned in
    let (num', rest', hits') = process_tokens-splits kv tokens s1 q answers returned' in
    let grown = hit-le-full kv tokens s hit answers found in
    let fits' = answers.bounded tokens s1 (n / c * c) kept in
    let (less, ms, delay', delay, shorter, nonneg) =
      prefill_delay_antitone law timing mono n hit (n / c * c) grown fits' in
    let (times, decoded, count, rising) =
      decode_delays_total law timing mono n (max_tokens_of max_tokens) 0 (nought numbers)
        (step_ms_nonneg law timing mono (n + 0)) in
    let steps : (m : ℕ)
        → m ≡ n
        → decode_delays numbers timing m (max_tokens_of max_tokens) 0 ≡ ok times =
      λ m e.
        subst (λ m. decode_delays numbers timing m (max_tokens_of max_tokens) 0 ≡ ok times) (sym e)
          decoded in
    let e =
      request_delays-found law timing mono kv sha prompt max_tokens s hit p ms times found returned
        delay (steps p.num_tokens num) in
    let f =
      request_delays-found law timing mono kv sha prompt max_tokens s1 (n / c * c) q less times kept
        returned' delay' (steps q.num_tokens num') in
    (
      record { prefill_ms = ms; decode_ms = times },
      record { prefill_ms = less; decode_ms = times },
      ap (λ r. r.0) e,
      ap
            (λ (r : Result (Delays R) × S).
              (request_delays numbers timing kv sha prompt max_tokens r.1).0)
            e
          ∙ ap (λ r. r.0) f,
      shorter,
      nonneg,
      refl,
      count,
      rising,
    )
