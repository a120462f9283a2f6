-- ===== src/Combined/Examples.antt =====
-- A small stack that meets the contracts, and the theorems of the combined server over it.
use llm_kv_passthrough.Prelude.{
  ℕ, zero, suc, ◌+◌, ◌-◌, ◌*◌, ◌/◌, ◌≤◌, ◌≡◌, refl, none, some, List, [], ◌∷◌, length, take, ◌==◌,
  ==_iff, codes, text_eq, if◌then◌else◌, arith,
}
use llm_kv_passthrough.Prelude.Result.{ok, ok-injective}
use llm_kv_passthrough.Chunks.{Sha256, simulate_tokenize}
use llm_kv_passthrough.Combined.{KvStack, Prefilled, no_stats, process_tokens}
use llm_kv_passthrough.Combined.Prefill.{AnswersChunks, process_tokens-splits}
use llm_kv_passthrough.Combined.Repeat.{KeepsStored, process_tokens-found}
use llm_kv_passthrough.Combined.Stats.{Request, serve, IsBalanced, serve-IsBalanced}
use llm_kv_passthrough.Combined.Stream.{
  ChatRequest, completion_id, stream_events, chat_completions_stream, chat_completions_answer,
  read_text, read_stream, reading_of, read_stream-answer,
}
use llm_kv_passthrough.Messages.{user, text}
use llm_kv_passthrough.Proxy.{max_tokens_of}
use native.Mathlib.Nat.{div-mul-le_self}

abbrev common : List ℕ → List ℕ → ℕ
common [] ys = 0
common (x ∷ xs) [] = 0
common (x ∷ xs) (y ∷ ys) = let rest = common xs ys in if x == y then rest + 1 else 0

-- A stack that keeps the sequence stored last, in chunks of two.
abbrev pub last_one : KvStack (List ℕ)
last_one = record {
  chunk_size = 2;
  lookup = λ tokens s. (ok (common tokens s / 2 * 2), s);
  store = λ tokens skip s. (ok tt, tokens);
  retrieve = λ tokens s. (ok (length tokens), s);
}

common-le : (xs ys : List ℕ) → common xs ys ≤ length xs
common-le [] ys = omega arith
common-le (x ∷ xs) [] = omega arith
common-le (x ∷ xs) (y ∷ ys) = ground (arith, common-le xs ys)

common-take : (n : ℕ) (xs : List ℕ) → n ≤ length xs → common xs (take n xs) ≡ n
common-take zero [] h = refl
common-take zero (x ∷ xs) h = refl
common-take (suc n) [] h = absurd (omega arith)
common-take (suc n) (x ∷ xs) h =
    rw ((==_iff x x).1 refl) (let e = common-take n xs (omega arith) in omega arith)

pub last_one-AnswersChunks : AnswersChunks last_one
last_one-AnswersChunks = record {
  positive = omega arith;
  bounded = λ tokens s hit e.
      let k : common tokens s / 2 * 2 ≡ hit = ok-injective e in
      omega (arith, common-le tokens s, div-mul-le_self (common tokens s) 2);
  whole = λ tokens s hit e.
      let k : common tokens s / 2 * 2 ≡ hit = ok-injective e in (common tokens s / 2, omega arith);
}

pub last_one-KeepsStored : KeepsStored last_one
last_one-KeepsStored = record {
  looks_up = λ tokens s. (common tokens s / 2 * 2, refl, refl);
  retrieves = λ tokens s hit e. (length (take hit tokens), refl, e);
  stores = λ tokens s hit q end e whole le fits.
      let k : common tokens (take end tokens) ≡ end = common-take end tokens fits in
      (tt, common tokens (take end tokens) / 2 * 2, refl, refl, omega arith);
}

abbrev tokens : List ℕ
tokens = 7 ∷ 8 ∷ 9 ∷ 10 ∷ 11 ∷ []

abbrev prefilled : Prefilled
prefilled = record { num_tokens = 5; cache_hits = 1; cache_misses = 2 }

abbrev cached : List ℕ
cached = 7 ∷ 8 ∷ []

half_cached : (process_tokens last_one tokens cached).0 ≡ ok prefilled
unfolding process_tokens
half_cached = refl

process_tokens-splits_example :
    (prefilled.num_tokens ≡ length tokens)
    × (prefilled.cache_hits + prefilled.cache_misses ≡ (length tokens + 2 - 1) / 2)
    × ((last_one.lookup tokens cached).0 ≡ ok (prefilled.cache_hits * 2))
process_tokens-splits_example =
    process_tokens-splits last_one tokens cached prefilled last_one-AnswersChunks half_cached

process_tokens-found_example :
    (p : Prefilled) × ((process_tokens last_one tokens cached).0 ≡ ok p)
    × ((last_one.lookup tokens (process_tokens last_one tokens cached).1).0
        ≡ ok (length tokens / 2 * 2))
process_tokens-found_example =
    process_tokens-found last_one tokens cached last_one-AnswersChunks last_one-KeepsStored

-- A hash without collisions: the text itself.
abbrev pub plain : Sha256
plain = record { digest = λ b. b; hexdigest = λ b. b }

abbrev requests : List Request
requests =
    record { prompt = 65 ∷ 66 ∷ 67 ∷ 68 ∷ 69 ∷ []; max_tokens = some 3; elapsed = 12 }
    ∷ record { prompt = 65 ∷ 66 ∷ 67 ∷ 68 ∷ []; max_tokens = none; elapsed = 20 }
    ∷ []

served :
    let st = (serve last_one plain requests (no_stats, [])).0 in
    (st.requests_success ≡ 2) × (st.prompt_tokens ≡ 3) × (st.completion_tokens ≡ 103)
unfolding serve simulate_tokenize
served = (refl, refl, refl)

serve-IsBalanced_example : IsBalanced 2 (serve last_one plain requests (no_stats, [])).0
serve-IsBalanced_example = serve-IsBalanced last_one plain requests [] last_one-AnswersChunks

abbrev asked : ChatRequest
asked = record {
  messages = record { role = user; content = text (codes "hello") } ∷ [];
  max_tokens = some 2;
  model = codes "m";
  hex = codes "0a";
  fresh_id = λ i. codes "chatcmpl-1b";
  created = 7;
  elapsed = 3;
  describe = λ e. codes "failed";
}

read_stream-answer_example :
    (read_stream
        (completion_id asked)
        (chat_completions_stream last_one plain asked (no_stats, cached)).0
      ≡ reading_of (chat_completions_answer last_one plain asked (no_stats, cached)).0)
    × ((chat_completions_stream last_one plain asked (no_stats, cached)).1
        ≡ (chat_completions_answer last_one plain asked (no_stats, cached)).1)
read_stream-answer_example = read_stream-answer last_one plain asked no_stats cached

read_two :
    read_stream (completion_id asked) (stream_events asked (ok prefilled))
    ≡ read_text (codes " The answer") (some (codes "stop")) 2
unfolding read_stream stream_events max_tokens_of text_eq
read_two = refl
