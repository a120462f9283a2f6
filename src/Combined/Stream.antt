-- ===== src/Combined/Stream.antt =====
-- The two handlers of src/kvbench/servers/combined.py that answer a chat request: in one piece,
-- and as a stream of events that the client reads to its end.
use llm_kv_passthrough.Prelude.{
  ℕ, zero, suc, ◌+◌, ◌≡◌, refl, sym, ap, ◌∙◌, true, Option, none, some, List, [], ◌∷◌, ◌++◌, length,
  get_or, ◌%◌, Text, codes, text_eq, text_eq_iff, if◌then◌else◌, arith,
}
use llm_kv_passthrough.Prelude.Result.{Result, ok, err, Error}
use llm_kv_passthrough.Chunks.{Sha256}
use llm_kv_passthrough.Proxy.{max_tokens_of}
use llm_kv_passthrough.Combined.{KvStack, Prefilled, CombinedStats, process_prefill, count_request}
use llm_kv_passthrough.Messages.{
  ChatMessage, prompt_text, ChatCompletionResponse, create_response, ChatCompletionChunk,
  create_start, create_content, create_end, ErrorResponse, create_error,
}
use mathlib.Core.List.{append_assoc, append-nil}

abbrev pub mock_tokens : List Text
mock_tokens =
    codes " The"
    ∷ codes " answer"
    ∷ codes " to"
    ∷ codes " your"
    ∷ codes " question"
    ∷ codes " is"
    ∷ codes " that"
    ∷ codes " we"
    ∷ codes " need"
    ∷ codes " to"
    ∷ codes " consider"
    ∷ codes " multiple"
    ∷ codes " factors"
    ∷ codes " when"
    ∷ codes " making"
    ∷ codes " this"
    ∷ codes " decision"
    ∷ codes "."
    ∷ codes " First"
    ∷ codes ","
    ∷ codes " let"
    ∷ codes " me"
    ∷ codes " explain"
    ∷ codes " the"
    ∷ codes " key"
    ∷ codes " points"
    ∷ codes " that"
    ∷ codes " are"
    ∷ codes " relevant"
    ∷ codes " here"
    ∷ codes "."
    ∷ codes " Based"
    ∷ codes " on"
    ∷ codes " the"
    ∷ codes " information"
    ∷ codes " provided"
    ∷ codes ","
    ∷ codes " I"
    ∷ codes " would"
    ∷ codes " recommend"
    ∷ codes " the"
    ∷ codes " following"
    ∷ codes " approach"
    ∷ codes ":"
    ∷ codes " carefully"
    ∷ codes " analyze"
    ∷ codes " the"
    ∷ codes " situation"
    ∷ codes " and"
    ∷ codes " then"
    ∷ codes " proceed"
    ∷ codes "."
    ∷ []

-- _generate_mock_token; the position is in range.
unfoldable pub generate_mock_token : ℕ → Text
generate_mock_token position = get_or mock_tokens (position % length mock_tokens) []

-- What a request brings: its messages and token limit, and the values that the handler draws:
-- the random digits of the id (a chunk's own id is replaced), the time, the model's name, str(e).
pub record ChatRequest : Type 0 where
  pub messages : List ChatMessage
  pub max_tokens : Option ℕ
  pub model : Text
  pub hex : Text
  pub fresh_id : ℕ → Text
  pub created : ℕ
  pub elapsed : ℕ
  pub describe : Error → Text

-- f"chatcmpl-{uuid.uuid4().hex[:24]}"
abbrev pub completion_id : ChatRequest → Text
completion_id r = codes "chatcmpl-" ++ r.hex

-- An event of the stream, before it is written as text.
pub data SseEvent : Type 0 where
  chunk : ChatCompletionChunk → SseEvent
  failure : ErrorResponse → SseEvent
  done : SseEvent

pub data Answer : Type 0 where
  completion : ChatCompletionResponse → Answer
  refused : ErrorResponse → Answer

-- The loop of the stream: one chunk for each token from position i on.
unfoldable pub content_chunks : ChatRequest → ℕ → ℕ → List SseEvent
unfolding create_content generate_mock_token
content_chunks r i zero = []
content_chunks r i (suc n) =
    chunk (
      create_content (r.fresh_id i) r.created r.model (generate_mock_token i)
        (some (completion_id r)))
    ∷ content_chunks r (suc i) n

unfoldable pub stream_events : ChatRequest → Result Prefilled → List SseEvent
unfolding create_start create_end create_error content_chunks
stream_events r (err raised) =
    failure (create_error (r.describe raised) (codes "server_error") none) ∷ []
stream_events r (ok p) =
    chunk (create_start (r.fresh_id 0) r.created r.model (some (completion_id r)))
    ∷ (content_chunks r 0 (max_tokens_of r.max_tokens)
        ++ chunk
            (create_end (r.fresh_id 0) r.created r.model (some (completion_id r)) (codes "stop"))
          ∷ done
          ∷ [])

-- The loop of the answer in one piece: generated_text += token
unfoldable pub generate : ℕ → ℕ → Text → Text
unfolding generate_mock_token
generate i zero generated_text = generated_text
generate i (suc n) generated_text = generate (suc i) n (generated_text ++ generate_mock_token i)

unfoldable pub answer_of : ChatRequest → Result Prefilled → Answer
unfolding create_response create_error generate
answer_of r (err raised) = refused (create_error (r.describe raised) (codes "server_error") none)
answer_of r (ok p) = completion (
    create_response (completion_id r) r.created r.model (generate 0 (max_tokens_of r.max_tokens) [])
      p.num_tokens (max_tokens_of r.max_tokens) (codes "stop"))

module _ {S : Type 0} (kv : KvStack S) where
  -- The prompt and its prefill, either of which may raise.
  unfoldable pub prefill_messages : Sha256 → Result Text → S → Result Prefilled × S
  prefill_messages sha (err raised) s = (err raised, s)
  prefill_messages sha (ok prompt) s = process_prefill kv sha prompt s

  unfoldable pub chat_completions_stream :
      Sha256 → ChatRequest → CombinedStats × S → List SseEvent × (CombinedStats × S)
  unfolding prefill_messages stream_events
  chat_completions_stream sha r (st, s) =
      let p = prefill_messages sha (prompt_text r.messages) s in
      let counted = record st { requests_total = st.requests_total + 1 } in
      (stream_events r p.0, (count_request kv r.max_tokens r.elapsed p.0 counted, p.1))

  unfoldable pub chat_completions_answer :
      Sha256 → ChatRequest → CombinedStats × S → Answer × (CombinedStats × S)
  unfolding prefill_messages answer_of
  chat_completions_answer sha r (st, s) =
      let p = prefill_messages sha (prompt_text r.messages) s in
      let counted = record st { requests_total = st.requests_total + 1 } in
      (answer_of r p.0, (count_request kv r.max_tokens r.elapsed p.0 counted, p.1))

-- What a client makes of a stream with this id: the contents of the chunks up to the end mark,
-- the first reason to finish, and how many chunks hold a token; or the error.
pub data Reading : Type 0 where
  read_text : Text → Option Text → ℕ → Reading
  read_error : ErrorResponse → Reading
  cut_off : Reading

abbrev pub or_empty : Option Text → Text
or_empty none = []
or_empty (some t) = t

abbrev pub first_reason : Option Text → Option Text → Option Text
first_reason none later = later
first_reason (some reason) later = some reason

abbrev pub is_token : Option Text → Option Text → ℕ
is_token none (some t) = 1
is_token none none = 0
is_token (some role) content = 0

unfoldable pub prepend : ChatCompletionChunk → Reading → Reading
prepend c (read_text t reason n) =
    read_text (or_empty c.delta_content ++ t) (first_reason c.finish_reason reason)
      (n + is_token c.delta_role c.delta_content)
prepend c (read_error e) = read_error e
prepend c cut_off = cut_off

unfoldable pub read_stream : Text → List SseEvent → Reading
unfolding prepend
read_stream id [] = cut_off
read_stream id (done ∷ rest) = read_text [] none 0
read_stream id (failure e ∷ rest) = read_error e
read_stream id (chunk c ∷ rest) =
    let later = read_stream id rest in if text_eq c.id id then prepend c later else cut_off

abbrev pub reading_of : Answer → Reading
reading_of (completion r) = read_text r.content (some r.finish_reason) r.usage.completion_tokens
reading_of (refused e) = read_error e

generate-append : (i n : ℕ) (t u : Text) → generate i n (t ++ u) ≡ t ++ generate i n u
unfolding generate
generate-append i zero t u = refl
generate-append i (suc n) t u =
    ap (generate (suc i) n) (append_assoc t u (generate_mock_token i))
    ∙ generate-append (suc i) n t (u ++ generate_mock_token i)

own_id : (r : ChatRequest) → text_eq (completion_id r) (completion_id r) ≡ true
own_id r = (text_eq_iff (completion_id r) (completion_id r)).1 refl

end_events : ChatRequest → List SseEvent
end_events r =
    chunk (create_end (r.fresh_id 0) r.created r.model (some (completion_id r)) (codes "stop"))
    ∷ done
    ∷ []

read_end :
    (r : ChatRequest)
    → read_stream (completion_id r) (end_events r) ≡ read_text [] (some (codes "stop")) 0
unfolding read_stream end_events create_end prepend
read_end r = rw (own_id r) refl

read_chunk :
    (id : Text) (c : ChatCompletionChunk) (rest : List SseEvent)
    → text_eq c.id id ≡ true
    → read_stream id (chunk c ∷ rest) ≡ prepend c (read_stream id rest)
unfolding read_stream
read_chunk id c rest h = ap (λ b. if b then prepend c (read_stream id rest) else cut_off) h

read_content :
    (r : ChatRequest) (i n : ℕ)
    → read_stream (completion_id r) (content_chunks r i n ++ end_events r)
      ≡ read_text (generate i n []) (some (codes "stop")) n
unfolding content_chunks generate create_content prepend
read_content r i zero = read_end r
read_content r i (suc n) =
    let token = generate_mock_token i in
    let c : ChatCompletionChunk =
      create_content (r.fresh_id i) r.created r.model token (some (completion_id r)) in
    let one_more : n + 1 ≡ suc n = omega arith in
    let text : token ++ generate (suc i) n [] ≡ generate (suc i) n token =
      sym (generate-append (suc i) n token []) ∙ ap (generate (suc i) n) (append-nil token) in
    read_chunk (completion_id r) c (content_chunks r (suc i) n ++ end_events r) (own_id r)
    ∙ ap (prepend c) (read_content r (suc i) n)
    ∙ ap (λ t. read_text t (some (codes "stop")) (n + 1)) text
    ∙ ap (read_text (generate (suc i) n token) (some (codes "stop"))) one_more

read_stream_events :
    (r : ChatRequest) (p : Result Prefilled)
    → read_stream (completion_id r) (stream_events r p) ≡ reading_of (answer_of r p)
unfolding stream_events answer_of create_response create_start prepend end_events
read_stream_events r (err raised) = unfold read_stream in refl
read_stream_events r (ok p) =
    let n = max_tokens_of r.max_tokens in
    let c : ChatCompletionChunk =
      create_start (r.fresh_id 0) r.created r.model (some (completion_id r)) in
    read_chunk (completion_id r) c (content_chunks r 0 n ++ end_events r) (own_id r)
    ∙ ap (prepend c) (read_content r 0 n)
    ∙ ap (read_text (generate 0 n []) (some (codes "stop"))) (omega arith)

-- Over any stack, which may raise, the two handlers do the same for a request: a client that
-- reads the stream to its end gets the text, the finish reason and the number of tokens of the
-- answer in one piece, every chunk under the id of the completion, or its error; and the
-- statistics and the stack are left the same.
pub read_stream-answer :
    {S : Type 0} (kv : KvStack S) (sha : Sha256) (r : ChatRequest) (st : CombinedStats) (s : S)
    → (read_stream (completion_id r) (chat_completions_stream kv sha r (st, s)).0
        ≡ reading_of (chat_completions_answer kv sha r (st, s)).0)
      × ((chat_completions_stream kv sha r (st, s)).1
          ≡ (chat_completions_answer kv sha r (st, s)).1)
unfolding chat_completions_stream chat_completions_answer
read_stream-answer kv sha r st s =
    (read_stream_events r (prefill_messages kv sha (prompt_text r.messages) s).0, refl)
