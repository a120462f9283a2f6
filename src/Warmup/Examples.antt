-- ===== src/Warmup/Examples.antt =====
-- The theorems about the warmup at small inputs, and whole runs.
use llm_kv_passthrough.Prelude.{
  ℕ, ◌≡◌, ◌≢◌, refl, true, false, none, some, List, [], ◌∷◌, ◌++◌, map, concat, replicate, arith,
}
use llm_kv_passthrough.Prelude.Result.{ok, err, index_error}
use llm_kv_passthrough.Chunks.{Sha256, TokenProcessor, TokenChunk, chunk_tokens_with_metadata}
use llm_kv_passthrough.Warmup.{
  WarmupRequest, Capacity, done, error, init, starts, enters, settles, works, looks_up, cancels,
  stops, unwinds, resumes_cancel, cancelled, is_running, Event, run, next_sequence,
}
use llm_kv_passthrough.Warmup.Kept.{IsSound}
use llm_kv_passthrough.Warmup.Sound.{warmup-IsSound}
use llm_kv_passthrough.Warmup.Nonce.{next_sequence-unshared}

-- A hash without collisions: the text itself.
abbrev plain : Sha256
plain = record { digest = λ b. b; hexdigest = λ b. b }

abbrev by_eight : TokenProcessor
by_eight = record { chunk_size = 8 }

abbrev request : WarmupRequest
request = record { target = some 2000; fill = λ n. n; seq_tokens = 300; concurrency = 2 }

abbrev capacity : Capacity
capacity = record { chunk_size = none; bytes_per_token = 4; total_capacity_bytes = none }

abbrev zeros : List ℕ
zeros = replicate 8 0

-- Two workers that store 1024 bytes each pass the target of 2000, and the check sees no eviction.
abbrev filling : List Event
filling =
    starts request (some capacity)
    ∷ enters
    ∷ works true zeros 0
    ∷ works true zeros 1
    ∷ works true zeros 0
    ∷ works true zeros 1
    ∷ works true zeros 0
    ∷ settles
    ∷ looks_up (some 3)
    ∷ []

filled :
    let s = (run filling init).status in
    (s.state ≡ done) × (s.stored_bytes ≡ 3072) × (s.sequences ≡ 3) × (s.evicting ≡ true)
unfolding run init
filled = (refl, refl, refl, refl)

-- A worker whose store raises ends the run, and the other worker goes on storing.
going_on :
    let s =
      (run
        (starts request (some capacity)
          ∷ enters
          ∷ works true zeros 0
          ∷ works true zeros 1
          ∷ works false zeros 0
          ∷ settles
          ∷ works true zeros 1
          ∷ [])
        init).status in
    (s.state ≡ error) × (s.stored_bytes ≡ 1024)
unfolding run init
going_on = (refl, refl)

too_short : next_sequence 1 (0 ∷ []) ≡ err index_error
unfolding next_sequence
too_short = refl

-- The call of cancel goes on after the next start, and sets the state of the new run.
abbrev overtaking : List Event
overtaking =
    starts request (some capacity)
    ∷ enters
    ∷ works true zeros 0
    ∷ cancels
    ∷ stops 0
    ∷ unwinds
    ∷ starts request (some capacity)
    ∷ enters
    ∷ resumes_cancel 0
    ∷ works true zeros 2
    ∷ []

overtaken : let c = run overtaking init in (c.status.state ≡ cancelled) × (is_running c.task ≡ true)
unfolding run init is_running
overtaken = (refl, refl)

warmup-IsSound_example : IsSound (run (filling ++ overtaking) init)
warmup-IsSound_example = warmup-IsSound (filling ++ overtaking)

abbrev sequence : ℕ → List ℕ
sequence nonce = nonce ∷ replicate 7 0

abbrev only_chunk : ℕ → TokenChunk
only_chunk nonce = record {
  tokens = sequence nonce;
  chunk_index = 0;
  chunk_hash = concat (map (λ t. t ∷ 0 ∷ 0 ∷ 0 ∷ []) (sequence nonce));
  start_position = 0;
  is_full = true;
}

chunked_one : chunk_tokens_with_metadata plain by_eight (sequence 1) ≡ ok (only_chunk 1 ∷ [])
unfolding chunk_tokens_with_metadata
chunked_one = refl

chunked_two : chunk_tokens_with_metadata plain by_eight (sequence 2) ≡ ok (only_chunk 2 ∷ [])
unfolding chunk_tokens_with_metadata
chunked_two = refl

made_one : next_sequence 1 zeros ≡ ok (sequence 1)
unfolding next_sequence
made_one = refl

made_two : next_sequence 2 zeros ≡ ok (sequence 2)
unfolding next_sequence
made_two = refl

one_two : ◌≢◌ {A = ℕ} 1 2
one_two e = omega arith

next_sequence-unshared_example : (only_chunk 1).chunk_hash ≢ (only_chunk 2).chunk_hash
next_sequence-unshared_example =
    next_sequence-unshared plain by_eight 1 2 zeros zeros (sequence 1) (sequence 2)
      (only_chunk 1 ∷ []) (only_chunk 2 ∷ []) (only_chunk 1) (only_chunk 2) (λ a b e. e)
      (omega arith) (omega arith) (omega arith) one_two made_one made_two (omega arith)
      (omega arith) chunked_one chunked_two refl refl
