-- ===== src/Chunks/Examples.antt =====
-- The theorems of the token processor at small inputs, and runs of its definitions.
use llm_kv_passthrough.Prelude.{
  ℕ, ◌+◌, ◌*◌, length, ◌≡◌, refl, some, none, List, [], ◌∷◌, arith, get_elem?, take, Text,
}
use llm_kv_passthrough.Prelude.Result.{ok, err, value_error, overflow_error}
use llm_kv_passthrough.Chunks.{
  Sha256, TokenProcessor, token_processor, TokenChunk, simulate_tokenize, chunk_tokens,
  chunk_tokens_with_metadata, find_prefix_match,
}
use llm_kv_passthrough.Chunks.Chain.{AreChunks, chunk_tokens_with_metadata_total}
use llm_kv_passthrough.Chunks.Addressing.{chunk_hash-determines_prefix}
use llm_kv_passthrough.Chunks.Match.{IsLongestMatch, find_prefix_match-IsLongestMatch}

-- A hash without collisions: the text itself.
abbrev plain : Sha256
plain = record { digest = λ b. b; hexdigest = λ b. b }

abbrev by_two : TokenProcessor
by_two = record { chunk_size = 2 }

abbrev five : List ℕ
five = 1 ∷ 2 ∷ 3 ∷ 4 ∷ 5 ∷ []

abbrev four : List ℕ
four = 1 ∷ 2 ∷ 3 ∷ 4 ∷ []

no_processor : token_processor 0 ≡ err value_error
unfolding token_processor
no_processor = refl

cut : chunk_tokens by_two five ≡ (1 ∷ 2 ∷ []) ∷ (3 ∷ 4 ∷ []) ∷ (5 ∷ []) ∷ []
unfolding chunk_tokens
cut = refl

abbrev chunk : List ℕ → ℕ → Text → ℕ → TokenChunk
chunk ts i h s = record {
  tokens = ts;
  chunk_index = i;
  chunk_hash = h;
  start_position = s;
  is_full = mathlib.Core.Bool.true;
}

abbrev hash_one : Text
hash_one = 1 ∷ 0 ∷ 0 ∷ 0 ∷ 2 ∷ 0 ∷ 0 ∷ 0 ∷ []

abbrev hash_two : Text
hash_two = 1 ∷ 0 ∷ 0 ∷ 0 ∷ 2 ∷ 0 ∷ 0 ∷ 0 ∷ 3 ∷ 0 ∷ 0 ∷ 0 ∷ 4 ∷ 0 ∷ 0 ∷ 0 ∷ []

abbrev first_chunk : TokenChunk
first_chunk = chunk (1 ∷ 2 ∷ []) 0 hash_one 0

abbrev second_chunk : TokenChunk
second_chunk = chunk (3 ∷ 4 ∷ []) 1 hash_two 2

with_metadata : chunk_tokens_with_metadata plain by_two four ≡ ok (first_chunk ∷ second_chunk ∷ [])
unfolding chunk_tokens_with_metadata
with_metadata = refl

too_large : chunk_tokens_with_metadata plain by_two (4294967296 ∷ []) ≡ err overflow_error
unfolding chunk_tokens_with_metadata
too_large = refl

matched : find_prefix_match plain by_two four (hash_one ∷ []) ≡ ok (2, hash_one ∷ [])
unfolding find_prefix_match
matched = refl

get-token : get_elem? (simulate_tokenize plain (65 ∷ 66 ∷ 67 ∷ []) 2) 0 ≡ some 16961
unfolding simulate_tokenize
get-token = refl

chunk_tokens_with_metadata_total_example :
    (chunks : List TokenChunk) × (chunk_tokens_with_metadata plain by_two five ≡ ok chunks)
    × AreChunks plain 2 five 0 none chunks
    × (length chunks ≡ length (chunk_tokens by_two five))
chunk_tokens_with_metadata_total_example =
    chunk_tokens_with_metadata_total plain by_two five (omega arith)

find_prefix_match-IsLongestMatch_example :
    (r : ℕ × List Text) × (find_prefix_match plain by_two four (hash_one ∷ []) ≡ ok r)
    × IsLongestMatch (hash_one ∷ []) (first_chunk ∷ second_chunk ∷ []) r.0 r.1
find_prefix_match-IsLongestMatch_example =
    find_prefix_match-IsLongestMatch plain by_two four (hash_one ∷ [])
      (first_chunk ∷ second_chunk ∷ []) with_metadata

third_chunk : TokenChunk
third_chunk = record {
  tokens = 5 ∷ [];
  chunk_index = 2;
  chunk_hash = 1 ∷ 0 ∷ 0 ∷ 0 ∷ 2 ∷ 0 ∷ 0 ∷ 0 ∷ 3 ∷ 0 ∷ 0 ∷ 0 ∷ 4 ∷ 0 ∷ 0 ∷ 0 ∷ 5 ∷ 0 ∷ 0 ∷ 0 ∷ [];
  start_position = 4;
  is_full = mathlib.Core.Bool.false;
}

with_metadata_five :
    chunk_tokens_with_metadata plain by_two five
    ≡ ok (first_chunk ∷ second_chunk ∷ third_chunk ∷ [])
unfolding chunk_tokens_with_metadata third_chunk
with_metadata_five = refl

chunk_hash-determines_prefix_example : take ((1 + 1) * 2) four ≡ take ((1 + 1) * 2) five
chunk_hash-determines_prefix_example =
    chunk_hash-determines_prefix plain by_two four five (first_chunk ∷ second_chunk ∷ [])
      (first_chunk ∷ second_chunk ∷ third_chunk ∷ []) 1 second_chunk second_chunk (λ a b e. e)
      with_metadata with_metadata_five refl refl (omega arith) (omega arith) refl
