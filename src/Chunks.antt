-- ===== src/Chunks.antt =====
-- TokenProcessor of src/kvbench/core/tokens.py: tokenisation, chunks, chained chunk hashes and
-- the prefix match against a set of cached hashes.
pub mod Cover
pub mod Chain
pub mod Addressing
pub mod Match
pub mod Tokenize
mod Examples
use llm_kv_passthrough.Prelude.{
  ℕ, zero, suc, ◌+◌, ◌*◌, ◌/◌, ◌%◌, ◌^◌, max, Bool, true, false, Option, none, some, List, [], ◌∷◌,
  ◌++◌, map, length, take, slice, range, Text, contains, ltb, ◌==◌, if◌then◌else◌,
}
use llm_kv_passthrough.Prelude.Result.{Result, ok, err, value_error, overflow_error, ◌>>=◌}

-- hashlib.sha256 of a byte string: its digest and its hexadecimal digest, which the code takes
-- from the standard library.
pub record Sha256 : Type 0 where
  pub digest : List ℕ → List ℕ
  pub hexdigest : List ℕ → Text

pub record TokenProcessor : Type 0 where
  pub chunk_size : ℕ

-- __init__ refuses a chunk size below 1.
pub token_processor : ℕ → Result TokenProcessor
token_processor chunk_size =
    if ltb chunk_size 1 then err value_error else ok (record { chunk_size = chunk_size })

pub record TokenChunk : Type 0 where
  pub tokens : List ℕ
  pub chunk_index : ℕ
  pub chunk_hash : Text
  pub start_position : ℕ
  pub is_full : Bool

-- TokenChunk.size
abbrev pub size : TokenChunk → ℕ
size c = length c.tokens

-- int.from_bytes(bytes, "little")
from_bytes : List ℕ → ℕ
from_bytes [] = 0
from_bytes (b ∷ bs) = b + 256 * from_bytes bs

-- The token of one granule of the text: four bytes of its digest modulo the vocabulary.
pub granule_token : Sha256 → List ℕ → ℕ
unfolding from_bytes
granule_token sha piece = from_bytes (take 4 (sha.digest piece)) % 128256

-- simulate_tokenize on the UTF-8 bytes of the text; `rounded` is round(chars_per_token).
unfoldable pub simulate_tokenize : Sha256 → List ℕ → ℕ → List ℕ
unfolding granule_token range
simulate_tokenize sha [] rounded = []
simulate_tokenize sha (b ∷ bs) rounded =
    let granule = max 1 rounded in
    let text_bytes = b ∷ bs in
    map (λ i. granule_token sha (slice text_bytes i (i + granule)))
      (range 0 (length text_bytes) granule)

pub chunk_tokens : TokenProcessor → List ℕ → List (List ℕ)
unfolding range
chunk_tokens p [] = []
chunk_tokens p (t ∷ ts) =
    let tokens = t ∷ ts in
    map (λ i. slice tokens i (i + p.chunk_size)) (range 0 (length tokens) p.chunk_size)

-- t.to_bytes(4, "little"), which raises OverflowError from 2^32 on.
to_bytes : ℕ → Result (List ℕ)
to_bytes t =
    if ltb t (2 ^ 32)
    then ok (t % 256 ∷ t / 256 % 256 ∷ t / 65536 % 256 ∷ t / 16777216 ∷ [])
    else err overflow_error

-- What the loop of compute_chunk_hash feeds to the hasher.
token_bytes : List ℕ → Result (List ℕ)
unfolding to_bytes
token_bytes [] = ok []
token_bytes (t ∷ ts) = do bytes ← to_bytes t; rest ← token_bytes ts; ok (bytes ++ rest)

-- prefix_hash.encode("ascii"), and nothing without a preceding chunk
abbrev prefix_bytes : Option Text → List ℕ
prefix_bytes none = []
prefix_bytes (some h) = h

pub compute_chunk_hash : Sha256 → List ℕ → Option Text → Result Text
unfolding token_bytes
compute_chunk_hash sha tokens prefix_hash = do
  bytes ← token_bytes tokens
  ok (sha.hexdigest (prefix_bytes prefix_hash ++ bytes))

-- The loop over enumerate(range(...)), with the hash of the chunk before.
chunks_from : Sha256 → ℕ → List ℕ → List ℕ → ℕ → Option Text → Result (List TokenChunk)
chunks_from sha chunk_size tokens [] i parent_hash = ok []
chunks_from sha chunk_size tokens (start ∷ starts) i parent_hash = do
  let piece = slice tokens start (start + chunk_size)
  chunk_hash ← compute_chunk_hash sha piece parent_hash
  rest ← chunks_from sha chunk_size tokens starts (i + 1) (some chunk_hash)
  ok (
      record {
        tokens = piece;
        chunk_index = i;
        chunk_hash = chunk_hash;
        start_position = start;
        is_full = length piece == chunk_size;
      }
      ∷ rest)

unfoldable pub chunk_tokens_with_metadata :
    Sha256 → TokenProcessor → List ℕ → Result (List TokenChunk)
unfolding chunks_from compute_chunk_hash range
chunk_tokens_with_metadata sha p [] = ok []
chunk_tokens_with_metadata sha p (t ∷ ts) =
    let tokens = t ∷ ts in
    chunks_from sha p.chunk_size tokens (range 0 (length tokens) p.chunk_size) 0 none

-- The loop of find_prefix_match, with its two accumulators; it stops at the first miss.
match_from : List Text → List TokenChunk → ℕ → List Text → ℕ × List Text
unfolding contains
match_from cached [] matched_tokens matched_hashes = (matched_tokens, matched_hashes)
match_from cached (chunk ∷ chunks) matched_tokens matched_hashes =
    elim (contains cached chunk.chunk_hash) [
      | true ↦
          match_from cached chunks (matched_tokens + size chunk)
            (matched_hashes ++ chunk.chunk_hash ∷ [])
      | false ↦ (matched_tokens, matched_hashes)
    ]

pub find_prefix_match : Sha256 → TokenProcessor → List ℕ → List Text → Result (ℕ × List Text)
unfolding chunk_tokens_with_metadata match_from
find_prefix_match sha p [] cached = ok (0, [])
find_prefix_match sha p (t ∷ ts) [] = ok (0, [])
find_prefix_match sha p (t ∷ ts) (c ∷ cs) = do
  chunks ← chunk_tokens_with_metadata sha p (t ∷ ts)
  ok (match_from (c ∷ cs) chunks 0 [])
