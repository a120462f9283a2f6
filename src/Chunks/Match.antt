-- ===== src/Chunks/Match.antt =====
-- find_prefix_match returns the longest run of cached chunks from the start.
use llm_kv_passthrough.Prelude.{
  ℕ, suc, ◌+◌, ◌≤◌, ◌≡◌, refl, ◌∙◌, Bool, true, false, Option, none, some, List, [], ◌∷◌, ◌++◌, inl,
  inr, map, length, get_elem?, take, Text, contains, Bool-cases, All, if◌then◌else◌, arith,
}
use mathlib.Core.List.{append_assoc, append-nil}
use native.Mathlib.Nat.{add-zero, add_assoc}
use llm_kv_passthrough.Prelude.Result.{ok}
use llm_kv_passthrough.Chunks.{
  Sha256, TokenProcessor, TokenChunk, size, match_from, chunk_tokens_with_metadata,
  find_prefix_match,
}

abbrev hashes : List TokenChunk → List Text
hashes = map (λ c. c.chunk_hash)

abbrev total_size : List TokenChunk → ℕ
total_size [] = 0
total_size (c ∷ cs) = size c + total_size cs

-- A chunk that is there and cached.
abbrev pub is_hit : List Text → Option TokenChunk → Bool
is_hit cached none = false
is_hit cached (some c) = contains cached c.chunk_hash

-- m chunks from the start are cached, the next one (if there is one) is not, and the result
-- counts their tokens and lists their hashes.
pub record IsLongestMatch (cached : List Text) (chunks : List TokenChunk) (n : ℕ) (hs : List Text)
    : Type 0 where
  pub m : ℕ
  pub fits : m ≤ length chunks
  pub counted : n ≡ total_size (take m chunks)
  pub listed : hs ≡ hashes (take m chunks)
  pub all_cached : All (λ c. contains cached c.chunk_hash ≡ true) (take m chunks)
  pub stops : is_hit cached (get_elem? chunks m) ≡ false

-- The run that the loop finds, as a number of chunks.
run_length : List Text → List TokenChunk → ℕ
run_length cached [] = 0
run_length cached (c ∷ cs) =
    let rest = run_length cached cs in if contains cached c.chunk_hash then suc rest else 0

match_from-eq :
    (cached : List Text) (chunks : List TokenChunk) (n : ℕ) (hs : List Text)
    → match_from cached chunks n hs ≡ (
      n + total_size (take (run_length cached chunks) chunks),
      hs ++ hashes (take (run_length cached chunks) chunks),
    )
unfolding match_from run_length
match_from-eq cached [] n hs = cc (add-zero n, append-nil hs)
match_from-eq cached (c ∷ cs) n hs = elim (Bool-cases (contains cached c.chunk_hash)) [
  | inr miss ↦ rw (miss, match_from) (cc (add-zero n, append-nil hs))
  | inl hit ↦
      rw (hit, match_from)
        (match_from-eq cached cs (n + size c) (hs ++ c.chunk_hash ∷ [])
          ∙ cc (
            add_assoc n (size c) (total_size (take (run_length cached cs) cs)),
            append_assoc hs (c.chunk_hash ∷ []) (hashes (take (run_length cached cs) cs)),
          ))
]

run_length-le :
    (cached : List Text) (chunks : List TokenChunk) → run_length cached chunks ≤ length chunks
unfolding run_length
run_length-le cached [] = omega arith
run_length-le cached (c ∷ cs) = ground (arith, run_length-le cached cs)

run_cached :
    (cached : List Text) (chunks : List TokenChunk)
    → All (λ c. contains cached c.chunk_hash ≡ true) (take (run_length cached chunks) chunks)
unfolding run_length
run_cached cached [] = tt
run_cached cached (c ∷ cs) = elim (Bool-cases (contains cached c.chunk_hash)) [
  | inr miss ↦ rw miss tt
  | inl hit ↦ rw hit (hit, run_cached cached cs)
]

run_stops :
    (cached : List Text) (chunks : List TokenChunk)
    → is_hit cached (get_elem? chunks (run_length cached chunks)) ≡ false
unfolding run_length
run_stops cached [] = refl
run_stops cached (c ∷ cs) = elim (Bool-cases (contains cached c.chunk_hash)) [
  | inr miss ↦ rw miss miss
  | inl hit ↦ rw hit (run_stops cached cs)
]

match_from-IsLongestMatch :
    (cached : List Text) (chunks : List TokenChunk)
    → IsLongestMatch cached chunks
        (match_from cached chunks 0 []).0
        (match_from cached chunks 0 []).1
match_from-IsLongestMatch cached chunks = record {
  m = run_length cached chunks;
  fits = run_length-le cached chunks;
  counted = rw match_from-eq (omega arith);
  listed = rw match_from-eq refl;
  all_cached = run_cached cached chunks;
  stops = run_stops cached chunks;
}

contains-nil : (t : Text) → contains [] t ≡ false
unfolding contains
contains-nil t = refl

nothing_hit : (o : Option TokenChunk) → is_hit [] o ≡ false
nothing_hit none = refl
nothing_hit (some c) = contains-nil c.chunk_hash

nothing_cached : (chunks : List TokenChunk) → IsLongestMatch [] chunks 0 []
nothing_cached chunks = record {
  m = 0;
  fits = omega arith;
  counted = refl;
  listed = refl;
  all_cached = tt;
  stops = nothing_hit (get_elem? chunks 0);
}

-- Once the sequence is chunked, the match returns, and what it returns is the longest run of
-- cached chunks from the start: with no cached hash, or no token, that is no chunk.
pub find_prefix_match-IsLongestMatch :
    (sha : Sha256) (p : TokenProcessor) (tokens : List ℕ) (cached : List Text)
    (chunks : List TokenChunk)
    → chunk_tokens_with_metadata sha p tokens ≡ ok chunks
    → (r : ℕ × List Text) × (find_prefix_match sha p tokens cached ≡ ok r)
      × IsLongestMatch cached chunks r.0 r.1
unfolding find_prefix_match
find_prefix_match-IsLongestMatch sha p [] cached [] e = ((0, []), refl, match_from_none cached)
  where
    match_from_none : (cached : List Text) → IsLongestMatch cached [] 0 []
    match_from_none cached = record {
      m = 0;
      fits = omega arith;
      counted = refl;
      listed = refl;
      all_cached = tt;
      stops = refl;
    }
find_prefix_match-IsLongestMatch sha p [] cached (c ∷ cs) e = absurd (no_chunk e)
  where
    no_chunk : chunk_tokens_with_metadata sha p [] ≡ ok (c ∷ cs) → ⊥
    no_chunk h = cc
find_prefix_match-IsLongestMatch sha p (t ∷ ts) [] chunks e = ((0, []), refl, nothing_cached chunks)
find_prefix_match-IsLongestMatch sha p (t ∷ ts) (h ∷ hs) chunks e =
    (match_from (h ∷ hs) chunks 0 [], rw e refl, match_from-IsLongestMatch (h ∷ hs) chunks)
