-- ===== src/Chunks/Chain.antt =====
-- chunk_tokens_with_metadata: positions, fullness and the chain of hashes.
use llm_kv_passthrough.Prelude.{
  ℕ, zero, suc, ◌+◌, ◌*◌, ◌<◌, ◌≡◌, refl, ap, Option, none, some, List, [], ◌∷◌, length, slice,
  range, range_from, ◌^◌, ◌/◌, ◌%◌, ◌++◌, sym, ◌∙◌, length-map, ◌-◌, lt→ltb, All, All-slice, subst,
  Text, ◌==◌, arith, ltb, Bool-cases, inl, inr,
}
use llm_kv_passthrough.Prelude.Result.{ok, >>=-eq-ok, ok-injective}
use llm_kv_passthrough.Chunks.{
  Sha256, TokenProcessor, TokenChunk, chunk_tokens, compute_chunk_hash, chunks_from,
  chunk_tokens_with_metadata, to_bytes, token_bytes, prefix_bytes,
}

-- What the loop promises of chunk i, whose hash is taken with the hash of the chunk before.
pub record IsChunk (sha : Sha256) (k : ℕ) (tokens : List ℕ) (i : ℕ) (parent : Option Text)
    (c : TokenChunk) : Type 0 where
  pub indexed : c.chunk_index ≡ i
  pub starts : c.start_position ≡ i * k
  pub holds : c.tokens ≡ slice tokens (i * k) (i * k + k)
  pub full : c.is_full ≡ (length (slice tokens (i * k) (i * k + k)) == k)
  pub chained : compute_chunk_hash sha (slice tokens (i * k) (i * k + k)) parent ≡ ok c.chunk_hash

-- Every chunk of a list is as promised, from number i on.
abbrev pub AreChunks : Sha256 → ℕ → List ℕ → ℕ → Option Text → List TokenChunk → Type 0
AreChunks sha k tokens i parent [] = Unit
AreChunks sha k tokens i parent (c ∷ cs) =
    IsChunk sha k tokens i parent c × AreChunks sha k tokens (i + 1) (some c.chunk_hash) cs

-- The starts i * k, (i + 1) * k, ...
abbrev AreStarts : ℕ → ℕ → List ℕ → Type 0
AreStarts k i [] = Unit
AreStarts k i (s ∷ ss) = (s ≡ i * k) × AreStarts k (i + 1) ss

range_from-AreStarts :
    (fuel i stop k : ℕ) (start : ℕ) → start ≡ i * k → AreStarts k i (range_from fuel start stop k)
unfolding range_from
range_from-AreStarts zero i stop k start h = tt
range_from-AreStarts (suc fuel) i stop k start h = elim (Bool-cases (ltb start stop)) [
  | inl e ↦ rw e (h, range_from-AreStarts fuel (i + 1) stop k (start + k) (grind arith))
  | inr e ↦ rw e tt
]

range-AreStarts : (stop k : ℕ) → AreStarts k 0 (range 0 stop k)
unfolding range
range-AreStarts stop k = range_from-AreStarts (stop - 0) 0 stop k 0 (omega arith)

to_bytes_total : (t : ℕ) → t < 2 ^ 32 → (bytes : List ℕ) × (to_bytes t ≡ ok bytes)
unfolding to_bytes
to_bytes_total t h =
    (t % 256 ∷ t / 256 % 256 ∷ t / 65536 % 256 ∷ t / 16777216 ∷ [], rw (lt→ltb t (2 ^ 32) h) refl)

token_bytes_total :
    (ts : List ℕ) → All (λ t. t < 2 ^ 32) ts → (bytes : List ℕ) × (token_bytes ts ≡ ok bytes)
unfolding token_bytes
token_bytes_total [] h = ([], refl)
token_bytes_total (t ∷ ts) h =
    let (b, eb) = to_bytes_total t h.0 in
    let (r, er) = token_bytes_total ts h.1 in (b ++ r, rw eb (rw er refl))

compute_chunk_hash_total :
    (sha : Sha256) (ts : List ℕ) (parent : Option Text)
    → All (λ t. t < 2 ^ 32) ts
    → (h : Text) × (compute_chunk_hash sha ts parent ≡ ok h)
unfolding compute_chunk_hash
compute_chunk_hash_total sha ts parent h =
    let (b, eb) = token_bytes_total ts h in (sha.hexdigest (prefix_bytes parent ++ b), rw eb refl)

module _ (sha : Sha256) (k : ℕ) (tokens : List ℕ) where
  abbrev chunk_at : ℕ → ℕ → Text → TokenChunk
  chunk_at i start h = record {
    tokens = slice tokens start (start + k);
    chunk_index = i;
    chunk_hash = h;
    start_position = start;
    is_full = length (slice tokens start (start + k)) == k;
  }

  chunks_from-AreChunks :
      (starts : List ℕ) (i : ℕ) (parent : Option Text) (chunks : List TokenChunk)
      → AreStarts k i starts
      → chunks_from sha k tokens starts i parent ≡ ok chunks
      → AreChunks sha k tokens i parent chunks × (length chunks ≡ length starts)
  unfolding chunks_from
  chunks_from-AreChunks [] i parent [] h e = (tt, refl)
  chunks_from-AreChunks [] i parent (c ∷ cs) h e = cc
  chunks_from-AreChunks (s ∷ ss) i parent chunks h e =
      let (hash, hashed, e₁) =
        >>=-eq-ok (compute_chunk_hash sha (slice tokens s (s + k)) parent) _ e in
      let (rest, looped, e₂) = >>=-eq-ok (chunks_from sha k tokens ss (i + 1) (some hash)) _ e₁ in
      let (ih, count) = chunks_from-AreChunks ss (i + 1) (some hash) rest h.1 looped in
      let first : IsChunk sha k tokens i parent (chunk_at i s hash) = record {
        indexed = refl;
        starts = h.0;
        holds = ap (λ n. slice tokens n (n + k)) h.0;
        full = ap (λ n. length (slice tokens n (n + k)) == k) h.0;
        chained = rw (← h.0) hashed;
      } in
      subst (λ cs. AreChunks sha k tokens i parent cs × (length cs ≡ suc (length ss)))
        (ok-injective e₂) ((first, ih), ap suc count)

  -- With every token below 2^32 the loop raises nothing.
  chunks_from_total :
      (starts : List ℕ) (i : ℕ) (parent : Option Text)
      → All (λ t. t < 2 ^ 32) tokens
      → (chunks : List TokenChunk) × (chunks_from sha k tokens starts i parent ≡ ok chunks)
  unfolding chunks_from
  chunks_from_total [] i parent fits = ([], refl)
  chunks_from_total (s ∷ ss) i parent fits =
      let (hash, hashed) =
        compute_chunk_hash_total sha (slice tokens s (s + k)) parent
          (All-slice (λ t. t < 2 ^ 32) tokens s (s + k) fits) in
      let (rest, looped) = chunks_from_total ss (i + 1) (some hash) fits in
      (chunk_at i s hash ∷ rest, rw hashed (rw looped refl))

-- What the chunking returns.
pub chunk_tokens_with_metadata-AreChunks :
    (sha : Sha256) (p : TokenProcessor) (tokens : List ℕ) (chunks : List TokenChunk)
    → chunk_tokens_with_metadata sha p tokens ≡ ok chunks
    → AreChunks sha p.chunk_size tokens 0 none chunks
      × (length chunks ≡ length (chunk_tokens p tokens))
unfolding chunk_tokens_with_metadata chunk_tokens
chunk_tokens_with_metadata-AreChunks sha p [] [] e = (tt, refl)
chunk_tokens_with_metadata-AreChunks sha p [] (c ∷ cs) e = cc
chunk_tokens_with_metadata-AreChunks sha p (t ∷ ts) chunks e =
    let (are, count) =
      chunks_from-AreChunks sha p.chunk_size (t ∷ ts) (range 0 (length (t ∷ ts)) p.chunk_size) 0
        none chunks (range-AreStarts (length (t ∷ ts)) p.chunk_size) e in
    (are, count ∙ sym (length-map _ _))

-- No token of 2^32 or more: the chunking returns. Every chunk has the number, start, tokens and
-- fullness of its place, its hash is taken with the hash of the chunk before (none for the first),
-- and there are as many chunks as chunk_tokens cuts.
pub chunk_tokens_with_metadata_total :
    (sha : Sha256) (p : TokenProcessor) (tokens : List ℕ)
    → All (λ t. t < 2 ^ 32) tokens
    → (chunks : List TokenChunk) × (chunk_tokens_with_metadata sha p tokens ≡ ok chunks)
      × AreChunks sha p.chunk_size tokens 0 none chunks
      × (length chunks ≡ length (chunk_tokens p tokens))
chunk_tokens_with_metadata_total sha p tokens fits =
    let (chunks, returned) = all_returned tokens fits in
    let (are, count) = chunk_tokens_with_metadata-AreChunks sha p tokens chunks returned in
    (chunks, returned, are, count)
  where
    all_returned :
        (tokens : List ℕ)
        → All (λ t. t < 2 ^ 32) tokens
        → (chunks : List TokenChunk) × (chunk_tokens_with_metadata sha p tokens ≡ ok chunks)
    all_returned [] fits = ([], unfold chunk_tokens_with_metadata in refl)
    all_returned (t ∷ ts) fits =
        unfold chunk_tokens_with_metadata in
        chunks_from_total sha p.chunk_size (t ∷ ts) _ 0 none fits
