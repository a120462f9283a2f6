-- ===== src/Chunks/Cover.antt =====
-- chunk_tokens cuts a sequence into consecutive chunks and loses nothing.
use llm_kv_passthrough.Prelude.{
  ℕ, ◌+◌, ◌*◌, ◌<◌, ◌≡◌, refl, some, none, List, [], ◌∷◌, length, get_elem?, slice, concat, range,
  get_elem?-range, get_elem?-map, concat-slices, ltb, if◌then◌else◌, le→ltb, Bool-cases, inl, inr,
  arith,
}
use llm_kv_passthrough.Chunks.{TokenProcessor, chunk_tokens}

-- The chunks of a sequence, put one after the other, are the sequence.
pub concat-chunk_tokens :
    (p : TokenProcessor) (tokens : List ℕ)
    → 0 < p.chunk_size
    → concat (chunk_tokens p tokens) ≡ tokens
unfolding chunk_tokens
concat-chunk_tokens p [] h = refl
concat-chunk_tokens p (t ∷ ts) h = concat-slices (t ∷ ts) p.chunk_size h

-- Chunk i holds the tokens from i * chunk_size up to the next chunk or the end, and there is a
-- chunk i exactly while i * chunk_size is inside the sequence.
pub get_elem?-chunk_tokens :
    (p : TokenProcessor) (tokens : List ℕ) (i : ℕ)
    → 0 < p.chunk_size
    → get_elem? (chunk_tokens p tokens) i ≡ (
        if ltb (i * p.chunk_size) (length tokens)
        then some (slice tokens (i * p.chunk_size) (i * p.chunk_size + p.chunk_size))
        else none)
unfolding chunk_tokens
get_elem?-chunk_tokens p [] i h = rw (le→ltb (i * p.chunk_size) 0 (omega arith)) refl
get_elem?-chunk_tokens p (t ∷ ts) i h =
    rw
      (get_elem?-map (λ i. slice (t ∷ ts) i (i + p.chunk_size))
        (range 0 (length (t ∷ ts)) p.chunk_size) i)
      (rw (get_elem?-range (length (t ∷ ts)) p.chunk_size i h)
        (elim (Bool-cases (ltb (i * p.chunk_size) (length (t ∷ ts)))) [
          | inl e ↦ rw e refl
          | inr e ↦ rw e refl
        ]))
