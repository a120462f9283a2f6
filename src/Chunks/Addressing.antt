-- ===== src/Chunks/Addressing.antt =====
-- A chunk hash identifies the whole prefix that the chunk ends: the chain of hashes of
-- chunk_tokens_with_metadata against the tokens before it.
use llm_kv_passthrough.Prelude.{
  ℕ, zero, suc, ◌+◌, ◌-◌, ◌*◌, ◌≤◌, ◌≡◌, refl, ap, sym, ◌∙◌, Option, none, some, List, [], ◌∷◌,
  ◌++◌, length, get_elem?, take, drop, slice, Text, arith, slice-take, length-slice, append-cancel,
  length-append, take-add, drop-drop,
}
use llm_kv_passthrough.Prelude.Result.{ok, >>=-eq-ok, ok-injective}
use llm_kv_passthrough.Chunks.{
  Sha256, TokenProcessor, TokenChunk, to_bytes, token_bytes, prefix_bytes, compute_chunk_hash,
  chunk_tokens_with_metadata,
}
use llm_kv_passthrough.Chunks.Chain.{IsChunk, AreChunks, chunk_tokens_with_metadata-AreChunks}

length-to_bytes : (t : ℕ) (bs : List ℕ) → to_bytes t ≡ ok bs → length bs ≡ 4
unfolding to_bytes
length-to_bytes t bs e = ground arith

to_bytes-injective : (t u : ℕ) (bs : List ℕ) → to_bytes t ≡ ok bs → to_bytes u ≡ ok bs → t ≡ u
unfolding to_bytes
to_bytes-injective t u bs e f = ground arith

length-token_bytes :
    (ts : List ℕ) (bs : List ℕ) → token_bytes ts ≡ ok bs → length bs ≡ 4 * length ts
unfolding token_bytes
length-token_bytes [] bs e = let e' : [] ≡ bs = ok-injective e in rw (← e') refl
length-token_bytes (t ∷ ts) bs e =
    let (b, first, e₁) = >>=-eq-ok (to_bytes t) _ e in
    let (r, rest, e₂) = >>=-eq-ok (token_bytes ts) _ e₁ in
    rw (← ok-injective e₂)
      (omega (arith, length-append b r, length-to_bytes t b first, length-token_bytes ts r rest))

token_bytes-injective :
    (ts us : List ℕ) (bs : List ℕ)
    → length ts ≡ length us
    → token_bytes ts ≡ ok bs
    → token_bytes us ≡ ok bs
    → ts ≡ us
unfolding token_bytes
token_bytes-injective [] [] bs h e f = refl
token_bytes-injective [] (u ∷ us) bs h e f = absurd (omega arith)
token_bytes-injective (t ∷ ts) [] bs h e f = absurd (omega arith)
token_bytes-injective (t ∷ ts) (u ∷ us) bs h e f =
    let (b, first, e₁) = >>=-eq-ok (to_bytes t) _ e in
    let (r, rest, e₂) = >>=-eq-ok (token_bytes ts) _ e₁ in
    let (c, first', f₁) = >>=-eq-ok (to_bytes u) _ f in
    let (q, rest', f₂) = >>=-eq-ok (token_bytes us) _ f₁ in
    let (heads, tails) =
      append-cancel b r c q (length-to_bytes t b first ∙ sym (length-to_bytes u c first'))
        (ok-injective (e₂ ∙ sym f₂)) in
    let same : t ≡ u = to_bytes-injective t u c (rw heads at first) first' in
    let later : ts ≡ us = token_bytes-injective ts us q (omega arith) (rw tails at rest) rest' in cc

module _ (sha : Sha256) (k : ℕ) (xs ys : List ℕ) where
  slices_agree :
      (j n : ℕ)
      → j * k + k ≤ n
      → take n xs ≡ take n ys
      → slice xs (j * k) (j * k + k) ≡ slice ys (j * k) (j * k + k)
  slices_agree j n h same =
      sym (slice-take xs (j * k) k n h)
      ∙ ap (λ l. slice l (j * k) (j * k + k)) same
      ∙ slice-take ys (j * k) k n h

  first_agrees :
      (j n : ℕ) (parent : Option Text) (c d : TokenChunk)
      → IsChunk sha k xs j parent c
      → IsChunk sha k ys j parent d
      → j * k + k ≤ n
      → take n xs ≡ take n ys
      → c.chunk_hash ≡ d.chunk_hash
  first_agrees j n parent c d hc hd h same = ok-injective (
      sym hc.chained
      ∙ ap (λ l. compute_chunk_hash sha l parent) (slices_agree j n h same)
      ∙ hd.chained)

  -- With one parent and one prefix up to the end of the chunk, the hashes agree.
  hashes_agree :
      (cs ds : List TokenChunk) (i j n : ℕ) (parent : Option Text) (c d : TokenChunk)
      → AreChunks sha k xs j parent cs
      → AreChunks sha k ys j parent ds
      → (j + i + 1) * k ≤ n
      → take n xs ≡ take n ys
      → get_elem? cs i ≡ some c
      → get_elem? ds i ≡ some d
      → c.chunk_hash ≡ d.chunk_hash
  hashes_agree [] ds i j n parent c d hc hd h same ec ed = cc
  hashes_agree (c₀ ∷ cs) [] i j n parent c d hc hd h same ec ed = cc
  hashes_agree (c₀ ∷ cs) (d₀ ∷ ds) zero j n parent c d hc hd h same ec ed =
      let first = first_agrees j n parent c₀ d₀ hc.0 hd.0 (grind arith) same in
      let ec' : c₀ ≡ c = cc in let ed' : d₀ ≡ d = cc in cc
  hashes_agree (c₀ ∷ cs) (d₀ ∷ ds) (suc i) j n parent c d hc hd h same ec ed =
      let first = first_agrees j n parent c₀ d₀ hc.0 hd.0 (grind arith) same in
      hashes_agree cs ds i (j + 1) n (some c₀.chunk_hash) c d hc.1 (rw (← first) at hd.1)
        (grind arith) same ec ed

  module _ (injective : (a b : List ℕ) → sha.hexdigest a ≡ sha.hexdigest b → a ≡ b) where
    -- Equal hashes of two full chunks: their tokens and what was chained in are equal.
    first_determined :
        (j : ℕ) (parent parent' : Option Text) (c d : TokenChunk)
        → IsChunk sha k xs j parent c
        → IsChunk sha k ys j parent' d
        → j * k + k ≤ length xs
        → j * k + k ≤ length ys
        → c.chunk_hash ≡ d.chunk_hash
        → (prefix_bytes parent ≡ prefix_bytes parent')
          × (slice xs (j * k) (j * k + k) ≡ slice ys (j * k) (j * k + k))
    unfolding compute_chunk_hash
    first_determined j parent parent' c d hc hd hx hy same =
        let (a, ea, fa) = >>=-eq-ok (token_bytes (slice xs (j * k) (j * k + k))) _ hc.chained in
        let (b, eb, fb) = >>=-eq-ok (token_bytes (slice ys (j * k) (j * k + k))) _ hd.chained in
        let inputs : prefix_bytes parent ++ a ≡ prefix_bytes parent' ++ b =
          injective _ _ (ok-injective fa ∙ same ∙ sym (ok-injective fb)) in
        let widths : length (slice xs (j * k) (j * k + k)) ≡ length (slice ys (j * k) (j * k + k)) =
          length-slice xs (j * k) k hx ∙ sym (length-slice ys (j * k) k hy) in
        let (before, bytes) =
          append-cancel (prefix_bytes parent) a (prefix_bytes parent') b
            (omega (
              arith,
              ap (λ (l : List ℕ). length l) inputs,
              length-append (prefix_bytes parent) a,
              length-append (prefix_bytes parent') b,
              length-token_bytes (slice xs (j * k) (j * k + k)) a ea,
              length-token_bytes (slice ys (j * k) (j * k + k)) b eb,
              widths,
            ))
            inputs in
        (before, token_bytes-injective _ _ b widths (rw bytes at ea) eb)

    -- A slice and what follows it make up a longer part.
    join :
        (j n : ℕ)
        → slice xs (j * k) (j * k + k) ≡ slice ys (j * k) (j * k + k)
        → take n (drop ((j + 1) * k) xs) ≡ take n (drop ((j + 1) * k) ys)
        → take (k + n) (drop (j * k) xs) ≡ take (k + n) (drop (j * k) ys)
    join j n here later =
        let w : j * k + k - j * k ≡ k = omega arith in
        let next : (j + 1) * k ≡ j * k + k = grind arith in
        let here' : take k (drop (j * k) xs) ≡ take k (drop (j * k) ys) = rw w at here in
        let later' : take n (drop (j * k + k) xs) ≡ take n (drop (j * k + k) ys) =
          rw next at later in
        cc (
          take-add k n (drop (j * k) xs),
          take-add k n (drop (j * k) ys),
          drop-drop (j * k) k xs,
          drop-drop (j * k) k ys,
          here',
          later',
        )

    hashes_determine :
        (cs ds : List TokenChunk) (i j : ℕ) (parent parent' : Option Text) (c d : TokenChunk)
        → AreChunks sha k xs j parent cs
        → AreChunks sha k ys j parent' ds
        → (j + i + 1) * k ≤ length xs
        → (j + i + 1) * k ≤ length ys
        → get_elem? cs i ≡ some c
        → get_elem? ds i ≡ some d
        → c.chunk_hash ≡ d.chunk_hash
        → (prefix_bytes parent ≡ prefix_bytes parent')
          × (take (k + i * k) (drop (j * k) xs) ≡ take (k + i * k) (drop (j * k) ys))
    hashes_determine [] ds i j parent parent' c d hc hd hx hy ec ed same = cc
    hashes_determine (c₀ ∷ cs) [] i j parent parent' c d hc hd hx hy ec ed same = cc
    hashes_determine (c₀ ∷ cs) (d₀ ∷ ds) zero j parent parent' c d hc hd hx hy ec ed same =
        let ec' : c₀ ≡ c = cc in
        let ed' : d₀ ≡ d = cc in
        let (before, here) =
          first_determined j parent parent' c₀ d₀ hc.0 hd.0 (grind arith) (grind arith) (cc) in
        let none_left : 0 * k ≡ 0 = omega arith in (before, rw none_left (join j 0 here refl))
    hashes_determine (c₀ ∷ cs) (d₀ ∷ ds) (suc i) j parent parent' c d hc hd hx hy ec ed same =
        let (hash, later) =
          hashes_determine cs ds i (j + 1) (some c₀.chunk_hash) (some d₀.chunk_hash) c d hc.1 hd.1
            (grind arith) (grind arith) ec ed same in
        let (before, here) =
          first_determined j parent parent' c₀ d₀ hc.0 hd.0 (grind arith) (grind arith) hash in
        let width : suc i * k ≡ k + i * k = grind arith in
        (before, rw width (join j (k + i * k) here later))

-- Two sequences that agree up to the end of chunk i have one hash there, whatever follows.
pub chunk_hash-prefix :
    (sha : Sha256) (p : TokenProcessor) (xs ys : List ℕ) (cs ds : List TokenChunk) (i : ℕ)
    (c d : TokenChunk)
    → chunk_tokens_with_metadata sha p xs ≡ ok cs
    → chunk_tokens_with_metadata sha p ys ≡ ok ds
    → get_elem? cs i ≡ some c
    → get_elem? ds i ≡ some d
    → take ((i + 1) * p.chunk_size) xs ≡ take ((i + 1) * p.chunk_size) ys
    → c.chunk_hash ≡ d.chunk_hash
chunk_hash-prefix sha p xs ys cs ds i c d ex ey ec ed same =
    hashes_agree sha p.chunk_size xs ys cs ds i 0 ((i + 1) * p.chunk_size) none c d
      (chunk_tokens_with_metadata-AreChunks sha p xs cs ex).0
      (chunk_tokens_with_metadata-AreChunks sha p ys ds ey).0 (grind arith) same ec ed

-- With a hash function that has no collision, one hash of two full chunks i means that the
-- sequences agree from the start up to the end of that chunk.
pub chunk_hash-determines_prefix :
    (sha : Sha256) (p : TokenProcessor) (xs ys : List ℕ) (cs ds : List TokenChunk) (i : ℕ)
    (c d : TokenChunk)
    → ((a b : List ℕ) → sha.hexdigest a ≡ sha.hexdigest b → a ≡ b)
    → chunk_tokens_with_metadata sha p xs ≡ ok cs
    → chunk_tokens_with_metadata sha p ys ≡ ok ds
    → get_elem? cs i ≡ some c
    → get_elem? ds i ≡ some d
    → (i + 1) * p.chunk_size ≤ length xs
    → (i + 1) * p.chunk_size ≤ length ys
    → c.chunk_hash ≡ d.chunk_hash
    → take ((i + 1) * p.chunk_size) xs ≡ take ((i + 1) * p.chunk_size) ys
chunk_hash-determines_prefix sha p xs ys cs ds i c d injective ex ey ec ed hx hy same =
    let k = p.chunk_size in
    let width : (i + 1) * k ≡ k + i * k = grind arith in
    let (_, all) =
      hashes_determine sha k xs ys injective cs ds i 0 none none c d
        (chunk_tokens_with_metadata-AreChunks sha p xs cs ex).0
        (chunk_tokens_with_metadata-AreChunks sha p ys ds ey).0 (grind arith) (grind arith) ec ed
        same in
    let start : 0 * k ≡ 0 = omega arith in rw width (rw start at all)
