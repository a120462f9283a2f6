-- ===== src/Warmup/Nonce.antt =====
-- The sequences of a warmup are whole chunks, and no two of them share their first chunk.
use llm_kv_passthrough.Prelude.{
  ℕ, zero, suc, ◌+◌, ◌*◌, ◌/◌, ◌%◌, ◌^◌, ◌≤◌, ◌<◌, max, ◌≡◌, ◌≢◌, refl, sym, ap, subst, ◌∙◌, some,
  List, [], ◌∷◌, length, take, take-take_le, get_elem?, arith,
}
use llm_kv_passthrough.Prelude.Result.{ok, >>=-eq-ok, ok-injective}
use llm_kv_passthrough.Chunks.{Sha256, TokenProcessor, TokenChunk, chunk_tokens_with_metadata}
use llm_kv_passthrough.Chunks.Addressing.{chunk_hash-determines_prefix}
use llm_kv_passthrough.Warmup.{aligned_tokens, nonce_byte, write_nonce, next_sequence}
use native.Mathlib.Nat.{div-add-mod', mod-lt}

-- The bytes i, i + 1, … of the nonce, n of them.
abbrev bytes_from : ℕ → ℕ → ℕ → List ℕ
bytes_from nonce i zero = []
bytes_from nonce i (suc n) = nonce_byte nonce i ∷ bytes_from nonce (i + 1) n

take-write_nonce :
    (nonce i n : ℕ) (drawn tokens : List ℕ)
    → write_nonce nonce i n drawn ≡ ok tokens
    → take n tokens ≡ bytes_from nonce i n
unfolding write_nonce
take-write_nonce nonce i zero drawn tokens e = refl
take-write_nonce nonce i (suc n) [] tokens e = cc
take-write_nonce nonce i (suc n) (t ∷ ts) tokens e =
    let (rest, made, out) = >>=-eq-ok (write_nonce nonce (i + 1) n ts) _ e in
    let o : nonce_byte nonce i ∷ rest ≡ tokens = ok-injective out in
    subst (λ l. take (suc n) l ≡ bytes_from nonce i (suc n)) o
      (ap (λ l. nonce_byte nonce i ∷ l) (take-write_nonce nonce (i + 1) n ts rest made))

high_byte : (m n d : ℕ) → m / d % 256 ≡ n / d % 256 → m / d / 256 ≡ n / d / 256 → m / d ≡ n / d
high_byte m n d e f = omega arith

bytes_from-injective :
    (m n : ℕ) → m < 2 ^ 64 → n < 2 ^ 64 → bytes_from m 0 8 ≡ bytes_from n 0 8 → m ≡ n
bytes_from-injective m n hm hn e =
    let e0 : nonce_byte m 0 ≡ nonce_byte n 0 = cc in
    let e1 : nonce_byte m 1 ≡ nonce_byte n 1 = cc in
    let e2 : nonce_byte m 2 ≡ nonce_byte n 2 = cc in
    let e3 : nonce_byte m 3 ≡ nonce_byte n 3 = cc in
    let e4 : nonce_byte m 4 ≡ nonce_byte n 4 = cc in
    let e5 : nonce_byte m 5 ≡ nonce_byte n 5 = cc in
    let e6 : nonce_byte m 6 ≡ nonce_byte n 6 = cc in
    let e7 : nonce_byte m 7 ≡ nonce_byte n 7 = cc in omega arith

-- Two sequences made with different counters below 2^64, of at least a chunk, have different
-- hashes for their first chunks, when a chunk has at least eight tokens and the hash function has
-- no collision: no stored sequence is taken for another one.
pub next_sequence-unshared :
    (sha : Sha256) (p : TokenProcessor) (m n : ℕ) (drawn_x drawn_y xs ys : List ℕ)
    (cs ds : List TokenChunk) (c d : TokenChunk)
    → ((a b : List ℕ) → sha.hexdigest a ≡ sha.hexdigest b → a ≡ b)
    → 8 ≤ p.chunk_size
    → m < 2 ^ 64
    → n < 2 ^ 64
    → m ≢ n
    → next_sequence m drawn_x ≡ ok xs
    → next_sequence n drawn_y ≡ ok ys
    → p.chunk_size ≤ length xs
    → p.chunk_size ≤ length ys
    → chunk_tokens_with_metadata sha p xs ≡ ok cs
    → chunk_tokens_with_metadata sha p ys ≡ ok ds
    → get_elem? cs 0 ≡ some c
    → get_elem? ds 0 ≡ some d
    → c.chunk_hash ≢ d.chunk_hash
unfolding next_sequence
next_sequence-unshared sha p m n drawn_x drawn_y xs ys cs ds c d injective eight hm hn other ex ey
      lx ly cx cy atx aty same =
    let agree =
      chunk_hash-determines_prefix sha p xs ys cs ds 0 c d injective cx cy atx aty (omega arith)
        (omega arith) same in
    let k : (0 + 1) * p.chunk_size ≡ p.chunk_size = omega arith in
    let whole : take p.chunk_size xs ≡ take p.chunk_size ys =
      subst (λ l. take l xs ≡ take l ys) k agree in
    let start_agree : take 8 xs ≡ take 8 ys =
      sym (take-take_le 8 p.chunk_size xs eight)
      ∙ ap (take 8) whole
      ∙ take-take_le 8 p.chunk_size ys eight in
    other (
      bytes_from-injective m n hm hn (
        sym (take-write_nonce m 0 8 drawn_x xs ex)
        ∙ start_agree
        ∙ take-write_nonce n 0 8 drawn_y ys ey))

-- The tokens of a sequence are whole chunks, at least one: the request cut down to whole chunks,
-- or one chunk if the request is smaller.
pub aligned_tokens-whole :
    (chunk_size seq_tokens : ℕ)
    → 0 < chunk_size
    → (whole : ℕ) × (aligned_tokens chunk_size seq_tokens ≡ whole * chunk_size)
      × (0 < whole)
      × (seq_tokens < aligned_tokens chunk_size seq_tokens + chunk_size)
      × (aligned_tokens chunk_size seq_tokens ≤ max chunk_size seq_tokens)
unfolding aligned_tokens
aligned_tokens-whole chunk_size seq_tokens h =
    go (seq_tokens / chunk_size) (div-add-mod' seq_tokens chunk_size) (mod-lt seq_tokens h)
  where
    go :
        (q : ℕ)
        → q * chunk_size + seq_tokens % chunk_size ≡ seq_tokens
        → seq_tokens % chunk_size < chunk_size
        → (whole : ℕ) × (max chunk_size (q * chunk_size) ≡ whole * chunk_size)
          × (0 < whole)
          × (seq_tokens < max chunk_size (q * chunk_size) + chunk_size)
          × (max chunk_size (q * chunk_size) ≤ max chunk_size seq_tokens)
    go zero e lt = (1, omega arith, omega arith, omega arith, omega arith)
    go (suc q) e lt = (suc q, grind arith, omega arith, grind arith, grind arith)
