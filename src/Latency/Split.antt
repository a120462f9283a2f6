-- ===== src/Latency/Split.antt =====
-- The closed form of the query-key pairs, and how the FLOP counts add up over parts of a prompt.
use llm_kv_passthrough.Prelude.{ℕ, zero, suc, ◌+◌, ◌-◌, ◌*◌, ◌≤◌, ◌≡◌, refl, ◌∙◌, subst, arith}
use llm_kv_passthrough.Latency.{
  Shape, pairs_between, compute_attention_flops_range, compute_attention_flops, compute_ffn_flops,
  compute_projection_flops, prefill_flops, decode_flops,
}

-- The token at position p attends to p + 1 keys: the sum over the positions from start on.
abbrev pub attended : ℕ → ℕ → ℕ
attended start zero = 0
attended start (suc n) = start + 1 + attended (start + 1) n

attended-add : (s a b : ℕ) → attended s (a + b) ≡ attended s a + attended (s + a) b
attended-add s zero b =
    let e : zero + b ≡ b = omega arith in
    let k : s + zero ≡ s = omega arith in rw (e, k) (omega arith)
attended-add s (suc a) b =
    let e : suc a + b ≡ suc (a + b) = omega arith in
    let k : s + suc a ≡ s + 1 + a = omega arith in
    rw (e, k) (omega (arith, attended-add (s + 1) a b))

next_square : (s : ℕ) → (s + 1) * (s + 1) + (s + 1) ≡ s * s + s + 2 * (s + 1)
next_square s = grind arith

squares : (s n : ℕ) → (s + n) * (s + n) + (s + n) ≡ s * s + s + 2 * attended s n
squares s zero = let k : s + zero ≡ s = omega arith in rw k (omega arith)
squares s (suc n) =
    let k : s + suc n ≡ s + 1 + n = omega arith in
    rw k (omega (arith, squares (s + 1) n, next_square s))

-- The closed form counts the keys that the tokens from start on attend to, one by one.
pub pairs_between_lem : (start n : ℕ) → pairs_between start (start + n) ≡ attended start n
unfolding pairs_between
pairs_between_lem start n = omega (arith, squares start n)

scaled :
    (b h d l p q : ℕ)
    → (2 * b * h * (p + q) * d + 5 * b * h * (p + q) + 2 * b * h * (p + q) * d) * l
      ≡ (2 * b * h * p * d + 5 * b * h * p + 2 * b * h * p * d) * l
        + (2 * b * h * q * d + 5 * b * h * q + 2 * b * h * q * d) * l
scaled b h d l p q = grind arith

compute_attention_flops_range-add :
    (m : Shape) (c a b batch : ℕ)
    → compute_attention_flops_range m c (a + b) batch
      ≡ compute_attention_flops_range m c a batch + compute_attention_flops_range m (c + a) b batch
unfolding compute_attention_flops_range
compute_attention_flops_range-add m c a b batch =
    let e = pairs_between_lem c (a + b) ∙ attended-add c a b in
    rw (e, pairs_between_lem c a, pairs_between_lem (c + a) b)
      (scaled batch m.num_heads m.head_dim m.layers (attended c a) (attended (c + a) b))

compute_ffn_flops-add :
    (m : Shape) (a b batch : ℕ)
    → compute_ffn_flops m (a + b) batch ≡ compute_ffn_flops m a batch + compute_ffn_flops m b batch
unfolding compute_ffn_flops
compute_ffn_flops-add m a b batch = grind arith

compute_projection_flops-add :
    (m : Shape) (a b batch : ℕ)
    → compute_projection_flops m (a + b) batch
      ≡ compute_projection_flops m a batch + compute_projection_flops m b batch
unfolding compute_projection_flops
compute_projection_flops-add m a b batch = grind arith

-- A prefill in two parts, the second on top of the first as cached context, costs the FLOPs of
-- the prefill in one.
pub prefill_flops-add :
    (m : Shape) (a b batch_size context_tokens : ℕ)
    → prefill_flops m (a + b) batch_size context_tokens
      ≡ prefill_flops m a batch_size context_tokens
        + prefill_flops m b batch_size (context_tokens + a)
unfolding prefill_flops
prefill_flops-add m a b batch_size context_tokens = omega (
  arith,
  compute_attention_flops_range-add m context_tokens a b batch_size,
  compute_ffn_flops-add m a b batch_size,
  compute_projection_flops-add m a b batch_size,
)

-- The decode of one token with context_length positions, its own included, costs the FLOPs of a
-- prefill of that token on top of the others.
pub decode_flops-prefill_flops :
    (m : Shape) (c batch_size : ℕ)
    → decode_flops m (c + 1) batch_size ≡ prefill_flops m 1 batch_size c
unfolding decode_flops prefill_flops compute_attention_flops compute_attention_flops_range
decode_flops-prefill_flops m c batch_size =
    let e : pairs_between c (c + 1) ≡ c + 1 = pairs_between_lem c 1 ∙ omega arith in rw e refl

-- A longer context costs the decode of a token no fewer FLOPs.
pub decode_flops_mono :
    (m : Shape) (c d batch : ℕ) → c ≤ d → decode_flops m c batch ≤ decode_flops m d batch
unfolding decode_flops compute_attention_flops
decode_flops_mono m c d batch h =
    let e : c + (d - c) ≡ d = omega arith in
    let split = scaled batch m.num_heads m.head_dim m.layers c (d - c) in
    subst (λ x. decode_flops m c batch ≤ decode_flops m x batch) e (omega (arith, split))
