-- ===== src/Latency.antt =====
-- The FLOP counts of LatencyCalculator in src/kvbench/core/latency.py. The numbers that its methods
-- read off the model profile are a record. The times that follow from the counts are in Times.
pub mod Split
pub mod Times
pub mod Costs
pub mod Hits
pub mod Registered
pub mod Generation
mod Examples
use llm_kv_passthrough.Prelude.{ℕ, ◌+◌, ◌-◌, ◌*◌, ◌/◌, Bool, true, false}

-- self.model as the methods read it, num_heads being `self.model.num_heads or 32`.
pub record Shape : Type 0 where
  pub hidden : ℕ
  pub intermediate : ℕ
  pub layers : ℕ
  pub num_heads : ℕ
  pub kv_heads : ℕ
  pub head_dim : ℕ

pub pairs_between : ℕ → ℕ → ℕ
pairs_between start end = (end * end + end - start * start - start) / 2

-- Query-key scores, softmax and weighted values of so many pairs, over all layers.
abbrev pub attention_of_pairs : Shape → ℕ → ℕ → ℕ
attention_of_pairs m pairs batch_size =
    (2 * batch_size * m.num_heads * pairs * m.head_dim
      + 5 * batch_size * m.num_heads * pairs
      + 2 * batch_size * m.num_heads * pairs * m.head_dim)
    * m.layers

pub compute_attention_flops_range : Shape → ℕ → ℕ → ℕ → ℕ
unfolding pairs_between
compute_attention_flops_range m context_tokens num_tokens batch_size =
    attention_of_pairs m (pairs_between context_tokens (context_tokens + num_tokens)) batch_size

pub compute_attention_flops : Shape → ℕ → ℕ → Bool → ℕ
unfolding compute_attention_flops_range
compute_attention_flops m seq_len batch_size true =
    compute_attention_flops_range m 0 seq_len batch_size
compute_attention_flops m seq_len batch_size false = attention_of_pairs m seq_len batch_size

pub compute_ffn_flops : Shape → ℕ → ℕ → ℕ
compute_ffn_flops m num_tokens batch_size =
    let total_tokens = num_tokens * batch_size in
    (2 * total_tokens * m.hidden * m.intermediate
      + 2 * total_tokens * m.hidden * m.intermediate
      + total_tokens * m.intermediate
      + 2 * total_tokens * m.intermediate * m.hidden)
    * m.layers

pub compute_projection_flops : Shape → ℕ → ℕ → ℕ
compute_projection_flops m num_tokens batch_size =
    let total_tokens = num_tokens * batch_size in
    (2 * total_tokens * m.hidden * (m.num_heads * m.head_dim)
      + 2 * total_tokens * m.hidden * (m.kv_heads * m.head_dim)
      + 2 * total_tokens * m.hidden * (m.kv_heads * m.head_dim)
      + 2 * total_tokens * (m.num_heads * m.head_dim) * m.hidden)
    * m.layers

-- total_flops of prefill_latency.
unfoldable pub prefill_flops : Shape → ℕ → ℕ → ℕ → ℕ
unfolding compute_attention_flops_range compute_ffn_flops compute_projection_flops
prefill_flops m num_tokens batch_size context_tokens =
    compute_attention_flops_range m context_tokens num_tokens batch_size
    + compute_ffn_flops m num_tokens batch_size
    + compute_projection_flops m num_tokens batch_size

-- total_flops of decode_latency.
unfoldable pub decode_flops : Shape → ℕ → ℕ → ℕ
unfolding compute_attention_flops compute_ffn_flops compute_projection_flops
decode_flops m context_length batch_size =
    compute_attention_flops m context_length batch_size false
    + compute_ffn_flops m 1 batch_size
    + compute_projection_flops m 1 batch_size
