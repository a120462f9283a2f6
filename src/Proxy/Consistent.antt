-- ===== src/Proxy/Consistent.antt =====
-- What every interleaving of requests keeps, and how a request that moves between two phases keeps
-- it.
use llm_kv_passthrough.Prelude.{
  ℕ, ◌+◌, ◌-◌, ◌≡◌, [], ◌∷◌, ◌++◌, some, length, get_elem?, set, remove_at, sum_of, sum_of-append,
  sum_of-remove_at, sum_of-set, ltb, ◌==◌, if◌then◌else◌, arith,
}
use llm_kv_passthrough.Proxy.{
  Phase, prefilling, stream_prefilling, stream_starting, decoding, stream_sleeping, stream_sent,
  orphaned, reporting, Proxy, connections,
}

abbrev pub at_prefill : ℕ → Phase → ℕ
at_prefill i (prefilling server max_tokens) = if server == i then 1 else 0
at_prefill i (stream_prefilling server max_tokens) = if server == i then 1 else 0
at_prefill i phase = 0

abbrev pub at_decode : ℕ → Phase → ℕ
at_decode j (decoding server left) = if server == j then 1 else 0
at_decode j (stream_sleeping server left) = if server == j then 1 else 0
at_decode j (stream_sent server left) = if server == j then 1 else 0
at_decode j (orphaned server) = if server == j then 1 else 0
at_decode j phase = 0

-- A request that is not counted as a success, a failure or cancelled.
abbrev pub under_way : Phase → ℕ
under_way reporting = 0
under_way (orphaned server) = 0
under_way phase = 1

-- Each connection count is the number of requests that hold a connection to the server, and the
-- requests are the successful, failed and cancelled ones and those under way.
pub record IsConsistent (p : Proxy) : Type 0 where
  pub prefill_open : (i : ℕ) → connections p.prefill_servers i ≡ sum_of (at_prefill i) p.waiting
  pub decode_open : (j : ℕ) → connections p.decode_servers j ≡ sum_of (at_decode j) p.waiting
  pub counted :
      p.stats.requests_total
      ≡ p.stats.requests_success
        + p.stats.requests_failed
        + sum_of under_way p.waiting
        + p.cancelled

-- A stream that is about to open a connection to no server of the list.
abbrev pub beyond : ℕ → Phase → ℕ
beyond n (stream_starting server max_tokens) = if ltb server n then 0 else 1
beyond n phase = 0

pub record Holds (n : ℕ) (p : Proxy) : Type 0 where
  pub consistent : IsConsistent p
  pub size : length p.decode_servers ≡ n
  pub placed : sum_of (beyond n) p.waiting ≡ 0

abbrev pub settled : Proxy → ℕ
settled p = p.stats.requests_success + p.stats.requests_failed + p.cancelled

module _ (n k : ℕ) (p : Proxy) (h : Holds n p) (a : Phase)
    (at : get_elem? p.waiting k ≡ some a) where
  pub set-Holds :
      (b : Phase) (q : Proxy)
      → q.waiting ≡ set p.waiting k b
      → ((i : ℕ)
          → connections q.prefill_servers i
            ≡ connections p.prefill_servers i + at_prefill i b - at_prefill i a)
      → ((j : ℕ)
          → connections q.decode_servers j
            ≡ connections p.decode_servers j + at_decode j b - at_decode j a)
      → q.stats.requests_total + settled p + under_way a
        ≡ p.stats.requests_total + settled q + under_way b
      → length q.decode_servers ≡ length p.decode_servers
      → beyond n b ≡ 0
      → Holds n q
  set-Holds b q moved pre dec total same fits = record {
    consistent = record {
      prefill_open = λ i. rw moved (
          omega (
            arith,
            pre i,
            h.consistent.prefill_open i,
            sum_of-set (at_prefill i) k p.waiting a b at,
          ));
      decode_open = λ j. rw moved (
          omega (
            arith,
            dec j,
            h.consistent.decode_open j,
            sum_of-set (at_decode j) k p.waiting a b at,
          ));
      counted =
          rw moved
            (omega (arith, total, h.consistent.counted, sum_of-set under_way k p.waiting a b at));
    };
    size = omega (arith, same, h.size);
    placed = rw moved (omega (arith, fits, h.placed, sum_of-set (beyond n) k p.waiting a b at));
  }

  pub remove-Holds :
      (q : Proxy)
      → q.waiting ≡ remove_at k p.waiting
      → ((i : ℕ)
          → connections q.prefill_servers i ≡ connections p.prefill_servers i - at_prefill i a)
      → ((j : ℕ) → connections q.decode_servers j ≡ connections p.decode_servers j - at_decode j a)
      → q.stats.requests_total + settled p + under_way a ≡ p.stats.requests_total + settled q
      → length q.decode_servers ≡ length p.decode_servers
      → Holds n q
  remove-Holds q moved pre dec total same = record {
    consistent = record {
      prefill_open = λ i. rw moved (
          omega (
            arith,
            pre i,
            h.consistent.prefill_open i,
            sum_of-remove_at (at_prefill i) k p.waiting a at,
          ));
      decode_open = λ j. rw moved (
          omega (
            arith,
            dec j,
            h.consistent.decode_open j,
            sum_of-remove_at (at_decode j) k p.waiting a at,
          ));
      counted =
          rw moved (
            omega
              (arith, total, h.consistent.counted, sum_of-remove_at under_way k p.waiting a at));
    };
    size = omega (arith, same, h.size);
    placed = rw moved (omega (arith, h.placed, sum_of-remove_at (beyond n) k p.waiting a at));
  }

-- A phase is added behind the others.
pub append-Holds :
    (n : ℕ) (p : Proxy) (h : Holds n p) (b : Phase) (q : Proxy)
    → q.waiting ≡ p.waiting ++ b ∷ []
    → ((i : ℕ) → connections q.prefill_servers i ≡ connections p.prefill_servers i + at_prefill i b)
    → ((j : ℕ) → connections q.decode_servers j ≡ connections p.decode_servers j + at_decode j b)
    → q.stats.requests_total + settled p ≡ p.stats.requests_total + settled q + under_way b
    → length q.decode_servers ≡ length p.decode_servers
    → beyond n b ≡ 0
    → Holds n q
append-Holds n p h b q moved pre dec total same fits = record {
  consistent = record {
    prefill_open = λ i. rw moved (
        omega (
          arith,
          pre i,
          h.consistent.prefill_open i,
          sum_of-append (at_prefill i) p.waiting (b ∷ []),
        ));
    decode_open = λ j. rw moved (
        omega (
          arith,
          dec j,
          h.consistent.decode_open j,
          sum_of-append (at_decode j) p.waiting (b ∷ []),
        ));
    counted =
        rw moved
          (omega (arith, total, h.consistent.counted, sum_of-append under_way p.waiting (b ∷ [])));
  };
  size = omega (arith, same, h.size);
  placed = rw moved (omega (arith, fits, h.placed, sum_of-append (beyond n) p.waiting (b ∷ [])));
}
