-- ===== src/Proxy/Prefilled.antt =====
-- The start of a request and the end of its prefill keep what Consistent states.
use llm_kv_passthrough.Prelude.{
  ℕ, zero, suc, ◌+◌, ◌<◌, ◌≡◌, refl, Option, none, some, List, [], ◌∷◌, length, length-modify, set,
  get_elem?, modify, lt→ltb, ◌==◌, if◌then◌else◌, arith,
}
use llm_kv_passthrough.Proxy.{
  ServerEndpoint, Phase, prefilling, stream_prefilling, stream_starting, decoding, refused, Proxy,
  complete, open_connection, select, max_tokens_of, arrive, arrive_stream, start_prefill,
  start_stream, prefilled, start_decode, decoded, stream_prefilled, first_chunk,
}
use llm_kv_passthrough.Proxy.Select.{IsUp, select-IsUp}
use llm_kv_passthrough.Proxy.Connections.{connections-open, connections-complete}
use llm_kv_passthrough.Proxy.Consistent.{
  at_prefill, at_decode, under_way, beyond, Holds, set-Holds, remove-Holds, append-Holds,
}

up_lt : (ss : List ServerEndpoint) (i : ℕ) → IsUp ss i → i < length ss
up_lt [] i (s, at, up) = cc
up_lt (s ∷ ss) zero u = omega arith
up_lt (s ∷ ss) (suc i) u = omega (arith, up_lt ss i u)

not_beyond : (n j m : ℕ) → j < n → beyond n (stream_starting j m) ≡ 0
not_beyond n j m h = rw (lt→ltb j n h) refl

-- An arrival.
module _ (n : ℕ) (choice : ℕ → ℕ) (m : Option ℕ) (p : Proxy) (h : Holds n p) where
  abbrev picked : Option ℕ × ℕ
  picked = select choice p.strategy p.prefill_servers p.prefill_index

  abbrev counted_in : Proxy
  counted_in = record p {
    prefill_index = picked.1;
    stats = record p.stats { requests_total = p.stats.requests_total + 1 };
  }

  pub arrive-Holds : Holds n (arrive choice m p)
  unfolding arrive
  arrive-Holds = go picked.0 (select-IsUp choice p.strategy p.prefill_servers p.prefill_index)
    where
      go :
          (o : Option ℕ)
          → ((i : ℕ) → o ≡ some i → IsUp p.prefill_servers i)
          → Holds n (start_prefill o (max_tokens_of m) counted_in)
      go none up =
          unfold start_prefill in
          record {
            consistent = record {
              prefill_open = h.consistent.prefill_open;
              decode_open = h.consistent.decode_open;
              counted = omega (arith, h.consistent.counted);
            };
            size = h.size;
            placed = h.placed;
          }
      go (some i) up =
          unfold start_prefill in
          let (s, there, _) = up i refl in
          append-Holds n p h (prefilling i (max_tokens_of m)) _ refl
            (λ j. connections-open p.prefill_servers i j s there) (λ j. omega arith) (omega arith)
            refl refl

  pub arrive_stream-Holds : Holds n (arrive_stream choice m p)
  unfolding arrive_stream
  arrive_stream-Holds =
      go picked.0 (select-IsUp choice p.strategy p.prefill_servers p.prefill_index)
    where
      go :
          (o : Option ℕ)
          → ((i : ℕ) → o ≡ some i → IsUp p.prefill_servers i)
          → Holds n (start_stream o (max_tokens_of m) counted_in)
      go none up =
          unfold start_stream in
          append-Holds n p h refused _ refl (λ i. omega arith) (λ j. omega arith) (omega arith) refl
            refl
      go (some i) up =
          unfold start_stream in
          let (s, there, _) = up i refl in
          append-Holds n p h (stream_prefilling i (max_tokens_of m)) _ refl
            (λ j. connections-open p.prefill_servers i j s there) (λ j. omega arith) (omega arith)
            refl refl

-- Request k goes on.
module _ (n k : ℕ) (p : Proxy) (h : Holds n p) where
  abbrev picked_next : (ℕ → ℕ) → Option ℕ × ℕ
  picked_next choice = select choice p.strategy p.decode_servers p.decode_index

  pub prefilled-Holds :
      (choice : ℕ → ℕ) (i m : ℕ)
      → get_elem? p.waiting k ≡ some (prefilling i m)
      → Holds n (prefilled choice k i m p)
  unfolding prefilled
  prefilled-Holds choice i m at =
      go (picked_next choice).0 (select-IsUp choice p.strategy p.decode_servers p.decode_index)
    where
      go :
          (o : Option ℕ)
          → ((j : ℕ) → o ≡ some j → IsUp p.decode_servers j)
          → Holds n (
              start_decode k o m (record p {
                prefill_servers = modify i complete p.prefill_servers;
                decode_index = (picked_next choice).1;
                stats = record p.stats { prefill_requests = p.stats.prefill_requests + 1 };
              }))
      go none up =
          unfold start_decode in
          remove-Holds n k p h (prefilling i m) at _ refl
            (λ j. connections-complete p.prefill_servers i j) (λ j. omega arith) (omega arith) refl
      go (some d) up =
          unfold start_decode in
          let (s, there, _) = up d refl in
          set-Holds n k p h (prefilling i m) at (decoding d m) _ refl
            (λ j. omega (arith, connections-complete p.prefill_servers i j))
            (λ j. omega (arith, connections-open p.decode_servers d j s there)) (omega arith)
            (length-modify d open_connection p.decode_servers) refl

  pub stream_prefilled-Holds :
      (choice : ℕ → ℕ) (i m : ℕ)
      → get_elem? p.waiting k ≡ some (stream_prefilling i m)
      → Holds n (stream_prefilled choice k i m p)
  unfolding stream_prefilled
  stream_prefilled-Holds choice i m at =
      go (picked_next choice).0 (select-IsUp choice p.strategy p.decode_servers p.decode_index)
    where
      go :
          (o : Option ℕ)
          → ((j : ℕ) → o ≡ some j → IsUp p.decode_servers j)
          → Holds n (record p {
            prefill_servers = modify i complete p.prefill_servers;
            decode_index = (picked_next choice).1;
            stats = record p.stats { prefill_requests = p.stats.prefill_requests + 1 };
            waiting = set p.waiting k (first_chunk m o);
          })
      go none up =
          unfold first_chunk in
          set-Holds n k p h (stream_prefilling i m) at refused _ refl
            (λ j. omega (arith, connections-complete p.prefill_servers i j)) (λ j. omega arith)
            (omega arith) refl refl
      go (some d) up =
          unfold first_chunk in
          set-Holds n k p h (stream_prefilling i m) at (stream_starting d m) _ refl
            (λ j. omega (arith, connections-complete p.prefill_servers i j)) (λ j. omega arith)
            (omega arith) refl
            (not_beyond n d m (omega (arith, h.size, up_lt p.decode_servers d (up d refl))))

  pub decoded-Holds :
      (elapsed d left : ℕ)
      → get_elem? p.waiting k ≡ some (decoding d left)
      → Holds n (decoded elapsed k d left p)
  unfolding decoded
  decoded-Holds elapsed d zero at = h
  decoded-Holds elapsed d (suc zero) at =
      remove-Holds n k p h (decoding d 1) at _ refl (λ i. omega arith)
        (λ j. connections-complete p.decode_servers d j) (omega arith)
        (length-modify d complete p.decode_servers)
  decoded-Holds elapsed d (suc (suc left)) at =
      set-Holds n k p h (decoding d (suc (suc left))) at (decoding d (suc left)) _ refl
        (λ i. omega arith) (λ j. omega (arith, there j)) (omega arith) refl refl
    where
      there : (j : ℕ) → at_decode j (decoding d 1) ≡ (if d == j then 1 else 0)
      there j = refl

  pub token-Holds :
      (a b : Phase)
      → get_elem? p.waiting k ≡ some a
      → ((i : ℕ) → at_prefill i a ≡ at_prefill i b)
      → ((j : ℕ) → at_decode j a ≡ at_decode j b)
      → under_way a ≡ under_way b
      → beyond n b ≡ 0
      → Holds n (record p { waiting = set p.waiting k b })
  token-Holds a b at pre dec same fits =
      set-Holds n k p h a at b _ refl (λ i. omega (arith, pre i)) (λ j. omega (arith, dec j))
        (omega (arith, same)) refl fits
