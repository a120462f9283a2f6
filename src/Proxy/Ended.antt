-- ===== src/Proxy/Ended.antt =====
-- A request that fails, or is cancelled or left, keeps what Consistent states.
use llm_kv_passthrough.Prelude.{
  ℕ, ◌+◌, ◌≡◌, refl, ap, ◌-◌, Bool, true, false, Option, none, some, length, length-modify, set,
  get_elem?, arith,
}
use llm_kv_passthrough.Proxy.{
  Phase, prefilling, stream_prefilling, stream_starting, decoding, stream_sleeping, stream_sent,
  orphaned, refused, ending, finishing, reporting, Proxy, connections, close_connection, release,
  leave, report, fail_from, cancel_from, count_failed,
}
use llm_kv_passthrough.Proxy.Connections.{connections-close}
use llm_kv_passthrough.Proxy.Consistent.{
  at_prefill, at_decode, under_way, Holds, set-Holds, remove-Holds, append-Holds,
}

-- A stream that is suspended at a token leaves its connection behind.
abbrev is_sent : Phase → Bool
is_sent (stream_sent server left) = true
is_sent phase = false

module _ (n k : ℕ) (p : Proxy) (h : Holds n p) where
  pub leave-Holds :
      (a : Phase) (cancels fails : ℕ)
      → get_elem? p.waiting k ≡ some a
      → cancels + fails ≡ p.cancelled + p.stats.requests_failed + under_way a
      → is_sent a ≡ false
      → Holds n (record (leave k a p) {
        cancelled = cancels;
        stats = record p.stats { requests_failed = fails };
      })
  unfolding leave release
  leave-Holds (prefilling i m) c f at e s =
      remove-Holds n k p h (prefilling i m) at _ refl (λ j. connections-close p.prefill_servers i j)
        (λ j. omega arith) (omega arith) refl
  leave-Holds (stream_prefilling i m) c f at e s =
      remove-Holds n k p h (stream_prefilling i m) at _ refl
        (λ j. connections-close p.prefill_servers i j) (λ j. omega arith) (omega arith) refl
  leave-Holds (decoding d left) c f at e s =
      remove-Holds n k p h (decoding d left) at _ refl (λ i. omega arith)
        (λ j. connections-close p.decode_servers d j) (omega arith)
        (length-modify d close_connection p.decode_servers)
  leave-Holds (stream_sleeping d left) c f at e s =
      remove-Holds n k p h (stream_sleeping d left) at _ refl (λ i. omega arith)
        (λ j. connections-close p.decode_servers d j) (omega arith)
        (length-modify d close_connection p.decode_servers)
  leave-Holds (orphaned d) c f at e s =
      remove-Holds n k p h (orphaned d) at _ refl (λ i. omega arith)
        (λ j. connections-close p.decode_servers d j) (omega arith)
        (length-modify d close_connection p.decode_servers)
  leave-Holds (stream_sent d left) c f at e s = cc
  leave-Holds (stream_starting d m) c f at e s =
      remove-Holds n k p h (stream_starting d m) at _ refl (λ i. omega arith) (λ j. omega arith)
        (omega arith) refl
  leave-Holds refused c f at e s =
      remove-Holds n k p h refused at _ refl (λ i. omega arith) (λ j. omega arith) (omega arith)
        refl
  leave-Holds ending c f at e s =
      remove-Holds n k p h ending at _ refl (λ i. omega arith) (λ j. omega arith) (omega arith) refl
  leave-Holds finishing c f at e s =
      remove-Holds n k p h finishing at _ refl (λ i. omega arith) (λ j. omega arith) (omega arith)
        refl
  leave-Holds reporting c f at e s =
      remove-Holds n k p h reporting at _ refl (λ i. omega arith) (λ j. omega arith) (omega arith)
        refl

  -- An exception in a stream that is not at a token.
  reported :
      (a : Phase)
      → get_elem? p.waiting k ≡ some a
      → under_way a ≡ 1
      → ((i : ℕ)
          → connections (release a p).prefill_servers i
            ≡ connections p.prefill_servers i - at_prefill i a)
      → ((j : ℕ)
          → connections (release a p).decode_servers j
            ≡ connections p.decode_servers j - at_decode j a)
      → length (release a p).decode_servers ≡ length p.decode_servers
      → (release a p).stats ≡ p.stats
      → (release a p).cancelled ≡ p.cancelled
      → Holds n (report k a p)
  unfolding report
  reported a at live pre dec same stats cancels =
      set-Holds n k p h a at reporting _ refl (λ i. omega (arith, pre i))
        (λ j. omega (arith, dec j))
        (omega (
          arith,
          live,
          cancels,
          ap (λ s. s.requests_total) stats,
          ap (λ s. s.requests_success) stats,
          ap (λ s. s.requests_failed) stats,
        ))
        same refl

  pub fail_from-Holds : (o : Option Phase) → get_elem? p.waiting k ≡ o → Holds n (fail_from k o p)
  unfolding fail_from release
  fail_from-Holds none at = h
  fail_from-Holds (some (prefilling i m)) at =
      leave-Holds (prefilling i m) p.cancelled (p.stats.requests_failed + 1) at (omega arith) refl
  fail_from-Holds (some (decoding d left)) at =
      leave-Holds (decoding d left) p.cancelled (p.stats.requests_failed + 1) at (omega arith) refl
  fail_from-Holds (some reporting) at =
      leave-Holds reporting p.cancelled p.stats.requests_failed at (omega arith) refl
  fail_from-Holds (some (orphaned d)) at =
      leave-Holds (orphaned d) p.cancelled p.stats.requests_failed at (omega arith) refl
  fail_from-Holds (some (stream_sent d left)) at =
      append-Holds n (count_failed (record p { waiting = set p.waiting k (orphaned d) }))
        (set-Holds n k p h (stream_sent d left) at (orphaned d) _ refl (λ i. omega arith)
          (λ j. omega (arith, held j)) (omega arith) refl refl)
        reporting _ refl (λ i. omega arith) (λ j. omega arith) (omega arith) refl refl
    where
      held : (j : ℕ) → at_decode j (orphaned d) ≡ at_decode j (stream_sent d left)
      held j = refl
  fail_from-Holds (some (stream_prefilling i m)) at =
      reported (stream_prefilling i m) at refl (λ j. connections-close p.prefill_servers i j)
        (λ j. omega arith) refl refl refl
  fail_from-Holds (some (stream_sleeping d left)) at =
      reported (stream_sleeping d left) at refl (λ i. omega arith)
        (λ j. connections-close p.decode_servers d j)
        (length-modify d close_connection p.decode_servers) refl refl
  fail_from-Holds (some (stream_starting d m)) at =
      reported (stream_starting d m) at refl (λ i. omega arith) (λ j. omega arith) refl refl refl
  fail_from-Holds (some refused) at =
      reported refused at refl (λ i. omega arith) (λ j. omega arith) refl refl refl
  fail_from-Holds (some ending) at =
      reported ending at refl (λ i. omega arith) (λ j. omega arith) refl refl refl
  fail_from-Holds (some finishing) at =
      reported finishing at refl (λ i. omega arith) (λ j. omega arith) refl refl refl

  pub cancel_from-Holds :
      (o : Option Phase) → get_elem? p.waiting k ≡ o → Holds n (cancel_from k o p)
  unfolding cancel_from leave release
  cancel_from-Holds none at = h
  cancel_from-Holds (some reporting) at =
      leave-Holds reporting p.cancelled p.stats.requests_failed at (omega arith) refl
  cancel_from-Holds (some (orphaned d)) at =
      leave-Holds (orphaned d) p.cancelled p.stats.requests_failed at (omega arith) refl
  cancel_from-Holds (some (stream_sent d left)) at =
      set-Holds n k p h (stream_sent d left) at (orphaned d) _ refl (λ i. omega arith)
        (λ j. omega (arith, held j)) (omega arith) refl refl
    where
      held : (j : ℕ) → at_decode j (orphaned d) ≡ at_decode j (stream_sent d left)
      held j = refl
  cancel_from-Holds (some (prefilling i m)) at =
      leave-Holds (prefilling i m) (p.cancelled + 1) p.stats.requests_failed at (omega arith) refl
  cancel_from-Holds (some (decoding d left)) at =
      leave-Holds (decoding d left) (p.cancelled + 1) p.stats.requests_failed at (omega arith) refl
  cancel_from-Holds (some (stream_prefilling i m)) at =
      leave-Holds (stream_prefilling i m) (p.cancelled + 1) p.stats.requests_failed at (omega arith)
        refl
  cancel_from-Holds (some (stream_sleeping d left)) at =
      leave-Holds (stream_sleeping d left) (p.cancelled + 1) p.stats.requests_failed at
        (omega arith) refl
  cancel_from-Holds (some (stream_starting d m)) at =
      leave-Holds (stream_starting d m) (p.cancelled + 1) p.stats.requests_failed at (omega arith)
        refl
  cancel_from-Holds (some refused) at =
      leave-Holds refused (p.cancelled + 1) p.stats.requests_failed at (omega arith) refl
  cancel_from-Holds (some ending) at =
      leave-Holds ending (p.cancelled + 1) p.stats.requests_failed at (omega arith) refl
  cancel_from-Holds (some finishing) at =
      leave-Holds finishing (p.cancelled + 1) p.stats.requests_failed at (omega arith) refl
