-- ===== src/Proxy/Requests.antt =====
-- Every event keeps what Consistent states, in every interleaving of requests.
use llm_kv_passthrough.Prelude.{
  ℕ, zero, suc, ◌+◌, ◌<◌, ◌≡◌, refl, ◌∙◌, Option, none, some, List, [], ◌∷◌, length, length-modify,
  get_elem?, get_elem?_total, ◌≤◌, sum_of, sum_of-remove_at, arith, Text,
}
use llm_kv_passthrough.Proxy.{
  Strategy, Phase, prefilling, stream_prefilling, stream_starting, decoding, stream_sleeping,
  stream_sent, orphaned, refused, ending, finishing, reporting, Proxy, complete, open_connection,
  mark, token_due, after_token, finish_stream, resume, resume_from, fail, cancel, init, Event,
  arriving, arriving_stream, resuming, failing, cancelling, marking_prefill, marking_decode, step,
  run,
}
use llm_kv_passthrough.Proxy.Connections.{
  connections-open, connections-complete, connections-mark, connections-init,
}
use llm_kv_passthrough.Proxy.Consistent.{beyond, IsConsistent, Holds, set-Holds, remove-Holds}
use llm_kv_passthrough.Proxy.Prefilled.{
  arrive-Holds, arrive_stream-Holds, prefilled-Holds, stream_prefilled-Holds, decoded-Holds,
  token-Holds,
}
use llm_kv_passthrough.Proxy.Ended.{leave-Holds, fail_from-Holds, cancel_from-Holds}

-- An element's part of a sum.
sum_of-elem :
    {A : Type 0} (f : A → ℕ) (k : ℕ) (xs : List A) (x : A)
    → get_elem? xs k ≡ some x
    → f x ≤ sum_of f xs
sum_of-elem f k xs x at = omega (arith, sum_of-remove_at f k xs x at)

in_range : (n j m : ℕ) → beyond n (stream_starting j m) ≡ 0 → j < n
in_range n j m h = ground arith

module _ (n k : ℕ) (p : Proxy) (h : Holds n p) where
  resume_from-Holds :
      (choice : ℕ → ℕ) (elapsed : ℕ) (o : Option Phase)
      → get_elem? p.waiting k ≡ o
      → Holds n (resume_from choice elapsed k o p)
  unfolding resume_from token_due after_token finish_stream
  resume_from-Holds choice elapsed none at = h
  resume_from-Holds choice elapsed (some (prefilling i m)) at =
      prefilled-Holds n k p h choice i m at
  resume_from-Holds choice elapsed (some (decoding d left)) at =
      decoded-Holds n k p h elapsed d left at
  resume_from-Holds choice elapsed (some (stream_prefilling i m)) at =
      stream_prefilled-Holds n k p h choice i m at
  resume_from-Holds choice elapsed (some (stream_starting d m)) at =
      let fits = sum_of-elem (beyond n) k p.waiting (stream_starting d m) at in
      let (s, there) =
        get_elem?_total p.decode_servers d
          (omega (arith, h.size, in_range n d m (omega (arith, fits, h.placed)))) in
      set-Holds n k p h (stream_starting d m) at (stream_sleeping d m) _ refl (λ i. omega arith)
        (λ j. omega (arith, connections-open p.decode_servers d j s there)) (omega arith)
        (length-modify d open_connection p.decode_servers) refl
  resume_from-Holds choice elapsed (some (stream_sleeping d zero)) at = h
  resume_from-Holds choice elapsed (some (stream_sleeping d (suc left))) at =
      token-Holds n k p h (stream_sleeping d (suc left)) (stream_sent d left) at (λ i. refl)
        (λ j. refl) refl refl
  resume_from-Holds choice elapsed (some (stream_sent d zero)) at =
      set-Holds n k p h (stream_sent d 0) at ending _ refl (λ i. omega arith)
        (λ j. omega (arith, connections-complete p.decode_servers d j)) (omega arith)
        (length-modify d complete p.decode_servers) refl
  resume_from-Holds choice elapsed (some (stream_sent d (suc left))) at =
      token-Holds n k p h (stream_sent d (suc left)) (stream_sleeping d (suc left)) at (λ i. refl)
        (λ j. refl) refl refl
  resume_from-Holds choice elapsed (some refused) at =
      leave-Holds n k p h refused p.cancelled (p.stats.requests_failed + 1) at (omega arith) refl
  resume_from-Holds choice elapsed (some ending) at =
      token-Holds n k p h ending finishing at (λ i. refl) (λ j. refl) refl refl
  resume_from-Holds choice elapsed (some finishing) at =
      remove-Holds n k p h finishing at _ refl (λ i. omega arith) (λ j. omega arith) (omega arith)
        refl
  resume_from-Holds choice elapsed (some reporting) at =
      leave-Holds n k p h reporting p.cancelled p.stats.requests_failed at (omega arith) refl
  resume_from-Holds choice elapsed (some (orphaned d)) at =
      leave-Holds n k p h (orphaned d) p.cancelled p.stats.requests_failed at (omega arith) refl

step-Holds : (n : ℕ) (e : Event) (p : Proxy) → Holds n p → Holds n (step e p)
unfolding step resume fail cancel
step-Holds n (arriving choice m) p h = arrive-Holds n choice m p h
step-Holds n (arriving_stream choice m) p h = arrive_stream-Holds n choice m p h
step-Holds n (resuming choice elapsed k) p h =
    resume_from-Holds n k p h choice elapsed (get_elem? p.waiting k) refl
step-Holds n (failing k) p h = fail_from-Holds n k p h (get_elem? p.waiting k) refl
step-Holds n (cancelling k) p h = cancel_from-Holds n k p h (get_elem? p.waiting k) refl
step-Holds n (marking_prefill i up) p h = record {
  consistent = record {
    prefill_open = λ j. connections-mark p.prefill_servers i j up ∙ h.consistent.prefill_open j;
    decode_open = h.consistent.decode_open;
    counted = h.consistent.counted;
  };
  size = h.size;
  placed = h.placed;
}
step-Holds n (marking_decode i up) p h = record {
  consistent = record {
    prefill_open = h.consistent.prefill_open;
    decode_open = λ j. connections-mark p.decode_servers i j up ∙ h.consistent.decode_open j;
    counted = h.consistent.counted;
  };
  size = length-modify i (mark up) p.decode_servers ∙ h.size;
  placed = h.placed;
}

run_keeps : (n : ℕ) (es : List Event) (p : Proxy) → Holds n p → Holds n (run es p)
unfolding run
run_keeps n [] p h = h
run_keeps n (e ∷ es) p h = run_keeps n es (step e p) (step-Holds n e p h)

-- From a new proxy, in every interleaving of requests of both handlers, with arrivals, resumptions,
-- exceptions, cancellations, clients that leave a stream, and changes of health: the active
-- connections of each server are the requests that hold one, a stream that was left at a token
-- until its generator is closed; and every request counted is a success, a failure, cancelled, or
-- still under way.
pub run-IsConsistent :
    (strategy : Strategy) (prefill_urls decode_urls : List Text) (es : List Event)
    → IsConsistent (run es (init strategy prefill_urls decode_urls))
run-IsConsistent strategy prefill_urls decode_urls es =
    let p = init strategy prefill_urls decode_urls in
    (run_keeps (length p.decode_servers) es p (
      unfold init in
      record {
        consistent = record {
          prefill_open = connections-init prefill_urls;
          decode_open = connections-init decode_urls;
          counted = omega arith;
        };
        size = refl;
        placed = refl;
      })).consistent
