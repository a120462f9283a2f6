-- ===== src/Combined/Repeat.antt =====
-- A prompt that was prefilled is found again: a stack that keeps what it stores.
use llm_kv_passthrough.Prelude.{
  ℕ, zero, suc, ◌+◌, ◌-◌, ◌*◌, ◌/◌, ◌≤◌, ◌<◌, ◌≡◌, refl, ap, ◌∙◌, List, length, take, ltb, ◌==◌,
  ==_iff, ltb→lt, ltb→le, Bool-cases, inl, inr, arith,
}
use llm_kv_passthrough.Prelude.Result.{Result, ok, err, ok-injective}
use llm_kv_passthrough.Combined.{
  KvStack, and_then, Prefilled, counts, store_end, read_hit, store_missed, process_tokens,
}
use llm_kv_passthrough.Combined.Prefill.{AnswersChunks}
use native.Mathlib.Nat.{div-mul-le_self, div-add-mod', mod-lt}

-- A stack that raises nothing and evicts nothing: its reads change no answer, and what was stored
-- after the tokens it skipped is found, if it is whole chunks.
pub record KeepsStored {S : Type 0} (kv : KvStack S) : Type 0 where
  pub looks_up :
      (tokens : List ℕ) (s : S)
      → (hit : ℕ) × ((kv.lookup tokens s).0 ≡ ok hit)
        × ((kv.lookup tokens (kv.lookup tokens s).1).0 ≡ ok hit)
  pub retrieves :
      (tokens : List ℕ) (s : S) (hit : ℕ)
      → (kv.lookup tokens s).0 ≡ ok hit
      → (n : ℕ) × ((kv.retrieve (take hit tokens) s).0 ≡ ok n)
        × ((kv.lookup tokens (kv.retrieve (take hit tokens) s).1).0 ≡ ok hit)
  pub stores :
      (tokens : List ℕ) (s : S) (hit q end : ℕ)
      → (kv.lookup tokens s).0 ≡ ok hit
      → end ≡ q * kv.chunk_size
      → hit ≤ end
      → end ≤ length tokens
      → (u : Unit {0}) × (h : ℕ) × ((kv.store (take end tokens) hit s).0 ≡ ok u)
        × ((kv.lookup tokens (kv.store (take end tokens) hit s).1).0 ≡ ok h)
        × (end ≤ h)

pub and_then-ok :
    {A B S : Type 0} (m : Result A × S) (next : A → S → Result B × S) (a : A)
    → m.0 ≡ ok a
    → and_then m next ≡ next a m.1
and_then-ok (ok b, s) next a e = ap (λ x. next x s) (ok-injective e)
and_then-ok (err raised, s) next a e = cc

-- A whole number of chunks inside the sequence ends at or before the last full chunk.
pub whole-le : (n q c : ℕ) → 0 < c → q * c ≤ n → q * c ≤ store_end c n
whole-le n q c h le =
    let d = div-add-mod' n c in
    let r = mod-lt n h in
    let k : q * c < (n / c + 1) * c = grind arith in let j : q ≤ n / c = grind arith in grind arith

module _ {S : Type 0} (kv : KvStack S) (law : AnswersChunks kv) (keeps : KeepsStored kv) where
  -- Any answer that covers the full chunks is exactly them.
  exact :
      (tokens : List ℕ) (s : S) (hit : ℕ)
      → (kv.lookup tokens s).0 ≡ ok hit
      → store_end kv.chunk_size (length tokens) ≤ hit
      → (kv.lookup tokens s).0 ≡ ok (store_end kv.chunk_size (length tokens))
  exact tokens s hit found covers =
      let (q, whole) = law.whole tokens s hit found in
      let fits = law.bounded tokens s hit found in
      let top = whole-le (length tokens) q kv.chunk_size law.positive (omega arith) in
      let same : hit ≡ store_end kv.chunk_size (length tokens) = omega arith in found ∙ ap ok same

  pub read_found :
      (tokens : List ℕ) (s : S) (hit : ℕ)
      → (kv.lookup tokens s).0 ≡ ok hit
      → (u : Unit {0}) × ((read_hit kv tokens hit s).0 ≡ ok u)
        × ((kv.lookup tokens (read_hit kv tokens hit s).1).0 ≡ ok hit)
  unfolding read_hit
  read_found tokens s zero found = (tt, refl, found)
  read_found tokens s (suc h) found =
      let (n, got, same) = keeps.retrieves tokens s (suc h) found in
      let e =
        and_then-ok {B = Unit {0}} (kv.retrieve (take (suc h) tokens) s) (λ retrieved s. (ok tt, s))
          n got in
      (tt, ap (λ r. r.0) e, ap (λ (r : Result (Unit {0}) × S). (kv.lookup tokens r.1).0) e ∙ same)

  store_found :
      (tokens : List ℕ) (s : S) (hit : ℕ)
      → (kv.lookup tokens s).0 ≡ ok hit
      → (u : Unit {0}) × ((store_missed kv tokens hit s).0 ≡ ok u)
        × ((kv.lookup tokens (store_missed kv tokens hit s).1).0
            ≡ ok (store_end kv.chunk_size (length tokens)))
  unfolding store_missed
  store_found tokens s hit found =
      let end = store_end kv.chunk_size (length tokens) in
      let le : end ≤ length tokens = div-mul-le_self (length tokens) kv.chunk_size in
      elim (Bool-cases (length tokens - hit == 0)) [
        | inl e ↦
            let z = (==_iff (length tokens - hit) 0).0 e in
            rw e (tt, refl, exact tokens s hit found (omega arith))
        | inr e ↦ rw e (elim (Bool-cases (ltb hit end)) [
          | inl lt ↦
              let below = ltb→lt hit end lt in
              let (u, h, stored, again, covers) =
                keeps.stores tokens s hit (length tokens / kv.chunk_size) end found refl
                  (omega arith) le in
              rw lt (u, stored, exact tokens _ h again covers)
          | inr ge ↦ rw ge (tt, refl, exact tokens s hit found (ltb→le hit end ge))
        ])
      ]

  process_found :
      (tokens : List ℕ) (s : S)
      → (p : Prefilled) × ((process_tokens kv tokens s).0 ≡ ok p)
        × ((kv.lookup tokens (process_tokens kv tokens s).1).0
            ≡ ok (store_end kv.chunk_size (length tokens)))
  unfolding process_tokens
  process_found tokens s =
      let (hit, found, found') = keeps.looks_up tokens s in
      let s1 = (kv.lookup tokens s).1 in
      let (u, read, again) = read_found tokens s1 hit found' in
      let s2 = (read_hit kv tokens hit s1).1 in
      let (v, stored, last) = store_found tokens s2 hit again in
      let p = counts kv (length tokens) hit in
      let e : process_tokens kv tokens s ≡ (ok p, (store_missed kv tokens hit s2).1) =
        and_then-ok (kv.lookup tokens s) _ hit found
        ∙ and_then-ok (read_hit kv tokens hit s1) _ u read
        ∙ and_then-ok (store_missed kv tokens hit s2) _ v stored in
      (p, ap (λ r. r.0) e, ap (λ (r : Result Prefilled × S). (kv.lookup tokens r.1).0) e ∙ last)

-- Over a stack that raises nothing and evicts nothing, the prefill of a prompt returns, and
-- afterwards a lookup of the same prompt answers all of its full chunks.
pub process_tokens-found :
    {S : Type 0} (kv : KvStack S) (tokens : List ℕ) (s : S)
    → AnswersChunks kv
    → KeepsStored kv
    → (p : Prefilled) × ((process_tokens kv tokens s).0 ≡ ok p)
      × ((kv.lookup tokens (process_tokens kv tokens s).1).0
          ≡ ok (length tokens / kv.chunk_size * kv.chunk_size))
process_tokens-found kv tokens s law keeps = process_found kv law keeps tokens s
