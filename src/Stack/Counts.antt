-- ===== src/Stack/Counts.antt =====
-- Every call of the stack is counted once, and no call counts while there is no engine.
use llm_kv_passthrough.Prelude.{
  ℕ, ◌+◌, ◌≡◌, Bool, true, false, List, [], ◌∷◌, length, Bool-cases, inl, inr, arith,
}
use llm_kv_passthrough.Prelude.Result.{Result, ok, err, ◌>>=◌}
use llm_kv_passthrough.Stack.{
  Engine, KvStackStats, LmCacheStack, start, start_from, close, lookup, store, retrieve,
  lookup_first, store_all, retrieve_all, count_lookup, count_store, count_retrieve, first_of,
  required,
}

-- The methods of the stack that change its state.
pub data Call : Type 0 where
  starts closes : Call
  looks_up : (tokens : List ℕ) → Call
  stores : (tokens : List ℕ) (skip : ℕ) → Call
  retrieves : (tokens : List ℕ) → Call

-- The lookups, stores and retrieves that an engine was asked for, and their errors.
abbrev pub total : KvStackStats → ℕ
total s = s.lookups + s.stores + s.retrieves + s.errors

abbrev as_one : Bool → ℕ
as_one true = 1
as_one false = 0

-- How many tries a call adds: one on an active stack, unless it starts or closes the stack.
abbrev tries : Bool → Call → ℕ
tries active starts = 0
tries active closes = 0
tries active (looks_up tokens) = as_one active
tries active (stores tokens skip) = as_one active
tries active (retrieves tokens) = as_one active

module _ {E : Type 0} (engine : Engine E) where
  pub perform : Call → LmCacheStack E → LmCacheStack E
  unfolding start close lookup store retrieve
  perform starts s = start engine s
  perform closes s = close engine s
  perform (looks_up tokens) s = (lookup engine tokens s).1
  perform (stores tokens skip) s = (store engine tokens skip s).1
  perform (retrieves tokens) s = (retrieve engine tokens s).1

  unfoldable pub perform_all : List Call → LmCacheStack E → LmCacheStack E
  unfolding perform
  perform_all [] s = s
  perform_all (c ∷ cs) s = perform_all cs (perform c s)

  -- How many calls were made while the stack had an engine.
  abbrev pub tried : List Call → LmCacheStack E → ℕ
  tried [] s = 0
  tried (c ∷ cs) s = tries s.active c + tried cs (perform c s)

  count_lookup-total :
      (n : ℕ) (r : Result ℕ) (s : KvStackStats) → total (count_lookup engine n r s) ≡ total s + 1
  unfolding count_lookup
  count_lookup-total n (ok hit) s = omega arith
  count_lookup-total n (err raised) s = omega arith

  count_store-total :
      (n skip : ℕ) (r : Result (Unit {0})) (s : KvStackStats)
      → total (count_store engine n skip r s) ≡ total s + 1
  unfolding count_store
  count_store-total n skip (ok done) s = omega arith
  count_store-total n skip (err raised) s = omega arith

  count_retrieve-total :
      (r : Result ℕ) (s : KvStackStats) → total (count_retrieve engine r s) ≡ total s + 1
  unfolding count_retrieve
  count_retrieve-total (ok n) s = omega arith
  count_retrieve-total (err raised) s = omega arith

  perform-total :
      (c : Call) (s : LmCacheStack E) → total (perform c s).stats ≡ total s.stats + tries s.active c
  unfolding perform start close lookup store retrieve required start_from
  perform-total starts s = go s.active
    where
      go : (b : Bool) → total (start_from engine b s).stats ≡ total s.stats + 0
      go true = omega arith
      go false = omega arith
  perform-total closes s = omega arith
  perform-total (looks_up tokens) s = elim (Bool-cases s.active) [
    | inl e ↦
        rw e (count_lookup-total (length tokens) (lookup_first engine tokens s.engines).0 s.stats)
    | inr e ↦ rw e (omega arith)
  ]
  perform-total (stores tokens skip) s = elim (Bool-cases s.active) [
    | inl e ↦
        rw e (
          count_store-total (length tokens) skip (store_all engine tokens skip s.engines).0 s.stats)
    | inr e ↦ rw e (omega arith)
  ]
  perform-total (retrieves tokens) s = elim (Bool-cases s.active) [
    | inl e ↦ rw e (
        count_retrieve-total
          ((retrieve_all engine tokens s.engines).0 >>= λ ns. ok (first_of engine ns)) s.stats)
    | inr e ↦ rw e (omega arith)
  ]

-- Over any sequence of calls, starts and closes, the lookups, stores, retrieves and errors grow
-- together by the number of calls that were made while the stack had an engine.
pub perform_all-total :
    {E : Type 0} (engine : Engine E) (cs : List Call) (s : LmCacheStack E)
    → total (perform_all engine cs s).stats ≡ total s.stats + tried engine cs s
unfolding perform_all
perform_all-total engine [] s = omega arith
perform_all-total engine (c ∷ cs) s =
    omega (arith, perform-total engine c s, perform_all-total engine cs (perform engine c s))
