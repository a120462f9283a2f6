-- ===== src/Stack.antt =====
-- LMCacheStack of src/kvbench/kv/lmcache_stack.py with the statistics of src/kvbench/kv/base.py.
-- The LMCache engine is a parameter: its calls answer or raise, and change its state. The engines
-- of the tensor-parallel ranks run one call together; each runs to its end, also when another
-- one raises.
pub mod Counts
pub mod Contract
pub mod Agreement
pub mod Sizes
mod Examples
mod ServerExamples
use llm_kv_passthrough.Prelude.{
  ℕ, zero, suc, ◌+◌, ◌*◌, ◌/◌, max, Bool, true, false, Option, none, some, List, [], ◌∷◌, ◌++◌, map,
  length, range,
}
use llm_kv_passthrough.Prelude.Result.{Result, ok, err, runtime_error, ◌>>=◌, ◌>>◌}
use llm_kv_passthrough.Models.{
  ModelProfile, head_dim, effective_kv_layers, bytes_per_element, total_kv_cache_bytes_per_token,
}

-- What the stack calls of LMCache: the builder, and the calls of an engine.
pub record Engine (E : Type 0) : Type 0 where
  pub create : ℕ → E
  pub lookup : List ℕ → E → Result ℕ × E
  pub store : List ℕ → ℕ → E → Result (Unit {0}) × E
  pub retrieve : List ℕ → E → Result ℕ × E

-- stored_tokens of the source is submitted_tokens - skipped_tokens.
pub record KvStackStats : Type 0 where
  pub lookups : ℕ
  pub hit_tokens : ℕ
  pub lookup_tokens : ℕ
  pub stores : ℕ
  pub submitted_tokens : ℕ
  pub skipped_tokens : ℕ
  pub retrieves : ℕ
  pub retrieved_tokens : ℕ
  pub errors : ℕ

abbrev pub no_stats : KvStackStats
no_stats = record {
  lookups = 0;
  hit_tokens = 0;
  lookup_tokens = 0;
  stores = 0;
  submitted_tokens = 0;
  skipped_tokens = 0;
  retrieves = 0;
  retrieved_tokens = 0;
  errors = 0;
}

-- The stack: `active` tells whether _engine is set, and _engine is then the first of the engines.
pub record LmCacheStack (E : Type 0) : Type 0 where
  pub tp_size : ℕ
  pub stats : KvStackStats
  pub engines : List E
  pub active : Bool

pub stack : {E : Type 0} → ℕ → LmCacheStack E
stack tp_size = record { tp_size = max 1 tp_size; stats = no_stats; engines = []; active = false }

abbrev pub count_error : KvStackStats → KvStackStats
count_error s = record s { errors = s.errors + 1 }

module _ {E : Type 0} (engine : Engine E) where
  -- start: an active stack is left as it is; else one engine for each rank is appended.
  pub start_from : Bool → LmCacheStack E → LmCacheStack E
  start_from true s = s
  start_from false s = record s {
    engines = s.engines ++ map engine.create (range 0 s.tp_size 1);
    active = true;
  }

  pub start : LmCacheStack E → LmCacheStack E
  unfolding start_from
  start s = start_from s.active s

  -- close: the engine is forgotten, the list of engines is kept.
  pub close : LmCacheStack E → LmCacheStack E
  close s = record s { active = false }

  pub lookup_first : List ℕ → List E → Result ℕ × List E
  lookup_first tokens [] = (err runtime_error, [])
  lookup_first tokens (e ∷ es) = let r = engine.lookup tokens e in (r.0, r.1 ∷ es)

  pub both_done : Result (Unit {0}) → Result (Unit {0}) → Result (Unit {0})
  both_done (ok done) second = second
  both_done (err raised) second = err raised

  pub store_all : List ℕ → ℕ → List E → Result (Unit {0}) × List E
  unfolding both_done
  store_all tokens skip [] = (ok tt, [])
  store_all tokens skip (e ∷ es) =
      let r = engine.store tokens skip e in
      let rest = store_all tokens skip es in (both_done r.0 rest.0, r.1 ∷ rest.1)

  -- The answers of all ranks together, as asyncio.gather returns them.
  pub retrieve_all : List ℕ → List E → Result (List ℕ) × List E
  retrieve_all tokens [] = (ok [], [])
  retrieve_all tokens (e ∷ es) =
      let r = engine.retrieve tokens e in
      let rest = retrieve_all tokens es in (r.0 >>= λ n. rest.0 >>= λ ns. ok (n ∷ ns), r.1 ∷ rest.1)

  pub first_of : List ℕ → ℕ
  first_of [] = 0
  first_of (n ∷ ns) = n

  pub count_lookup : ℕ → Result ℕ → KvStackStats → KvStackStats
  count_lookup n (err raised) s = count_error s
  count_lookup n (ok hit) s = record s {
    lookups = s.lookups + 1;
    lookup_tokens = s.lookup_tokens + n;
    hit_tokens = s.hit_tokens + hit;
  }

  pub count_store : ℕ → ℕ → Result (Unit {0}) → KvStackStats → KvStackStats
  count_store n skip (err raised) s = count_error s
  count_store n skip (ok done) s = record s {
    stores = s.stores + 1;
    submitted_tokens = s.submitted_tokens + n;
    skipped_tokens = s.skipped_tokens + skip;
  }

  pub count_retrieve : Result ℕ → KvStackStats → KvStackStats
  count_retrieve (err raised) s = count_error s
  count_retrieve (ok n) s = record s {
    retrieves = s.retrieves + 1;
    retrieved_tokens = s.retrieved_tokens + n;
  }

  -- _require_engine, then the call: without an engine it raises, and nothing is counted.
  pub required :
      {A : Type 0}
      → Bool
      → (LmCacheStack E → Result A × LmCacheStack E)
      → LmCacheStack E
      → Result A × LmCacheStack E
  required false call s = (err runtime_error, s)
  required true call s = call s

  pub lookup : List ℕ → LmCacheStack E → Result ℕ × LmCacheStack E
  unfolding required count_lookup lookup_first
  lookup tokens s =
      required s.active
        (λ s.
          let r = lookup_first tokens s.engines in
          (r.0, record s { engines = r.1; stats = count_lookup (length tokens) r.0 s.stats }))
        s

  pub store : List ℕ → ℕ → LmCacheStack E → Result (Unit {0}) × LmCacheStack E
  unfolding required count_store store_all
  store tokens skip s =
      required s.active
        (λ s.
          let r = store_all tokens skip s.engines in
          (r.0, record s { engines = r.1; stats = count_store (length tokens) skip r.0 s.stats }))
        s

  pub retrieve : List ℕ → LmCacheStack E → Result ℕ × LmCacheStack E
  unfolding required count_retrieve retrieve_all first_of
  retrieve tokens s =
      required s.active
        (λ s.
          let r = retrieve_all tokens s.engines in
          let n = r.0 >>= λ ns. ok (first_of ns) in
          (n, record s { engines = r.1; stats = count_retrieve n s.stats }))
        s

-- What capacity_info reports: the capacity of the tiers in bytes is the configuration's.
pub record CapacityInfo : Type 0 where
  pub bytes_per_token : ℕ
  pub chunk_bytes : ℕ
  pub stored_bytes_per_token : ℕ
  pub files_per_chunk : ℕ

pub heads_per_rank : ℕ → ℕ → ℕ
heads_per_rank kv_heads zero = 1
heads_per_rank kv_heads (suc n) = max 1 (kv_heads / suc n)

pub capacity_info : ModelProfile → ℕ → ℕ → Result CapacityInfo
unfolding heads_per_rank
capacity_info profile chunk_size tp = do
  bytes ← total_kv_cache_bytes_per_token profile
  dim ← head_dim profile
  ok (record {
    bytes_per_token = bytes;
    chunk_bytes = bytes * chunk_size;
    stored_bytes_per_token =
        2
        * effective_kv_layers profile
        * heads_per_rank profile.kv_heads tp
        * dim
        * bytes_per_element profile
        * tp;
    files_per_chunk = tp;
  })
