-- ===== src/CacheKey/Layers.antt =====
-- The keys of make_keys_for_layers cover every layer once, and those of
-- make_keys_for_all_workers name every worker once.
use llm_kv_passthrough.Prelude.{
  ℕ, ◌+◌, ◌-◌, ◌*◌, ◌/◌, ◌≤◌, ◌<◌, ◌≡◌, refl, sym, ap, subst, ◌∙◌, ◌↔◌, min, Option, none, some,
  List, get_elem?, get_elem?-map, get_elem?-range, range, ltb, lt→ltb, map, if◌then◌else◌, ◌==◌,
  Text, Bool-cases, if-eq-some, false, inl, inr, arith,
}
use llm_kv_passthrough.Prelude.Result.{ok, ok-injective}
use llm_kv_passthrough.Prelude.Int.{pos}
use llm_kv_passthrough.CacheKey.{
  CacheKeyConfig, make_key, make_keys_for_layers, make_keys_for_all_workers, ParsedKey, parse_key,
}
use llm_kv_passthrough.CacheKey.Split.{Lacks}
use llm_kv_passthrough.CacheKey.RoundTrip.{parsed, last_layer, parse_key-make_key}

-- The layer lies in the range that the key is parsed to.
pub record HoldsLayer (key : Text) (layer : ℕ) : Type 0 where
  pub first : ℕ
  pub last : ℕ
  pub result : ParsedKey
  pub reads : parse_key key ≡ ok result
  pub starts : result.layer_start ≡ pos first
  pub ends : result.layer_end ≡ pos last
  pub from_first : first ≤ layer
  pub to_last : layer ≤ last

abbrev shard_end : ℕ → ℕ → ℕ → ℕ
shard_end j k n = min (j * k + k - 1) (n - 1)

div_bounds : (l k : ℕ) → 0 < k → (l / k * k ≤ l) × (l < l / k * k + k)
div_bounds l k h = (omega arith, grind arith)

shard_unique : (l k j n : ℕ) → 0 < k → j * k ≤ l → l ≤ shard_end j k n → j ≡ l / k
shard_unique l k j n h lo hi =
    let (a, b) = div_bounds l k h in
    let up : j * k < (l / k + 1) * k = grind arith in
    let down : l / k * k < (j + 1) * k = grind arith in grind arith

module _ (config : CacheKeyConfig) (chunk_hash : Text) (n k worker_id : ℕ) (suffix : Text) where
  abbrev shard_key : ℕ → Text
  shard_key j = make_key config chunk_hash worker_id (j * k) (some (shard_end j k n)) suffix

  get_elem?-keys :
      (keys : List Text) (j : ℕ)
      → 0 < k
      → make_keys_for_layers config chunk_hash n k worker_id suffix ≡ ok keys
      → get_elem? keys j ≡ (if ltb (j * k) n then some (shard_key j) else none)
  unfolding make_keys_for_layers
  get_elem?-keys keys j h e =
      let nonzero : (k == 0) ≡ false = ground arith in
      let listed = ok-injective (rw nonzero at e) in
      rw (← listed) (
        rw
          (get_elem?-map
            (λ s. make_key config chunk_hash worker_id s (some (min (s + k - 1) (n - 1))) suffix)
            (range 0 n k) j)
          (rw (get_elem?-range n k j h)
            (elim (Bool-cases (ltb (j * k) n)) [ inl t ↦ rw t refl | inr t ↦ rw t refl ])))

module _ (config : CacheKeyConfig) (chunk_hash : Text) (n k worker_id : ℕ) (suffix : Text)
    (hm : Lacks b'@' config.model_name) (hh : Lacks b'@' chunk_hash) (hs : Lacks b'@' suffix)
    (h : 0 < k) where
  reads_shard :
      (j : ℕ)
      → parse_key (shard_key config chunk_hash n k worker_id suffix j)
        ≡ ok (
            parsed config.model_name config.world_size worker_id
              (j * k)
              (shard_end j k n)
              chunk_hash
              suffix)
  reads_shard j =
      parse_key-make_key config chunk_hash worker_id (j * k) (some (shard_end j k n)) suffix hm hh
        hs

  holds : (l : ℕ) → l < n → HoldsLayer (shard_key config chunk_hash n k worker_id suffix (l / k)) l
  holds l lt = record {
    first = l / k * k;
    last = shard_end (l / k) k n;
    result =
        parsed config.model_name config.world_size worker_id (l / k * k) (shard_end (l / k) k n)
          chunk_hash suffix;
    reads = reads_shard (l / k);
    starts = refl;
    ends = refl;
    from_first = (div_bounds l k h).0;
    to_last = let b = (div_bounds l k h).1 in omega arith;
  }

  only_shard :
      (j l : ℕ) → HoldsLayer (shard_key config chunk_hash n k worker_id suffix j) l → j ≡ l / k
  only_shard j l held =
      let same = ok-injective (sym (reads_shard j) ∙ held.reads) in
      let lo : j * k ≡ held.first = cc (same, held.starts) in
      let hi : shard_end j k n ≡ held.last = cc (same, held.ends) in
      shard_unique l k j n h (let a = held.from_first in omega arith)
        (let b = held.to_last in omega arith)

-- Every layer below num_layers lies in the range of key number layer / layers_per_shard.
make_keys_for_layers-covers :
    (config : CacheKeyConfig) (chunk_hash : Text) (n k worker_id : ℕ) (suffix : Text)
    (keys : List Text) (l : ℕ)
    → Lacks b'@' config.model_name
    → Lacks b'@' chunk_hash
    → Lacks b'@' suffix
    → 0 < k
    → make_keys_for_layers config chunk_hash n k worker_id suffix ≡ ok keys
    → l < n
    → (key : Text) × (get_elem? keys (l / k) ≡ some key) × HoldsLayer key l
make_keys_for_layers-covers config chunk_hash n k worker_id suffix keys l hm hh hs h e lt = (
  shard_key config chunk_hash n k worker_id suffix (l / k),
  get_elem?-keys config chunk_hash n k worker_id suffix keys (l / k) h e
      ∙ (rw (lt→ltb (l / k * k) n (let a = (div_bounds l k h).0 in omega arith)) refl),
  holds config chunk_hash n k worker_id suffix hm hh hs h l lt,
)

-- The ranges do not overlap.
make_keys_for_layers-disjoint :
    (config : CacheKeyConfig) (chunk_hash : Text) (n k worker_id : ℕ) (suffix : Text)
    (keys : List Text) (l j : ℕ) (key : Text)
    → Lacks b'@' config.model_name
    → Lacks b'@' chunk_hash
    → Lacks b'@' suffix
    → 0 < k
    → make_keys_for_layers config chunk_hash n k worker_id suffix ≡ ok keys
    → get_elem? keys j ≡ some key
    → HoldsLayer key l
    → j ≡ l / k
make_keys_for_layers-disjoint config chunk_hash n k worker_id suffix keys l j key hm hh hs h e f
      held =
    let (_, here) =
      if-eq-some (ltb (j * k) n) (shard_key config chunk_hash n k worker_id suffix j) key
        (sym (get_elem?-keys config chunk_hash n k worker_id suffix keys j h e) ∙ f) in
    only_shard config chunk_hash n k worker_id suffix hm hh hs h j l (rw (← here) at held)

-- For shards of at least one layer, a model name, hash and suffix without an at sign, and a layer
-- below num_layers: there is a key number layer / layers_per_shard, and the layer lies in the
-- parsed range of key number j of the list exactly when j is that number.
pub make_keys_for_layers-holds_iff :
    (config : CacheKeyConfig) (chunk_hash : Text) (n k worker_id : ℕ) (suffix : Text)
    (keys : List Text) (l j : ℕ) (key : Text)
    → Lacks b'@' config.model_name
    → Lacks b'@' chunk_hash
    → Lacks b'@' suffix
    → 0 < k
    → make_keys_for_layers config chunk_hash n k worker_id suffix ≡ ok keys
    → l < n
    → get_elem? keys j ≡ some key
    → ((holder : Text) × (get_elem? keys (l / k) ≡ some holder)) × (HoldsLayer key l ↔ (j ≡ l / k))
make_keys_for_layers-holds_iff config chunk_hash n k worker_id suffix keys l j key hm hh hs h e lt
      f =
    let (holder, at, held) =
      make_keys_for_layers-covers config chunk_hash n k worker_id suffix keys l hm hh hs h e lt in
    (
      (holder, at),
      (
        λ holds.
            make_keys_for_layers-disjoint config chunk_hash n k worker_id suffix keys l j key hm hh
              hs h e f holds,
        λ same.
            let there : some holder ≡ some key = sym at ∙ ap (get_elem? keys) (sym same) ∙ f in
            let e : holder ≡ key = cc in subst (λ x. HoldsLayer x l) e held,
      ),
    )

-- For a model name, hash and suffix without an at sign, every worker below world_size has a key
-- at its number, and that key is parsed to this worker of world_size workers.
pub make_keys_for_all_workers-each :
    (config : CacheKeyConfig) (chunk_hash : Text) (layer_start : ℕ) (layer_end : Option ℕ)
    (suffix : Text) (i : ℕ)
    → Lacks b'@' config.model_name
    → Lacks b'@' chunk_hash
    → Lacks b'@' suffix
    → i < config.world_size
    → (key : Text) × (r : ParsedKey) × (get_elem?
          (make_keys_for_all_workers config chunk_hash layer_start layer_end suffix)
          i
        ≡ some key)
      × (parse_key key ≡ ok r)
      × (r.worker_id ≡ pos i)
      × (r.world_size ≡ pos config.world_size)
unfolding make_keys_for_all_workers
make_keys_for_all_workers-each config chunk_hash layer_start layer_end suffix i hm hh hs lt = (
  make_key config chunk_hash i layer_start layer_end suffix,
  parsed config.model_name config.world_size i layer_start (last_layer layer_start layer_end)
      chunk_hash suffix,
  at_worker,
  parse_key-make_key config chunk_hash i layer_start layer_end suffix hm hh hs,
  refl,
  refl,
)
  where
    at_worker :
        get_elem?
          (map
            (λ w. make_key config chunk_hash w layer_start layer_end suffix)
            (range 0 config.world_size 1))
          i
        ≡ some (make_key config chunk_hash i layer_start layer_end suffix)
    at_worker =
        let same : i * 1 ≡ i = omega arith in
        rw
          (get_elem?-map (λ w. make_key config chunk_hash w layer_start layer_end suffix)
            (range 0 config.world_size 1) i)
          (rw (get_elem?-range config.world_size 1 i (omega arith))
            (rw same (rw (lt→ltb i config.world_size lt) refl)))
