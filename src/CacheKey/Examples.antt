-- ===== src/CacheKey/Examples.antt =====
-- The theorems about cache keys at concrete keys, and runs of the parser.
use llm_kv_passthrough.Prelude.{
  ℕ, ◌+◌, ◌*◌, ◌/◌, ◌≡◌, ◌≤◌, ◌<◌, refl, none, some, List, [], ◌∷◌, ◌++◌, arith, get_elem?, codes,
  Text, All, ◌≢◌, ◌↔◌, range,
}
use llm_kv_passthrough.Prelude.Result.{ok, err, value_error}
use llm_kv_passthrough.Prelude.Int.{ℤ, pos, str}
use llm_kv_passthrough.CacheKey.{CacheKeyConfig, make_key, make_keys_for_layers, parse_key}
use llm_kv_passthrough.CacheKey.RoundTrip.{parsed, parse_key-make_key}
use llm_kv_passthrough.CacheKey.Layers.{HoldsLayer, make_keys_for_layers-holds_iff}

abbrev llama : CacheKeyConfig
llama = record {
  format_version = codes "v1";
  model_name = codes "llama";
  world_size = 2;
  layer_start = 0;
  layer_end = 0;
}

made : make_key llama (codes "abc") 1 0 (some 3) (codes "kv") ≡ codes "lmcache@llama@2@1@0-3@abc@kv"
unfolding make_key str
made = refl

bad_parts : parse_key (codes "lmcache@llama@2") ≡ err value_error
unfolding parse_key
bad_parts = refl

bad_range : parse_key (codes "lmcache@llama@2@1@3@abc@kv") ≡ err value_error
unfolding parse_key
bad_range = refl

bad_number : parse_key (codes "lmcache@llama@2x@1@0-3@abc@kv") ≡ err value_error
unfolding parse_key llm_kv_passthrough.Prelude.Int.int
bad_number = refl

parse_key-make_key_example :
    parse_key (make_key llama (codes "abc") 1 0 (some 3) (codes "kv"))
    ≡ ok (parsed (codes "llama") 2 1 0 3 (codes "abc") (codes "kv"))
parse_key-make_key_example =
    parse_key-make_key llama (codes "abc") 1 0 (some 3) (codes "kv") (omega arith) (omega arith)
      (omega arith)

abbrev shards : List Text
shards =
    make_key llama (codes "abc") 0 0 (some 3) (codes "kv")
    ∷ make_key llama (codes "abc") 0 4 (some 7) (codes "kv")
    ∷ make_key llama (codes "abc") 0 8 (some 9) (codes "kv")
    ∷ []

make_shards : make_keys_for_layers llama (codes "abc") 10 4 0 (codes "kv") ≡ ok shards
unfolding make_keys_for_layers range
make_shards = refl

no_shards : make_keys_for_layers llama (codes "abc") 10 0 0 (codes "kv") ≡ err value_error
unfolding make_keys_for_layers
no_shards = refl

abbrev nine : Text
nine = make_key llama (codes "abc") 0 8 (some 9) (codes "kv")

make_keys_for_layers-holds_iff_example :
    ((holder : Text) × (get_elem? shards (9 / 4) ≡ some holder)) × (HoldsLayer nine 9 ↔ (2 ≡ 9 / 4))
make_keys_for_layers-holds_iff_example =
    make_keys_for_layers-holds_iff llama (codes "abc") 10 4 0 (codes "kv") shards 9 2 nine
      (omega arith) (omega arith) (omega arith) (omega arith) make_shards (omega arith) refl
