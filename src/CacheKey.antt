-- ===== src/CacheKey.antt =====
-- CacheKeyGenerator of src/kvbench/core/tokens.py: the keys format@model@world_size@worker_id@
-- layer_start-layer_end@hash@suffix, and their parser. Worker and layer numbers are naturals,
-- as every caller passes them; what the parser reads back are Python ints.
pub mod Split
pub mod RoundTrip
pub mod Layers
mod Examples
use llm_kv_passthrough.Prelude.{
  ℕ, ◌+◌, ◌-◌, min, Option, none, some, List, [], ◌∷◌, ◌++◌, map, Text, codes, range, ◌==◌,
  if◌then◌else◌, true, false,
}
use llm_kv_passthrough.Prelude.Result.{Result, ok, err, value_error, ◌>>=◌, ◌>>◌, guard}
use llm_kv_passthrough.Prelude.Int.{ℤ, str, int}

pub record CacheKeyConfig : Type 0 where
  pub format_version : Text
  pub model_name : Text
  pub world_size : ℕ
  pub layer_start : ℕ
  pub layer_end : ℕ

-- CacheKeyGenerator.__init__: the layers keep the defaults of CacheKeyConfig.
pub generator : Text → ℕ → Text → CacheKeyConfig
generator model_name world_size format_version = record {
  format_version = format_version;
  model_name = model_name;
  world_size = world_size;
  layer_start = 0;
  layer_end = 0;
}

abbrev pub default_format : Text
default_format = codes "lmcache"

-- sep.join(parts)
unfoldable pub join : ℕ → List Text → Text
join sep [] = []
join sep (p ∷ []) = p
join sep (p ∷ q ∷ ps) = p ++ sep ∷ join sep (q ∷ ps)

-- text.split(sep): the parts between the separators, at least one.
pub split : ℕ → Text → List Text
split sep [] = [] ∷ []
split sep (c ∷ cs) = elim (split sep cs) [
  | [] ↦ []
  | p ∷ ps ↦ if c == sep then [] ∷ p ∷ ps else (c ∷ p) ∷ ps
]

layer_range : ℕ → ℕ → Text
layer_range layer_start layer_end = str layer_start ++ b'-' ∷ str layer_end

-- make_key; without a layer_end it is the layer_start.
pub make_key : CacheKeyConfig → Text → ℕ → ℕ → Option ℕ → Text → Text
unfolding join layer_range
make_key config chunk_hash worker_id layer_start layer_end suffix =
    let last : ℕ = elim layer_end [ none ↦ layer_start | some l ↦ l ] in
    join b'@' (
      default_format
      ∷ config.model_name
      ∷ str config.world_size
      ∷ str worker_id
      ∷ layer_range layer_start last
      ∷ chunk_hash
      ∷ suffix
      ∷ [])

pub make_keys_for_all_workers : CacheKeyConfig → Text → ℕ → Option ℕ → Text → List Text
make_keys_for_all_workers config chunk_hash layer_start layer_end suffix =
    map (λ worker_id. make_key config chunk_hash worker_id layer_start layer_end suffix)
      (range 0 config.world_size 1)

-- range() refuses a step of 0.
pub make_keys_for_layers : CacheKeyConfig → Text → ℕ → ℕ → ℕ → Text → Result (List Text)
make_keys_for_layers config chunk_hash num_layers layers_per_shard worker_id suffix =
    if layers_per_shard == 0
    then err value_error
    else ok (
        map
          (λ layer_start.
            make_key config chunk_hash worker_id layer_start
              (some (min (layer_start + layers_per_shard - 1) (num_layers - 1))) suffix)
          (range 0 num_layers layers_per_shard))

pub make_metadata_key : CacheKeyConfig → Text → ℕ → Text
unfolding make_key
make_metadata_key config chunk_hash worker_id =
    make_key config chunk_hash worker_id 0 none (codes "meta")

pub record ParsedKey : Type 0 where
  pub format : Text
  pub model : Text
  pub world_size : ℤ
  pub worker_id : ℤ
  pub layer_start : ℤ
  pub layer_end : ℤ
  pub chunk_hash : Text
  pub suffix : Text

-- int(), which raises ValueError on other text
int_or_raise : Text → Result ℤ
int_or_raise t = elim (int t) [ none ↦ err value_error | some n ↦ ok n ]

-- The two halves of the layer range: ValueError unless there is one dash.
parse_layers : List Text → Result (Text × Text)
parse_layers (s ∷ e ∷ []) = ok (s, e)
parse_layers _ = err value_error

-- The seven parts of a key: ValueError for any other number.
parse_parts : List Text → Result ParsedKey
unfolding int_or_raise parse_layers split
parse_parts (format ∷ model ∷ world_size ∷ worker_id ∷ layers ∷ chunk_hash ∷ suffix ∷ []) = do
  (layer_start, layer_end) ← parse_layers (split b'-' layers)
  w ← int_or_raise world_size
  i ← int_or_raise worker_id
  s ← int_or_raise layer_start
  e ← int_or_raise layer_end
  ok (record {
    format = format;
    model = model;
    world_size = w;
    worker_id = i;
    layer_start = s;
    layer_end = e;
    chunk_hash = chunk_hash;
    suffix = suffix;
  })
parse_parts _ = err value_error

pub parse_key : Text → Result ParsedKey
unfolding parse_parts split
parse_key key = parse_parts (split b'@' key)
