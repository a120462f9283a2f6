-- ===== src/CacheKey/RoundTrip.antt =====
-- parse_key reads back what make_key wrote.
use llm_kv_passthrough.Prelude.{
  ℕ, ◌≡◌, ◌≢◌, refl, Option, none, some, List, [], ◌∷◌, Text, All, All-append, arith,
}
use llm_kv_passthrough.Prelude.Result.{ok}
use llm_kv_passthrough.Prelude.Int.{pos, str, int-str, str-AreDigits}
use llm_kv_passthrough.CacheKey.{
  CacheKeyConfig, default_format, join, split, layer_range, make_key, ParsedKey, int_or_raise,
  parse_parts, parse_key,
}
use llm_kv_passthrough.CacheKey.Split.{Lacks, split-join, digits-Lacks, digits-Lacks_at}

int_or_raise-str : (n : ℕ) → int_or_raise (str n) ≡ ok (pos n)
unfolding int_or_raise
int_or_raise-str n = rw (int-str n, int_or_raise) refl

layer_range-Lacks_at : (s e : ℕ) → Lacks b'@' (layer_range s e)
unfolding layer_range
layer_range-Lacks_at s e =
    All-append (λ c. c ≢ b'@') (str s) (b'-' ∷ str e) (digits-Lacks_at (str s) (str-AreDigits s))
      (omega arith, digits-Lacks_at (str e) (str-AreDigits e))

split-layer_range : (s e : ℕ) → split b'-' (layer_range s e) ≡ str s ∷ str e ∷ []
unfolding layer_range join
split-layer_range s e = split-join b'-' (str s) (str e ∷ []) (
  digits-Lacks b'-' (str s) (omega arith) (str-AreDigits s),
  (digits-Lacks b'-' (str e) (omega arith) (str-AreDigits e), tt),
)

-- The last layer that make_key writes.
abbrev pub last_layer : ℕ → Option ℕ → ℕ
last_layer layer_start none = layer_start
last_layer layer_start (some l) = l

-- The parts of a key and what the parser makes of them.
abbrev parts : Text → ℕ → ℕ → ℕ → ℕ → Text → Text → List Text
parts model w i s e h suffix =
    default_format ∷ model ∷ str w ∷ str i ∷ layer_range s e ∷ h ∷ suffix ∷ []

abbrev pub parsed : Text → ℕ → ℕ → ℕ → ℕ → Text → Text → ParsedKey
parsed model w i s e h suffix = record {
  format = default_format;
  model = model;
  world_size = pos w;
  worker_id = pos i;
  layer_start = pos s;
  layer_end = pos e;
  chunk_hash = h;
  suffix = suffix;
}

parse_parts-parts :
    (model : Text) (w i s e : ℕ) (h suffix : Text)
    → parse_parts (parts model w i s e h suffix) ≡ ok (parsed model w i s e h suffix)
unfolding parse_parts
parse_parts-parts model w i s e h suffix = rw (split-layer_range s e) (
    rw (int_or_raise-str w)
      (rw (int_or_raise-str i) (rw (int_or_raise-str s) (rw (int_or_raise-str e) refl))))

parts-Lacks :
    (model : Text) (w i s e : ℕ) (h suffix : Text)
    → Lacks b'@' model
    → Lacks b'@' h
    → Lacks b'@' suffix
    → All (Lacks b'@') (parts model w i s e h suffix)
parts-Lacks model w i s e h suffix hm hh hs = (
  omega arith,
  (
    hm,
    (
      digits-Lacks_at (str w) (str-AreDigits w),
      (digits-Lacks_at (str i) (str-AreDigits i), (layer_range-Lacks_at s e, (hh, (hs, tt)))),
    ),
  ),
)

parse_key-join :
    (model : Text) (w i s e : ℕ) (h suffix : Text)
    → All (Lacks b'@') (parts model w i s e h suffix)
    → parse_key (join b'@' (parts model w i s e h suffix)) ≡ ok (parsed model w i s e h suffix)
parse_key-join model w i s e h suffix lacks =
    unfold parse_key in
    rw
      (split-join b'@' default_format (model ∷ str w ∷ str i ∷ layer_range s e ∷ h ∷ suffix ∷ [])
        lacks)
      (parse_parts-parts model w i s e h suffix)

-- A key whose model name, hash and suffix hold no at sign is parsed into the parts that it was
-- made of, the numbers as ints; without a layer_end the range is the one layer layer_start.
pub parse_key-make_key :
    (config : CacheKeyConfig) (chunk_hash : Text) (worker_id layer_start : ℕ) (layer_end : Option ℕ)
    (suffix : Text)
    → Lacks b'@' config.model_name
    → Lacks b'@' chunk_hash
    → Lacks b'@' suffix
    → parse_key (make_key config chunk_hash worker_id layer_start layer_end suffix)
      ≡ ok (
          parsed config.model_name config.world_size worker_id layer_start
            (last_layer layer_start layer_end)
            chunk_hash
            suffix)
parse_key-make_key config chunk_hash worker_id layer_start none suffix hm hh hs =
    unfold make_key in
    parse_key-join config.model_name config.world_size worker_id layer_start layer_start chunk_hash
      suffix
      (parts-Lacks config.model_name config.world_size worker_id layer_start layer_start chunk_hash
        suffix hm hh hs)
parse_key-make_key config chunk_hash worker_id layer_start (some l) suffix hm hh hs =
    unfold make_key in
    parse_key-join config.model_name config.world_size worker_id layer_start l chunk_hash suffix (
      parts-Lacks config.model_name config.world_size worker_id layer_start l chunk_hash suffix hm
        hh hs)
