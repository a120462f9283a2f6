-- ===== src/Config.antt =====
-- The readers of src/kvbench/core/config.py that take the configuration apart: the environment
-- variables, nested by a double underscore, and the lists of endpoints. The fields that pydantic
-- makes of them stand in Fields. A text is its code points, of which lower() changes the ASCII
-- letters.
pub mod Paths
pub mod Nested
pub mod Fields
mod Examples
use llm_kv_passthrough.Prelude.{
  ℕ, zero, suc, ◌+◌, Bool, true, false, ◌&&◌, Option, none, some, List, [], ◌∷◌, ◌++◌, map, drop,
  length, leb, ◌==◌, if◌then◌else◌, Text, text_eq, codes,
}
use llm_kv_passthrough.Prelude.Int.{strip_left, strip_right}
use llm_kv_passthrough.Prelude.Result.{Result, ok, err, type_error, ◌>>=◌}
use llm_kv_passthrough.CacheKey.{split}

-- A dict of the result: its entries, in the order of their first assignment.
mutual
  pub data Node : Type 0 where
    leaf : Text → Node
    dict : Table → Node

  pub data Table : Type 0 where
    empty : Table
    entry : Text → Node → Table → Table

-- current[name] = node
unfoldable pub assign : Text → Node → Table → Table
unfolding text_eq
assign name node empty = entry name node empty
assign name node (entry k v t) =
    let rest = assign name node t in if text_eq k name then entry k node t else entry k v rest

-- current[name], none when it is missing
unfoldable pub find : Text → Table → Option Node
unfolding text_eq
find name empty = none
find name (entry k v t) = let rest = find name t in if text_eq k name then some v else rest

-- The dict that the loop goes into: the one that is there, or a new one. On a string, the next
-- step raises: a string has no item assignment, and no item under a string.
abbrev pub inner : Option Node → Result Table
inner none = ok empty
inner (some (dict t)) = ok t
inner (some (leaf s)) = err type_error

-- The loop over the parts of one variable, from the dict `current`. There is always a part.
unfoldable pub set_path : List Text → Text → Table → Result Table
unfolding assign find
set_path [] value current = ok current
set_path (part ∷ []) value current = ok (assign part (leaf value) current)
set_path (part ∷ p ∷ parts) value current = inner (find part current) >>= λ below.
    set_path (p ∷ parts) value below >>= λ changed. ok (assign part (dict changed) current)

abbrev pub lower_code : ℕ → ℕ
lower_code c = if leb 65 c && leb c 90 then c + 32 else c

-- text.split("__"): the separators are found from the left.
unfoldable pub split_double : Text → List Text
split_double [] = [] ∷ []
split_double (c ∷ []) = (c ∷ []) ∷ []
split_double (c ∷ d ∷ cs) =
    let after = split_double cs in
    elim (split_double (d ∷ cs)) [
      | [] ↦ []
      | p ∷ ps ↦ if c == b'_' && d == b'_' then [] ∷ after else (c ∷ p) ∷ ps
    ]

unfoldable pub starts_with : Text → Text → Bool
starts_with [] t = true
starts_with (c ∷ cs) [] = false
starts_with (c ∷ cs) (d ∷ ds) = c == d && starts_with cs ds

abbrev pub prefix : Text
prefix = codes "KVBENCH_"

-- The parts of a variable's name after the prefix.
unfoldable pub parts_of_key : Text → List Text
unfolding split_double
parts_of_key key = split_double (map lower_code (drop (length prefix) key))

unfoldable pub get_nested_from : List (Text × Text) → Table → Result Table
unfolding set_path parts_of_key starts_with
get_nested_from [] result = ok result
get_nested_from ((key, value) ∷ environ) result = elim (starts_with prefix key) [
  | false ↦ get_nested_from environ result
  | true ↦ set_path (parts_of_key key) value result >>= get_nested_from environ
]

-- get_nested_env over os.environ.items()
unfoldable pub get_nested_env : List (Text × Text) → Result Table
unfolding get_nested_from
get_nested_env environ = get_nested_from environ empty

-- parse_endpoint_list of a string; json.loads is an argument.
pub keep_items : List Text → List Text
unfolding strip_left strip_right
keep_items [] = []
keep_items (item ∷ items) = elim (strip_left (strip_right item)) [
  | [] ↦ keep_items items
  | c ∷ cs ↦ (c ∷ cs) ∷ keep_items items
]

pub parse_stripped : (Text → Result (List Text)) → Text → Result (List Text)
unfolding keep_items starts_with
parse_stripped loads stripped =
    if starts_with (codes "[") stripped
    then loads stripped
    else ok (keep_items (split b',' stripped))

pub parse_endpoint_list : (Text → Result (List Text)) → Text → Result (List Text)
unfolding parse_stripped strip_left strip_right
parse_endpoint_list loads v = parse_stripped loads (strip_left (strip_right v))
