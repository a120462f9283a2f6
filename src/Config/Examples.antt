-- ===== src/Config/Examples.antt =====
-- Two variables of one section and one beside them, and what runs into another.
use llm_kv_passthrough.Prelude.{◌≡◌, refl, some, List, [], ◌∷◌, All, Text, text_eq, codes}
use llm_kv_passthrough.Prelude.Result.{ok, err, type_error}
use llm_kv_passthrough.Config.{Table, starts_with, parts_of_key, get_nested_env}
use llm_kv_passthrough.Config.Paths.{get_path, apart}
use llm_kv_passthrough.Config.Nested.{variables, AreApart, get_nested_env-found}

abbrev environ : List (Text × Text)
environ =
    (codes "KVBENCH_SERVER__PORT", codes "80")
    ∷ (codes "HOME", codes "/root")
    ∷ (codes "KVBENCH_SERVER__HOST", codes "::")
    ∷ (codes "KVBENCH_INSTANCE_ID", codes "a")
    ∷ []

environ-AreApart : AreApart (variables environ)
unfolding variables starts_with parts_of_key apart text_eq
environ-AreApart = (((refl, refl), ((refl, refl), tt)), (((refl, refl), tt), (tt, tt)))

get_nested_env-found_example :
    (t : Table) × (get_nested_env environ ≡ ok t)
    × All (λ x. get_path x.0 t ≡ some x.1) (variables environ)
get_nested_env-found_example = get_nested_env-found environ environ-AreApart

-- A variable under the name of another one: the one order raises, the other loses the first.
string_first :
    get_nested_env ((codes "KVBENCH_A", codes "1") ∷ (codes "KVBENCH_A__B", codes "2") ∷ [])
    ≡ err type_error
unfolding get_nested_env text_eq
string_first = refl
