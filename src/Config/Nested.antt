-- ===== src/Config/Nested.antt =====
-- Environment variables whose paths do not run into each other are all found in the result.
use llm_kv_passthrough.Prelude.{
  ◌≡◌, inl, inr, refl, sym, ap, subst, ◌∙◌, true, ◌&&◌, some, List, [], ◌∷◌, All, map, drop, length,
  ◌==◌, if◌then◌else◌, Bool-cases, Text,
}
use llm_kv_passthrough.Prelude.Result.{Result, ok, ◌>>=◌}
use llm_kv_passthrough.Config.{
  Table, empty, find, set_path, split_double, starts_with, prefix, lower_code, parts_of_key,
  get_nested_from, get_nested_env,
}
use mathlib.Core.Path.{fun_ext}
use llm_kv_passthrough.Config.Paths.{
  get_path, apart, is_free, put_path, Untouched, set_path-put_path, get_path-put_path,
  put_path-Untouched,
}

-- The paths and values of the variables with the prefix.
unfoldable pub variables : List (Text × Text) → List (List Text × Text)
unfolding starts_with parts_of_key
variables [] = []
variables ((key, value) ∷ environ) =
    let rest = variables environ in
    if starts_with prefix key then (parts_of_key key, value) ∷ rest else rest

abbrev pub AreApart : List (List Text × Text) → Type 0
AreApart [] = Unit
AreApart (x ∷ xs) = All (λ y. (apart x.0 y.0 ≡ true) × (apart y.0 x.0 ≡ true)) xs × AreApart xs

set_all : List (List Text × Text) → Table → Result Table
set_all [] t = ok t
set_all (x ∷ xs) t = set_path x.0 x.1 t >>= set_all xs

get_nested_from-set_all :
    (environ : List (Text × Text)) (t : Table)
    → get_nested_from environ t ≡ set_all (variables environ) t
unfolding get_nested_from variables set_all
get_nested_from-set_all [] t = refl
get_nested_from-set_all ((key, value) ∷ environ) t = elim (Bool-cases (starts_with prefix key)) [
  | inl e ↦ rw e (
      ap (λ (f : Table → Result Table). set_path (parts_of_key key) value t >>= f)
        (fun_ext (get_nested_from-set_all environ)))
  | inr e ↦ rw e (get_nested_from-set_all environ t)
]

put_all : List (List Text × Text) → Table → Table
put_all [] t = t
put_all (x ∷ xs) t = put_all xs (put_path x.0 x.1 t)

still_free :
    (x : List Text × Text) (t : Table) (ys : List (List Text × Text))
    → All (λ y. is_free y.0 t ≡ true) ys
    → All (λ y. (apart x.0 y.0 ≡ true) × (apart y.0 x.0 ≡ true)) ys
    → All (λ y. is_free y.0 (put_path x.0 x.1 t) ≡ true) ys
unfolding Untouched
still_free x t [] f k = tt
still_free x t (y ∷ ys) f k =
    ((put_path-Untouched x.0 y.0 x.1 t k.0.0).1 f.0, still_free x t ys f.1 k.1)

set_all-put_all :
    (xs : List (List Text × Text)) (t : Table)
    → All (λ x. is_free x.0 t ≡ true) xs
    → AreApart xs
    → set_all xs t ≡ ok (put_all xs t)
unfolding set_all put_all
set_all-put_all [] t free h = refl
set_all-put_all (x ∷ xs) t free h =
    ap (λ (r : Result Table). r >>= set_all xs) (set_path-put_path x.0 x.1 t free.0)
    ∙ set_all-put_all xs (put_path x.0 x.1 t) (still_free x t xs free.1 h.0) h.1

get_path-put_all :
    (q : List Text) (xs : List (List Text × Text)) (t : Table)
    → All (λ y. (apart q y.0 ≡ true) × (apart y.0 q ≡ true)) xs
    → get_path q (put_all xs t) ≡ get_path q t
unfolding put_all Untouched
get_path-put_all q [] t h = refl
get_path-put_all q (x ∷ xs) t h =
    get_path-put_all q xs (put_path x.0 x.1 t) h.1 ∙ (put_path-Untouched x.0 q x.1 t h.0.1).0

HasPath : List Text × Text → Type 0
HasPath x = (p : Text) × (ps : List Text) × (x.0 ≡ p ∷ ps)

put_all-found :
    (xs : List (List Text × Text)) (t : Table)
    → All HasPath xs
    → AreApart xs
    → All (λ x. get_path x.0 (put_all xs t) ≡ some x.1) xs
unfolding put_all HasPath
put_all-found [] t path h = tt
put_all-found (x ∷ xs) t path h =
    let (p, ps, e) = path.0 in
    let set : get_path x.0 (put_path x.0 x.1 t) ≡ some x.1 =
      subst (λ l. get_path l (put_path l x.1 t) ≡ some x.1) (sym e)
        (get_path-put_path p ps x.1 t) in
    (
      get_path-put_all x.0 xs (put_path x.0 x.1 t) h.0 ∙ set,
      put_all-found xs (put_path x.0 x.1 t) path.1 h.1,
    )

split_double-some : (t : Text) → (p : Text) × (ps : List Text) × (split_double t ≡ p ∷ ps)
unfolding split_double
split_double-some [] = ([], [], refl)
split_double-some (c ∷ []) = (c ∷ [], [], refl)
split_double-some (c ∷ d ∷ cs) =
    let (p, ps, e) = split_double-some (d ∷ cs) in
    let after : List Text = split_double cs in
    let join_first = λ (l : List Text). elim l as (λ x. List Text) [
      | [] ↦ []
      | p ∷ ps ↦ if c == b'_' && d == b'_' then [] ∷ after else (c ∷ p) ∷ ps
    ] in
    let first = ap join_first e in
    elim (Bool-cases (c == b'_' && d == b'_')) [
      | inl f ↦ ([], after, first ∙ ap (λ b. if b then [] ∷ after else (c ∷ p) ∷ ps) f)
      | inr f ↦ (c ∷ p, ps, first ∙ ap (λ b. if b then [] ∷ after else (c ∷ p) ∷ ps) f)
    ]

variables-HasPath : (environ : List (Text × Text)) → All HasPath (variables environ)
unfolding variables HasPath parts_of_key
variables-HasPath [] = tt
variables-HasPath ((key, value) ∷ environ) = elim (Bool-cases (starts_with prefix key)) [
  | inl e ↦
      rw e
        (split_double-some (map lower_code (drop (length prefix) key)), variables-HasPath environ)
  | inr e ↦ rw e (variables-HasPath environ)
]

empty-free : (ps : List Text) → is_free ps empty ≡ true
unfolding is_free find
empty-free [] = refl
empty-free (p ∷ []) = refl
empty-free (p ∷ q ∷ ps) = empty-free (q ∷ ps)

All-is_free : (xs : List (List Text × Text)) → All (λ x. is_free x.0 empty ≡ true) xs
All-is_free [] = tt
All-is_free (x ∷ xs) = (empty-free x.0, All-is_free xs)

-- If no variable's path is the beginning of another's, the nested configuration is read from the
-- environment without an error, and each variable with the prefix is found in it, at the parts of
-- its lower-case name.
pub get_nested_env-found :
    (environ : List (Text × Text))
    → AreApart (variables environ)
    → (t : Table) × (get_nested_env environ ≡ ok t)
      × All (λ x. get_path x.0 t ≡ some x.1) (variables environ)
unfolding get_nested_env
get_nested_env-found environ h = (
  put_all (variables environ) empty,
  get_nested_from-set_all environ empty
      ∙ set_all-put_all (variables environ) empty (All-is_free (variables environ)) h,
  put_all-found (variables environ) empty (variables-HasPath environ) h,
)
