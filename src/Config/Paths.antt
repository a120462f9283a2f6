-- ===== src/Config/Paths.antt =====
-- What setting one path of the nested configuration does to it and to the other paths.
use llm_kv_passthrough.Prelude.{
  ◌≡◌, ◌⊎◌, inl, inr, refl, sym, ap, subst, ◌∙◌, Bool, true, false, ◌&&◌, Option, none, some, List,
  [], ◌∷◌, if◌then◌else◌, Bool-cases, Text, text_eq, text_eq_iff, arith,
}
use llm_kv_passthrough.Prelude.Result.{Result, ok, ◌>>=◌}
use llm_kv_passthrough.Config.{Node, leaf, dict, Table, empty, entry, assign, find, inner, set_path}

-- The string at a path.
abbrev pub leaf_of : Option Node → Option Text
leaf_of none = none
leaf_of (some (dict t)) = none
leaf_of (some (leaf s)) = some s

abbrev pub below : Option Node → Table
below none = empty
below (some (leaf s)) = empty
below (some (dict t)) = t

unfoldable pub get_path : List Text → Table → Option Text
unfolding find
get_path [] t = none
get_path (p ∷ []) t = leaf_of (find p t)
get_path (p ∷ q ∷ ps) t = get_path (q ∷ ps) (below (find p t))

-- Neither path is the beginning of the other.
unfoldable pub apart : List Text → List Text → Bool
unfolding text_eq
apart [] qs = false
apart (p ∷ ps) [] = false
apart (p ∷ ps) (q ∷ qs) = let rest = apart ps qs in if text_eq p q then rest else true

-- No string stands on the way of a path.
abbrev pub passable : Option Node → Bool
passable none = true
passable (some (leaf s)) = false
passable (some (dict t)) = true

unfoldable pub is_free : List Text → Table → Bool
is_free [] t = true
is_free (p ∷ []) t = true
is_free (p ∷ q ∷ ps) t = passable (find p t) && is_free (q ∷ ps) (below (find p t))

find-assign :
    (p q : Text) (n : Node) (t : Table)
    → find q (assign p n t) ≡ (if text_eq p q then some n else find q t)
unfolding find assign
find-assign p q n empty = refl
find-assign p q n (entry k v t) = elim (Bool-cases (text_eq k p)) [
  | inl e ↦
      let same : k ≡ p = (text_eq_iff k p).0 e in
      let test : text_eq k q ≡ text_eq p q = ap (λ x. text_eq x q) same in
      rw e (ground (arith, test))
  | inr e ↦ rw e (elim (Bool-cases (text_eq k q)) [
    | inl f ↦
        let same : text_eq k p ≡ text_eq q p = ap (λ x. text_eq x p) ((text_eq_iff k q).0 f) in
        let other : text_eq p q ≡ false = differs p q (sym same ∙ e) in rw (f, other) refl
    | inr f ↦ rw f (find-assign p q n t)
  ])
]
  where
    differs : (p q : Text) → text_eq q p ≡ false → text_eq p q ≡ false
    differs p q h = elim (Bool-cases (text_eq p q)) [
      | inl e ↦
          let back : text_eq q p ≡ true = (text_eq_iff q p).1 (sym ((text_eq_iff p q).0 e)) in cc
      | inr e ↦ e
    ]

-- The table after a variable that no string stands in the way of.
unfoldable pub put_path : List Text → Text → Table → Table
put_path [] v t = t
put_path (p ∷ []) v t = assign p (leaf v) t
put_path (p ∷ q ∷ ps) v t = assign p (dict (put_path (q ∷ ps) v (below (find p t)))) t

both_true : (b : Bool) {c : Bool} → (b && c) ≡ true → (b ≡ true) × (c ≡ true)
both_true true h = (refl, h)
both_true false h = cc

inner-below : (n : Option Node) → passable n ≡ true → inner n ≡ ok (below n)
inner-below none h = refl
inner-below (some (leaf s)) h = cc
inner-below (some (dict t)) h = refl

pub set_path-put_path :
    (ps : List Text) (v : Text) (t : Table)
    → is_free ps t ≡ true
    → set_path ps v t ≡ ok (put_path ps v t)
unfolding set_path is_free put_path
set_path-put_path [] v t h = refl
set_path-put_path (p ∷ []) v t h = refl
set_path-put_path (p ∷ q ∷ ps) v t h =
    let (free, rest) = both_true (passable (find p t)) h in
    ap
      (λ (r : Result Table).
        r >>= λ b. set_path (q ∷ ps) v b >>= λ changed. ok (assign p (dict changed) t))
      (inner-below (find p t) free)
    ∙ ap (λ (r : Result Table). r >>= λ changed. ok (assign p (dict changed) t))
        (set_path-put_path (q ∷ ps) v (below (find p t)) rest)

find-assign_same : (p : Text) (n : Node) (t : Table) → find p (assign p n t) ≡ some n
find-assign_same p n t =
    find-assign p p n t ∙ ap (λ b. if b then some n else find p t) ((text_eq_iff p p).1 refl)

pub get_path-put_path :
    (p : Text) (ps : List Text) (v : Text) (t : Table)
    → get_path (p ∷ ps) (put_path (p ∷ ps) v t) ≡ some v
unfolding get_path put_path
get_path-put_path p [] v t = ap leaf_of (find-assign_same p (leaf v) t)
get_path-put_path p (q ∷ ps) v t =
    let b = put_path (q ∷ ps) v (below (find p t)) in
    ap (λ n. get_path (q ∷ ps) (below n)) (find-assign_same p (dict b) t)
    ∙ get_path-put_path q ps v (below (find p t))

-- What a variable writes at the first part, seen from another first part.
find-other :
    (p q : Text) (n : Node) (t : Table) → text_eq p q ≡ false → find q (assign p n t) ≡ find q t
find-other p q n t h = find-assign p q n t ∙ ap (λ b. if b then some n else find q t) h

-- A path looks at its first part only.
get_path-find :
    (q : Text) (qs : List Text) (t u : Table)
    → find q u ≡ find q t
    → (get_path (q ∷ qs) u ≡ get_path (q ∷ qs) t) × (is_free (q ∷ qs) u ≡ is_free (q ∷ qs) t)
unfolding get_path is_free
get_path-find q [] t u e = (ap leaf_of e, refl)
get_path-find q (r ∷ qs) t u e =
    (ap (λ n. get_path (r ∷ qs) (below n)) e, ap (λ n. passable n && is_free (r ∷ qs) (below n)) e)

find-put_path :
    (p q : Text) (ps : List Text) (v : Text) (t : Table)
    → text_eq p q ≡ false
    → find q (put_path (p ∷ ps) v t) ≡ find q t
unfolding put_path
find-put_path p q [] v t h = find-other p q (leaf v) t h
find-put_path p q (r ∷ ps) v t h =
    find-other p q (dict (put_path (r ∷ ps) v (below (find p t)))) t h

-- Setting a path keeps what stands at a path apart from it, and keeps that path free.
unfoldable pub Untouched : List Text → List Text → Text → Table → Type 0
Untouched ps qs v t =
    (get_path qs (put_path ps v t) ≡ get_path qs t)
    × (is_free qs t ≡ true → is_free qs (put_path ps v t) ≡ true)

under :
    (p q r : Text) (ps qs : List Text) (v : Text) (t : Table)
    → Untouched (q ∷ ps) (r ∷ qs) v (below (find p t))
    → Untouched (p ∷ q ∷ ps) (p ∷ r ∷ qs) v t
unfolding Untouched get_path put_path is_free
under p q r ps qs v t (found, free) =
    let b = put_path (q ∷ ps) v (below (find p t)) in
    let at = find-assign_same p (dict b) t in
    (
      ap (λ n. get_path (r ∷ qs) (below n)) at ∙ found,
      (λ h.
          ap (λ n. passable n && is_free (r ∷ qs) (below n)) at
          ∙ free (both_true (passable (find p t)) h).1),
    )

pub put_path-Untouched :
    (ps qs : List Text) (v : Text) (t : Table) → apart ps qs ≡ true → Untouched ps qs v t
unfolding apart
put_path-Untouched [] qs v t h = cc
put_path-Untouched (p ∷ ps) [] v t h = cc
put_path-Untouched (p ∷ ps) (q ∷ qs) v t h =
    by_test ps qs (λ t. put_path-Untouched ps qs v t) h (Bool-cases (text_eq p q))
  where
    by_test :
        (ps qs : List Text)
        → ((t : Table) → apart ps qs ≡ true → Untouched ps qs v t)
        → (if text_eq p q then apart ps qs else true) ≡ true
        → (text_eq p q ≡ true) ⊎ (text_eq p q ≡ false)
        → Untouched (p ∷ ps) (q ∷ qs) v t
    by_test ps qs ih h (inr e) =
        unfold Untouched in
        let (a, b) = get_path-find q qs t (put_path (p ∷ ps) v t) (find-put_path p q ps v t e) in
        (a, (λ k. b ∙ k))
    by_test [] qs ih h (inl e) =
        let never : false ≡ true = ap (λ b. if b then false else true) (sym e) ∙ h in cc
    by_test (p' ∷ ps) [] ih h (inl e) =
        let never : false ≡ true = ap (λ b. if b then false else true) (sym e) ∙ h in cc
    by_test (p' ∷ ps) (q' ∷ qs) ih h (inl e) =
        let inside : apart (p' ∷ ps) (q' ∷ qs) ≡ true =
          ap (λ b. if b then apart (p' ∷ ps) (q' ∷ qs) else true) (sym e) ∙ h in
        subst (λ x. Untouched (p ∷ p' ∷ ps) (x ∷ q' ∷ qs) v t) ((text_eq_iff p q).0 e)
          (under p p' q' ps qs v t (ih (below (find p t)) inside))
