-- ===== src/Prelude/Named.antt =====
-- Registries: dictionaries that are written down in the source, by their entries.
use llm_kv_passthrough.Prelude.Tests.{ltb, ◌==◌, if◌then◌else◌, Bool-cases}
use llm_kv_passthrough.Prelude.Strings.{Text, text_eq}
use llm_kv_passthrough.Prelude.Result.{Result, ok, err, Error, key_error, ok-injective}
use mathlib.Core.Path.{◌≡◌, refl, sym, ap, ◌∙◌}
use mathlib.Core.Logic.{inl, inr}
use mathlib.Core.Bool.{Bool, true, false, ◌&&◌, ◌||◌}
use mathlib.Core.List.{List, [], ◌∷◌}

-- The entry under a name, and KeyError without one.
unfoldable pub find_named {ℓ} : {A : Type ℓ} → Text → List (Text × A) → Result A
unfolding text_eq
find_named name [] = err key_error
find_named name ((key, a) ∷ entries) =
    let rest = find_named name entries in if text_eq key name then ok a else rest

-- Python's `<` on strings
text_lt : Text → Text → Bool
text_lt [] [] = false
text_lt [] (d ∷ ds) = true
text_lt (c ∷ cs) [] = false
text_lt (c ∷ cs) (d ∷ ds) = ltb c d || ((c == d) && text_lt cs ds)

insert_text : Text → List Text → List Text
unfolding text_lt
insert_text t [] = t ∷ []
insert_text t (u ∷ us) = let rest = insert_text t us in if text_lt u t then u ∷ rest else t ∷ u ∷ us

-- sorted(names)
unfoldable pub sort_texts : List Text → List Text
unfolding insert_text
sort_texts [] = []
sort_texts (t ∷ ts) = insert_text t (sort_texts ts)

-- A test that every entry passes.
abbrev pub all_entries {ℓ} : {A : Type ℓ} → (A → Bool) → List (Text × A) → Bool
all_entries test [] = true
all_entries test ((key, a) ∷ entries) = test a && all_entries test entries

pub &&-eq-true : (b c : Bool) → (b && c) ≡ true → (b ≡ true) × (c ≡ true)
&&-eq-true true c h = (refl, h)
&&-eq-true false c h = cc

-- What every entry passes, the one that is found passes.
pub find_named-passes {ℓ} :
    {A : Type ℓ} (test : A → Bool) (name : Text) (entries : List (Text × A)) {a : A}
    → all_entries test entries ≡ true
    → find_named name entries ≡ ok a
    → test a ≡ true
unfolding find_named
find_named-passes test name [] h found = cc
find_named-passes test name ((key, b) ∷ entries) {a} h found =
    let (here, there) = &&-eq-true (test b) (all_entries test entries) h in
    let stop : (text_eq key name ≡ true) → ok b ≡ ok a =
      λ e. ap (λ c. if c then ok b else find_named name entries) (sym e) ∙ found in
    let go : (text_eq key name ≡ false) → find_named name entries ≡ ok a =
      λ e. ap (λ c. if c then ok b else find_named name entries) (sym e) ∙ found in
    elim (Bool-cases (text_eq key name)) [
      | inl e ↦ ap test (sym (ok-injective (stop e))) ∙ here
      | inr e ↦ find_named-passes test name entries there (go e)
    ]

pub find_named-err {ℓ} :
    {A : Type ℓ} (name : Text) (entries : List (Text × A)) {raised : Error}
    → find_named name entries ≡ err raised
    → raised ≡ key_error
unfolding find_named
find_named-err name [] h = cc
find_named-err name ((key, b) ∷ entries) {raised} h =
    let go : (text_eq key name ≡ false) → find_named name entries ≡ err raised =
      λ e. ap (λ c. if c then ok b else find_named name entries) (sym e) ∙ h in
    let stop : (text_eq key name ≡ true) → ok b ≡ err raised =
      λ e. ap (λ c. if c then ok b else find_named name entries) (sym e) ∙ h in
    elim (Bool-cases (text_eq key name)) [
      | inl e ↦ cc (stop e)
      | inr e ↦ find_named-err name entries (go e)
    ]
