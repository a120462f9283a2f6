-- ===== src/Chunks/Tokenize.antt =====
-- simulate_tokenize: how many tokens a text has, and that a shared prefix of two texts gives a
-- shared prefix of tokens.
use llm_kv_passthrough.Prelude.{
  ℕ, ◌+◌, ◌*◌, ◌≤◌, ◌<◌, ◌≡◌, refl, ap, sym, ◌∙◌, max, none, some, List, [], ◌∷◌, ◌++◌, length,
  get_elem?, get_elem?-map, get_elem?-range, range, take, slice, slice-take, ltb, if◌then◌else◌,
  Bool-cases, inl, inr, arith, le→ltb, length-append, lt→ltb,
}
use llm_kv_passthrough.Chunks.{Sha256, simulate_tokenize, granule_token}

-- Token i comes from the bytes i * granule up to the next granule or the end of the text, and
-- there is one exactly while the text reaches that far; the granule is at least one byte.
pub get_elem?-simulate_tokenize :
    (sha : Sha256) (bytes : List ℕ) (rounded i : ℕ)
    → get_elem? (simulate_tokenize sha bytes rounded) i ≡ (
        if ltb (i * max 1 rounded) (length bytes)
        then some (
            granule_token sha (slice bytes (i * max 1 rounded) (i * max 1 rounded + max 1 rounded)))
        else none)
unfolding simulate_tokenize
get_elem?-simulate_tokenize sha [] rounded i = rw (le→ltb (i * max 1 rounded) 0 (omega arith)) refl
get_elem?-simulate_tokenize sha (b ∷ bs) rounded i =
    let g = max 1 rounded in
    rw
      (get_elem?-map (λ i. granule_token sha (slice (b ∷ bs) i (i + g)))
        (range 0 (length (b ∷ bs)) g) i)
      (rw (get_elem?-range (length (b ∷ bs)) g i (omega arith))
        (elim (Bool-cases (ltb (i * g) (length (b ∷ bs)))) [
          | inl e ↦ rw e refl
          | inr e ↦ rw e refl
        ]))

take-append_left {ℓ} : {A : Type ℓ} (xs ys : List A) → take (length xs) (xs ++ ys) ≡ xs
take-append_left [] ys = refl
take-append_left (x ∷ xs) ys = ap (λ l. x ∷ l) (take-append_left xs ys)

-- A text that goes on keeps every token whose whole granule the shorter text had.
pub simulate_tokenize-prefix :
    (sha : Sha256) (bytes more : List ℕ) (rounded i : ℕ)
    → (i + 1) * max 1 rounded ≤ length bytes
    → get_elem? (simulate_tokenize sha (bytes ++ more) rounded) i
      ≡ get_elem? (simulate_tokenize sha bytes rounded) i
simulate_tokenize-prefix sha bytes more rounded i h =
    let g = max 1 rounded in
    let here : i * g < length bytes = grind arith in
    let there : i * g < length (bytes ++ more) = grind (arith, length-append bytes more) in
    let piece : slice (bytes ++ more) (i * g) (i * g + g) ≡ slice bytes (i * g) (i * g + g) =
      sym (slice-take (bytes ++ more) (i * g) g (length bytes) (grind arith))
      ∙ ap (λ l. slice l (i * g) (i * g + g)) (take-append_left bytes more) in
    rw (get_elem?-simulate_tokenize sha (bytes ++ more) rounded i) (
      rw (get_elem?-simulate_tokenize sha bytes rounded i) (
        rw (lt→ltb (i * g) (length bytes) here) (
          rw (lt→ltb (i * g) (length (bytes ++ more)) there)
            (ap (λ l. some (granule_token sha l)) piece))))
