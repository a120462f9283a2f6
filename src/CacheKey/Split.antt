-- ===== src/CacheKey/Split.antt =====
-- Splitting undoes joining when no part holds the separator.
use llm_kv_passthrough.Prelude.{ℕ, ◌≡◌, ◌≢◌, refl, List, [], ◌∷◌, ◌++◌, Text, All, arith, ◌≤◌}
use llm_kv_passthrough.Prelude.Int.{AreDigits}
use llm_kv_passthrough.CacheKey.{join, split}

-- The separator does not stand in the text.
abbrev pub Lacks : ℕ → Text → Type 0
Lacks sep = All (λ c. c ≢ sep)

split-lacking : (sep : ℕ) (p : Text) → Lacks sep p → split sep p ≡ p ∷ []
unfolding split
split-lacking sep [] h = refl
split-lacking sep (c ∷ cs) h = rw (split-lacking sep cs h.1, split) (ground (arith, h.0))

split-first :
    (sep : ℕ) (p rest q : Text) (qs : List Text)
    → Lacks sep p
    → split sep rest ≡ q ∷ qs
    → split sep (p ++ sep ∷ rest) ≡ p ∷ q ∷ qs
unfolding split
split-first sep [] rest q qs h e = rw (e, split) (ground arith)
split-first sep (c ∷ cs) rest q qs h e =
    rw (split-first sep cs rest q qs h.1 e, split) (ground (arith, h.0))

pub split-join :
    (sep : ℕ) (p : Text) (ps : List Text)
    → All (Lacks sep) (p ∷ ps)
    → split sep (join sep (p ∷ ps)) ≡ p ∷ ps
unfolding join
split-join sep p [] h = split-lacking sep p h.0
split-join sep p (q ∷ qs) h =
    split-first sep p (join sep (q ∷ qs)) q qs h.0 (split-join sep q qs h.1)

-- Digits are neither the at sign nor the dash.
pub digits-Lacks : (sep : ℕ) (t : Text) → sep ≤ 47 → AreDigits t → Lacks sep t
digits-Lacks sep [] s h = tt
digits-Lacks sep (c ∷ cs) s h = (omega arith, digits-Lacks sep cs s h.1)

pub digits-Lacks_at : (t : Text) → AreDigits t → Lacks b'@' t
digits-Lacks_at [] h = tt
digits-Lacks_at (c ∷ cs) h = (omega arith, digits-Lacks_at cs h.1)
