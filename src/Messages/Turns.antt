-- ===== src/Messages/Turns.antt =====
-- A conversation that goes on keeps its prompt, and with it the tokens that a cache may hold.
use llm_kv_passthrough.Prelude.{
  ℕ, ◌+◌, ◌*◌, ◌≤◌, ◌≡◌, refl, sym, ap, ◌∙◌, max, List, [], ◌∷◌, ◌++◌, length, get_elem?, Text,
}
use llm_kv_passthrough.Prelude.Result.{ok, >>=-eq-ok, ok-injective}
use llm_kv_passthrough.CacheKey.{join}
use llm_kv_passthrough.Chunks.{Sha256, simulate_tokenize}
use llm_kv_passthrough.Chunks.Tokenize.{simulate_tokenize-prefix}
use llm_kv_passthrough.Messages.{
  ChatMessage, MessageRole, add_part, content_text, parts_of, prompt_text,
}
use mathlib.Core.List.{append_assoc, append-nil}

add_part-append :
    (role : MessageRole) (content : Text) (ps qs : List Text)
    → add_part role content (ps ++ qs) ≡ add_part role content ps ++ qs
unfolding add_part
add_part-append role [] ps qs = refl
add_part-append role (c ∷ cs) ps qs = refl

-- The parts of the first messages are the first parts.
parts_of-append :
    (ms more : List ChatMessage) (ps qs : List Text)
    → parts_of ms ≡ ok ps
    → parts_of (ms ++ more) ≡ ok qs
    → (rest : List Text) × (qs ≡ ps ++ rest)
unfolding parts_of
parts_of-append [] more ps qs e f = (qs, ap (λ l. l ++ qs) (ok-injective e))
parts_of-append (m ∷ ms) more ps qs e f =
    let (c, has, e') = >>=-eq-ok (content_text m.content) _ e in
    let (rs, got, made) = >>=-eq-ok (parts_of ms) _ e' in
    let (c', has', f') = >>=-eq-ok (content_text m.content) _ f in
    let (rs', got', made') = >>=-eq-ok (parts_of (ms ++ more)) _ f' in
    let (rest, all) = parts_of-append ms more rs rs' got got' in
    let same : c' ≡ c = ok-injective (sym has' ∙ has) in
    (
      rest,
      sym (ok-injective made')
          ∙ ap (λ x. add_part m.role x rs') same
          ∙ ap (λ l. add_part m.role c l) all
          ∙ add_part-append m.role c rs rest
          ∙ ap (λ l. l ++ rest) (ok-injective made),
    )

join-append :
    (sep : ℕ) (ps rest : List Text) → (more : Text) × (join sep (ps ++ rest) ≡ join sep ps ++ more)
unfolding join
join-append sep [] rest = (join sep rest, refl)
join-append sep (p ∷ []) [] = ([], sym (append-nil p))
join-append sep (p ∷ []) (q ∷ qs) = (sep ∷ join sep (q ∷ qs), refl)
join-append sep (p ∷ q ∷ ps) rest =
    let (more, e) = join-append sep (q ∷ ps) rest in
    (more, ap (λ l. p ++ sep ∷ l) e ∙ sym (append_assoc p (sep ∷ join sep (q ∷ ps)) more))

prompt_text-append :
    (ms more : List ChatMessage) (t u : Text)
    → prompt_text ms ≡ ok t
    → prompt_text (ms ++ more) ≡ ok u
    → (rest : Text) × (u ≡ t ++ rest)
unfolding prompt_text
prompt_text-append ms more t u e f =
    let (ps, got, made) = >>=-eq-ok (parts_of ms) _ e in
    let (qs, got', made') = >>=-eq-ok (parts_of (ms ++ more)) _ f in
    let (parts, all) = parts_of-append ms more ps qs got got' in
    let (rest, joined) = join-append 10 ps parts in
    (
      rest,
      sym (ok-injective made')
          ∙ ap (join 10) all
          ∙ joined
          ∙ ap (λ l. l ++ rest) (ok-injective made),
    )

-- When messages are added to a conversation whose prompt and its extension both exist, every
-- token whose whole granule lay in the earlier prompt stays the same: the cached prefix of a
-- conversation serves its next turn.
pub simulate_tokenize-prompt_text :
    (sha : Sha256) (rounded i : ℕ) (ms more : List ChatMessage) (t u : Text)
    → prompt_text ms ≡ ok t
    → prompt_text (ms ++ more) ≡ ok u
    → (i + 1) * max 1 rounded ≤ length t
    → get_elem? (simulate_tokenize sha u rounded) i ≡ get_elem? (simulate_tokenize sha t rounded) i
simulate_tokenize-prompt_text sha rounded i ms more t u e f h =
    let (rest, longer) = prompt_text-append ms more t u e f in
    ap (λ l. get_elem? (simulate_tokenize sha l rounded) i) longer
    ∙ simulate_tokenize-prefix sha t rest rounded i h
