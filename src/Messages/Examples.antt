-- ===== src/Messages/Examples.antt =====
-- A conversation of two messages, and its next turn.
use llm_kv_passthrough.Prelude.{◌≡◌, refl, List, [], ◌∷◌, ◌++◌, get_elem?, Text, codes, arith}
use llm_kv_passthrough.Prelude.Result.{ok}
use llm_kv_passthrough.Chunks.{Sha256, simulate_tokenize}
use llm_kv_passthrough.Messages.{
  ChatMessage, system, user, assistant, with_text, without_text, text, segments, prompt_text,
}
use llm_kv_passthrough.Messages.Turns.{simulate_tokenize-prompt_text}

abbrev conversation : List ChatMessage
conversation =
    record { role = system; content = text (codes "be brief") }
    ∷ record {
      role = user;
      content = segments (with_text (codes "h") ∷ without_text ∷ with_text (codes "i") ∷ []);
    }
    ∷ []

abbrev next_turn : List ChatMessage
next_turn =
    record { role = assistant; content = text [] }
    ∷ record { role = user; content = text (codes "ok") }
    ∷ []

abbrev first_prompt : Text
first_prompt = codes "system: be brief\nuser: hi"

abbrev next_prompt : Text
next_prompt = codes "system: be brief\nuser: hi\nuser: ok"

first_prompt_lem : prompt_text conversation ≡ ok first_prompt
unfolding prompt_text
first_prompt_lem = refl

next_prompt_lem : prompt_text (conversation ++ next_turn) ≡ ok next_prompt
unfolding prompt_text
next_prompt_lem = refl

-- A digest that is the text itself.
abbrev identity : Sha256
identity = record { digest = λ b. b; hexdigest = λ b. b }

simulate_tokenize-prompt_text_example :
    get_elem? (simulate_tokenize identity next_prompt 4) 5
    ≡ get_elem? (simulate_tokenize identity first_prompt 4) 5
simulate_tokenize-prompt_text_example =
    simulate_tokenize-prompt_text identity 4 5 conversation next_turn first_prompt next_prompt
      first_prompt_lem next_prompt_lem (omega arith)
