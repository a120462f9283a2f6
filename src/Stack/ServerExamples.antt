-- ===== src/Stack/ServerExamples.antt =====
-- A combined server over a stack of one engine, which keeps the sequence stored last.
use llm_kv_passthrough.Prelude.{ℕ, none, some, List, [], ◌∷◌}
use llm_kv_passthrough.Stack.{Engine, LmCacheStack, stack, start}
use llm_kv_passthrough.Stack.Contract.{kv_stack, EngineAnswers}
use llm_kv_passthrough.Stack.Agreement.{Agrees, serve-Agrees}
use llm_kv_passthrough.Combined.{no_stats}
use llm_kv_passthrough.Combined.Stats.{Request, serve}
use llm_kv_passthrough.Combined.Examples.{last_one, last_one-AnswersChunks, plain}

abbrev last_engine : Engine (List ℕ)
last_engine = record {
  create = λ rank. [];
  lookup = last_one.lookup;
  store = last_one.store;
  retrieve = last_one.retrieve;
}

last_engine-EngineAnswers : EngineAnswers last_engine 2
last_engine-EngineAnswers = record {
  positive = last_one-AnswersChunks.positive;
  bounded = last_one-AnswersChunks.bounded;
  whole = last_one-AnswersChunks.whole;
}

abbrev requests : List Request
requests =
    record { prompt = 1 ∷ 2 ∷ 3 ∷ 4 ∷ 5 ∷ 6 ∷ 7 ∷ 8 ∷ 9 ∷ []; max_tokens = none; elapsed = 5 }
    ∷ record { prompt = 1 ∷ 2 ∷ 3 ∷ 4 ∷ 5 ∷ 6 ∷ 7 ∷ 8 ∷ []; max_tokens = some 2; elapsed = 3 }
    ∷ []

abbrev started_stack : LmCacheStack (List ℕ)
started_stack = start last_engine (stack 1)

serve-Agrees_example :
    Agrees 2
      (serve (kv_stack last_engine 2) plain requests (no_stats, started_stack)).0
      (serve (kv_stack last_engine 2) plain requests (no_stats, started_stack)).1.stats
serve-Agrees_example = serve-Agrees last_engine 2 plain requests started_stack
