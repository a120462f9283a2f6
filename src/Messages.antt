-- ===== src/Messages.antt =====
-- The messages of src/kvbench/servers/openai_compat.py: the prompt of a conversation, and the
-- answers in one piece and as a stream of chunks. A text is its UTF-8 bytes. The random id and
-- the time of creation are arguments; the JSON text of an answer is left out.
pub mod Turns
mod Examples
use llm_kv_passthrough.Prelude.{
  ℕ, ◌+◌, Bool, true, false, Option, none, some, List, [], ◌∷◌, ◌++◌, Text, codes,
}
use llm_kv_passthrough.Prelude.Result.{Result, ok, err, type_error, ◌>>=◌}
use llm_kv_passthrough.CacheKey.{join}

pub data MessageRole : Type 0 where
  system user assistant function tool : MessageRole

-- role.value
abbrev pub value : MessageRole → Text
value system = codes "system"
value user = codes "user"
value assistant = codes "assistant"
value function = codes "function"
value tool = codes "tool"

-- A segment of a structured content: an object with a text, without one, or with something else
-- under that key, and any other value, with what str() makes of it.
pub data Segment : Type 0 where
  with_text : Text → Segment
  without_text with_other : Segment
  plain : Text → Segment

pub data Content : Type 0 where
  absent : Content
  text : Text → Content
  segments : List Segment → Content

pub record ChatMessage : Type 0 where
  pub role : MessageRole
  pub content : Content

-- One element of the join over the segments; join raises on what is no string.
abbrev pub segment_text : Segment → Result Text
segment_text (with_text t) = ok t
segment_text without_text = ok []
segment_text with_other = err type_error
segment_text (plain t) = ok t

unfoldable pub join_segments : List Segment → Result Text
join_segments [] = ok []
join_segments (s ∷ ss) = do t ← segment_text s; rest ← join_segments ss; ok (t ++ rest)

unfoldable pub content_text : Content → Result Text
unfolding join_segments
content_text absent = ok []
content_text (text t) = ok t
content_text (segments ss) = join_segments ss

-- `if content: parts.append(f"{msg.role.value}: {content}")`
unfoldable pub add_part : MessageRole → Text → List Text → List Text
add_part role [] parts = parts
add_part role (c ∷ cs) parts = (value role ++ codes ": " ++ c ∷ cs) ∷ parts

unfoldable pub parts_of : List ChatMessage → Result (List Text)
unfolding content_text add_part
parts_of [] = ok []
parts_of (m ∷ ms) = do
  content ← content_text m.content
  rest ← parts_of ms
  ok (add_part m.role content rest)

unfoldable pub prompt_text : List ChatMessage → Result Text
unfolding parts_of join
prompt_text messages = do parts ← parts_of messages; ok (join 10 parts)

pub record Usage : Type 0 where
  pub prompt_tokens : ℕ
  pub completion_tokens : ℕ
  pub total_tokens : ℕ

pub record ChatCompletionResponse : Type 0 where
  pub id : Text
  pub created : ℕ
  pub model : Text
  pub content : Text
  pub finish_reason : Text
  pub usage : Usage

-- ChatCompletionResponse.create
unfoldable pub create_response : Text → ℕ → Text → Text → ℕ → ℕ → Text → ChatCompletionResponse
create_response id created model content prompt_tokens completion_tokens finish_reason = record {
  id = id;
  created = created;
  model = model;
  content = content;
  finish_reason = finish_reason;
  usage = record {
    prompt_tokens = prompt_tokens;
    completion_tokens = completion_tokens;
    total_tokens = prompt_tokens + completion_tokens;
  };
}

-- A chunk, with the delta of its only choice.
pub record ChatCompletionChunk : Type 0 where
  pub id : Text
  pub created : ℕ
  pub model : Text
  pub delta_role : Option Text
  pub delta_content : Option Text
  pub finish_reason : Option Text

-- `if completion_id: chunk.id = completion_id`; an empty id keeps the random one.
abbrev pub id_or : Text → Option Text → Text
id_or fresh none = fresh
id_or fresh (some []) = fresh
id_or fresh (some (c ∷ cs)) = c ∷ cs

unfoldable pub create_start : Text → ℕ → Text → Option Text → ChatCompletionChunk
create_start fresh created model completion_id = record {
  id = id_or fresh completion_id;
  created = created;
  model = model;
  delta_role = some (codes "assistant");
  delta_content = some [];
  finish_reason = none;
}

unfoldable pub create_content : Text → ℕ → Text → Text → Option Text → ChatCompletionChunk
create_content fresh created model content completion_id = record {
  id = id_or fresh completion_id;
  created = created;
  model = model;
  delta_role = none;
  delta_content = some content;
  finish_reason = none;
}

unfoldable pub create_end : Text → ℕ → Text → Option Text → Text → ChatCompletionChunk
create_end fresh created model completion_id finish_reason = record {
  id = id_or fresh completion_id;
  created = created;
  model = model;
  delta_role = none;
  delta_content = none;
  finish_reason = some finish_reason;
}

pub record ErrorResponse : Type 0 where
  pub message : Text
  pub error_type : Text
  pub code : Option Text

-- ErrorResponse.create: an empty code is left out.
unfoldable pub create_error : Text → Text → Option Text → ErrorResponse
create_error message error_type none = record {
  message = message;
  error_type = error_type;
  code = none;
}
create_error message error_type (some []) = record {
  message = message;
  error_type = error_type;
  code = none;
}
create_error message error_type (some (c ∷ cs)) = record {
  message = message;
  error_type = error_type;
  code = some (c ∷ cs);
}
