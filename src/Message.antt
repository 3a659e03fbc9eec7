-- ===== src/Message.antt =====
-- codebase/llmhub/app/models/chat_completion/chat_completion.py: roles, contents and messages, a
-- constructor for each message class. `function_call.py` declares the function call.
use rtxag.Prelude.{
  ℕ, String, Char, Bool, true, false, Option, none, some, List, nonempty, is_empty, not, ◌==◌,
  if◌then◌else◌,
}
use rtxag.Json.{Fields}

pub data Role : Type 0 where
  system assistant user function : Role

abbrev pub role_name : Role → String
role_name system = "system"
role_name assistant = "assistant"
role_name user = "user"
role_name function = "function"

abbrev pub same_role : Role → Role → Bool
same_role system system = true
same_role assistant assistant = true
same_role user user = true
same_role function function = true
same_role _ _ = false

-- An item of a multimodal content. `letter` is what `list += str` adds: a one-character `str`.
pub data Part : Type 0 where
  text_part : String → Part
  image_url : String → Part
  letter : Char → Part

pub data Content : Type 0 where
  text : String → Content
  parts : List Part → Content

pub record FunctionCall : Type 0 where
  pub id : String
  pub name : String
  pub arguments : Fields

pub data Message : Type 0 where
  system_message : Option Content → Message
  user_message : Option Content → Message
  assistant_message : Option Content → Option (List FunctionCall) → Message
  function_message : Option Content → String → Message

-- message.role
abbrev pub role : Message → Role
role (system_message c) = system
role (user_message c) = user
role (assistant_message c calls) = assistant
role (function_message c i) = function

-- message.content
abbrev pub content : Message → Option Content
content (system_message c) = c
content (user_message c) = c
content (assistant_message c calls) = c
content (function_message c i) = c

abbrev pub is_assistant_text_message : Message → Bool
is_assistant_text_message (assistant_message c none) = true
is_assistant_text_message _ = false

abbrev pub is_assistant_function_calls_message : Message → Bool
is_assistant_function_calls_message (assistant_message c (some calls)) = true
is_assistant_function_calls_message _ = false

-- `if content`
abbrev pub has_content : Option Content → Bool
has_content none = false
has_content (some (text s)) = nonempty s
has_content (some (parts ps)) = not (is_empty ps)

-- `if function_calls`
abbrev pub has_calls : Option (List FunctionCall) → Bool
has_calls none = false
has_calls (some calls) = not (is_empty calls)

pub data FinishReason : Type 0 where
  stop length function_calls error recitation unknown : FinishReason

-- `ChatCompletionFinishReason.__members__.get(s, ChatCompletionFinishReason.unknown)`
abbrev pub member_or_unknown : String → FinishReason
member_or_unknown s =
    if s == "stop"
    then FinishReason.stop
    else if s == "length"
    then FinishReason.length
    else if s == "function_calls"
    then FinishReason.function_calls
    else if s == "error"
    then FinishReason.error
    else if s == "recitation"
    then FinishReason.recitation
    else FinishReason.unknown

pub record Usage : Type 0 where
  pub input_tokens : ℕ
  pub output_tokens : ℕ

pub record ChatCompletion : Type 0 where
  pub finish_reason : FinishReason
  pub message : Message
  pub created_timestamp : ℕ
  pub usage : Usage
  pub fallback_index : Option ℕ

pub record ChatCompletionChunk : Type 0 where
  pub index : ℕ
  pub delta : String
  pub created_timestamp : ℕ
