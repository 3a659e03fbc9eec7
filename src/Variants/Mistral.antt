-- ===== src/Variants/Mistral.antt =====
-- codebase/llmhub/providers/mistralai/chat_completion.py. The ids of function calls are replaced by
-- random ids of nine characters, which are a parameter.
pub mod Answers
use rtxag.Prelude.{
  ℕ, suc, String, Bool, true, false, ◌||◌, Option, none, some, List, [], ◌∷◌, Dict, get, put, given,
  concat, nonempty, ◌==◌, if◌then◌else◌,
}
use rtxag.Error.{ErrorCode, Result, ok, err, ◌>>=◌, raise_http_error}
use rtxag.Json.{
  Json, Items, Fields, null, int, str, arr, obj, nil, cons, field, end, truthy, truthy?, assign,
}
use rtxag.Json.Int.{ℤ, pos}
use rtxag.Json.Access.{get_key, item, first}
use rtxag.Message.{
  Message, Content, text, parts, FinishReason, member_or_unknown, FunctionCall, system_message,
  user_message, assistant_message, function_message,
}
use rtxag.Credentials.{Values}
use rtxag.FunctionCall.Building.{CallsContent, Services}
use rtxag.Payload.{Prompt, Adapter, dump_parts, plain_content, add_configs, base_payload, add_tools}
use rtxag.OpenAi.{compatible, as_index, or_empty, add_tool_call}
use rtxag.OpenAi.Prepare.{bearer_header}
use rtxag.Variants.{extract_reason, stream_reason, json_message, request_to}

-- `_build_mistral_header`
abbrev pub build_mistral_header : Values → Fields
build_mistral_header = bearer_header "MISTRAL_API_KEY"

abbrev pub mistral_reason : String → FinishReason
mistral_reason s =
    if s == "tool_calls"
    then FinishReason.function_calls
    else if s == "model_length"
    then FinishReason.length
    else member_or_unknown s

-- `tool_call["index"] if tool_call.get("index") else 0`
abbrev index_or_zero : Option Json → Result ℤ
index_or_zero none = ok (pos 0)
index_or_zero (some v) = if truthy v then as_index v else ok (pos 0)

abbrev read_call : CallsContent → Json → Result CallsContent
read_call c calls = do
  call ← first calls
  i ← get_key "index" call >>= index_or_zero
  function ← item "function" call
  add_tool_call c i function

abbrev if_calls : CallsContent → Option Json → Result (Option CallsContent × CallsContent)
if_calls c none = ok (none, c)
if_calls c (some calls) =
    if truthy calls then (read_call c calls >>= λ d. ok (some d, d)) else ok (none, c)

-- `stream_handle_function_calls`
unfoldable pub mistral_handle_calls :
    Json → CallsContent → Result (Option CallsContent × CallsContent)
unfolding get_key first item add_tool_call
mistral_handle_calls data_ c = do
  d ← get_key "delta" data_
  if truthy (or_empty d) then (get_key "tool_calls" (or_empty d) >>= if_calls c) else ok (none, c)

abbrev choose_any : String → Fields → Fields
choose_any s payload =
    if nonempty s
    then assign "tool_choice" (str (if s == "none" || s == "auto" then s else "any")) payload
    else payload

abbrev add_choice : Option String → Fields → Fields
add_choice none payload = payload
add_choice (some s) payload = choose_any s payload

abbrev pub text_or_empty : Option String → String
text_or_empty none = ""
text_or_empty (some s) = s

-- The ids that were given so far, and the number of the next random id.
pub record Ids : Type 0 where
  pub mistral_ids : Dict String
  pub next : ℕ

module _ (dumps : Fields → String) (random_id : ℕ → String) where
  abbrev renamed_call : FunctionCall → String → Json
  renamed_call f i = obj (
      field "id" (str i) (
        field "type" (str "function") (
          field "function"
            (obj (field "name" (str f.name) (field "arguments" (str (dumps f.arguments)) end)))
            end)))

  -- The loop over the calls of a message.
  unfoldable pub rename_calls : List FunctionCall → Ids → Items × Ids
  unfolding put
  rename_calls [] s = (nil, s)
  rename_calls (f ∷ fs) s =
      let (rest, s') =
        rename_calls fs
          (record { mistral_ids = put f.id (random_id s.next) s.mistral_ids; next = suc s.next }) in
      (cons (renamed_call f (random_id s.next)) rest, s')

  -- An answer, with the id that its call was given.
  abbrev answer_to : Option Content → String → String → Ids → Result (Json × Ids)
  answer_to c i new s =
      if nonempty new
      then (plain_content c >>= λ v. ok (
        obj (field "role" (str "tool") (field "content" v (field "tool_call_id" (str new) end))),
        s,
      ))
      else raise_http_error ErrorCode.request_validation_error
          (concat ("Function id: " ∷ i ∷ " not found" ∷ []))

  -- `_build_mistral_message`, with the map as it leaves it.
  unfoldable pub build_mistral_message : Message → Ids → Result (Json × Ids)
  unfolding dump_parts rename_calls get
  build_mistral_message (system_message c) s =
      plain_content c >>= λ v. ok (json_message "system" v, s)
  build_mistral_message (user_message none) s = ok (null, s)
  build_mistral_message (user_message (some (text t))) s = ok (json_message "user" (str t), s)
  build_mistral_message (user_message (some (parts ps))) s =
      dump_parts ps >>= λ vs. ok (json_message "user" (arr vs), s)
  build_mistral_message (function_message c i) s =
      answer_to c i (text_or_empty (get i s.mistral_ids)) s
  build_mistral_message (assistant_message c none) s =
      plain_content c >>= λ v. ok (json_message "assistant" v, s)
  build_mistral_message (assistant_message c (some calls)) s =
      let (items, s') = rename_calls calls s in
      ok (
        obj (
            field "role" (str "assistant")
              (field "tool_calls" (arr items) (field "content" (str "") end))),
        s',
      )

  -- The list comprehension over the messages.
  unfoldable pub build_mistral_messages : List Message → Ids → Result Items
  unfolding build_mistral_message
  build_mistral_messages [] s = ok nil
  build_mistral_messages (m ∷ ms) s = do
    (v, s') ← build_mistral_message m s
    vs ← build_mistral_messages ms s'
    ok (cons v vs)

  -- `_build_mistral_chat_completion_payload`
  unfoldable pub build_mistral_payload : Prompt → Result Fields
  unfolding build_mistral_messages add_configs assign
  build_mistral_payload p = do
    ms ← build_mistral_messages p.messages (record { mistral_ids = []; next = 0 })
    ok (
        add_tools p.functions
          (add_choice p.function_call (add_configs p.configs (base_payload ms p))))

  -- `MistralaiChatCompletionModel`
  abbrev pub mistralai : Services → Adapter
  mistralai svc = record {
    prepare_request = λ p.
        request_to "https://api.mistral.ai/v1/chat/completions" "MISTRAL_API_KEY" p
          (build_mistral_payload p);
    model = record (compatible svc none) {
      extract_finish_reason = extract_reason (λ s. ok (mistral_reason s));
      stream_extract_finish_reason = stream_reason (λ s. ok (mistral_reason s));
      stream_handle_function_calls = mistral_handle_calls;
    };
  }
