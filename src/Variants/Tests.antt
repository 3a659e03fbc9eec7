-- ===== src/Variants/Tests.antt =====
-- A conversation for Mistral and a temperature for Zhipu, with the theorems there; and two streamed
-- calls of Minimax.
use rtxag.Prelude.{
  ℕ, zero, suc, nonempty, true, arith, String, ◌≡◌, refl, false, none, some, List, [], ◌∷◌,
}
use rtxag.Error.{ok, ◌>>=◌}
use rtxag.Json.{Json, Items, Fields, int, arr, str, obj, nil, cons, field, end, lookup, assign}
use rtxag.Json.Int.{pos}
use rtxag.Json.Access.{get_key, item, first}
use rtxag.Message.{Message, user_message, assistant_message, function_message, text, FunctionCall}
use rtxag.FunctionCall.Building.{no_calls}
use rtxag.Payload.{Prompt, build_messages}
use rtxag.Payload.Entries.{configured}
use rtxag.OpenAi.{add_tool_call, add_at_index, add_at}
use rtxag.OpenAi.Prepare.{build_message}
use rtxag.OpenAi.Assembly.{begin_chunk}
use rtxag.Variants.Minimax.{minimax_handle_calls}
use rtxag.Variants.Mistral.{build_mistral_messages}
use rtxag.Variants.Mistral.Answers.{AreSentAs, build_mistral_messages-AreSentAs}
use rtxag.Variants.Zhipu.{build_zhipu_payload, build_zhipu_message, add_zhipu_configs, adjusted}
use rtxag.Variants.Zhipu.Bounds.{build_zhipu_payload-IsBetween, IsBetween}

abbrev dumps : Fields → String
dumps d = "{}"

abbrev call : String → FunctionCall
call i = record { id = i; name = "look"; arguments = end }

abbrev conversation : List Message
conversation =
    user_message (some (text "Look."))
    ∷ assistant_message none (some (call "a" ∷ call "b" ∷ []))
    ∷ function_message (some (text "a cat")) "b"
    ∷ function_message (some (text "a dog")) "a"
    ∷ []

abbrev drawn_id : ℕ → String
drawn_id zero = "r0"
drawn_id (suc zero) = "r1"
drawn_id (suc (suc n)) = "rn"

drawn_id-nonempty : (n : ℕ) → nonempty (drawn_id n) ≡ true
drawn_id-nonempty zero = refl
drawn_id-nonempty (suc zero) = refl
drawn_id-nonempty (suc (suc n)) = refl

build_mistral_messages-AreSentAs_example :
    (vs : Items) × (build_mistral_messages dumps drawn_id conversation
        (record { mistral_ids = []; next = 0 })
      ≡ ok vs)
    × AreSentAs dumps drawn_id [] conversation vs
unfolding build_message
build_mistral_messages-AreSentAs_example =
    build_mistral_messages-AreSentAs dumps drawn_id drawn_id-nonempty conversation
      ((_, refl), ((_, refl), ((_, refl), ((_, refl), tt))))
      (refl, ((λ i h. cc h), ((refl, refl), ((refl, refl), tt))))

abbrev prompt : Prompt
prompt = record {
  stream = false;
  provider_model_id = "glm-4";
  messages = user_message (some (text "Hello")) ∷ [];
  credentials = [];
  configs = ("temperature", some (int (pos 1))) ∷ [];
  function_call = none;
  functions = none;
}

abbrev payload : Fields
payload =
    field "messages"
      (arr (cons (obj (field "role" (str "user") (field "content" (str "Hello") end))) nil))
      (field "model" (str "glm-4")
        (field "stream" (Json.bool false) (field "temperature" (adjusted (int (pos 1))) end)))

build_zhipu_payload-IsBetween_example :
    (w : Json) × (lookup "temperature" payload ≡ some w) × IsBetween w
unfolding build_zhipu_payload build_messages build_zhipu_message build_message add_zhipu_configs
    assign configured
build_zhipu_payload-IsBetween_example =
    build_zhipu_payload-IsBetween dumps (λ i s. s) prompt payload "temperature" (int (pos 1)) refl
      refl (omega arith) refl

-- The second call of a stream is added to the first.
two_calls :
    (minimax_handle_calls (begin_chunk 0 "f" "{}") no_calls >>= λ (o, c).
    minimax_handle_calls (begin_chunk 1 "g" "{}") c >>= λ (o, d). ok d.names)
    ≡ ok ("f" ∷ [])
unfolding minimax_handle_calls get_key first item lookup add_tool_call add_at_index add_at
two_calls = refl
