-- ===== src/Route/Generator.antt =====
-- codebase/llmhub/app/routes/chat_completion/route.py, `generator`: a stream of responses is sent as
-- server-sent events. `model_dump_json` and `json.dumps` are parameters.
pub mod Readback
use rtxag.Prelude.{ℕ, String, List, [], ◌∷◌, ◌++◌, Option, none, some, map, concat}
use rtxag.Error.{ErrorCode, code_value, Exception, http, raised, Run}
use rtxag.Json.{Json, Fields, str, field, end}
use rtxag.Route.{Event}

pub record Printer : Type 0 where
  pub model_dump_json : Event → String
  pub dumps : Fields → String

-- `error_message` of app/error/error_code.py
abbrev pub error_message : String → ErrorCode → Fields
error_message message c =
    field "object" (str "Error")
      (field "code" (str (code_value c)) (field "message" (str message) end))

-- The handlers of the generator.
abbrev pub error_fields : Exception → Fields
error_fields (http e) = error_message e.message ErrorCode.provider_error
error_fields (raised k s) = error_message s ErrorCode.unknown_error

module _ (p : Printer) where
  -- f"data: {s}\n\n"
  abbrev pub data_line : String → String
  data_line s = concat ("data: " ∷ s ∷ "\n\n" ∷ [])

  abbrev pub error_lines : Option Exception → List String
  error_lines none = []
  error_lines (some e) = data_line (p.dumps (error_fields e)) ∷ []

  unfoldable pub generator : Run Event → List String
  generator run =
      map (λ e. data_line (p.model_dump_json e)) run.yielded
      ++ (error_lines run.ended ++ data_line "[DONE]" ∷ [])
