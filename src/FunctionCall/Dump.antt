-- ===== src/FunctionCall/Dump.antt =====
-- codebase/llmhub/app/models/chat_completion/function_call.py: the functions of a request as data,
-- and how they are dumped for a provider.
use rtxag.Prelude.{String, Option, none, some, List, [], ◌∷◌}
use rtxag.Json.{Json, Items, Fields, str, arr, obj, nil, cons, field, end}

-- `ChatCompletionFunctionParametersProperty`; of `items` it is the type.
pub record Property : Type 0 where
  pub kind : String
  pub items : Option String
  pub description : String
  pub enum : Option (List String)

pub record Parameters : Type 0 where
  pub properties : List (String × Property)
  pub kind : String
  pub required : List String

-- `ChatCompletionFunction`
pub record Function : Type 0 where
  pub name : String
  pub description : String
  pub parameters : Parameters

abbrev pub texts : List String → Items
texts [] = nil
texts (s ∷ ss) = cons (str s) (texts ss)

abbrev items_entry : Option String → Fields → Fields
items_entry none rest = rest
items_entry (some t) rest = field "items" (obj (field "type" (str t) end)) rest

abbrev enum_entry : Option (List String) → Fields
enum_entry none = end
enum_entry (some values) = field "enum" (arr (texts values)) end

-- `param.model_dump(exclude_none=True)`
abbrev pub dump_property : Property → Json
dump_property p = obj (
    field "type" (str p.kind)
      (items_entry p.items (field "description" (str p.description) (enum_entry p.enum))))

abbrev dump_properties : List (String × Property) → Fields
dump_properties [] = end
dump_properties ((name, p) ∷ ps) = field name (dump_property p) (dump_properties ps)

-- `ChatCompletionFunctionParameters.model_dump`
abbrev pub dump_parameters : Parameters → Json
dump_parameters p = obj (
    field "type" (str p.kind) (
      field "properties" (obj (dump_properties p.properties))
        (field "required" (arr (texts p.required)) end)))

-- `ChatCompletionFunction.model_dump`
abbrev pub dump_function : Function → Json
dump_function f = obj (
    field "name" (str f.name) (
      field "description" (str f.description)
        (field "parameters" (dump_parameters f.parameters) end)))

-- `[f.model_dump() for f in functions]`
abbrev pub dump_functions : List Function → Items
dump_functions [] = nil
dump_functions (f ∷ fs) = cons (dump_function f) (dump_functions fs)
