-- ===== src/FunctionCall/Tests.antt =====
-- The validators of function calls on small requests, and the theorems about them at such inputs.
use rtxag.Prelude.{String, ◌≡◌, refl, some, [], ◌∷◌}
use rtxag.Error.{ok}
use rtxag.Json.{Fields, str, field, end, lookup}
use rtxag.FunctionCall.{ParametersData, validate_choice, has_name}

abbrev named : String → Fields
named s = field "name" (str s) end

chosen :
    validate_choice (some "f") (some (named "f" ∷ named "g" ∷ []))
    ≡ ok (some "f", some (named "f" ∷ []))
unfolding validate_choice lookup has_name
chosen = refl

abbrev weather : ParametersData
weather = record { properties = field "days" (str "int") end; required = some ("days" ∷ []) }
