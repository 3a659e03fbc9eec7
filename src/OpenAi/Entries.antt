-- ===== src/OpenAi/Entries.antt =====
-- What a request to OpenAI says: the entries of its payload.
use rtxag.Prelude.{
  ◌≡◌, refl, ◌∙◌, ◌==◌, ◌&&◌, String, Bool, true, false, Option, none, some, List, [], ◌∷◌,
  if◌then◌else◌, arith, eq_iff, contains, All, nonempty, ◌⊎◌, inl, inr,
}
use rtxag.Prelude.Text.{has_text}
use rtxag.Error.{ok, ok-bind, ok_injective}
use rtxag.Json.{Json, Items, Fields, bool, int, str, arr, lookup}
use rtxag.Json.Int.{pos}
use rtxag.Config.{Configuration}
use rtxag.Config.Merge.{lookup-assign}
use rtxag.FunctionCall.Dump.{Function}
use rtxag.Payload.{
  Prompt, HttpRequest, build_messages, add_configs, base_payload, add_tool_choice, add_tools,
  tool_choice, tools,
}
use rtxag.Payload.Entries.{or_earlier, configured, lookup-add_configs}
use rtxag.OpenAi.Prepare.{Vendor, prepare_request, build_payload, build_message, raise_limit}

abbrev reserved : List String
reserved = "messages" ∷ "model" ∷ "stream" ∷ "tool_choice" ∷ "tools" ∷ []

-- A name under which a configuration has a value, as all fields of its class.
abbrev pub IsSetting : String × Option Json → Type 0
IsSetting (key, value) = contains key reserved ≡ false

abbrev pub chosen : Option String → Option Json
chosen none = none
chosen (some s) = if nonempty s then some (tool_choice s) else none

abbrev pub offered : Option (List Function) → Option Json
offered none = none
offered (some []) = none
offered (some (f ∷ fs)) = some (arr (tools (f ∷ fs)))

-- The value of a setting: the configured one, or the limit that the adapter sets itself.
abbrev pub setting : Bool → Prompt → String → Option Json
setting raises p k = or_earlier (configured k p.configs) (
    if "max_tokens" == k && raises && has_text "vision" p.provider_model_id
    then some (int (pos 4096))
    else none)

unset :
    (k : String) (cs : Configuration)
    → contains k reserved ≡ true
    → All IsSetting cs
    → configured k cs ≡ none
unfolding configured
unset k [] h a = refl
unset k ((j, none) ∷ cs) h (q, a) = unset k cs h a
unset k ((j, some v) ∷ cs) h (q, a) = ground (arith, eq_iff j k, unset k cs h a)

pub lookup-add_tools :
    (k : String) (fs : Option (List Function)) (d : Fields)
    → lookup k (add_tools fs d)
      ≡ or_earlier (if "tools" == k then offered fs else none) (lookup k d)
lookup-add_tools k none d = ground arith
lookup-add_tools k (some []) d = ground arith
lookup-add_tools k (some (f ∷ fs)) d =
    ground (arith, lookup-assign "tools" k (arr (tools (f ∷ fs))) d)

pub lookup-add_tool_choice :
    (k : String) (o : Option String) (d : Fields)
    → lookup k (add_tool_choice o d)
      ≡ or_earlier (if "tool_choice" == k then chosen o else none) (lookup k d)
lookup-add_tool_choice k none d = ground arith
lookup-add_tool_choice k (some s) d =
    ground (arith, lookup-assign "tool_choice" k (tool_choice s) d)

option_cases : (o : Option Json) → (o ≡ none) ⊎ ((v : Json) × (o ≡ some v))
option_cases none = inl refl
option_cases (some v) = inr (v, refl)

lookup-raise_limit :
    (k : String) (raises : Bool) (i : String) (d : Fields)
    → lookup k (raise_limit raises i d)
      ≡ or_earlier (lookup k d) (
          if "max_tokens" == k && raises && has_text "vision" i
          then some (int (pos 4096))
          else none)
lookup-raise_limit k raises i d = elim (option_cases (lookup "max_tokens" d)) [
  | inl absent ↦
      ground (arith, eq_iff "max_tokens" k, lookup-assign "max_tokens" k (int (pos 4096)) d)
  | inr (v, found) ↦ ground (arith, eq_iff "max_tokens" k)
]

-- The entries of a payload that was made for a prompt with these messages.
abbrev pub Carries : Bool → Prompt → Items → Fields → Type 0
Carries raises p ms d =
    (lookup "messages" d ≡ some (arr ms))
    × (lookup "model" d ≡ some (str p.provider_model_id))
    × (lookup "stream" d ≡ some (bool p.stream))
    × (lookup "tool_choice" d ≡ chosen p.function_call)
    × (lookup "tools" d ≡ offered p.functions)
    × ((k : String) → contains k reserved ≡ false → lookup k d ≡ setting raises p k)

module _ (raises : Bool) (p : Prompt) (ms : Items) where
  abbrev assembled : Fields
  assembled = add_tools p.functions (
      add_tool_choice p.function_call
        (raise_limit raises p.provider_model_id (add_configs p.configs (base_payload ms p))))

  lookup-assembled :
      (k : String)
      → lookup k assembled
        ≡ or_earlier (if "tools" == k then offered p.functions else none) (
            or_earlier (if "tool_choice" == k then chosen p.function_call else none) (
              or_earlier (or_earlier (configured k p.configs) (lookup k (base_payload ms p))) (
                if "max_tokens" == k && raises && has_text "vision" p.provider_model_id
                then some (int (pos 4096))
                else none)))
  lookup-assembled k =
      rw
        (
          lookup-add_tools k p.functions,
          lookup-add_tool_choice k p.function_call,
          lookup-raise_limit k raises p.provider_model_id,
          lookup-add_configs k p.configs,
        )
        refl

  assembled_entry :
      (k : String)
      → contains k reserved ≡ true
      → All IsSetting p.configs
      → lookup k assembled
        ≡ or_earlier (if "tools" == k then offered p.functions else none) (
            or_earlier (if "tool_choice" == k then chosen p.function_call else none) (
              or_earlier (lookup k (base_payload ms p)) (
                if "max_tokens" == k && raises && has_text "vision" p.provider_model_id
                then some (int (pos 4096))
                else none)))
  assembled_entry k h a = rw (lookup-assembled k, unset k p.configs h a) refl

  or_earlier-none : (o : Option Json) → or_earlier o none ≡ o
  or_earlier-none none = refl
  or_earlier-none (some v) = refl

  assembled-setting :
      (k : String) → contains k reserved ≡ false → lookup k assembled ≡ setting raises p k
  unfolding lookup
  assembled-setting k h = lookup-assembled k ∙ ground arith

  assembled-Carries : All IsSetting p.configs → Carries raises p ms assembled
  unfolding lookup
  assembled-Carries a = (
    assembled_entry "messages" refl a,
    assembled_entry "model" refl a,
    assembled_entry "stream" refl a,
    assembled_entry "tool_choice" refl a ∙ or_earlier-none (chosen p.function_call),
    assembled_entry "tools" refl a ∙ or_earlier-none (offered p.functions),
    assembled-setting,
  )

build_payload-Carries :
    (dumps : Fields → String) (raises : Bool) (p : Prompt) (d : Fields)
    → All IsSetting p.configs
    → build_payload dumps raises p ≡ ok d
    → (ms : Items) × (build_messages (build_message dumps) p.messages ≡ ok ms)
      × Carries raises p ms d
unfolding build_payload
build_payload-Carries dumps raises p d a h =
    let (ms, q, e) = ok-bind _ (build_messages (build_message dumps) p.messages) h in
    (ms, q, rw (← ok_injective (assembled raises p ms) d e) (assembled-Carries raises p ms a))

-- For every vendor: a request that is prepared goes to the vendor's address with its headers, and
-- its payload says what the prompt says: the built messages in their order, the model, whether to
-- stream, the choice of tools and the tools where there are any, and each setting that the
-- configuration holds; a limit of 4096 tokens stands in it besides only where the vendor raises the
-- limit, the model's id has "vision" in it and the configuration sets no limit. The configuration
-- uses none of the five names that the adapter itself sets.
pub prepare_request-Carries :
    (dumps : Fields → String) (vendor : Vendor) (p : Prompt) (r : HttpRequest)
    → All IsSetting p.configs
    → prepare_request dumps vendor p ≡ ok r
    → (vendor.api_url p.credentials ≡ ok r.api_url)
      × (r.headers ≡ vendor.build_header p.credentials)
      × ((ms : Items) × (build_messages (build_message dumps) p.messages ≡ ok ms)
          × Carries vendor.raises_limit p ms r.payload)
unfolding prepare_request
prepare_request-Carries dumps vendor p r a h =
    let (url, q, h1) = ok-bind _ (vendor.api_url p.credentials) h in
    let (payload, h2, e) = ok-bind _ (build_payload dumps vendor.raises_limit p) h1 in
    let same = ok_injective _ r e in
    (
      rw (q, ← same) refl,
      rw (← same) refl,
      rw (← same) (build_payload-Carries dumps vendor.raises_limit p payload a h2),
    )
