-- ===== src/Vendors.antt =====
-- The adapters of codebase/llmhub/providers that are written like OpenAI's: yi, moonshot,
-- azure_openai, lm_studio, localai and ollama. Their messages, payloads and responses are OpenAI's,
-- and what differs is in a `Vendor`.
mod Tests
use rtxag.Prelude.{
  String, Bool, true, false, Option, none, some, [], ◌∷◌, nonempty, concat, if◌then◌else◌,
}
use rtxag.Error.{Result, ok}
use rtxag.Json.{Json, Fields, str, field}
use rtxag.Message.{Message}
use rtxag.Credentials.{Values}
use rtxag.FunctionCall.Building.{Services}
use rtxag.Addresses.{build_url}
use rtxag.Payload.{Prompt, Adapter, credential, shown, json_header}
use rtxag.OpenAi.Prepare.{Vendor, adapter, bearer_header, build_message, build_payload}

abbrev pub build_yi_header : Values → Fields
build_yi_header = bearer_header "YI_API_KEY"

abbrev pub yi_vendor : Vendor
yi_vendor = record {
  api_url = λ credentials. ok "https://api.lingyiwanwu.com/v1/chat/completions";
  build_header = build_yi_header;
  raises_limit = false;
  filtered = some "Yi content filter triggered, content was omitted";
}

abbrev pub build_moonshot_header : Values → Fields
build_moonshot_header = bearer_header "MOONSHOT_API_KEY"

abbrev pub moonshot_vendor : Vendor
moonshot_vendor = record {
  api_url = λ credentials. ok "https://api.moonshot.cn/v1/chat/completions";
  build_header = build_moonshot_header;
  raises_limit = false;
  filtered = some "Moonshot content filter triggered, content was omitted";
}

abbrev pub api_version : Option String → String
api_version none = "2023-05-15"
api_version (some s) = if nonempty s then s else "2023-05-15"

-- `build_azure_chat_url`
abbrev pub build_azure_chat_url : Values → String
build_azure_chat_url credentials = concat (
    "https://"
    ∷ shown (credential "AZURE_OPENAI_RESOURCE_NAME" credentials)
    ∷ ".openai.azure.com/openai/deployments/"
    ∷ shown (credential "AZURE_OPENAI_DEPLOYMENT_ID" credentials)
    ∷ "/chat/completions?api-version="
    ∷ api_version (credential "AZURE_OPENAI_API_VERSION" credentials)
    ∷ [])

abbrev pub build_azure_openai_header : Values → Fields
build_azure_openai_header credentials =
    field "api-key" (str (shown (credential "AZURE_OPENAI_API_KEY" credentials))) json_header

abbrev pub azure_openai_vendor : Vendor
azure_openai_vendor = record {
  api_url = λ credentials. ok (build_azure_chat_url credentials);
  build_header = build_azure_openai_header;
  raises_limit = true;
  filtered = some "Openai content filter triggered, content was omitted";
}

-- A server of the user's own, at the host that a credential names.
abbrev own_server : String → Vendor
own_server host = record {
  api_url = λ credentials. build_url (credential host credentials) "/v1/chat/completions";
  build_header = λ credentials. json_header;
  raises_limit = true;
  filtered = none;
}

abbrev pub lm_studio_vendor : Vendor
lm_studio_vendor = own_server "LM_STUDIO_HOST"

abbrev pub localai_vendor : Vendor
localai_vendor = own_server "LOCALAI_HOST"

abbrev pub ollama_vendor : Vendor
ollama_vendor = own_server "OLLAMA_HOST"

module _ (dumps : Fields → String) where
  abbrev pub build_yi_message : Message → Result Json
  build_yi_message = build_message dumps

  abbrev pub build_yi_payload : Prompt → Result Fields
  build_yi_payload = build_payload dumps false

  abbrev pub yi : Services → Adapter
  yi svc = adapter dumps svc yi_vendor

  abbrev pub build_moonshot_message : Message → Result Json
  build_moonshot_message = build_message dumps

  abbrev pub build_moonshot_payload : Prompt → Result Fields
  build_moonshot_payload = build_payload dumps false

  abbrev pub moonshot : Services → Adapter
  moonshot svc = adapter dumps svc moonshot_vendor

  abbrev pub build_azure_openai_message : Message → Result Json
  build_azure_openai_message = build_message dumps

  abbrev pub build_azure_openai_payload : Prompt → Result Fields
  build_azure_openai_payload = build_payload dumps true

  abbrev pub azure_openai : Services → Adapter
  azure_openai svc = adapter dumps svc azure_openai_vendor

  abbrev pub build_lm_studio_message : Message → Result Json
  build_lm_studio_message = build_message dumps

  abbrev pub build_lm_studio_payload : Prompt → Result Fields
  build_lm_studio_payload = build_payload dumps true

  abbrev pub lm_studio : Services → Adapter
  lm_studio svc = adapter dumps svc lm_studio_vendor

  abbrev pub build_localai_message : Message → Result Json
  build_localai_message = build_message dumps

  abbrev pub build_localai_payload : Prompt → Result Fields
  build_localai_payload = build_payload dumps true

  abbrev pub localai : Services → Adapter
  localai svc = adapter dumps svc localai_vendor

  abbrev pub build_ollama_message : Message → Result Json
  build_ollama_message = build_message dumps

  abbrev pub build_ollama_payload : Prompt → Result Fields
  build_ollama_payload = build_payload dumps true

  abbrev pub ollama : Services → Adapter
  ollama svc = adapter dumps svc ollama_vendor
