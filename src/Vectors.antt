-- ===== src/Vectors.antt =====
-- The adapters for embeddings of codebase/llmhub/providers: openai, togetherai, mistralai, lm_studio,
-- localai, jina, azure_openai, cohere, custom_host, and, in Single, ollama and zhipu. What aiohttp
-- answers is a status, a text and a JSON; pydantic's conversions to vectors and indices are
-- parameters.
pub mod Reading
pub mod Single
pub mod Counting
mod Tests
use rtxag.Prelude.{
  ℕ, suc, String, Bool, true, false, ◌||◌, Option, none, some, List, [], ◌∷◌, ◌==◌, not, concat,
  if◌then◌else◌,
}
use rtxag.Prelude.Text.{drop_prefix, is_some}
use rtxag.Error.{ErrorCode, raised, Kind, Result, ok, err, ◌>>=◌, ◌>>◌, raise_http_error}
use rtxag.Json.{Json, Items, Fields, int, str, arr, obj, nil, cons, field, end, assign}
use rtxag.Json.Int.{pos}
use rtxag.Json.Access.{type_error, item}
use rtxag.Credentials.{Values}
use rtxag.FunctionCall.Building.{Services}
use rtxag.Model.{handle_response}
use rtxag.Payload.{credential, shown, json_header}
use rtxag.Vendors.{api_version, build_azure_openai_header}
use rtxag.OpenAi.Prepare.{bearer_header}
use rtxag.CustomHost.{check_black_list}
use rtxag.CustomHost.Formats.{HostRequest}
use rtxag.Embedding.{Output}

-- The texts as a JSON list.
abbrev pub texts_of : List String → Items
texts_of [] = nil
texts_of (s ∷ ss) = cons (str s) (texts_of ss)

-- What a loop goes over; a text or a dictionary that is not empty fails at its first row.
abbrev pub rows : Json → Result Items
rows (arr vs) = ok vs
rows (obj end) = ok nil
rows (str s) = if s == "" then ok nil else type_error "string indices must be integers"
rows _ = type_error "object is not iterable"

-- The arguments of `embed_text`: the model, the texts, the credentials, and whether the texts are
-- queries.
pub record Batch : Type 0 where
  pub provider_model_id : String
  pub input : List String
  pub credentials : Values
  pub is_query : Option Bool

-- `{"model": ..., "input": ...}`
abbrev model_and_input : String → List String → Fields → Fields
model_and_input id input more = field "model" (str id) (field "input" (arr (texts_of input)) more)

abbrev float_format : Fields
float_format = field "encoding_format" (str "float") end

abbrev resized : ℕ → String → Fields → Fields
resized n id payload = assign "model" (str id) (assign "dimensions" (int (pos n)) payload)

-- The sizes that OpenAI's models are asked for.
unfoldable pub with_dimensions : String → Fields → Fields
unfolding assign
with_dimensions id payload =
    if id == "text-embedding-3-small-512"
    then resized 512 "text-embedding-3-small" payload
    else if id == "text-embedding-3-small-1536"
    then resized 1536 "text-embedding-3-small" payload
    else if id == "text-embedding-3-large-256"
    then resized 256 "text-embedding-3-large" payload
    else if id == "text-embedding-3-large-1024"
    then resized 1024 "text-embedding-3-large" payload
    else payload

abbrev to : String → Fields → Fields → HostRequest
to url headers payload = record { api_url = some url; headers = headers; payload = payload }

abbrev pub openai_request : Batch → HostRequest
openai_request b =
    to "https://api.openai.com/v1/embeddings" (bearer_header "OPENAI_API_KEY" b.credentials) (
      with_dimensions b.provider_model_id
        (model_and_input b.provider_model_id b.input float_format))

abbrev pub togetherai_request : Batch → HostRequest
togetherai_request b =
    to "https://api.together.xyz/v1/embeddings" (bearer_header "TOGETHERAI_API_KEY" b.credentials)
      (model_and_input b.provider_model_id b.input end)

abbrev pub mistralai_request : Batch → HostRequest
mistralai_request b =
    to "https://api.mistral.ai/v1/embeddings" (bearer_header "MISTRAL_API_KEY" b.credentials)
      (model_and_input b.provider_model_id b.input float_format)

abbrev pub jina_request : Batch → HostRequest
jina_request b =
    to "https://api.jina.ai/v1/embeddings" (bearer_header "JINA_API_KEY" b.credentials)
      (model_and_input b.provider_model_id b.input end)

-- A request to a host of the user's own, without a model.
abbrev local_request : String → Batch → HostRequest
local_request name b = record {
  api_url = credential name b.credentials;
  headers = json_header;
  payload = field "input" (arr (texts_of b.input)) float_format;
}

abbrev pub lm_studio_request : Batch → HostRequest
lm_studio_request = local_request "LM_STUDIO_HOST"

abbrev pub localai_request : Batch → HostRequest
localai_request = local_request "LOCALAI_HOST"

-- `cohere_input_type_map[input_type]`, where no type is that of documents
abbrev cohere_input_type : Option Bool → String
cohere_input_type (some true) = "search_query"
cohere_input_type _ = "search_document"

abbrev pub cohere_request : Batch → HostRequest
cohere_request b =
    to "https://api.cohere.ai/v1/embed" (bearer_header "COHERE_API_KEY" b.credentials) (
      field "model" (str b.provider_model_id) (
        field "texts" (arr (texts_of b.input))
          (field "input_type" (str (cohere_input_type b.is_query)) end)))

-- `build_azure_text_url`
abbrev build_azure_text_url : Values → String
build_azure_text_url credentials = concat (
    "https://"
    ∷ shown (credential "AZURE_OPENAI_RESOURCE_NAME" credentials)
    ∷ ".openai.azure.com/openai/deployments/"
    ∷ shown (credential "AZURE_OPENAI_DEPLOYMENT_ID" credentials)
    ∷ "/embeddings?api-version="
    ∷ api_version (credential "AZURE_OPENAI_API_VERSION" credentials)
    ∷ [])

abbrev pub azure_openai_request : Batch → HostRequest
azure_openai_request b =
    to (build_azure_text_url b.credentials) (build_azure_openai_header b.credentials)
      (model_and_input b.provider_model_id b.input float_format)

-- The scheme of a host's address.
unfoldable check_scheme : Option String → Result (Unit {0})
unfolding drop_prefix
check_scheme none =
    err (raised Kind.attribute_error "'NoneType' object has no attribute 'startswith'")
check_scheme (some url) =
    if is_some (drop_prefix "http://" url) || is_some (drop_prefix "https://" url)
    then ok tt
    else raise_http_error ErrorCode.request_validation_error
        (concat ("Invalid provider url: " ∷ url ∷ ", must start with http:// or https://" ∷ []))

abbrev or_null : Option String → Json
or_null none = Json.null
or_null (some s) = str s

unfoldable pub custom_host_request : List String → Batch → Result HostRequest
unfolding check_black_list check_scheme
custom_host_request black_list b =
    let url = credential "CUSTOM_HOST_ENDPOINT_URL" b.credentials in
    check_black_list black_list url
    >> check_scheme url
    >> ok (record {
      api_url = url;
      headers = bearer_header "CUSTOM_HOST_API_KEY" b.credentials;
      payload =
          field "model" (or_null (credential "CUSTOM_HOST_MODEL_ID" b.credentials))
            (field "input" (arr (texts_of b.input)) float_format);
    })
