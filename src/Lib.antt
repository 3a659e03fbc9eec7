-- ===== src/Lib.antt =====
-- LLMHub (codebase/llmhub), the inference service of the repository: it takes requests for chat
-- completions, text embeddings and reranking, checks them, finds the model and its credentials, calls
-- the provider's API with fallbacks, and answers, streamed or not. Here its core is modelled.
--
-- How the parts interact. A request is parsed and its conversation is validated (Request). The schema
-- of each model that it names, the primary one and the fallbacks, is found in the catalog (Cache) and
-- gives the model info (Schema); the credentials for all of them are loaded (Credentials), and the
-- configuration is checked against the constraints of every model (Config). The route (Route) then
-- tries the models in order; a model (Model) turns the provider's response, or its stream of
-- server-sent events (Stream), into a completion. Embedding, Rerank and Verify are the other
-- routes; the adapters (OpenAi, Anthropic and those below) build the requests of a model and read its
-- responses.
--
-- Files and code, with paths under codebase/llmhub:
--   Prelude             shared names, Boolean tests on native numbers, lists, Python dictionaries as
--                       association lists in insertion order (Assoc), texts by characters (Text)
--   Error               app/error/error_code.py; a call that may raise returns `Result`, a generator
--                       returns `Run`: what it yielded and the exception that ended it
--   Json                JSON and YAML values; numbers are decimals; Access takes values out of them
--   Message             app/models/chat_completion/chat_completion.py, the data types
--   Request             app/routes/chat_completion/schema.py: `_convert_message`, `validate_message`,
--                       `validate_messages`. Calls is about the loop over the calls, Merging about
--                       the loop that merges, Validation and Turns about the whole, Conversion about
--                       the parsing of a message
--   FunctionCall        app/models/chat_completion/function_call.py; Building has the building of calls
--                       in app/models/chat_completion/model.py
--   Properties          the types of models and the properties of the two model_config.py
--   Schema              app/models/model_schema.py
--   Config              app/models/model_config/model_config_schema.py and
--                       `validate_chat_completion_model`
--   Credentials         app/models/provider_credentials.py, the AES functions of app/models/utils.py,
--                       `load_str_env` of config.py; Validate has `validate_credentials`
--   Route               app/routes/chat_completion/route.py: the two loops over models; Generator has
--                       the server-sent events, Api the handler of the request
--   Stream              app/models/chat_completion/stream.py: `AsyncStream` and `SSEDecoder`
--   Model               app/models/chat_completion/model.py, from the provider's response on
--   Payload             what the adapters of providers share: `Prompt`, `HttpRequest`, `Adapter`; the
--                       dump of functions is in FunctionCall/Dump
--   Addresses           app/utils/utils.py: image URLs in base64, `build_url`
--   OpenAi              providers/openai/chat_completion.py: the methods that read responses; Prepare
--                       has the request
--   Vendors             the adapters that differ from it in values: azure_openai, yi, moonshot,
--                       lm_studio, localai and ollama
--   Variants            the adapters that differ from it in some methods: groq; TogetherAi, LlamaApi,
--                       Minimax, Zhipu and Mistral have one each
--   Anthropic           providers/anthropic/chat_completion.py; Prepare has the request
--   Gemini              providers/google_gemini/chat_completion.py; Prepare has the request
--   Cohere              providers/cohere/chat_completion.py
--   CustomHost          providers/custom_host: the model that chooses between two formats; Formats has
--                       the two
--   Embedding           app/routes/text_embedding/route.py
--   Vectors             providers/*/text_embedding.py of openai, togetherai, mistralai, lm_studio,
--                       localai, jina, azure_openai, cohere, custom_host, ollama and zhipu: Reading has
--                       the answers, Single the two that send texts one by one
--   Rerank              app/routes/rerank/route.py, providers/cohere/rerank.py, providers/jina/rerank.py
--   Verify              app/routes/verify/route.py
--   Cache               app/cache/chat_completion.py and app/utils/i18n.py; Catalog has
--                       app/cache/model_schema.py, Providers app/cache/provider.py
-- Examples of the results below stand in the child modules Tests.
--
-- State. Objects that the code changes in place are passed along: the loops over messages have their
-- variables in `Scan` and `Merge`, `ProviderCredentials` is the dictionary `Values`, the configuration
-- of a request is returned by each check that changes it, the streaming loop has `Progress`, and the
-- registries and the catalog are values before and after. An attempt or a batch is given its number,
-- so that two calls of a service need not answer alike.
--
-- Parameters. Code of other packages is an argument: AES and base64 (`CipherSuite`, with the laws
-- `IsSound` where decryption is claimed), pydantic's conversions (`Coercion`), UTF-8, `json.loads` and
-- `model_dump_json` (`Codec`, `Printer`), `json.dumps`, Python's `str` of a value, the
-- signature of a token, the clock, random ids and the token counter (`Services`), the network of the
-- adapters for embeddings and reranking (`Client`), numpy and `asyncio.gather` (`Embedder`: which of
-- several exceptions is raised is chosen freely), the methods of a provider (`Models`, `ChatModel`),
-- and what the files of a provider contain.
--
-- Bounds and fuel. Recursion is structural but for two places. The search for further sets of
-- credentials (`more_sets`) is an endless loop in the code and takes fuel; it is proved when it ends,
-- and with how much fuel, and that it does not end in one case. Batches are cut with the length of the
-- input as fuel, which is enough since each takes at least one item. Python's integers have no bound,
-- so numbers are natural numbers or integers.
--
-- Not modelled: HTTP itself, logging, the adapters that are not named above, the count of tokens, the
-- answers of the routes for models, pydantic's checks of declared types, and the parts of the
-- repository in other languages.
pub mod Prelude
pub mod Error
pub mod Json
pub mod Message
pub mod Request
pub mod FunctionCall
pub mod Properties
pub mod Schema
pub mod Config
pub mod Credentials
pub mod Stream
pub mod Route
pub mod Model
pub mod Payload
pub mod Addresses
pub mod OpenAi
pub mod Anthropic
pub mod Vendors
pub mod CustomHost
pub mod Variants
pub mod Vectors
pub mod Rerank
pub mod Cohere
pub mod Gemini
pub mod Embedding
pub mod Verify
pub mod Cache
