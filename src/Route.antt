-- ===== src/Route.antt =====
-- codebase/llmhub/app/routes/chat_completion/route.py: a request is tried on the primary model and
-- then on each fallback. The registry of models and what a model answers are the interface `Models`.
pub mod Fallback
pub mod Generator
pub mod Partial
pub mod Api
mod Tests
use rtxag.Prelude.{
  ℕ, zero, suc, ◌-◌, String, Bool, true, false, Option, none, some, List, [], ◌∷◌, ◌++◌, map,
  concat, ltb, if◌then◌else◌,
}
use rtxag.Error.{
  ErrorCode, TkHttpException, Exception, http, raised, Kind, Run, Result, ok, err, ◌>>=◌, ◌>>◌,
  http_error, raise_http_error,
}
use rtxag.Message.{Message, ChatCompletion, ChatCompletionChunk}
use rtxag.Json.{Fields}
use rtxag.Schema.{ModelInfo}
use rtxag.Config.{Configuration}
use rtxag.Credentials.{Values}

-- What every attempt is given.
pub record Call : Type 0 where
  pub messages : List Message
  pub credentials : Values
  pub configs : Configuration
  pub function_call : Option String
  pub functions : Option (List Fields)

-- An item of a stream of responses.
pub data Event : Type 0 where
  chunk : ChatCompletionChunk → Event
  completion : ChatCompletion → Event

-- `get_chat_completion_model` and the two inference methods of a model. The number is that of the
-- attempt, since two calls of a service need not answer alike.
pub record Models : Type 1 where
  pub Model : Type 0
  pub get_model : String → Result (Option Model)
  pub complete : Call → ℕ → Model → String → Result ChatCompletion
  pub stream : Call → ℕ → Model → String → Run Event

abbrev pub unsupported : String → Exception
unsupported provider_id =
    http_error ErrorCode.request_validation_error (
      concat
        ("Provider " ∷ provider_id ∷ " is not supported through the chat_completion API." ∷ []))

-- The handlers of `chat_completion`: what is kept as the last exception.
unfoldable pub convert : Exception → Exception
convert (http e) = http e
convert (raised Kind.invalid_url s) = http_error ErrorCode.request_validation_error s
convert (raised Kind.connection_error s) = http_error ErrorCode.request_validation_error s
convert (raised _ s) = http_error ErrorCode.internal_server_error s

-- `if i > 0: response.fallback_index = i - 1`
abbrev pub mark : ℕ → ChatCompletion → ChatCompletion
mark i r = if ltb 0 i then record r { fallback_index = some (i - 1) } else r

abbrev pub mark_event : ℕ → Event → Event
mark_event i (chunk c) = chunk c
mark_event i (completion r) = completion (mark i r)

-- The end of the loop: the last exception is raised; without one `None` is returned.
abbrev raise_last {ℓ} : {A : Type ℓ} → Option Exception → Result (Option A)
raise_last none = ok none
raise_last (some e) = err e

module _ (ms : Models) (call : Call) where
  open ms use {Model, get_model, complete, stream}

  -- The outcome of an attempt, and what the later models would give.
  abbrev after_attempt :
      ℕ
      → Result ChatCompletion
      → (Exception → Result (Option ChatCompletion))
      → Result (Option ChatCompletion)
  after_attempt i (ok r) later = ok (some (mark i r))
  after_attempt i (err e) later = later (convert e)

  -- A provider whose model cannot be loaded raises outside of the handlers.
  abbrev with_model :
      ℕ
      → ModelInfo
      → Result (Option Model)
      → (Exception → Result (Option ChatCompletion))
      → Result (Option ChatCompletion)
  with_model i info (err e) later = err e
  with_model i info (ok none) later = later (unsupported info.model_schema.provider_id)
  with_model i info (ok (some m)) later =
      after_attempt i (complete call i m info.provider_model_id) later

  unfoldable pub try_models : ℕ → Option Exception → List ModelInfo → Result (Option ChatCompletion)
  unfolding convert
  try_models i last [] = raise_last last
  try_models i last (info ∷ infos) =
      with_model i info (get_model info.model_schema.provider_id)
        (λ e. try_models (suc i) (some e) infos)

  -- `chat_completion`
  unfoldable pub chat_completion : List ModelInfo → Result (Option ChatCompletion)
  unfolding try_models
  chat_completion [] = raise_http_error ErrorCode.internal_server_error "No model info provided."
  chat_completion (info ∷ infos) = try_models 0 none (info ∷ infos)

  -- What is yielded before and after, with the exception that ends the later part.
  abbrev followed_by : List Event → Run Event → Run Event
  followed_by before run = record { yielded = before ++ run.yielded; ended = run.ended }

  -- The streaming loop keeps the exception as it is, and what was yielded stays yielded.
  abbrev after_stream : List Event → Option Exception → (Exception → Run Event) → Run Event
  after_stream events none later = record { yielded = events; ended = none }
  after_stream events (some e) later = followed_by events (later e)

  abbrev with_stream : ℕ → ModelInfo → Result (Option Model) → (Exception → Run Event) → Run Event
  with_stream i info (err e) later = record { yielded = []; ended = some e }
  with_stream i info (ok none) later = later (unsupported info.model_schema.provider_id)
  with_stream i info (ok (some m)) later =
      let run = stream call i m info.provider_model_id in
      after_stream (map (mark_event i) run.yielded) run.ended later

  unfoldable pub try_streams : ℕ → Option Exception → List ModelInfo → Run Event
  try_streams i last [] = record { yielded = []; ended = last }
  try_streams i last (info ∷ infos) =
      with_stream i info (get_model info.model_schema.provider_id)
        (λ e. try_streams (suc i) (some e) infos)

  -- `chat_completion_stream`
  unfoldable pub chat_completion_stream : List ModelInfo → Run Event
  unfolding try_streams
  chat_completion_stream [] = record {
    yielded = [];
    ended = some (http_error ErrorCode.internal_server_error "No model info provided.");
  }
  chat_completion_stream (info ∷ infos) = try_streams 0 none (info ∷ infos)
