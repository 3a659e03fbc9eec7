-- ===== src/OpenAi/Errors.antt =====
-- What a client sees of an error that OpenAI reports in a stream.
use Prim.Native.String as Text
use rtxag.Prelude.{
  ℕ, suc, String, ◌≡◌, refl, ap, ◌∙◌, append, Option, some, List, [], ◌∷◌, ◌++◌, map, length, false,
}
use rtxag.Error.{ErrorCode, Exception, raised, Kind, err, Run}
use rtxag.Json.{Json, Fields, obj, field, lookup}
use rtxag.Json.Access.{get_key, first}
use rtxag.Schema.{ModelInfo}
use rtxag.Model.{Progress, started, stream_from, stream_completion, handle_response}
use rtxag.FunctionCall.Building.{Services}
use rtxag.OpenAi.{
  openai, first_choice, stream_check_error, stream_extract_chunk, stream_handle_function_calls,
  stream_extract_finish_reason,
}
use rtxag.OpenAi.Agreement.{text_event, pieces_of}
use rtxag.Route.{Models, Call, Event, chunk, mark_event, chat_completion_stream}
use rtxag.Route.Partial.{
  attempt, Loaded, BreakOff, sent_by, transcript, infos, chat_completion_stream-broken,
}
use rtxag.Route.Generator.{Printer, generator, data_line, error_message}

abbrev concatenation_error : String
concatenation_error = "can only concatenate str (not \"dict\") to str"

checked :
    (fs : Fields) (k : String) (v : Json) (rest : Fields)
    → lookup "error" fs ≡ some (obj (field k v rest))
    → stream_check_error (obj fs) ≡ err (raised Kind.type_error concatenation_error)
unfolding stream_check_error get_key
checked fs k v rest h = rw h refl

-- An `error` of an event that is an object with an entry.
abbrev pub ReportsError : Fields → Type 0
ReportsError fs =
    (k : String) × (v : Json) × (rest : Fields) × (lookup "error" fs ≡ some (obj (field k v rest)))

marked :
    (k now i : ℕ) (ts : List String) → map (mark_event k) (pieces_of now i ts) ≡ pieces_of now i ts
marked k now i [] = refl
marked k now i (Text.[] ∷ ts) = marked k now i ts
marked k now i (Text.◌∷◌ c t ∷ ts) = rw (marked k now (suc i) ts) refl

module _ (svc : Services) (n : ℕ) where
  -- Pieces of text, then the error.
  broken :
      (p : Progress) (ts : List String) (fs : Fields) (later : List Json) (last : Option Exception)
      → ReportsError fs
      → stream_from svc (openai svc) n p (map text_event ts ++ obj fs ∷ later) last ≡ record {
        yielded = pieces_of svc.now p.next_index ts;
        ended = some (raised Kind.type_error concatenation_error);
      }
  unfolding stream_from lookup get_key first first_choice stream_check_error stream_extract_chunk
      stream_handle_function_calls stream_extract_finish_reason
  broken p [] fs later last (k, v, rest, h) = rw (checked fs k v rest h) refl
  broken p (Text.[] ∷ ts) fs later last h =
      broken (record p { text_content = append p.text_content ""; empty_stream = false }) ts fs
        later last h
  broken p (Text.◌∷◌ c t ∷ ts) fs later last h =
      ap
        (λ (r : Run Event). record {
          yielded =
              chunk
                (record { index = p.next_index; delta = Text.◌∷◌ c t; created_timestamp = svc.now })
              ∷ r.yielded;
          ended = r.ended;
        })
        (broken
          (record p {
            next_index = suc p.next_index;
            text_content = append p.text_content (Text.◌∷◌ c t);
            empty_stream = false;
          })
          ts fs later last h)

  module _ (ms : Models) (call : Call) (printer : Printer) where
    open ms use {Model}

    abbrev pub lines_of : List Event → List String
    lines_of es = map (λ e. data_line printer (printer.model_dump_json e)) es

    -- Where OpenAI is the last of the models that a request names, all before it broke off, it
    -- answers with status 200, and an event of its stream, behind pieces of text, has an object with
    -- an entry as its `error`: what is sent is what the broken models had yielded, the chunks for the
    -- pieces, the message of a TypeError under the code UNKNOWN_ERROR, and the end mark, whatever the
    -- object says and whatever follows it.
    pub generator-stream_error :
        (xs : List (ModelInfo × Model)) (x : ModelInfo × Model) (ts : List String) (fs : Fields)
        (later : List Json) (last : Option Exception) (body : String)
        → ReportsError fs
        → BreakOff ms call 0 xs
        → Loaded ms call x
        → attempt ms call (length xs) x
          ≡ stream_completion svc
              (openai svc)
              n
              200
              body
              (record { yielded = map text_event ts ++ obj fs ∷ later; ended = last })
        → generator printer (chat_completion_stream ms call (infos ms call xs ++ x.0 ∷ []))
          ≡ lines_of (transcript ms call 0 xs ++ pieces_of svc.now 0 ts)
            ++ (data_line printer
                  (printer.dumps (error_message concatenation_error ErrorCode.unknown_error))
                ∷ data_line printer "[DONE]"
                ∷ [])
    unfolding generator stream_completion handle_response
    generator-stream_error xs x ts fs later last body h broke loaded a =
        let e = a ∙ broken started ts fs later last h in
        let sent : sent_by ms call (length xs) x ≡ pieces_of svc.now 0 ts =
          ap (λ r. map (mark_event (length xs)) r.yielded) e ∙ marked (length xs) svc.now 0 ts in
        rw
          (
            chat_completion_stream-broken ms call xs x (raised Kind.type_error concatenation_error)
                broke loaded (ap (λ r. r.ended) e),
            sent,
          )
          refl
