-- ===== src/Route/Generator/Readback.antt =====
-- The events that the service sends, read by the reader of streams that it uses itself.
use rtxag.Prelude.{String, ◌≡◌, ap, ◌∙◌, Option, none, some, List, [], ◌∷◌, ◌++◌, map, All, append}
use rtxag.Error.{Exception, ok, Run}
use rtxag.Json.{Json, obj}
use rtxag.Stream.{Codec, Chunk, bytes, iter_events, stream}
use rtxag.Stream.Reader.{Plain, stream-frame, stream-done}
use rtxag.Route.{Event}
use rtxag.Route.Generator.{Printer, generator, data_line, error_lines, error_fields}

-- The error event of a stream that ended with an exception.
abbrev pub error_values : Option Exception → List Json
error_values none = []
error_values (some e) = obj (error_fields e) ∷ []

module _ (codec : Codec) (p : Printer) (to_bytes : String → codec.Bytes)
    (value : Event → Json) where
  -- The printed event is one line without the end mark, and parses.
  abbrev pub Printed : Event → Type 0
  Printed e =
      Plain (p.model_dump_json e)
      × (codec.loads (append " " (p.model_dump_json e)) ≡ some (value e))

  abbrev pub PrintedError : Option Exception → Type 0
  PrintedError none = Unit
  PrintedError (some e) =
      Plain (p.dumps (error_fields e))
      × (codec.loads (append " " (p.dumps (error_fields e))) ≡ some (obj (error_fields e)))

  abbrev sent : List String → List (Chunk codec.Bytes)
  sent ss = map (λ s. bytes (to_bytes s)) ss

  abbrev finished : List Json → Run Json
  finished vs = record { yielded = vs; ended = none }

  done :
      ((s : String) → codec.utf8 (to_bytes s) ≡ ok s)
      → stream codec (sent (data_line p "[DONE]" ∷ [])) ≡ finished []
  unfolding iter_events
  done u = stream-done codec (to_bytes (data_line p "[DONE]")) [] (u (data_line p "[DONE]"))

  error_then_done :
      (o : Option Exception)
      → ((s : String) → codec.utf8 (to_bytes s) ≡ ok s)
      → PrintedError o
      → stream codec (sent (error_lines p o ++ data_line p "[DONE]" ∷ []))
        ≡ finished (error_values o)
  error_then_done none u h = done u
  error_then_done (some e) u (plain, parses) =
      stream-frame codec (to_bytes (data_line p (p.dumps (error_fields e))))
        (p.dumps (error_fields e)) (obj (error_fields e)) (sent (data_line p "[DONE]" ∷ [])) (u _)
        plain parses
      ∙ ap (λ r. record { yielded = obj (error_fields e) ∷ r.yielded; ended = r.ended }) (done u)

  -- Where the sent bytes decode to the sent texts, and the printed events are single lines that
  -- parse and do not contain the end mark, a reader of the sent stream gets the value of every
  -- event in order, then the error of the exception that ended the stream, if there was one, and
  -- nothing else.
  pub stream-generator :
      (events : List Event) (ended : Option Exception)
      → ((s : String) → codec.utf8 (to_bytes s) ≡ ok s)
      → All Printed events
      → PrintedError ended
      → stream codec (sent (generator p (record { yielded = events; ended = ended })))
        ≡ finished (map value events ++ error_values ended)
  unfolding generator
  stream-generator [] ended u h e = error_then_done ended u e
  stream-generator (x ∷ xs) ended u ((plain, parses), h) e =
      stream-frame codec (to_bytes (data_line p (p.model_dump_json x))) (p.model_dump_json x)
        (value x) _ (u _) plain parses
      ∙ ap (λ r. record { yielded = value x ∷ r.yielded; ended = r.ended })
          (stream-generator xs ended u h e)
