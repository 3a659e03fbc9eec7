-- ===== src/Stream.antt =====
-- codebase/llmhub/app/models/chat_completion/stream.py: the reader of a provider's stream, and the
-- decoder of server-sent events. UTF-8, the JSON parser and `int` of a text are parameters.
pub mod Reader
pub mod Decoder
mod Tests
use Prim.Native.String as Text
use rtxag.Prelude.{
  ℕ, String, Bool, true, false, not, ◌&&◌, ◌||◌, Option, none, some, List, [], ◌∷◌, ◌++◌, keep,
  nonempty, given, is_empty, concat, append, eqb, leb, ltb, code, ◌==◌, if◌then◌else◌,
}
use rtxag.Prelude.Text.{has_char, break_at, split_on, drop_prefix, has_text}
use rtxag.Error.{Exception, Result, ok, err, Run}
use rtxag.Json.{Json}
use rtxag.Json.Int.{ℤ}

-- What the reader uses of Python: the decoding of bytes, and `json.loads`, with none for a
-- JSONDecodeError.
pub record Codec : Type 1 where
  pub Bytes : Type 0
  pub utf8 : Bytes → Result String
  pub loads : String → Option Json

-- A chunk of the response: bytes, or a text as it is.
pub data Chunk (B : Type 0) : Type 0 where
  bytes : B → Chunk B
  chars : String → Chunk B

-- The white space of `str.strip`.
abbrev is_space : ℕ → Bool
is_space c =
    (leb 9 c && leb c 13)
    || (leb 28 c && leb c 32)
    || eqb c 133
    || eqb c 160
    || eqb c 5760
    || (leb 8192 c && leb c 8202)
    || eqb c 8232
    || eqb c 8233
    || eqb c 8239
    || eqb c 8287
    || eqb c 12288

-- `if line.strip()`
unfoldable pub has_ink : String → Bool
has_ink Text.[] = false
has_ink (Text.◌∷◌ c s) = not (is_space (code c)) || has_ink s

abbrev pub emit {ℓ} : {A : Type ℓ} → Option A → List A → List A
emit none rest = rest
emit (some a) rest = a ∷ rest

module _ (codec : Codec) where
  open codec use {Bytes, utf8, loads}

  abbrev with_lines : Result String → Run String → Run String
  with_lines (err e) rest = record { yielded = []; ended = some e }
  with_lines (ok s) rest = record {
    yielded = keep nonempty (split_on b'\n' s) ++ rest.yielded;
    ended = rest.ended;
  }

  -- `_iter_events`: the lines, and the exception of a chunk that is no UTF-8.
  unfoldable pub iter_events : List (Chunk Bytes) → Run String
  iter_events [] = record { yielded = []; ended = none }
  iter_events (bytes b ∷ rest) = with_lines (utf8 b) (iter_events rest)
  iter_events (chars s ∷ rest) =
      let later = iter_events rest in record { yielded = s ∷ later.yielded; ended = later.ended }

  abbrev data_of : Option String → String → Option Json
  data_of (some s) line = loads s
  data_of none line = if has_ink line then loads line else none

  -- What is yielded for a line: nothing if it is no JSON.
  unfoldable pub parse_line : String → Option Json
  unfolding drop_prefix has_ink
  parse_line line = data_of (drop_prefix "data:" line) line

  -- The loop of `__stream__`, which ends at the first line with the end mark.
  unfoldable pub stream_lines : List String → List Json
  unfolding parse_line has_text
  stream_lines [] = []
  stream_lines (line ∷ rest) =
      let later = stream_lines rest in
      if has_text "[DONE]" line then [] else emit (parse_line line) later

  -- `__stream__`: after the loop the rest of the stream is read, so its exceptions are raised.
  unfoldable pub stream : List (Chunk Bytes) → Run Json
  unfolding iter_events stream_lines
  stream chunks =
      let lines = iter_events chunks in
      record { yielded = stream_lines lines.yielded; ended = lines.ended }

-- `ServerSentEvent`
pub record ServerSentEvent : Type 0 where
  pub event : Option String
  pub data_text : String
  pub id : Option String
  pub retry : Option ℤ

-- The state of an `SSEDecoder`.
pub record SseDecoder : Type 0 where
  pub event : Option String
  pub data_lines : List String
  pub last_event_id : Option String
  pub retry : Option ℤ

abbrev pub fresh : SseDecoder
fresh = record { event = none; data_lines = []; last_event_id = none; retry = none }

abbrev is_none {ℓ} : {A : Type ℓ} → Option A → Bool
is_none none = true
is_none (some a) = false

-- sep.join(parts)
abbrev pub join : String → List String → String
join sep [] = ""
join sep (s ∷ []) = s
join sep (s ∷ t ∷ rest) = concat (s ∷ sep ∷ join sep (t ∷ rest) ∷ [])

-- `event or None`
abbrev pub or_none : Option String → Option String
or_none none = none
or_none (some s) = if nonempty s then some s else none

-- line.partition(":")
abbrev partitioned : String → Option (String × String) → String × String
partitioned line none = (line, "")
partitioned line (some p) = p

-- A leading space is left out.
abbrev pub unspaced : String → String
unspaced Text.[] = ""
unspaced (Text.◌∷◌ c s) = if eqb (code c) b' ' then s else Text.◌∷◌ c s

-- line.rstrip("\n")
unfoldable pub rstrip : String → String
rstrip Text.[] = ""
rstrip (Text.◌∷◌ c s) =
    let rest = rstrip s in if eqb (code c) b'\n' && not (nonempty rest) then "" else Text.◌∷◌ c rest

module _ (parse_int : String → Option ℤ) where
  abbrev set_retry : Option ℤ → SseDecoder → SseDecoder
  set_retry none d = d
  set_retry (some n) d = record d { retry = some n }

  unfoldable pub set_field : String → String → SseDecoder → SseDecoder
  unfolding has_char
  set_field name value d =
      if name == "event"
      then record d { event = some value }
      else if name == "data"
      then record d { data_lines = d.data_lines ++ value ∷ [] }
      else if name == "id"
      then (if has_char 0 value then d else record d { last_event_id = some value })
      else if name == "retry"
      then set_retry (parse_int value) d
      else d

  abbrev set_pair : String × String → SseDecoder → SseDecoder
  set_pair (name, value) d = set_field name (unspaced value) d

  abbrev pub idle : SseDecoder → Bool
  idle d =
      not (given d.event) && is_empty d.data_lines && not (given d.last_event_id) && is_none d.retry

  abbrev pub flushed : SseDecoder → Option ServerSentEvent × SseDecoder
  flushed d = (
    some (record {
      event = or_none d.event;
      data_text = join "\n" d.data_lines;
      id = d.last_event_id;
      retry = d.retry;
    }),
    record { event = none; data_lines = []; last_event_id = d.last_event_id; retry = none },
  )

  -- `decode`
  unfoldable pub decode : SseDecoder → String → Option ServerSentEvent × SseDecoder
  unfolding set_field break_at
  decode d Text.[] = if idle d then (none, d) else flushed d
  decode d (Text.◌∷◌ c s) =
      let line = Text.◌∷◌ c s in
      if eqb (code c) b':'
      then (none, d)
      else (none, set_pair (partitioned line (break_at b':' line)) d)

  -- `iter`
  unfoldable pub iter : SseDecoder → List String → List ServerSentEvent × SseDecoder
  unfolding decode rstrip
  iter d [] = ([], d)
  iter d (line ∷ rest) =
      let (sse, d') = decode d (rstrip line) in
      let (later, d'') = iter d' rest in (emit sse later, d'')
