-- ===== src/Stream/Decoder.antt =====
-- Server-sent events that are written by the protocol are decoded again.
use Prim.Native.String as Text
use rtxag.Prelude.{
  String, ◌≡◌, refl, ap, ◌∙◌, true, false, Option, none, some, List, [], ◌∷◌, ◌++◌, map, All,
  append, nonempty, arith, append_assoc, append-nil,
}
use rtxag.Prelude.Text.{has_char, break_at}
use rtxag.Json.Int.{ℤ}
use rtxag.Stream.{ServerSentEvent, SseDecoder, join, decode, iter, rstrip, set_field, idle, or_none}

-- An event to be sent: the lines of its data, at least one.
pub record Sent : Type 0 where
  pub id : Option String
  pub event : Option String
  pub first : String
  pub others : List String

abbrev line_of : String → String → String
line_of name value = append name (append ": " value)

abbrev optional_line : String → Option String → List String
optional_line name none = []
optional_line name (some s) = line_of name s ∷ []

-- The lines of an event, the empty one at its end included.
abbrev pub encode : Sent → List String
encode m =
    optional_line "id" m.id
    ++ optional_line "event" m.event
    ++ map (line_of "data") (m.first ∷ m.others)
    ++ "" ∷ []

abbrev pub encode_all : List Sent → List String
encode_all [] = []
encode_all (m ∷ ms) = encode m ++ encode_all ms

-- The last id that was sent holds until there is another.
abbrev pub carried : Option String → Option String → Option String
carried old none = old
carried old (some i) = some i

-- What a receiver is to see, given the last id so far.
abbrev pub received : Option String → List Sent → List ServerSentEvent
received last [] = []
received last (m ∷ ms) =
    record {
      event = m.event;
      data_text = join "\n" (m.first ∷ m.others);
      id = carried last m.id;
      retry = none;
    }
    ∷ received (carried last m.id) ms

abbrev OneLine : String → Type 0
OneLine s = has_char b'\n' s ≡ false

abbrev OptionalLine : Option String → Type 0
OptionalLine none = Unit
OptionalLine (some s) = OneLine s × (nonempty s ≡ true)

abbrev IdLine : Option String → Type 0
IdLine none = Unit
IdLine (some s) = OneLine s × (has_char 0 s ≡ false)

-- No value contains a newline, an event name is not empty, and an id has no NUL.
abbrev pub Sendable : Sent → Type 0
Sendable m = IdLine m.id × OptionalLine m.event × OneLine m.first × All OneLine m.others

rstrip_line : (s : String) → OneLine s → rstrip s ≡ s
unfolding rstrip has_char
rstrip_line Text.[] h = refl
rstrip_line (Text.◌∷◌ c s) h = ground (arith, rstrip_line s)

module _ (parse_int : String → Option ℤ) where
  data_line :
      (d : SseDecoder) (s : String) (rest : List String)
      → OneLine s
      → iter parse_int d (line_of "data" s ∷ rest)
        ≡ iter parse_int (record d { data_lines = d.data_lines ++ s ∷ [] }) rest
  unfolding iter decode set_field break_at rstrip
  data_line d s rest h = rw (rstrip_line s h) refl

  id_line :
      (d : SseDecoder) (s : String) (rest : List String)
      → OneLine s
      → has_char 0 s ≡ false
      → iter parse_int d (line_of "id" s ∷ rest)
        ≡ iter parse_int (record d { last_event_id = some s }) rest
  unfolding iter decode set_field break_at rstrip
  id_line d s rest h z = rw (rstrip_line s h) (rw z refl)

  event_line :
      (d : SseDecoder) (s : String) (rest : List String)
      → OneLine s
      → iter parse_int d (line_of "event" s ∷ rest)
        ≡ iter parse_int (record d { event = some s }) rest
  unfolding iter decode set_field break_at rstrip
  event_line d s rest h = rw (rstrip_line s h) refl

  data_lines_lem :
      (d : SseDecoder) (ss : List String) (rest : List String)
      → All OneLine ss
      → iter parse_int d (map (line_of "data") ss ++ rest)
        ≡ iter parse_int (record d { data_lines = d.data_lines ++ ss }) rest
  data_lines_lem d [] rest h = rw (append-nil d.data_lines) refl
  data_lines_lem d (s ∷ ss) rest (h, hs) =
      data_line d s (map (line_of "data") ss ++ rest) h
      ∙ data_lines_lem (record d { data_lines = d.data_lines ++ s ∷ [] }) ss rest hs
      ∙ ap (λ xs. iter parse_int (record d { data_lines = xs }) rest)
          (append_assoc d.data_lines (s ∷ []) ss)

  iter-IdLine :
      (d : SseDecoder) (o : Option String) (rest : List String)
      → IdLine o
      → iter parse_int d (optional_line "id" o ++ rest)
        ≡ iter parse_int (record d { last_event_id = carried d.last_event_id o }) rest
  iter-IdLine d none rest h = refl
  iter-IdLine d (some s) rest (h, z) = id_line d s rest h z

  iter-OptionalLine :
      (d : SseDecoder) (o : Option String) (rest : List String)
      → OptionalLine o
      → d.event ≡ none
      → iter parse_int d (optional_line "event" o ++ rest)
        ≡ iter parse_int (record d { event = o }) rest
  iter-OptionalLine d none rest h e = ap (λ x. iter parse_int (record d { event = x }) rest) e
  iter-OptionalLine d (some s) rest (h, z) e = event_line d s rest h

  -- A decoder between two events.
  abbrev between : Option String → SseDecoder
  between last = record { event = none; data_lines = []; last_event_id = last; retry = none }

  or_none_lem : (o : Option String) → OptionalLine o → or_none o ≡ o
  or_none_lem none h = refl
  or_none_lem (some s) (h, z) = rw z

  idle_data :
      (e : Option String) (s : String) (ss : List String) (i : Option String)
      → idle parse_int (record { event = e; data_lines = s ∷ ss; last_event_id = i; retry = none })
        ≡ false
  idle_data none s ss i = refl
  idle_data (some e) s ss i = ground arith

  encode-append :
      (m : Sent) (rest : List String)
      → encode m ++ rest
        ≡ optional_line "id" m.id
          ++ (optional_line "event" m.event
              ++ (map (line_of "data") (m.first ∷ m.others) ++ "" ∷ rest))
  encode-append m rest = simp (append_assoc)

  sent_lines :
      (last : Option String) (m : Sent) (rest : List String)
      → Sendable m
      → iter parse_int (between last) (encode m ++ rest)
        ≡ iter parse_int
            (record {
              event = m.event;
              data_lines = m.first ∷ m.others;
              last_event_id = carried last m.id;
              retry = none;
            })
            ("" ∷ rest)
  sent_lines last m rest (i, e, f, o) =
      let d₁ = record (between last) { last_event_id = carried last m.id } in
      let d₂ = record d₁ { event = m.event } in
      let datas = map (line_of "data") (m.first ∷ m.others) ++ "" ∷ rest in
      ap (iter parse_int (between last)) (encode-append m rest)
      ∙ iter-IdLine (between last) m.id (optional_line "event" m.event ++ datas) i
      ∙ iter-OptionalLine d₁ m.event datas e refl
      ∙ data_lines_lem d₂ (m.first ∷ m.others) ("" ∷ rest) (f, o)

  end_line :
      (e i : Option String) (s : String) (ss rest : List String)
      → OptionalLine e
      → iter parse_int
          (record { event = e; data_lines = s ∷ ss; last_event_id = i; retry = none })
          ("" ∷ rest)
        ≡ (
          record { event = e; data_text = join "\n" (s ∷ ss); id = i; retry = none }
              ∷ (iter parse_int (between i) rest).0,
          (iter parse_int (between i) rest).1,
        )
  unfolding iter decode rstrip
  end_line e i s ss rest h = rw (idle_data e s ss i) (rw (or_none_lem e h) refl)

  -- Where no value contains a newline, no event name is empty and no id contains a NUL, a decoder
  -- between two events yields the events that were sent, in order, each with the last id so far.
  pub iter-encode_all :
      (last : Option String) (ms : List Sent)
      → All Sendable ms
      → (iter parse_int (between last) (encode_all ms)).0 ≡ received last ms
  iter-encode_all last [] h = unfold iter in refl
  iter-encode_all last (m ∷ ms) (h, hs) =
      let (i, e, f, o) = h in
      ap (λ r. r.0) (sent_lines last m (encode_all ms) h)
      ∙ ap (λ r. r.0) (end_line m.event (carried last m.id) m.first m.others (encode_all ms) e)
      ∙ ap
          (◌∷◌ (record {
            event = m.event;
            data_text = join "\n" (m.first ∷ m.others);
            id = carried last m.id;
            retry = none;
          }))
          (iter-encode_all (carried last m.id) ms hs)
