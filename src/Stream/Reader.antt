-- ===== src/Stream/Reader.antt =====
-- What the reader yields of a stream, and where it ends.
use rtxag.Prelude.{
  String, ◌≡◌, refl, true, false, some, List, [], ◌∷◌, ◌++◌, keep, append, concat, nonempty,
}
use rtxag.Prelude.Text.{has_char, split_on, split_on-append, drop_prefix, has_text}
use rtxag.Error.{ok}
use rtxag.Json.{Json}
use rtxag.Stream.{Codec, Chunk, bytes, iter_events, parse_line, stream_lines, stream}

-- An event as a server sends it: `data: <text>` and an empty line.
abbrev pub frame : String → String
frame s = concat ("data: " ∷ s ∷ "\n\n" ∷ [])

-- A text of one line that does not announce the end.
abbrev pub Plain : String → Type 0
Plain s = (has_char b'\n' s ≡ false) × (has_text "[DONE]" s ≡ false)

frame_lines :
    (s : String)
    → has_char b'\n' s ≡ false
    → keep nonempty (split_on b'\n' (frame s)) ≡ append "data: " s ∷ []
unfolding split_on
frame_lines s h = rw (split_on-append b'\n' s "\n" "\n" h refl) refl

frame_ends : (s : String) → has_text "[DONE]" (append "data: " s) ≡ has_text "[DONE]" s
unfolding has_text drop_prefix
frame_ends s = refl

module _ (codec : Codec) where
  open codec use {Bytes, utf8, loads}

  frame_data : (s : String) → parse_line codec (append "data: " s) ≡ loads (append " " s)
  unfolding parse_line drop_prefix
  frame_data s = refl

  frame_event :
      (b : Bytes) (s : String) (cs : List (Chunk Bytes))
      → utf8 b ≡ ok (frame s)
      → has_char b'\n' s ≡ false
      → iter_events codec (bytes b ∷ cs) ≡ record {
        yielded = append "data: " s ∷ (iter_events codec cs).yielded;
        ended = (iter_events codec cs).ended;
      }
  unfolding iter_events
  frame_event b s cs u h = rw u (rw (frame_lines s h) refl)

  -- A frame that arrives is one value; the rest of the stream follows.
  pub stream-frame :
      (b : Bytes) (s : String) (v : Json) (cs : List (Chunk Bytes))
      → utf8 b ≡ ok (frame s)
      → Plain s
      → loads (append " " s) ≡ some v
      → stream codec (bytes b ∷ cs)
        ≡ record { yielded = v ∷ (stream codec cs).yielded; ended = (stream codec cs).ended }
  unfolding stream stream_lines
  stream-frame b s v cs u (h, d) l =
      rw (frame_event b s cs u h) (rw (frame_ends s) (rw d (rw (frame_data s) (rw l refl))))

  -- The frame that announces the end.
  pub stream-done :
      (b : Bytes) (cs : List (Chunk Bytes))
      → utf8 b ≡ ok (frame "[DONE]")
      → stream codec (bytes b ∷ cs) ≡ record { yielded = []; ended = (iter_events codec cs).ended }
  unfolding stream stream_lines has_text drop_prefix has_char
  stream-done b cs u = rw (frame_event b "[DONE]" cs u refl) refl

  -- Whatever follows a line with the end mark in it is not yielded, also where the line is the JSON of
  -- an event whose text happens to contain these characters: it is not yielded either.
  pub stream_lines-until_done :
      (before : List String) (line : String) (later : List String)
      → has_text "[DONE]" line ≡ true
      → stream_lines codec (before ++ line ∷ later) ≡ stream_lines codec before
  unfolding stream_lines
  stream_lines-until_done [] line later h = rw h
  stream_lines-until_done (x ∷ before) line later h =
      rw (stream_lines-until_done before line later h)
